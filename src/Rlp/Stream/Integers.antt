-- ===== src/Rlp/Stream/Integers.antt =====
-- `RLPStream::append(bigint)` (libdevcore/RLP.cpp) against the appending of strings.
use mvis_tokenminer.Prelude.{ℕ, suc, ◌/◌, ◌^◌, ◌≤◌, ◌<◌, ◌≡◌, refl, ap, ◌∙◌, arith}
use mvis_tokenminer.Prelude.{List, [], ◌∷◌, append-nil, append_assoc, false}
use mvis_tokenminer.Prelude.{ltb, ltb→lt, inl, inr, Bool-cases, length, ◌==◌, lt→ltb}
use mvis_tokenminer.BigEndian.{bytes_required}
use mvis_tokenminer.BigEndian.Size.{bytes_required-zero, bytes_required-pos, bytes_required-le}
use mvis_tokenminer.BigEndian.RoundTrip.{be, length-be}
use mvis_tokenminer.Rlp.Stream.{
  append_int, append_bytes, append_raw, int_head, data_head, note_appended,
}
use mvis_tokenminer.Rlp.Stream.{is_low_byte, RlpStream}
use mvis_tokenminer.Rlp.Stream.Bytes.{push_int-be}

-- The bytes of a number, with none in front that is zero.
abbrev pub compact : ℕ → List ℕ
compact i = be (bytes_required i) i

compact_zero : compact 0 ≡ []
compact_zero = rw (bytes_required-zero) refl

compact_low : (i : ℕ) → 0 < i → i < 256 → compact i ≡ i ∷ []
compact_low i h l = rw (one) (ap (λ b. b ∷ []) (omega arith))
  where
    one : bytes_required i ≡ 1
    one = bytes_required-pos i h ∙ ap suc (ap bytes_required (omega arith) ∙ bytes_required-zero)

high_bytes : (xs : List ℕ) → 2 ≤ length xs → is_low_byte xs ≡ false
high_bytes [] h = refl
high_bytes (x ∷ []) h = absurd (omega arith)
high_bytes (x ∷ y ∷ xs) h = refl

two_bytes : (i : ℕ) → 256 ≤ i → 2 ≤ length (compact i)
two_bytes i h = omega (
  arith,
  length-be (bytes_required i) i,
  bytes_required-pos i (omega arith),
  bytes_required-pos (i / 256) (omega arith),
)

-- From 0x80 on, the bytes do not stand for themselves.
compact_high : (i : ℕ) → 0x80 ≤ i → is_low_byte (compact i) ≡ false
compact_high i h = elim (Bool-cases (ltb i 256)) [
  | inl one ↦ rw (compact_low i (omega arith) (ltb→lt i 256 one)) (ground (arith, h))
  | inr more ↦ high_bytes (compact i) (two_bytes i (ground (arith, more)))
]

module _ (i : ℕ) (s : RlpStream) where
  append_int_zero : i ≡ 0 → append_int i s ≡ append_bytes (compact i) false s
  unfolding append_int append_bytes append_raw data_head note_appended
  append_int_zero h = rw (h, compact_zero) (rw append-nil)

  append_int_low : 0 < i → i < 0x80 → append_int i s ≡ append_bytes (compact i) false s
  unfolding append_int append_bytes
  append_int_low h l = rw (compact_low i h (omega arith), lt→ltb i 0x80 l) (ground arith)

  append_int_high :
      0x80 ≤ i → bytes_required i < 56 → append_int i s ≡ append_bytes (compact i) false s
  unfolding append_int append_bytes append_raw data_head note_appended int_head
  append_int_high h l =
      rw (compact_high i h, length-be, lt→ltb _ 56 l, push_int-be, append_assoc) (ground (arith, h))

-- A number is appended as the string of its bytes, with none in front that is zero.
pub append_int-append_bytes :
    (i : ℕ) (s : RlpStream) → i < 2 ^ 256 → append_int i s ≡ append_bytes (compact i) false s
append_int-append_bytes i s h = elim (Bool-cases (ltb i 0x80)) [
  | inl low ↦ elim (Bool-cases (i == 0)) [
    | inl zero_i ↦ append_int_zero i s (ground (arith, zero_i))
    | inr some_i ↦ append_int_low i s (ground (arith, some_i)) (ltb→lt i 0x80 low)
  ]
  | inr high ↦ append_int_high i s (ground (arith, high)) (omega (arith, bytes_required-le i 32 h))
]
