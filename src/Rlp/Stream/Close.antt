-- ===== src/Rlp/Stream/Close.antt =====
-- The heads that `RLPStream` writes before a payload, against the specification of Rlp/Item.antt.
use mvis_tokenminer.Prelude.{ℕ, suc, ◌+◌, ◌-◌, ◌%◌, ◌^◌, ◌≤◌, ◌<◌, ◌≡◌, refl, ap, ◌∙◌, ltb}
use mvis_tokenminer.Prelude.{List, [], ◌∷◌, ◌++◌, append_assoc, arith, ok, inl, inr, Bool-cases}
use mvis_tokenminer.Prelude.{length, set, take, replicate, length-append, length-replicate}
use mvis_tokenminer.Prelude.{ltb→lt, le→leb, le→ltb, length-take_le, take-append, drop-append}
use mvis_tokenminer.BigEndian.{bytes_required}
use mvis_tokenminer.BigEndian.Size.{bytes_required-le}
use mvis_tokenminer.BigEndian.RoundTrip.{be}
use mvis_tokenminer.Rlp.Constants.{list_ind_len_zero, data_ind_len_zero}
use mvis_tokenminer.Rlp.Item.{header}
use mvis_tokenminer.Rlp.Stream.{write_int, push_count, open_gap, close_list, data_head}
use mvis_tokenminer.Rlp.Stream.Bytes.{set-append, write_int-be, push_int-be}

-- No payload in memory is longer than this.
abbrev pub address_space : ℕ
address_space = 2 ^ 64

few_bytes : (n : ℕ) → n < address_space → bytes_required n ≤ 8
few_bytes n h = bytes_required-le n 8 h

length-gap : (n : ℕ) (d : List ℕ) → length (take n (d ++ replicate n 0)) ≡ n
length-gap n d = length-take_le n (d ++ replicate n 0) enough
  where
    enough : n ≤ length (d ++ replicate n 0)
    enough = rw (length-append d, length-replicate) (omega arith)

open_gap-append :
    (n : ℕ) (pre payload : List ℕ)
    → (junk : List ℕ) × (open_gap (length pre) n (pre ++ payload) ≡ pre ++ (junk ++ payload))
      × (length junk ≡ n)
unfolding open_gap
open_gap-append n pre payload =
    (take n (payload ++ replicate n 0), rw (take-append, drop-append), length-gap n payload)

set_head :
    (pre junk payload : List ℕ) (v k : ℕ)
    → length junk ≡ suc k
    → (junk' : List ℕ) × (set (pre ++ (junk ++ payload)) (length pre) v
        ≡ pre ++ (v ∷ (junk' ++ payload)))
      × (length junk' ≡ k)
set_head pre [] payload v k h = absurd (omega arith)
set_head pre (x ∷ junk) payload v k h = (junk, set-append pre x v (junk ++ payload), omega arith)

length_payload : (pre payload : List ℕ) → length (pre ++ payload) - length pre ≡ length payload
length_payload pre payload = omega (arith, length-append pre payload)

-- The gap is one place wide, and gets the head.
close_short :
    (pre payload : List ℕ) (v : ℕ)
    → set (open_gap (length pre) 1 (pre ++ payload)) (length pre) v ≡ pre ++ (v ∷ payload)
close_short pre payload v =
    let (junk, gap, l) = open_gap-append 1 pre payload in
    let (junk', wrote, l') = set_head pre junk payload v 0 l in
    rw gap (wrote ∙ rw (length-zero junk' l'))
  where
    length-zero : (xs : List ℕ) → length xs ≡ 0 → xs ≡ []
    length-zero [] h = refl
    length-zero (x ∷ xs) h = absurd (omega arith)

-- The gap gets the head, and behind it the bytes of the length.
close_long :
    (pre payload : List ℕ) (v n : ℕ)
    → write_int n
        (length pre + bytes_required n + 1)
        (set (open_gap (length pre) (1 + bytes_required n) (pre ++ payload)) (length pre) v)
      ≡ pre ++ (v ∷ (be (bytes_required n) n ++ payload))
close_long pre payload v n =
    let (junk, gap, l) = open_gap-append (1 + bytes_required n) pre payload in
    let (junk', wrote, l') = set_head pre junk payload v (bytes_required n) (l ∙ omega arith) in
    rw (gap, wrote, place, ← append_assoc pre (v ∷ []) (junk' ++ payload))
      (write_int-be n (pre ++ (v ∷ [])) junk' payload l' ∙ append_assoc pre (v ∷ []) _)
  where
    place : length pre + bytes_required n + 1 ≡ length (pre ++ (v ∷ [])) + bytes_required n
    place = omega (arith, length-append pre (v ∷ []))

-- Completing a list puts the head of its payload in, at the place where the payload begins.
pub close_list-header :
    (pre payload : List ℕ)
    → length payload < address_space
    → close_list (length pre) (pre ++ payload)
      ≡ ok (pre ++ (header 0xc0 (length payload) ++ payload))
unfolding close_list
close_list-header pre payload h = elim (Bool-cases (ltb (length payload) 56)) [
  | inl short ↦
      rw (length_payload pre payload, short)
        (ap ok (
          close_short pre payload ((0xc0 + length payload) % 256)
          ∙ ap (λ v. pre ++ (v ∷ payload)) (omega (arith, ltb→lt _ _ short))))
  | inr long ↦
      rw (length_payload pre payload, long, le→leb _ 0xff room)
        (ap ok (
          close_long pre payload _ (length payload)
          ∙ ap
              (λ v. pre ++ (v ∷ (be (bytes_required (length payload)) (length payload) ++ payload)))
              (omega (arith, room))))
]
  where
    room : list_ind_len_zero + bytes_required (length payload) ≤ 0xff
    room = omega (arith, few_bytes (length payload) h)

-- `pushCount` appends the head of a long payload.
push_count-header :
    (n base : ℕ) (out : List ℕ)
    → n < address_space
    → base ≤ 247
    → push_count n base out ≡ ok (out ++ ((base + bytes_required n) ∷ be (bytes_required n) n))
unfolding push_count
push_count-header n base out h small =
    rw (le→ltb 0xff (bytes_required n + base) room, push_int-be, append_assoc)
      (ap (λ v. ok (out ++ (v ∷ be (bytes_required n) n))) (omega (arith, room)))
  where
    room : bytes_required n + base ≤ 0xff
    room = omega (arith, few_bytes n h)

-- The head of a string.
pub data_head-header :
    (d out : List ℕ)
    → length d < address_space
    → data_head d out ≡ ok (out ++ header 0x80 (length d))
unfolding data_head
data_head-header d out h = elim (Bool-cases (ltb (length d) 56)) [
  | inl short ↦ rw short (ap (λ v. ok (out ++ (v ∷ []))) (omega (arith, ltb→lt _ _ short)))
  | inr long ↦ rw long (push_count-header (length d) data_ind_len_zero out h (omega arith))
]
