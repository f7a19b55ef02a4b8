-- ===== src/Trie/HexPrefixed.antt =====
-- A key is read back from its form with a prefix (libdevcore/TrieCommon.h, TrieCommon.cpp).
use mvis_tokenminer.Prelude.{
  ℕ, zero, suc, ◌+◌, ◌-◌, ◌*◌, ◌/◌, ◌%◌, ◌<◌, ◌≤◌, ◌≡◌, refl, sym, ◌∙◌, ap, arith, List, [], ◌∷◌,
}
use mvis_tokenminer.Prelude.{
  ◌==◌, Bool, true, false, length, All, take, drop, length-take_le, length-drop,
}
use mvis_tokenminer.Hex.{as_nibbles}
use mvis_tokenminer.Trie.{
  NibbleSlice, nibble, at_index, nibble_at, slice_size, byte_pairs, prefix_flags, encode_part,
  hex_prefix_encode, key_of, is_leaf,
}

abbrev pub IsNibble : ℕ → Type 0
IsNibble n = n < 16

-- The nibbles of a slice.
abbrev pub nibbles_of : NibbleSlice → List ℕ
nibbles_of s = drop s.offset (as_nibbles s.data_of)

as_nibbles-byte_pairs :
    (v : List ℕ) → All IsNibble v → length v % 2 ≡ 0 → as_nibbles (byte_pairs v) ≡ v
unfolding byte_pairs as_nibbles
as_nibbles-byte_pairs [] h e = refl
as_nibbles-byte_pairs (n ∷ []) h e = absurd (omega arith)
as_nibbles-byte_pairs (n ∷ m ∷ rest) (hn, (hm, h)) e =
    let again = as_nibbles-byte_pairs rest h (omega arith) in ground (arith, again)

-- The nibbles, with a first byte that is not part of them where their number is even.
part_read :
    (leaf odd : Bool) (v : List ℕ)
    → All IsNibble v
    → (length v % 2 == 1) ≡ odd
    → (nibbles_of (key_of (encode_part leaf odd v)) ≡ v) × (is_leaf (encode_part leaf odd v) ≡ leaf)
unfolding encode_part key_of is_leaf prefix_flags as_nibbles
part_read leaf true [] h e = absurd (ground arith)
part_read false true (n ∷ rest) (hn, h) e =
    let again = as_nibbles-byte_pairs rest h (ground arith) in ground (arith, again)
part_read true true (n ∷ rest) (hn, h) e =
    let again = as_nibbles-byte_pairs rest h (ground arith) in ground (arith, again)
part_read false false v h e = (as_nibbles-byte_pairs v h (ground arith), refl)
part_read true false v h e = (as_nibbles-byte_pairs v h (ground arith), refl)

pub All-take : (n : ℕ) (v : List ℕ) → All IsNibble v → All IsNibble (take n v)
All-take zero v h = tt
All-take (suc n) [] h = tt
All-take (suc n) (x ∷ v) (hx, h) = (hx, All-take n v h)

pub All-drop : (n : ℕ) (v : List ℕ) → All IsNibble v → All IsNibble (drop n v)
All-drop zero v h = h
All-drop (suc n) [] h = tt
All-drop (suc n) (x ∷ v) (hx, h) = All-drop n v h

pub nibble-as_nibbles : (bytes : List ℕ) (i : ℕ) → nibble bytes i ≡ at_index (as_nibbles bytes) i
unfolding nibble as_nibbles at_index
nibble-as_nibbles [] i = ground arith
nibble-as_nibbles (b ∷ bytes) zero = refl
nibble-as_nibbles (b ∷ bytes) (suc zero) = refl
nibble-as_nibbles (b ∷ bytes) (suc (suc i)) = rw (half, parity) (nibble-as_nibbles bytes i)
  where
    half : suc (suc i) / 2 ≡ suc (i / 2)
    half = omega arith

    parity : suc (suc i) % 2 ≡ i % 2
    parity = omega arith

at_index-drop : (n i : ℕ) (v : List ℕ) → at_index (drop n v) i ≡ at_index v (n + i)
unfolding at_index
at_index-drop zero i v = ap (at_index v) (omega arith)
at_index-drop (suc n) i [] = refl
at_index-drop (suc n) i (x ∷ v) = rw further (at_index-drop n i v)
  where
    further : suc n + i ≡ suc (n + i)
    further = omega arith

nibble_at-nibbles_of : (s : NibbleSlice) (i : ℕ) → nibble_at s i ≡ at_index (nibbles_of s) i
unfolding nibble_at
nibble_at-nibbles_of s i =
    nibble-as_nibbles s.data_of (s.offset + i)
    ∙ sym (at_index-drop s.offset i (as_nibbles s.data_of))

pub length-as_nibbles : (bytes : List ℕ) → length (as_nibbles bytes) ≡ length bytes * 2
unfolding as_nibbles
length-as_nibbles [] = omega arith
length-as_nibbles (b ∷ bytes) = omega (arith, length-as_nibbles bytes)

pub slice_size-nibbles_of : (s : NibbleSlice) → slice_size s ≡ length (nibbles_of s)
unfolding slice_size
slice_size-nibbles_of s =
    omega (arith, length-as_nibbles s.data_of, length-drop s.offset (as_nibbles s.data_of))

-- The part of the nibbles from `begin` to `end_at`, where that lies in them, is read back from its form
-- with a prefix: the slice has its size and its nibbles, and the node is the leaf that it was.
pub key_of-hex_prefix_encode :
    (v : List ℕ) (leaf : Bool) (begin end_at : ℕ)
    → All IsNibble v
    → begin ≤ end_at
    → end_at ≤ length v
    → (slice_size (key_of (hex_prefix_encode v leaf begin end_at)) ≡ end_at - begin)
      × ((i : ℕ)
          → nibble_at (key_of (hex_prefix_encode v leaf begin end_at)) i
            ≡ at_index (take (end_at - begin) (drop begin v)) i)
      × (is_leaf (hex_prefix_encode v leaf begin end_at) ≡ leaf)
unfolding hex_prefix_encode
key_of-hex_prefix_encode v leaf begin end_at h order inside =
    let part = take (end_at - begin) (drop begin v) in
    let size =
      length-take_le (end_at - begin) (drop begin v) (omega (arith, length-drop begin v)) in
    let (read, is) =
      part_read leaf ((end_at - begin) % 2 == 1) part
        (All-take (end_at - begin) (drop begin v) (All-drop begin v h))
        (ap (λ k. k % 2 == 1) size) in
    let key = key_of (encode_part leaf ((end_at - begin) % 2 == 1) part) in
    (
      slice_size-nibbles_of key ∙ ap length read ∙ size,
      λ i. nibble_at-nibbles_of key i ∙ ap (λ l. at_index l i) read,
      is,
    )
