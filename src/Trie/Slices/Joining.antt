-- ===== src/Trie/Slices/Joining.antt =====
-- The form made of two slices is that of their nibbles one after the other (libdevcore/TrieCommon.cpp).
use mvis_tokenminer.Prelude.{
  ℕ, zero, suc, ◌+◌, ◌-◌, ◌*◌, ◌%◌, ◌<◌, ◌≤◌, ◌≡◌, refl, sym, ◌∙◌, ap, arith, List, [], ◌∷◌, ◌++◌,
  append_assoc, append-nil, length-append,
}
use mvis_tokenminer.Prelude.{
  ◌==◌, Bool, true, false, not, length, All, take, drop, length-drop, length-take_le,
}
use mvis_tokenminer.Hex.{IsByte, as_nibbles}
use mvis_tokenminer.Trie.{
  NibbleSlice, at_index, slice_size, byte_pairs, prefix_flags, encode_part, hex_prefix_encode,
}
use mvis_tokenminer.Trie.HexPrefixed.{
  IsNibble, nibbles_of, nibble-as_nibbles, slice_size-nibbles_of, length-as_nibbles, All-drop,
  All-take,
}
use mvis_tokenminer.Trie.Slices.{or_back, put_nibble, nibble_loop, encode_slice, encode_slices}

-- The loop over a list of nibbles.
abbrev feed : List ℕ → Bool × List ℕ → Bool × List ℕ
feed [] (odd, ret) = (odd, ret)
feed (n ∷ v) (odd, ret) = feed v (not odd, put_nibble odd n ret)

feed-append : (v w : List ℕ) (p : Bool × List ℕ) → feed (v ++ w) p ≡ feed w (feed v p)
feed-append [] w p = refl
feed-append (n ∷ v) w p = feed-append v w (not p.0, put_nibble p.0 n p.1)

or_back-last : (n b : ℕ) (ret : List ℕ) → or_back n (ret ++ b ∷ []) ≡ ret ++ (b + n) ∷ []
unfolding or_back
or_back-last n b [] = refl
or_back-last n b (c ∷ []) = refl
or_back-last n b (c ∷ d ∷ ret) = ap (λ l. c ∷ l) (or_back-last n b (d ∷ ret))

feed-byte_pairs :
    (v ret : List ℕ)
    → All IsNibble v
    → length v % 2 ≡ 0
    → feed v (false, ret) ≡ (false, ret ++ byte_pairs v)
unfolding byte_pairs put_nibble
feed-byte_pairs [] ret h e = ap (λ l. (false, l)) (sym (append-nil ret))
feed-byte_pairs (n ∷ []) ret h e = absurd (omega arith)
feed-byte_pairs (n ∷ m ∷ v) ret (hn, (hm, h)) e =
    let whole : n * 16 % 256 + m ≡ (n * 16 + m) % 256 = omega arith in
    rw (or_back-last m (n * 16 % 256) ret, whole)
      (feed-byte_pairs v (ret ++ (n * 16 + m) % 256 ∷ []) h (omega arith) ∙ simp append_assoc)

feed-encode_part :
    (leaf odd : Bool) (v : List ℕ)
    → All IsNibble v
    → (length v % 2 == 1) ≡ odd
    → (feed v (odd, prefix_flags leaf odd ∷ [])).1 ≡ encode_part leaf odd v
unfolding encode_part put_nibble or_back
feed-encode_part leaf true [] h e = absurd (ground arith)
feed-encode_part leaf true (n ∷ v) (hn, h) e =
    ap (λ (p : Bool × List ℕ). p.1) (feed-byte_pairs v _ h (ground arith))
feed-encode_part leaf false v h e =
    ap (λ (p : Bool × List ℕ). p.1) (feed-byte_pairs v _ h (ground arith))

pub next_nibble :
    (n i : ℕ) (l : List ℕ)
    → i < length l
    → take (suc n) (drop i l) ≡ at_index l i ∷ take n (drop (suc i) l)
unfolding at_index
next_nibble n i [] h = absurd (omega arith)
next_nibble n zero (x ∷ l) h = refl
next_nibble n (suc i) (x ∷ l) h = next_nibble n i l (omega arith)

-- The loop over the bytes feeds their nibbles.
nibble_loop-feed :
    (bytes : List ℕ) (n i : ℕ) (p : Bool × List ℕ)
    → i + n ≤ length (as_nibbles bytes)
    → nibble_loop bytes n i p ≡ feed (take n (drop i (as_nibbles bytes))) p
unfolding nibble_loop
nibble_loop-feed bytes zero i p h = refl
nibble_loop-feed bytes (suc n) i p h =
    let further : i + 1 ≡ suc i = omega arith in
    rw (next_nibble n i (as_nibbles bytes) (omega arith), nibble-as_nibbles bytes i, further)
      (nibble_loop-feed bytes n (suc i)
        (not p.0, put_nibble p.0 (at_index (as_nibbles bytes) i) p.1) (omega arith))

pub take_all : (n : ℕ) (v : List ℕ) → length v ≤ n → take n v ≡ v
take_all zero [] h = refl
take_all zero (x ∷ v) h = absurd (omega arith)
take_all (suc n) [] h = refl
take_all (suc n) (x ∷ v) h = ap (λ l. x ∷ l) (take_all n v (omega arith))

-- A slice begins inside its bytes.
abbrev pub IsSlice : NibbleSlice → Type 0
IsSlice s = (s.offset ≤ length s.data_of * 2) × All IsByte s.data_of

loop-slice :
    (s : NibbleSlice) (p : Bool × List ℕ)
    → IsSlice s
    → nibble_loop s.data_of (slice_size s) s.offset p ≡ feed (nibbles_of s) p
unfolding slice_size
loop-slice s p (inside, bytes) =
    let total = length-as_nibbles s.data_of in
    let rest = length-drop s.offset (as_nibbles s.data_of) in
    nibble_loop-feed s.data_of (slice_size s) s.offset p (omega arith)
    ∙ ap (λ v. feed v p) (take_all (slice_size s) (nibbles_of s) (omega arith))

as_nibbles-IsNibble : (bytes : List ℕ) → All IsByte bytes → All IsNibble (as_nibbles bytes)
unfolding as_nibbles
as_nibbles-IsNibble [] h = tt
as_nibbles-IsNibble (b ∷ bytes) (hb, h) = (omega arith, (omega arith, as_nibbles-IsNibble bytes h))

nibbles_of-IsNibble : (s : NibbleSlice) → IsSlice s → All IsNibble (nibbles_of s)
nibbles_of-IsNibble s (inside, bytes) =
    All-drop s.offset (as_nibbles s.data_of) (as_nibbles-IsNibble s.data_of bytes)

All-append : (v w : List ℕ) → All IsNibble v → All IsNibble w → All IsNibble (v ++ w)
All-append [] w h k = k
All-append (n ∷ v) w (hn, h) k = (hn, All-append v w h k)

-- The form made of two slices that begin inside their bytes is the form of the list of their nibbles, those of
-- the first before those of the second.
pub encode_slices-hex_prefix_encode :
    (s t : NibbleSlice) (leaf : Bool)
    → IsSlice s
    → IsSlice t
    → encode_slices s t leaf
      ≡ hex_prefix_encode (nibbles_of s ++ nibbles_of t) leaf 0 (slice_size s + slice_size t)
unfolding encode_slices hex_prefix_encode
encode_slices-hex_prefix_encode s t leaf hs ht =
    let v = nibbles_of s ++ nibbles_of t in
    let total = slice_size s + slice_size t in
    let odd = total % 2 == 1 in
    let begun : Bool × List ℕ = (odd, prefix_flags leaf odd ∷ []) in
    let parts = length-append (nibbles_of s) (nibbles_of t) in
    let first = slice_size-nibbles_of s in
    let second = slice_size-nibbles_of t in
    let size : length v ≡ total = omega arith in
    let from_start : total - 0 ≡ total = omega arith in
    rw (from_start, take_all total v (omega arith))
      (ap (λ (p : Bool × List ℕ). p.1)
          (loop-slice t _ ht
            ∙ ap (feed (nibbles_of t)) (loop-slice s begun hs)
            ∙ sym (feed-append (nibbles_of s) (nibbles_of t) begun))
        ∙ feed-encode_part leaf odd v
            (All-append (nibbles_of s) (nibbles_of t) (nibbles_of-IsNibble s hs)
              (nibbles_of-IsNibble t ht))
            (ap (λ k. k % 2 == 1) size))

-- The form of a part of the nibbles behind an offset is that of the part of them all.
pub encode_slice-hex_prefix_encode :
    (bytes : List ℕ) (leaf : Bool) (begin end_at offset : ℕ)
    → All IsByte bytes
    → begin ≤ end_at
    → end_at + offset ≤ length bytes * 2
    → encode_slice bytes leaf begin end_at offset
      ≡ hex_prefix_encode (as_nibbles bytes) leaf (begin + offset) (end_at + offset)
unfolding encode_slice hex_prefix_encode
encode_slice-hex_prefix_encode bytes leaf begin end_at offset h order inside =
    let total = length-as_nibbles bytes in
    let n = end_at - begin in
    let behind = drop (begin + offset) (as_nibbles bytes) in
    let left = length-drop (begin + offset) (as_nibbles bytes) in
    let same : end_at + offset - (begin + offset) ≡ n = omega arith in
    let part =
      All-take n behind
        (All-drop (begin + offset) (as_nibbles bytes) (as_nibbles-IsNibble bytes h)) in
    rw same (
      ap (λ (p : Bool × List ℕ). p.1) (nibble_loop-feed bytes n (begin + offset) _ (omega arith))
      ∙ feed-encode_part leaf (n % 2 == 1) (take n behind) part
          (ap (λ k. k % 2 == 1) (length-take_le n behind (omega arith))))
