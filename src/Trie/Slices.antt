-- ===== src/Trie/Slices.antt =====
-- The forms of `hexPrefixEncode` that take slices (libdevcore/TrieCommon.h, TrieCommon.cpp), and what two
-- slices share.
pub mod Joining
pub mod Shared
use mvis_tokenminer.Prelude.{ℕ, zero, suc, ◌+◌, ◌-◌, ◌*◌, ◌%◌, List, [], ◌∷◌, ◌++◌}
use mvis_tokenminer.Prelude.{Bool, true, false, not, ◌&&◌, ltb, ◌==◌, if◌then◌else◌, length}
use mvis_tokenminer.Trie.{NibbleSlice, nibble, slice_size, prefix_flags}

-- `ret.back() |= n`, where the low half of the last byte is empty.
unfoldable pub or_back : ℕ → List ℕ → List ℕ
or_back n [] = []
or_back n (b ∷ []) = (b + n) ∷ []
or_back n (b ∷ c ∷ rest) = b ∷ or_back n (c ∷ rest)

-- A round of the loop, with whether `d` is odd.
unfoldable pub put_nibble : Bool → ℕ → List ℕ → List ℕ
put_nibble true n ret = or_back n ret
put_nibble false n ret = ret ++ n * 16 % 256 ∷ []

-- The loop over the nibbles from `i` on, so many.
unfoldable pub nibble_loop : List ℕ → ℕ → ℕ → Bool × List ℕ → Bool × List ℕ
nibble_loop bytes zero i (odd, ret) = (odd, ret)
nibble_loop bytes (suc n) i (odd, ret) =
    nibble_loop bytes n (i + 1) (not odd, put_nibble odd (nibble bytes i) ret)

-- `hexPrefixEncode(_data, _leaf, _beginNibble, _endNibble, _offset)`, for an end that is not negative.
pub encode_slice : List ℕ → Bool → ℕ → ℕ → ℕ → List ℕ
encode_slice bytes leaf begin end_at offset =
    let odd = (end_at - begin) % 2 == 1 in
    (nibble_loop bytes (end_at - begin) (begin + offset) (odd, prefix_flags leaf odd ∷ [])).1

-- `hexPrefixEncode(_d1, _o1, _d2, _o2, _leaf)`
unfoldable pub encode_slices : NibbleSlice → NibbleSlice → Bool → List ℕ
encode_slices s t leaf =
    let odd = (slice_size s + slice_size t) % 2 == 1 in
    (nibble_loop t.data_of (slice_size t) t.offset
      (nibble_loop s.data_of (slice_size s) s.offset (odd, prefix_flags leaf odd ∷ []))).1

-- `sharedNibbles`, by how many nibbles of each are left.
unfoldable pub shared_nibbles : List ℕ → ℕ → ℕ → List ℕ → ℕ → ℕ → ℕ
shared_nibbles first i zero second j m = 0
shared_nibbles first i (suc n) second j zero = 0
shared_nibbles first i (suc n) second j (suc m) =
    let rest = shared_nibbles first (i + 1) n second (j + 1) m in
    if nibble first i == nibble second j then suc rest else 0

-- `NibbleSlice`: `shared`, `contains`, `==` and `mid`.
unfoldable pub shared : NibbleSlice → NibbleSlice → ℕ
shared s k = shared_nibbles s.data_of s.offset (slice_size s) k.data_of k.offset (slice_size k)

unfoldable pub begins_with : NibbleSlice → NibbleSlice → Bool
begins_with s k = shared s k == slice_size k

unfoldable pub slice_eq : NibbleSlice → NibbleSlice → Bool
slice_eq s k = slice_size k == slice_size s && shared s k == slice_size k

unfoldable pub mid : ℕ → NibbleSlice → NibbleSlice
mid n s = record s { offset = s.offset + n }
