-- ===== src/Trie.antt =====
-- The keys of a trie's nodes (libdevcore/TrieCommon.h, TrieCommon.cpp): nibbles, and their form with a
-- prefix that says whether their number is odd and whether the node is a leaf.
pub mod HexPrefixed
pub mod Slices
use mvis_tokenminer.Prelude.{
  ℕ, zero, suc, ◌+◌, ◌-◌, ◌*◌, ◌/◌, ◌%◌, List, [], ◌∷◌, ◌==◌, Bool, true, false,
}
use mvis_tokenminer.Prelude.{if◌then◌else◌, length, get_elem?, Option, none, some, drop, take}

-- `nibble`; what lies outside the data reads as 0.
unfoldable pub at_index : List ℕ → ℕ → ℕ
at_index [] i = 0
at_index (b ∷ bytes) zero = b
at_index (b ∷ bytes) (suc i) = at_index bytes i

unfoldable pub nibble : List ℕ → ℕ → ℕ
nibble bytes i = if i % 2 == 1 then at_index bytes (i / 2) % 16 else at_index bytes (i / 2) / 16

-- `NibbleSlice`: its members `operator[]` and `size`.
pub record NibbleSlice : Type 0 where
  pub data_of : List ℕ
  pub offset : ℕ

pub nibble_at : NibbleSlice → ℕ → ℕ
nibble_at s i = nibble s.data_of (s.offset + i)

unfoldable pub slice_size : NibbleSlice → ℕ
slice_size s = length s.data_of * 2 - s.offset

-- `hexPrefixEncode` of a vector of nibbles, from `begin` to `end`. The low half of the first byte is
-- empty where a nibble is put in.
unfoldable pub byte_pairs : List ℕ → List ℕ
byte_pairs [] = []
byte_pairs (n ∷ []) = []
byte_pairs (n ∷ m ∷ rest) = (n * 16 + m) % 256 ∷ byte_pairs rest

unfoldable pub prefix_flags : Bool → Bool → ℕ
prefix_flags leaf odd = ((if leaf then 2 else 0) + (if odd then 1 else 0)) * 16

unfoldable pub encode_part : Bool → Bool → List ℕ → List ℕ
encode_part leaf true [] = prefix_flags leaf true ∷ []
encode_part leaf true (n ∷ rest) = (prefix_flags leaf true + n) ∷ byte_pairs rest
encode_part leaf false part = prefix_flags leaf false ∷ byte_pairs part

unfoldable pub hex_prefix_encode : List ℕ → Bool → ℕ → ℕ → List ℕ
hex_prefix_encode nibbles leaf begin end_at =
    encode_part leaf ((end_at - begin) % 2 == 1) (take (end_at - begin) (drop begin nibbles))

-- `keyOf` and the test of `isLeaf`, on such a form.
pub key_of : List ℕ → NibbleSlice
key_of [] = record { data_of = []; offset = 0 }
key_of (b ∷ rest) = record { data_of = b ∷ rest; offset = if b / 16 % 2 == 1 then 1 else 2 }

pub is_leaf : List ℕ → Bool
is_leaf [] = false
is_leaf (b ∷ rest) = b / 32 % 2 == 1
