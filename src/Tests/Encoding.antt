-- ===== src/Tests/Encoding.antt =====
-- Runs of the hex and big-endian functions of libdevcore/CommonData.h.
use mvis_tokenminer.Prelude.{ℕ, ◌+◌, List, ◌++◌, true, false}
use mvis_tokenminer.Trie.Slices.{
  or_back, put_nibble, nibble_loop, encode_slices, shared_nibbles, shared, begins_with, slice_eq,
  mid,
}
use mvis_tokenminer.Trie.Slices.Joining.{IsSlice, encode_slices-hex_prefix_encode}
use mvis_tokenminer.Trie.{
  NibbleSlice, nibble, nibble_at, at_index, slice_size, hex_prefix_encode, encode_part,
  prefix_flags, byte_pairs, key_of, is_leaf,
}
use mvis_tokenminer.Trie.HexPrefixed.{nibbles_of, key_of-hex_prefix_encode}
use mvis_tokenminer.Prelude.{◌≡◌, refl, arith, [], ◌∷◌, ok, err}
use mvis_tokenminer.Hex.{throw, add, bad_hex_character, to_hex, from_hex}
use mvis_tokenminer.Hex.{from_hex_loop, from_hex_odd, from_hex_digit, join_digits, bad_character}
use mvis_tokenminer.Hex.{prefix_length, hex_digit, hex_number, pad_left, to_hex_loop}
use mvis_tokenminer.Hex.RoundTrip.{from_hex-to_hex}
use mvis_tokenminer.BigEndian.{uint, from_big_endian}
use mvis_tokenminer.BigEndian.{bytes_required, bytes_required_acc, to_compact_big_endian}
use mvis_tokenminer.BigEndian.RoundTrip.{from_big_endian-to_compact_big_endian}
use mvis_tokenminer.Prelude.{lt_wf}
use native.Mathlib.Decide.{dec_lt}

-- "0x4A0f" and the odd text "f4a".
from_hex_upper :
    from_hex (b'0' ∷ b'x' ∷ b'4' ∷ b'A' ∷ b'0' ∷ b'f' ∷ []) throw ≡ ok (0x4a ∷ 0x0f ∷ [])
unfolding from_hex from_hex_loop from_hex_digit join_digits prefix_length
from_hex_upper = refl

from_hex_three : from_hex (b'f' ∷ b'4' ∷ b'a' ∷ []) throw ≡ ok (0x0f ∷ 0x4a ∷ [])
unfolding from_hex from_hex_odd from_hex_loop from_hex_digit join_digits prefix_length
from_hex_three = refl

from_hex_bad : from_hex (b'4' ∷ b'g' ∷ []) throw ≡ err bad_hex_character
unfolding from_hex from_hex_loop from_hex_digit join_digits prefix_length bad_character
from_hex_bad = refl

to_hex_prefixed : to_hex (0x4a ∷ 0x0f ∷ []) 2 add ≡ b'0' ∷ b'x' ∷ b'4' ∷ b'a' ∷ b'0' ∷ b'f' ∷ []
unfolding to_hex to_hex_loop pad_left hex_number hex_digit
to_hex_prefixed = refl

bytes_required_word : bytes_required 0x10000 ≡ 3
unfolding bytes_required bytes_required_acc lt_wf dec_lt
bytes_required_word = refl

from_hex-to_hex_example : from_hex (to_hex (0x4a ∷ 0x0f ∷ []) 2 add) throw ≡ ok (0x4a ∷ 0x0f ∷ [])
from_hex-to_hex_example = from_hex-to_hex (0x4a ∷ 0x0f ∷ []) add throw (omega arith)

from_big_endian-to_compact_big_endian_example :
    from_big_endian (uint 32) (to_compact_big_endian 0xdeadbeef 8) ≡ 0xdeadbeef
from_big_endian-to_compact_big_endian_example =
    from_big_endian-to_compact_big_endian (uint 32) 0xdeadbeef 8 (omega arith)

-- The nibbles of a key, and its part behind the first one.
abbrev key : List ℕ
key = 1 ∷ 2 ∷ 3 ∷ 15 ∷ []

key_of-hex_prefix_encode_example :
    (slice_size (key_of (hex_prefix_encode key true 1 4)) ≡ 3)
    × ((i : ℕ)
        → nibble_at (key_of (hex_prefix_encode key true 1 4)) i ≡ at_index (2 ∷ 3 ∷ 15 ∷ []) i)
    × (is_leaf (hex_prefix_encode key true 1 4) ≡ true)
key_of-hex_prefix_encode_example =
    key_of-hex_prefix_encode key true 1 4
      (omega arith, (omega arith, (omega arith, (omega arith, tt)))) (omega arith) (omega arith)

hex_prefix_runs : hex_prefix_encode key true 1 4 ≡ 0x32 ∷ 0x3f ∷ []
unfolding hex_prefix_encode encode_part prefix_flags byte_pairs
hex_prefix_runs = refl

-- Two slices of a key's bytes, one behind the first nibble.
abbrev whole : NibbleSlice
whole = record { data_of = 0x12 ∷ 0x34 ∷ []; offset = 0 }

abbrev behind_one : NibbleSlice
behind_one = record { data_of = 0x12 ∷ 0x34 ∷ []; offset = 1 }

whole-IsSlice : IsSlice whole
whole-IsSlice = (omega arith, (omega arith, (omega arith, tt)))

behind_one-IsSlice : IsSlice behind_one
behind_one-IsSlice = (omega arith, (omega arith, (omega arith, tt)))

joined_run : encode_slices behind_one whole true ≡ 0x32 ∷ 0x34 ∷ 0x12 ∷ 0x34 ∷ []
unfolding encode_slices slice_size nibble_loop put_nibble or_back nibble at_index prefix_flags
joined_run = refl

encode_slices-hex_prefix_encode_example :
    encode_slices behind_one whole true
    ≡ hex_prefix_encode
        (nibbles_of behind_one ++ nibbles_of whole)
        true
        0
        (slice_size behind_one + slice_size whole)
encode_slices-hex_prefix_encode_example =
    encode_slices-hex_prefix_encode behind_one whole true behind_one-IsSlice whole-IsSlice

begins_with_runs :
    (begins_with whole behind_one ≡ false)
    × (begins_with behind_one (mid 1 whole) ≡ true)
    × (slice_eq behind_one (mid 1 whole) ≡ true)
unfolding begins_with slice_eq mid shared shared_nibbles slice_size nibble at_index
begins_with_runs = (refl, refl, refl)
