-- ===== src/Tests/RlpRuns.antt =====
-- Runs of the RLP writer and reader of libdevcore/RLP.cpp.
use mvis_tokenminer.Prelude.{ℕ, ◌≡◌, refl, arith, List, [], ◌∷◌, ◌++◌, ok, ◌>>=◌}
use mvis_tokenminer.Rlp.Item.{
  Item, Items, str, list, nil, cons, encode, encode_all, IsSmall, AreSmall,
}
use mvis_tokenminer.Rlp.Stream.{finish}
use mvis_tokenminer.Rlp.Stream.Emit.{emit, emit-finish}
use mvis_tokenminer.Rlp.Reader.{size_as_encoded, items, make_rlp, actual_size}
use mvis_tokenminer.Rlp.Reader.{is_null, is_single_byte}
use mvis_tokenminer.Rlp.Reader.Reading.{items-encode}

-- [ "cat", [ "" ], "z" ]
abbrev cat : List ℕ
cat = b'c' ∷ b'a' ∷ b't' ∷ []

abbrev inner : Items
inner = cons (str cat) (cons (list (cons (str []) nil)) (cons (str (b'z' ∷ [])) nil))

abbrev sample : Item
sample = list inner

sample_encoded : encode sample ≡ 0xc7 ∷ 0x83 ∷ b'c' ∷ b'a' ∷ b't' ∷ 0xc1 ∷ 0x80 ∷ b'z' ∷ []
unfolding encode encode_all
sample_encoded = refl

sample-IsSmall : IsSmall sample
unfolding IsSmall AreSmall encode encode_all
sample-IsSmall = omega arith

cat-IsSmall : IsSmall (str cat)
unfolding IsSmall
cat-IsSmall = omega arith

emit-finish_example :
    (emit sample (record { out = 9 ∷ []; list_stack = [] }) >>= finish) ≡ ok (9 ∷ encode sample)
emit-finish_example = emit-finish sample (9 ∷ []) sample-IsSmall

items-encode_example : items (encode sample ++ []) ≡ ok 3
items-encode_example = items-encode inner [] sample-IsSmall

size_as_encoded_single : size_as_encoded (5 ∷ 6 ∷ []) ≡ ok 1
unfolding size_as_encoded make_rlp actual_size is_null is_single_byte
size_as_encoded_single = refl
