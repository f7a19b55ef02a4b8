-- ===== src/Rlp/Reader/Reading.antt =====
-- Reading encoded values (libdevcore/RLP.h, RLP.cpp).
use mvis_tokenminer.Prelude.{ℕ, zero, suc, ◌+◌, ◌≤◌, ◌<◌, ◌≡◌, inl, inr, refl, ap, ◌∙◌, sym}
use mvis_tokenminer.Prelude.{List, [], ◌∷◌, ◌++◌, append-nil, append_assoc, arith, Bool-cases}
use mvis_tokenminer.Prelude.{ok, ◌>>=◌, true, length, length-append, le→ltb, ltb}
use mvis_tokenminer.VectorRef.{cropped, cropped_from}
use mvis_tokenminer.VectorRef.Laws.{cropped-append, cropped_from-append}
use mvis_tokenminer.Rlp.Item.{Item, Items, str, list, nil, cons, encode, encode_all}
use mvis_tokenminer.Rlp.Item.{header, count_items, size_limit, IsSmall, AreSmall}
use mvis_tokenminer.Rlp.Reader.{payload, actual_size, make_rlp, size_as_encoded, is_data, is_list}
use mvis_tokenminer.Rlp.Reader.{items_loop, items, to_bytes}
use mvis_tokenminer.Rlp.Reader.Heads.{header-is_list, header-is_data}
use mvis_tokenminer.Rlp.Reader.Items.{payload-Reads, encode-Reads, body}

actual_size-encode :
    (x : Item) (rest : List ℕ) → IsSmall x → actual_size (encode x ++ rest) ≡ ok (length (encode x))
actual_size-encode x rest h =
    let (head, e, r) = encode-Reads x rest h in
    r.size_read ∙ ap ok (sym (ap length e ∙ length-append head (body x)))

size_as_encoded_of :
    (d : List ℕ) (n : ℕ) → actual_size d ≡ ok n → n ≤ length d → size_as_encoded d ≡ ok n
unfolding size_as_encoded make_rlp
size_as_encoded_of d n e h = rw (e, le→ltb (length d) n h) e

-- A view that begins with the encoding of a value is as long as the encoding says, whatever follows.
size_as_encoded-encode :
    (x : Item) (rest : List ℕ)
    → IsSmall x
    → size_as_encoded (encode x ++ rest) ≡ ok (length (encode x))
size_as_encoded-encode x rest h =
    size_as_encoded_of _ _ (actual_size-encode x rest h)
      (omega (arith, length-append (encode x) rest))

-- The payload of a string is its bytes, and that of a list is its encoded items.
payload-encode : (x : Item) (rest : List ℕ) → IsSmall x → payload (encode x ++ rest) ≡ ok (body x)
payload-encode x rest h = payload-Reads (encode-Reads x rest h).2

headed-is_data :
    (bytes rest : List ℕ)
    → length bytes < size_limit
    → is_data ((header 0x80 (length bytes) ++ bytes) ++ rest) ≡ true
headed-is_data bytes rest h =
    rw (append_assoc (header 0x80 (length bytes)) bytes rest)
      (header-is_data (length bytes) (bytes ++ rest) h).0

low-is_data : (b : ℕ) (rest : List ℕ) → ltb b 0x80 ≡ true → is_data (b ∷ rest) ≡ true
unfolding is_data
low-is_data b rest h = ground arith

encode-is_data :
    (bytes rest : List ℕ) → IsSmall (str bytes) → is_data (encode (str bytes) ++ rest) ≡ true
unfolding encode IsSmall
encode-is_data [] rest h = headed-is_data [] rest h.1
encode-is_data (b ∷ []) rest h = elim (Bool-cases (ltb b 0x80)) [
  | inl low ↦ rw low (low-is_data b rest low)
  | inr high ↦ rw high (headed-is_data (b ∷ []) rest h.1)
]
encode-is_data (b ∷ c ∷ bytes) rest h = headed-is_data (b ∷ c ∷ bytes) rest h.1

encode-is_list :
    (xs : Items) (rest : List ℕ) → IsSmall (list xs) → is_list (encode (list xs) ++ rest) ≡ true
unfolding encode IsSmall
encode-is_list xs rest h =
    rw (append_assoc (header 0xc0 (length (encode_all xs))) (encode_all xs) rest)
      (header-is_list (length (encode_all xs)) (encode_all xs ++ rest) h.1).0

-- A string is read back.
pub to_bytes-encode :
    (bytes rest : List ℕ) → IsSmall (str bytes) → to_bytes (encode (str bytes) ++ rest) ≡ ok bytes
unfolding to_bytes
to_bytes-encode bytes rest h =
    rw
      (
        encode-is_data bytes rest h,
        payload-encode (str bytes) rest h,
        (encode-Reads (str bytes) rest h).2.length_read,
      )
      (ap ok (
        ap (cropped 0 (length bytes)) (sym (append-nil bytes))
        ∙ cropped-append [] bytes []
            (omega (arith, (encode-Reads (str bytes) rest h).2.short_enough))))

header_nonempty : (base n : ℕ) (d : List ℕ) → 0 < length (header base n ++ d)
header_nonempty base n d = elim (Bool-cases (ltb n 56)) [
  | inl short ↦ rw short (omega arith)
  | inr long ↦ rw long (omega arith)
]

encode_nonempty : (x : Item) → 0 < length (encode x)
unfolding encode
encode_nonempty (list xs) = header_nonempty 0xc0 _ (encode_all xs)
encode_nonempty (str []) = omega arith
encode_nonempty (str (b ∷ [])) = ground arith
encode_nonempty (str (b ∷ c ∷ bytes)) = header_nonempty 0x80 _ (b ∷ c ∷ bytes)

items_loop_step :
    (fuel : ℕ) (d : List ℕ) (n : ℕ)
    → 0 < length d
    → size_as_encoded d ≡ ok n
    → items_loop (suc fuel) d ≡ (items_loop fuel (cropped_from n d) >>= λ i. ok (suc i))
unfolding items_loop
items_loop_step fuel [] n h e = absurd (omega arith)
items_loop_step fuel (b ∷ rest) n h e = rw e

items_loop-encode_all :
    (xs : Items) (fuel : ℕ)
    → AreSmall xs
    → length (encode_all xs) ≤ fuel
    → items_loop fuel (encode_all xs) ≡ ok (count_items xs)
unfolding encode_all AreSmall
items_loop-encode_all nil zero h f = unfold items_loop in refl
items_loop-encode_all nil (suc fuel) h f = unfold items_loop in refl
items_loop-encode_all (cons x xs) zero h f =
    absurd (omega (arith, length-append (encode x) (encode_all xs), encode_nonempty x))
items_loop-encode_all (cons x xs) (suc fuel) h f =
    items_loop_step fuel (encode x ++ encode_all xs) (length (encode x))
      (omega (arith, size, encode_nonempty x)) (size_as_encoded-encode x (encode_all xs) h.0)
    ∙ rw (cropped_from-append (encode x) [] (encode_all xs))
        (rw (items_loop-encode_all xs fuel h.1 (omega (arith, size, encode_nonempty x))))
  where
    size : length (encode x ++ encode_all xs) ≡ length (encode x) + length (encode_all xs)
    size = length-append (encode x) (encode_all xs)

-- The items of a list are counted.
pub items-encode :
    (xs : Items) (rest : List ℕ)
    → IsSmall (list xs)
    → items (encode (list xs) ++ rest) ≡ ok (count_items xs)
unfolding items IsSmall
items-encode xs rest h =
    rw (encode-is_list xs rest h, payload-encode (list xs) rest h)
      (items_loop-encode_all xs _ h.0 (omega arith))
