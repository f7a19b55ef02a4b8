-- ===== src/Rlp/Reader/Items.antt =====
-- The reader on what encodes a value (libdevcore/RLP.h, RLP.cpp): sizes, strings, lists.
use mvis_tokenminer.Prelude.{ℕ, ◌+◌, ◌≤◌, ◌<◌, ◌≡◌, ◌≢◌, ◌⊎◌, inl, inr, refl, ap, ◌∙◌}
use mvis_tokenminer.Prelude.{List, [], ◌∷◌, ◌++◌, append_assoc, arith, Bool-cases}
use mvis_tokenminer.Prelude.{ok, true, false, ltb, ltb→lt, length, get_or, length-append}
use mvis_tokenminer.Prelude.{le→ltb}
use mvis_tokenminer.VectorRef.{cropped}
use mvis_tokenminer.VectorRef.Laws.{cropped-append}
use mvis_tokenminer.Rlp.Item.{Item, str, list, encode, encode_all}
use mvis_tokenminer.Rlp.Item.{header, size_limit, IsSmall}
use mvis_tokenminer.Rlp.Reader.{payload_length, payload_offset, payload, actual_size}
use mvis_tokenminer.Rlp.Reader.{is_data, is_list, is_single_byte, is_null}
use mvis_tokenminer.Rlp.Reader.{require_good, length_by_head}
use mvis_tokenminer.Rlp.Reader.Heads.{payload_length-list, payload_length-str}
use mvis_tokenminer.Rlp.Reader.Heads.{payload_offset-list, payload_offset-str}
use mvis_tokenminer.Rlp.Reader.Heads.{header-is_list, header-is_data}

-- What the reader finds in a view that begins with an item: its kind, and where its payload stands.
pub record Reads (d head body rest : List ℕ) : Type 0 where
  pub whole : d ≡ head ++ (body ++ rest)
  pub length_read : payload_length d ≡ ok (length body)
  pub offset_read : payload_offset d ≡ length head
  pub size_read : actual_size d ≡ ok (length head + length body)
  pub short_enough : length body < size_limit

pub payload-Reads : {d head body rest : List ℕ} → Reads d head body rest → payload d ≡ ok body
unfolding payload
payload-Reads {d} {head} {body} {rest} r =
    rw (r.length_read, le→ltb (length d) (length body) fits, r.offset_read)
      (ap ok (
        ap (cropped (length head) (length body)) r.whole
        ∙ cropped-append head body rest (omega (arith, r.short_enough))))
  where
    fits : length body ≤ length d
    fits = rw r.whole (omega (arith, length-append head (body ++ rest), length-append body rest))

actual_size_headed :
    (d : List ℕ) (offset n : ℕ)
    → is_single_byte d ≡ false
    → (is_data d ≡ true) ⊎ (is_list d ≡ true)
    → payload_length d ≡ ok n
    → payload_offset d ≡ offset
    → actual_size d ≡ ok (offset + n)
unfolding actual_size is_null is_data is_list
actual_size_headed [] offset n single kind l o = absurd (none_of kind)
  where
    none_of : (is_data [] ≡ true) ⊎ (is_list [] ≡ true) → ⊥
    none_of (inl e) = cc
    none_of (inr e) = cc
actual_size_headed (b ∷ rest) offset n single kind l o = ground arith

-- A payload behind the head of a list.
list-Reads :
    (body rest : List ℕ)
    → length body < size_limit
    → Reads ((header 0xc0 (length body) ++ body) ++ rest) (header 0xc0 (length body)) body rest
list-Reads body rest h = rw (append_assoc (header 0xc0 n) body rest) (record {
  whole = refl;
  length_read = payload_length-list n (body ++ rest) h;
  offset_read = payload_offset-list n (body ++ rest) h;
  size_read =
      actual_size_headed _ _ n (header-is_list n (body ++ rest) h).1
        (inr (header-is_list n (body ++ rest) h).0) (payload_length-list n (body ++ rest) h)
        (payload_offset-list n (body ++ rest) h);
  short_enough = h;
})
  where
    n : ℕ
    n = length body

-- A string of one byte has a head only if the byte needs it.
abbrev NeedsHead : List ℕ → List ℕ → Type 0
NeedsHead bytes view = (length bytes ≢ 1) ⊎ ((0x80 ≤ get_or view 0 0) × (0 < length view))

NeedsHead-append : (bytes rest : List ℕ) → NeedsHead bytes bytes → NeedsHead bytes (bytes ++ rest)
NeedsHead-append [] rest h = inl (omega arith)
NeedsHead-append (b ∷ bytes) rest (inl h) = inl h
NeedsHead-append (b ∷ bytes) rest (inr h) = inr (h.0, omega arith)

str-Reads :
    (body rest : List ℕ)
    → NeedsHead body body
    → length body < size_limit
    → Reads ((header 0x80 (length body) ++ body) ++ rest) (header 0x80 (length body)) body rest
str-Reads body rest good h = rw (append_assoc (header 0x80 n) body rest) (record {
  whole = refl;
  length_read = len;
  offset_read = payload_offset-str n (body ++ rest) h;
  size_read =
      actual_size_headed _ _ n (header-is_data n (body ++ rest) h).1
        (inl (header-is_data n (body ++ rest) h).0) len (payload_offset-str n (body ++ rest) h);
  short_enough = h;
})
  where
    n : ℕ
    n = length body

    len : payload_length (header 0x80 n ++ (body ++ rest)) ≡ ok n
    len = payload_length-str n (body ++ rest) h (NeedsHead-append body rest good)

low-Reads : (b : ℕ) (rest : List ℕ) → b < 0x80 → Reads (b ∷ rest) [] (b ∷ []) rest
unfolding payload_length require_good length_by_head payload_offset actual_size is_single_byte
    is_null
low-Reads b rest h = record {
  whole = refl;
  length_read = ground arith;
  offset_read = ground arith;
  size_read = ground arith;
  short_enough = omega arith;
}

-- Every encoded value is read: the view begins with it, and its payload is what it holds.
abbrev pub body : Item → List ℕ
body (str bytes) = bytes
body (list xs) = encode_all xs

pub encode-Reads :
    (x : Item) (rest : List ℕ)
    → IsSmall x
    → (head : List ℕ) × (encode x ≡ head ++ body x) × Reads (encode x ++ rest) head (body x) rest
unfolding encode IsSmall
encode-Reads (list xs) rest h = (header 0xc0 _, refl, list-Reads (encode_all xs) rest h.1)
encode-Reads (str []) rest h = (header 0x80 0, refl, str-Reads [] rest (inl (omega arith)) h.1)
encode-Reads (str (b ∷ [])) rest h = elim (Bool-cases (ltb b 0x80)) [
  | inl low ↦ rw low ([], refl, low-Reads b rest (ltb→lt b 0x80 low))
  | inr high ↦
      rw high (header 0x80 1, refl, str-Reads (b ∷ []) rest (inr (ground arith, omega arith)) h.1)
]
encode-Reads (str (b ∷ c ∷ bytes)) rest h =
    (header 0x80 _, refl, str-Reads (b ∷ c ∷ bytes) rest (inl (omega arith)) h.1)
