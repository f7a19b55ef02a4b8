-- ===== src/Rlp/Item.antt =====
-- The values that RLP encodes, and what their encoding is: the specification that the stream and the
-- reader of libdevcore/RLP.cpp are measured against.
use mvis_tokenminer.Prelude.{ℕ, suc, ◌+◌, ◌-◌, ◌^◌, ◌<◌, List, [], ◌∷◌, ◌++◌}
use mvis_tokenminer.Prelude.{ltb, if◌then◌else◌, length, All}
use mvis_tokenminer.BigEndian.{bytes_required}
use mvis_tokenminer.BigEndian.RoundTrip.{be}
use mvis_tokenminer.Hex.{IsByte}

mutual
  pub data Item : Type 0 where
    str : List ℕ → Item
    list : Items → Item

  pub data Items : Type 0 where
    nil : Items
    cons : Item → Items → Items

-- A length with its head byte: at once below 56, else with the length's own bytes behind the head.
abbrev pub header : ℕ → ℕ → List ℕ
header base n =
    if ltb n 56 then (base + n) ∷ [] else (base + 55 + bytes_required n) ∷ be (bytes_required n) n

abbrev pub encode_str : List ℕ → List ℕ
encode_str [] = header 0x80 0
encode_str (b ∷ []) = if ltb b 0x80 then b ∷ [] else header 0x80 1 ++ (b ∷ [])
encode_str (b ∷ c ∷ rest) = header 0x80 (length (b ∷ c ∷ rest)) ++ (b ∷ c ∷ rest)

unfoldable mutual
  pub encode : Item → List ℕ
  encode (str bytes) = encode_str bytes
  encode (list xs) = header 0xc0 (length (encode_all xs)) ++ encode_all xs

  pub encode_all : Items → List ℕ
  encode_all nil = []
  encode_all (cons x xs) = encode x ++ encode_all xs

abbrev pub count_items : Items → ℕ
count_items nil = 0
count_items (cons x xs) = suc (count_items xs)

-- Strings are made of bytes, and no payload is as long as the address space.
abbrev pub size_limit : ℕ
size_limit = 2 ^ 64 - 0x101

unfoldable mutual
  pub IsSmall : Item → Type 0
  IsSmall (str bytes) = All IsByte bytes × (length bytes < size_limit)
  IsSmall (list xs) = AreSmall xs × (length (encode_all xs) < size_limit)

  pub AreSmall : Items → Type 0
  AreSmall nil = Unit
  AreSmall (cons x xs) = IsSmall x × AreSmall xs
