-- ===== src/Rlp/Reader/Progress.antt =====
-- Reading ends on every input, well formed or not (libdevcore/RLP.cpp).
use mvis_tokenminer.Prelude.{ℕ, zero, suc, ◌-◌, ◌≤◌, ◌<◌, ◌≡◌, ◌≢◌, inl, inr, arith, Bool-cases}
use mvis_tokenminer.Prelude.{List, [], ◌∷◌, ok, err, Result-cases, length, length-drop}
use mvis_tokenminer.VectorRef.{cropped_from}
use mvis_tokenminer.Rlp.Constants.{RlpError, out_of_fuel}
use mvis_tokenminer.Rlp.Reader.{payload_length, require_good, length_by_head, long_length}
use mvis_tokenminer.Rlp.Reader.{check_size, payload, payload_offset, actual_size, make_rlp, is_null}
use mvis_tokenminer.Rlp.Reader.{
  is_single_byte, is_data, is_list, size_as_encoded, items_loop, items,
}
use mvis_tokenminer.Rlp.Reader.{fail_with}

actual_size_pos : (b n : ℕ) (rest : List ℕ) → actual_size (b ∷ rest) ≡ ok n → 0 < n
unfolding actual_size is_null is_single_byte is_data is_list payload_offset
actual_size_pos b n rest h = ground arith

-- An item of a view that is not empty takes a byte at least, and no more than there are.
pub size_as_encoded_bounds :
    (b n : ℕ) (rest : List ℕ)
    → size_as_encoded (b ∷ rest) ≡ ok n
    → (0 < n) × (n ≤ length (b ∷ rest))
unfolding size_as_encoded make_rlp fail_with
size_as_encoded_bounds b n rest h = ground (arith, actual_size_pos b n rest)

payload_length-ne-fuel : (d : List ℕ) → payload_length d ≢ err out_of_fuel
unfolding payload_length require_good length_by_head long_length check_size
payload_length-ne-fuel [] e = cc
payload_length-ne-fuel (n ∷ rest) e = ground arith

actual_size-ne-fuel : (d : List ℕ) → actual_size d ≢ err out_of_fuel
unfolding actual_size
actual_size-ne-fuel d e = ground (arith, payload_length-ne-fuel d)

size_as_encoded-ne-fuel : (d : List ℕ) → size_as_encoded d ≢ err out_of_fuel
unfolding size_as_encoded make_rlp fail_with
size_as_encoded-ne-fuel d e = ground (arith, actual_size-ne-fuel d)

payload-ne-fuel : (d : List ℕ) → payload d ≢ err out_of_fuel
unfolding payload
payload-ne-fuel d e = ground (arith, payload_length-ne-fuel d)

length-cropped_from : (n : ℕ) (d : List ℕ) → length (cropped_from n d) ≤ length d - n
unfolding cropped_from
length-cropped_from n d = ground (arith, length-drop n d)

items_loop_ok :
    (fuel b n : ℕ) (rest : List ℕ)
    → size_as_encoded (b ∷ rest) ≡ ok n
    → items_loop fuel (cropped_from n (b ∷ rest)) ≢ err out_of_fuel
    → items_loop (suc fuel) (b ∷ rest) ≢ err out_of_fuel
unfolding items_loop
items_loop_ok fuel b n rest e h = rw (e, items_loop) (λ p. ground arith)

items_loop_err :
    (fuel b : ℕ) (rest : List ℕ) (x : RlpError)
    → size_as_encoded (b ∷ rest) ≡ err x
    → items_loop (suc fuel) (b ∷ rest) ≢ err out_of_fuel
unfolding items_loop
items_loop_err fuel b rest x e p = ground (arith, size_as_encoded-ne-fuel (b ∷ rest))

items_loop-ne-fuel : (fuel : ℕ) (d : List ℕ) → length d ≤ fuel → items_loop fuel d ≢ err out_of_fuel
items_loop-ne-fuel zero [] h = unfold items_loop in λ e. cc
items_loop-ne-fuel (suc fuel) [] h = unfold items_loop in λ e. cc
items_loop-ne-fuel zero (b ∷ rest) h = absurd (omega arith)
items_loop-ne-fuel (suc fuel) (b ∷ rest) h = elim (Result-cases (size_as_encoded (b ∷ rest))) [
  | inl (n, e) ↦ items_loop_ok fuel b n rest e (
      items_loop-ne-fuel fuel (cropped_from n (b ∷ rest))
        (omega (arith, length-cropped_from n (b ∷ rest), size_as_encoded_bounds b n rest e)))
  | inr (x, e) ↦ items_loop_err fuel b rest x e
]

-- The fuel of `items` suffices: whatever the bytes are, it counts the items of the payload or throws
-- one of the exceptions of the code.
pub items-ne-fuel : (d : List ℕ) → items d ≢ err out_of_fuel
unfolding items
items-ne-fuel d = elim (Bool-cases (is_list d)) [
  | inl list ↦ rw list (elim (Result-cases (payload d)) [
    | inl (p, e) ↦ rw e (items_loop-ne-fuel (length p) p (omega arith))
    | inr (x, e) ↦ λ f. payload-ne-fuel d (cc)
  ])
  | inr other ↦ rw other (λ f. cc)
]
