-- ===== src/Trie/Slices/Shared.antt =====
-- One slice begins with another (libdevcore/TrieCommon.h).
use mvis_tokenminer.Prelude.{
  ℕ, zero, suc, ◌+◌, ◌≤◌, ◌≡◌, ◌↔◌, refl, sym, ◌∙◌, ap, arith, List, [], ◌∷◌, ◌++◌,
}
use mvis_tokenminer.Prelude.{
  ◌==◌, ==_iff, true, Bool-cases, inl, inr, if◌then◌else◌, length, take, drop, length-drop,
}
use mvis_tokenminer.Hex.{as_nibbles}
use mvis_tokenminer.Trie.{NibbleSlice, slice_size}
use mvis_tokenminer.Trie.HexPrefixed.{
  nibbles_of, nibble-as_nibbles, slice_size-nibbles_of, length-as_nibbles,
}
use mvis_tokenminer.Trie.Slices.{shared_nibbles, shared, begins_with}
use mvis_tokenminer.Trie.Slices.Joining.{next_nibble, take_all, IsSlice}

-- How many members two lists share at their beginning.
abbrev common : List ℕ → List ℕ → ℕ
common [] w = 0
common (x ∷ v) [] = 0
common (x ∷ v) (y ∷ w) = if x == y then suc (common v w) else 0

common-nil : (v : List ℕ) → common v [] ≡ 0
common-nil [] = refl
common-nil (x ∷ v) = refl

common-prefix : (v w : List ℕ) → (common v w ≡ length w) ↔ ((rest : List ℕ) × (v ≡ w ++ rest))
common-prefix [] [] = (λ h. ([], refl), λ h. refl)
common-prefix [] (y ∷ w) = (λ h. absurd (omega arith), λ (rest, h). cc h)
common-prefix (x ∷ v) [] = (λ h. (x ∷ v, refl), λ h. refl)
common-prefix (x ∷ v) (y ∷ w) = elim (Bool-cases (x == y)) [
  | inl e ↦ (
    λ h.
        let shorter = rw e at h in
        let (rest, q) = (common-prefix v w).0 (omega arith) in
        (rest, ap (λ l. x ∷ l) q ∙ ap (λ z. z ∷ (w ++ rest)) ((==_iff x y).0 e)),
    λ (rest, q). rw e (ap suc ((common-prefix v w).1 (rest, cc q))),
  )
  | inr e ↦ (
    λ h. let none_shared = rw e at h in absurd (omega arith),
    λ (rest, q). let same = (==_iff x y).1 (cc q) in absurd (cc (e, same)),
  )
]

shared_nibbles-common :
    (first second : List ℕ) (n m i j : ℕ)
    → i + n ≤ length (as_nibbles first)
    → j + m ≤ length (as_nibbles second)
    → shared_nibbles first i n second j m
      ≡ common (take n (drop i (as_nibbles first))) (take m (drop j (as_nibbles second)))
unfolding shared_nibbles
shared_nibbles-common first second zero m i j h k = refl
shared_nibbles-common first second (suc n) zero i j h k = sym (common-nil _)
shared_nibbles-common first second (suc n) (suc m) i j h k =
    let left : i + 1 ≡ suc i = omega arith in
    let right : j + 1 ≡ suc j = omega arith in
    rw
      (
        next_nibble n i (as_nibbles first) (omega arith),
        next_nibble m j (as_nibbles second) (omega arith),
        nibble-as_nibbles first i,
        nibble-as_nibbles second j,
        left,
        right,
        shared_nibbles-common first second n m (suc i) (suc j) (omega arith) (omega arith),
      )
      refl

shared-common :
    (s k : NibbleSlice) → IsSlice s → IsSlice k → shared s k ≡ common (nibbles_of s) (nibbles_of k)
unfolding shared slice_size
shared-common s k (inside, _) (within, _) =
    let a = length-as_nibbles s.data_of in
    let b = length-as_nibbles k.data_of in
    let c = length-drop s.offset (as_nibbles s.data_of) in
    let d = length-drop k.offset (as_nibbles k.data_of) in
    shared_nibbles-common s.data_of k.data_of (slice_size s) (slice_size k) s.offset k.offset
      (omega arith) (omega arith)
    ∙ rw
        (
          take_all (slice_size s) (nibbles_of s) (omega arith),
          take_all (slice_size k) (nibbles_of k) (omega arith),
        )
        refl

-- A slice contains another, if both begin inside their bytes, exactly where its nibbles are those of the other
-- and some that follow.
pub begins_with-nibbles_of :
    (s k : NibbleSlice)
    → IsSlice s
    → IsSlice k
    → (begins_with s k ≡ true) ↔ ((rest : List ℕ) × (nibbles_of s ≡ nibbles_of k ++ rest))
unfolding begins_with
begins_with-nibbles_of s k hs hk =
    let same = shared-common s k hs hk in
    let size = slice_size-nibbles_of k in
    let prefix = common-prefix (nibbles_of s) (nibbles_of k) in
    let equal = ==_iff (shared s k) (slice_size k) in
    (λ h. prefix.0 (sym same ∙ equal.0 h ∙ size), λ r. equal.1 (same ∙ prefix.1 r ∙ sym size))
