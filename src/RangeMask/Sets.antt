-- ===== src/RangeMask/Sets.antt =====
-- Ranges as sets of numbers (libdevcore/RangeMask.h).
use mvis_tokenminer.Prelude.{ℕ, suc, ◌<◌, ◌≤◌, ◌≡◌, refl, ◌∙◌, arith, [], ◌∷◌, Option, none, some}
use mvis_tokenminer.Prelude.{Bool, false, Bool-cases, inl, inr, ◌&&◌, ◌||◌, ltb, leb}
use mvis_tokenminer.RangeMask.{Range, Ranges, or_this, before, put, erase, holds, contains}

-- Whether a number is in a range, and in one of some ranges.
abbrev pub within : ℕ → ℕ → ℕ → Bool
within a b x = leb a x && ltb x b

abbrev pub has : ℕ → Ranges → Bool
has x [] = false
has x ((a, b) ∷ r) = within a b x || has x r

-- No range is empty, and between two of them there is a gap.
abbrev pub Apart : ℕ → Ranges → Type 0
Apart low [] = Unit
Apart low ((a, b) ∷ r) = (low ≤ a) × (a < b) × Apart (suc b) r

pub Apart-lower : (low k : ℕ) (r : Ranges) → k ≤ low → Apart low r → Apart k r
Apart-lower low k [] h s = tt
Apart-lower low k ((a, b) ∷ r) h (l, p, s) = (omega arith, p, s)

-- No range that begins behind a number has it.
pub has-Apart : (x low : ℕ) (r : Ranges) → x < low → Apart low r → has x r ≡ false
has-Apart x low [] h s = refl
has-Apart x low ((a, b) ∷ r) h (l, p, s) =
    let rest = has-Apart x (suc b) r (omega arith) s in ground arith

pub before-Apart : (i low : ℕ) (r : Ranges) → i < low → Apart low r → before i r ≡ none
unfolding before
before-Apart i low [] h s = refl
before-Apart i low ((a, b) ∷ r) h (l, p, s) = ground arith

pub put-behind : (k e a b : ℕ) (r : Ranges) → a < k → put k e ((a, b) ∷ r) ≡ (a, b) ∷ put k e r
unfolding put
put-behind k e a b r h = ground arith

pub put-front : (k e a b : ℕ) (r : Ranges) → k < a → put k e ((a, b) ∷ r) ≡ (k, e) ∷ (a, b) ∷ r
unfolding put
put-front k e a b r h = ground arith

pub put-here : (k e b : ℕ) (r : Ranges) → put k e ((k, b) ∷ r) ≡ (k, e) ∷ r
unfolding put
put-here k e b r = ground arith

pub erase-here : (k b : ℕ) (r : Ranges) → erase k ((k, b) ∷ r) ≡ r
unfolding erase
erase-here k b r = ground arith

pub erase-behind : (k a b : ℕ) (r : Ranges) → a < k → erase k ((a, b) ∷ r) ≡ (a, b) ∷ erase k r
unfolding erase
erase-behind k a b r h = ground arith

holds-or_this :
    (x a b : ℕ) (o : Option Range) → ltb x b ≡ false → holds x (or_this (a, b) o) ≡ holds x o
unfolding holds or_this
holds-or_this x a b none h = h
holds-or_this x a b (some (c, d)) h = refl

-- `contains` tells whether a number is in one of the ranges.
pub contains-has : (x low : ℕ) (r : Ranges) → Apart low r → contains x r ≡ has x r
unfolding contains before holds or_this
contains-has x low [] s = refl
contains-has x low ((a, b) ∷ r) (l, p, s) = elim (Bool-cases (ltb x a)) [
  | inl e ↦ let none_here = has-Apart x (suc b) r (ground (arith, e)) s in ground (arith, e)
  | inr e ↦ elim (Bool-cases (ltb b x)) [
    | inl f ↦
        let rest = contains-has x (suc b) r s in
        rw (e, holds-or_this x a b (before x r) (ground (arith, f))) (rest ∙ ground (arith, f))
    | inr f ↦
        let none_here = has-Apart x (suc b) r (ground (arith, f)) s in
        rw (e, before-Apart x (suc b) r (ground (arith, f)) s) (ground (arith, e, f))
  ]
]
