-- ===== src/Numeral/Decimal.antt =====
-- The decimal text of a number, and that `stol` reads it back.
use mathlib.Core.Logic.{dite}
use mathlib.Core.WellFounded.{Acc}
use native.Mathlib.Decide.{dec_lt}
use mvis_tokenminer.Prelude.{ℕ, ◌+◌, ◌*◌, ◌/◌, ◌%◌, ◌^◌, ◌<◌, List, [], ◌∷◌, ◌++◌, map, some, false}
use mvis_tokenminer.Prelude.{
  ◌≡◌, refl, ap, ◌∙◌, arith, lt→ltb, lt_wf, All, All-append, length, length-append,
}
use mvis_tokenminer.MainLoop.Fee.{pos}
use mvis_tokenminer.Numeral.{
  is_space, is_digit, skip_spaces, leading_digits, read_sign, decimal_value, in_long, stol_of, stol,
}

abbrev pub IsDigit : ℕ → Type 0
IsDigit d = d < 10

-- The characters of digits.
abbrev pub printed : List ℕ → List ℕ
printed ds = map (λ d. 48 + d) ds

pub leading_digits-printed : (ds : List ℕ) → All IsDigit ds → leading_digits (printed ds) ≡ ds
unfolding leading_digits is_digit
leading_digits-printed [] h = refl
leading_digits-printed (d ∷ ds) (hd, h) = ground (arith, leading_digits-printed ds h)

pub digits_of_acc : (n : ℕ) → Acc ◌<◌ n → List ℕ
digits_of_acc n (Acc.intro _ smaller) =
    dite (dec_lt 9 n) (λ h. digits_of_acc (n / 10) (smaller (n / 10) (omega arith)) ++ n % 10 ∷ [])
      (λ _. n ∷ [])

pub digits_of : ℕ → List ℕ
digits_of n = digits_of_acc n (lt_wf.apply n)

decimal_value-append :
    (k : ℕ) (ds : List ℕ) (d : ℕ) → decimal_value k (ds ++ d ∷ []) ≡ decimal_value k ds * 10 + d
unfolding decimal_value
decimal_value-append k [] d = refl
decimal_value-append k (e ∷ ds) d = decimal_value-append (k * 10 + e) ds d

digits_of_acc-value : (n : ℕ) (w : Acc ◌<◌ n) → decimal_value 0 (digits_of_acc n w) ≡ n
unfolding digits_of_acc decimal_value
digits_of_acc-value n (Acc.intro _ smaller) = grind (
  arith,
  λ (h : 9 < n). digits_of_acc-value (n / 10) (smaller (n / 10) (omega arith)),
  λ (h : 9 < n).
      decimal_value-append 0 (digits_of_acc (n / 10) (smaller (n / 10) (omega arith))) (n % 10),
)

digits_of_acc-All : (n : ℕ) (w : Acc ◌<◌ n) → All IsDigit (digits_of_acc n w)
unfolding digits_of_acc
digits_of_acc-All n (Acc.intro _ smaller) =
    elim (dec_lt 9 n)
      as (λ e. All IsDigit (
        dite e (λ h. digits_of_acc (n / 10) (smaller (n / 10) (omega arith)) ++ n % 10 ∷ [])
          (λ _. n ∷ []))) [
            | yes h ↦
                All-append IsDigit (digits_of_acc (n / 10) (smaller (n / 10) (omega arith)))
                  (n % 10 ∷ []) (digits_of_acc-All (n / 10) (smaller (n / 10) (omega arith)))
                  (omega arith, tt)
            | no h ↦ (omega arith, tt)
          ]

digits_of_acc-positive : (n : ℕ) (w : Acc ◌<◌ n) → 0 < length (digits_of_acc n w)
unfolding digits_of_acc
digits_of_acc-positive n (Acc.intro _ smaller) =
    grind
      (arith, dec_lt 9 n, length-append (digits_of_acc (n / 10) (smaller (n / 10) _)) (n % 10 ∷ []))

-- The decimal text of `n`.
pub decimal : ℕ → List ℕ
decimal n = printed (digits_of n)

skip_spaces-printed : (ds : List ℕ) → All IsDigit ds → skip_spaces (printed ds) ≡ printed ds
unfolding skip_spaces is_space
skip_spaces-printed [] h = refl
skip_spaces-printed (d ∷ ds) (hd, h) = ground arith

read_sign-printed :
    (ds : List ℕ)
    → All IsDigit ds
    → read_sign (printed ds) ≡ record { negative = false; digits = ds }
unfolding read_sign
read_sign-printed [] h = refl
read_sign-printed (d ∷ ds) (hd, h) = ground (arith, leading_digits-printed (d ∷ ds) (hd, h))

stol_of-digits :
    (ds : List ℕ)
    → 0 < length ds
    → decimal_value 0 ds < 2 ^ 63
    → stol_of false ds ≡ some (pos (decimal_value 0 ds))
unfolding stol_of in_long
stol_of-digits [] h hn = absurd (omega arith)
stol_of-digits (d ∷ ds) h hn = rw (lt→ltb _ _ hn) refl

-- `stol` reads a number back from its decimal text, if it is one of type `long`.
pub stol-decimal : (n : ℕ) → n < 2 ^ 63 → stol (decimal n) ≡ some (pos n)
unfolding stol decimal digits_of
stol-decimal n h =
    let w = lt_wf.apply n in
    let all = digits_of_acc-All n w in
    let v = digits_of_acc-value n w in
    rw (skip_spaces-printed (digits_of_acc n w) all, read_sign-printed (digits_of_acc n w) all)
      (stol_of-digits (digits_of_acc n w) (digits_of_acc-positive n w) (rw v h)
        ∙ ap (λ k. some (pos k)) v)
