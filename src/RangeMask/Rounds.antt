-- ===== src/RangeMask/Rounds.antt =====
-- A round of `unionWith` (libdevcore/RangeMask.h) keeps the ranges apart and loses no number.
use mathlib.Core.Path.{subst}
use mvis_tokenminer.Prelude.{ℕ, suc, ◌<◌, ◌≤◌, ◌≡◌, refl, ◌∙◌, arith, [], ◌∷◌, Option, none, some}
use mvis_tokenminer.Prelude.{
  true, false, Bool-cases, Option-cases, inl, inr, ◌||◌, ltb, ltb→lt, ◌==◌, ==_iff,
}
use mvis_tokenminer.RangeMask.{
  Range, Ranges, upper_bound, or_this, before, put, Round, left, again, fresh, attached, round_of,
  round,
}
use mvis_tokenminer.RangeMask.Sets.{
  within, has, Apart, before-Apart, put-behind, put-front, put-here, erase-here, erase-behind,
}

-- What a round for the numbers from `i` up to `e` has to give.
abbrev pub IsRound : ℕ → ℕ → ℕ → Ranges → Round → Type 0
IsRound low i e r (left s) = Apart low s × ((x : ℕ) → has x s ≡ (has x r || within i e x))
IsRound low i e r (again j s) =
    Apart low s × (i < j) × ((x : ℕ) → (has x s || within j e x) ≡ (has x r || within i e x))

-- A range in front of the others.
abbrev behind : Range → Round → Round
behind p (left s) = left (p ∷ s)
behind p (again j s) = again j (p ∷ s)

behind-IsRound :
    (low i e a b : ℕ) (r : Ranges) (o : Round)
    → low ≤ a
    → a < b
    → IsRound (suc b) i e r o
    → IsRound low i e ((a, b) ∷ r) (behind (a, b) o)
behind-IsRound low i e a b r (left s) l p (t, same) =
    ((l, p, t), λ x. let here = same x in ground (arith, here))
behind-IsRound low i e a b r (again j s) l p (t, more, same) =
    ((l, p, t), more, λ x. let here = same x in ground (arith, here))

-- The number lies in front of the first range, or there is none.
front_none : (low i e : ℕ) → low ≤ i → i < e → IsRound low i e [] (fresh i e none [])
unfolding fresh put
front_none low i e l h = ((l, h, tt), λ x. ground arith)

front_some :
    (low i e a b : ℕ) (r : Ranges)
    → low ≤ i
    → i < e
    → i < a
    → Apart low ((a, b) ∷ r)
    → IsRound low i e ((a, b) ∷ r) (fresh i e (some (a, b)) ((a, b) ∷ r))
unfolding fresh
front_some low i e a b r l h front (la, p, s) = elim (Bool-cases (ltb e a)) [
  | inl f ↦ rw (f, put-front i e a b r front) ((l, h, (ground (arith, f), p, s)), λ x. ground arith)
  | inr f ↦
      let other : (a == i) ≡ false = ground arith in
      rw
        (
          f,
          other,
          put-front i b a b r front,
          erase-behind a i b ((a, b) ∷ r) front,
          erase-here a b r,
        )
        ((l, omega arith, s), omega arith, λ x. ground (arith, f))
]

-- The number lies in the first range, or at its end.
inside :
    (low i e a b : ℕ) (r : Ranges)
    → i < e
    → a ≤ i
    → i < b
    → Apart low ((a, b) ∷ r)
    → IsRound low i e ((a, b) ∷ r) (again b ((a, b) ∷ r))
inside low i e a b r h la hb t = (t, hb, λ x. ground arith)

at_end :
    (low i e a : ℕ) (r : Ranges)
    → i < e
    → Apart low ((a, i) ∷ r)
    → IsRound low i e ((a, i) ∷ r) (attached a e (upper_bound i r) ((a, i) ∷ r))
unfolding attached upper_bound
at_end low i e a [] h (la, p, s) = rw (put-here a e i []) ((la, omega arith, tt), λ x. ground arith)
at_end low i e a ((c, d) ∷ r) h (la, p, (q, t, s)) =
    let after : ltb i c ≡ true = ground arith in
    elim (Bool-cases (ltb e c)) [
      | inl f ↦
          rw (after, f, put-here a e i ((c, d) ∷ r))
            ((la, omega arith, (ground (arith, f), t, s)), λ x. ground arith)
      | inr f ↦
          rw
            (
              after,
              f,
              put-here a d i ((c, d) ∷ r),
              erase-behind c a d ((c, d) ∷ r) (omega arith),
              erase-here c d r,
            )
            ((la, omega arith, s), omega arith, λ x. ground (arith, f))
    ]

-- A round for a number behind the end of the first range leaves that range alone.
fresh-behind :
    (i e a b : ℕ) (after : Option Range) (r : Ranges)
    → a < i
    → ((c d : ℕ) → after ≡ some (c, d) → i < c)
    → fresh i e after ((a, b) ∷ r) ≡ behind (a, b) (fresh i e after r)
unfolding fresh
fresh-behind i e a b none r h up = rw (put-behind i e a b r h) refl
fresh-behind i e a b (some (c, d)) r h up =
    let far = up c d refl in
    let other : (c == i) ≡ false = ground arith in
    elim (Bool-cases (ltb e c)) [
      | inl f ↦ rw (f, put-behind i e a b r h) refl
      | inr f ↦
          rw (f, other, put-behind i d a b r h, erase-behind c a b (put i d r) (omega arith)) refl
    ]

attached-behind :
    (k e a b : ℕ) (after : Option Range) (r : Ranges)
    → a < k
    → ((c d : ℕ) → after ≡ some (c, d) → k < c)
    → attached k e after ((a, b) ∷ r) ≡ behind (a, b) (attached k e after r)
unfolding attached
attached-behind k e a b none r h up = rw (put-behind k e a b r h) refl
attached-behind k e a b (some (c, d)) r h up =
    let far = up c d refl in
    elim (Bool-cases (ltb e c)) [
      | inl f ↦ rw (f, put-behind k e a b r h) refl
      | inr f ↦ rw (f, put-behind k d a b r h, erase-behind c a b (put k d r) (omega arith)) refl
    ]

upper_bound-above : (i : ℕ) (r : Ranges) (c d : ℕ) → upper_bound i r ≡ some (c, d) → i < c
unfolding upper_bound
upper_bound-above i [] c d h = cc h
upper_bound-above i ((a, b) ∷ r) c d h = elim (Bool-cases (ltb i a)) [
  | inl f ↦ let q = rw f at h in ground (arith, f, q)
  | inr f ↦ upper_bound-above i r c d (rw f at h)
]

before-low :
    (i low : ℕ) (r : Ranges) (a b : ℕ)
    → Apart low r
    → before i r ≡ some (a, b)
    → (low ≤ a) × (a ≤ i)
unfolding before or_this
before-low i low [] a b s h = cc h
before-low i low ((c, d) ∷ r) a b (l, p, s) h = elim (Bool-cases (ltb i c)) [
  | inl f ↦ cc (rw f at h)
  | inr f ↦ elim (Option-cases (before i r)) [
    | inl g ↦ let q = rw (f, g) at h in ground (arith, f, q)
    | inr (y, g) ↦
        let (more, up) = before-low i (suc d) r a b s (g ∙ rw (f, g) at h) in (omega arith, up)
  ]
]

round_of-behind :
    (i e a b : ℕ) (o after : Option Range) (r : Ranges)
    → a < i
    → b < i
    → ((p q : ℕ) → o ≡ some (p, q) → (suc a ≤ p) × (p ≤ i))
    → ((c d : ℕ) → after ≡ some (c, d) → i < c)
    → round_of i e (or_this (a, b) o) after ((a, b) ∷ r) ≡ behind (a, b) (round_of i e o after r)
unfolding round_of or_this
round_of-behind i e a b none after r ha hb low up =
    let far : ltb b i ≡ true = ground arith in rw far (fresh-behind i e a b after r ha up)
round_of-behind i e a b (some (p, q)) after r ha hb low up =
    let (la, lp) = low p q refl in
    elim (Bool-cases (ltb q i)) [
      | inl f ↦ rw f (fresh-behind i e a b after r ha up)
      | inr f ↦ elim (Bool-cases (q == i)) [
        | inl g ↦
            rw (f, g)
              (attached-behind p e a b after r la (λ c d h. let far = up c d h in omega arith))
        | inr g ↦ rw (f, g) refl
      ]
    ]

round-behind :
    (i e a b : ℕ) (r : Ranges)
    → a < b
    → b < i
    → Apart (suc b) r
    → round i e ((a, b) ∷ r) ≡ behind (a, b) (round i e r)
unfolding round before upper_bound
round-behind i e a b r ha hb s =
    let here : ltb i a ≡ false = ground arith in
    rw here (
      round_of-behind i e a b (before i r) (upper_bound i r) r (omega arith) hb
        (λ p q h. let (l, u) = before-low i (suc b) r p q s h in (omega arith, u))
        (λ c d h. upper_bound-above i r c d h))

pub round-IsRound :
    (low i e : ℕ) (r : Ranges) → low ≤ i → i < e → Apart low r → IsRound low i e r (round i e r)
unfolding round round_of before upper_bound or_this
round-IsRound low i e [] l h s = front_none low i e l h
round-IsRound low i e ((a, b) ∷ r) l h (la, p, s) = elim (Bool-cases (ltb i a)) [
  | inl f ↦ rw f (front_some low i e a b r l h (ltb→lt i a f) (la, p, s))
  | inr f ↦ elim (Bool-cases (ltb b i)) [
    | inl g ↦ rw (round-behind i e a b r p (ltb→lt b i g) s) (
        behind-IsRound low i e a b r (round i e r) la p
          (round-IsRound (suc b) i e r (ltb→lt b i g) h s))
    | inr g ↦
        let none_there = before-Apart i (suc b) r (ground (arith, g)) s in
        elim (Bool-cases (b == i)) [
          | inl k ↦
              let same = (==_iff b i).0 k in
              rw (f, none_there, g, k)
                (subst
                  (λ n. IsRound low n e ((a, b) ∷ r) (attached a e (upper_bound n r) ((a, b) ∷ r)))
                  same (at_end low b e a r (omega arith) (la, p, s)))
          | inr k ↦
              rw (f, none_there, g, k)
                (inside low i e a b r h (ground (arith, f)) (ground (arith, g, k)) (la, p, s))
        ]
  ]
]
