-- ===== src/RangeMask/Union.antt =====
-- `unionWith` is the union of sets (libdevcore/RangeMask.h).
use mvis_tokenminer.Prelude.{
  ℕ, zero, suc, ◌+◌, ◌-◌, ◌<◌, ◌≤◌, ◌≡◌, refl, ◌∙◌, arith, [], ◌∷◌, Option, some,
}
use mvis_tokenminer.Prelude.{false, Bool-cases, inl, inr, ◌||◌, ltb, ltb→lt}
use mvis_tokenminer.RangeMask.{
  Ranges, Round, left, again, round, next_round, union_loop, union_range, then_with, union_all,
}
use mvis_tokenminer.RangeMask.Sets.{within, has, Apart}
use mvis_tokenminer.RangeMask.Rounds.{IsRound, round-IsRound}

-- The loop ends with ranges that are apart and have what was there and the numbers from `i` up to `e`.
abbrev pub IsUnion : ℕ → ℕ → Ranges → Option Ranges → Type 0
IsUnion i e r o =
    (s : Ranges) × (o ≡ some s) × Apart 0 s × ((x : ℕ) → has x s ≡ (has x r || within i e x))

round-IsUnion :
    (i e : ℕ) (r : Ranges) (rest : ℕ → Ranges → Option Ranges)
    → ((j : ℕ) (t : Ranges) → i < j → Apart 0 t → IsUnion j e t (rest j t))
    → (o : Round) → IsRound 0 i e r o
    → IsUnion i e r (next_round o rest)
unfolding next_round
round-IsUnion i e r rest goes (left t) (u, same) = (t, refl, u, same)
round-IsUnion i e r rest goes (again j t) (u, more, same) =
    let (v, ends, w, there) = goes j t more u in (v, ends, w, λ x. there x ∙ same x)

union_loop-IsUnion :
    (fuel i e : ℕ) (r : Ranges) → e ≤ i + fuel → Apart 0 r → IsUnion i e r (union_loop fuel e i r)
unfolding union_loop
union_loop-IsUnion zero i e r enough s =
    let over : ltb i e ≡ false = ground arith in rw over (r, refl, s, λ x. ground arith)
union_loop-IsUnion (suc fuel) i e r enough s = elim (Bool-cases (ltb i e)) [
  | inl f ↦ rw f (
      round-IsUnion i e r (union_loop fuel e)
        (λ j t more u. union_loop-IsUnion fuel j e t (omega arith) u) (round i e r)
        (round-IsRound 0 i e r (omega arith) (ltb→lt i e f) s))
  | inr f ↦ rw f (r, refl, s, λ x. ground (arith, f))
]

pub union_range-IsUnion : (i e : ℕ) (r : Ranges) → Apart 0 r → IsUnion i e r (union_range (i, e) r)
unfolding union_range
union_range-IsUnion i e r s = union_loop-IsUnion (e - i) i e r (omega arith) s

pub union_all-has :
    (ps r : Ranges)
    → Apart 0 r
    → (s : Ranges) × (union_all ps r ≡ some s)
      × Apart 0 s
      × ((x : ℕ) → has x s ≡ (has x r || has x ps))
unfolding union_all then_with
union_all-has [] r h = (r, refl, h, λ x. ground arith)
union_all-has ((i, e) ∷ ps) r h =
    let (t, ends, u, same) = union_range-IsUnion i e r h in
    let (s, all_end, v, there) = union_all-has ps t u in
    (s, rw ends all_end, v, λ x. let a = same x in let b = there x in ground (arith, a, b))
