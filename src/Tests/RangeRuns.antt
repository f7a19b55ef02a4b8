-- ===== src/Tests/RangeRuns.antt =====
-- Runs of range masks (libdevcore/RangeMask.h).
use mvis_tokenminer.Prelude.{ℕ, ◌≡◌, refl, arith, min, max, [], ◌∷◌, some}
use mvis_tokenminer.Prelude.{◌&&◌, ◌||◌, not}
use mvis_tokenminer.RangeMask.{RangeMask, union_with, subtract, contains}
use mvis_tokenminer.RangeMask.{
  upper_bound, or_this, before, put, erase, fresh, attached, round_of, round, next_round,
  union_loop, union_range, then_with, union_all, with_ranges, invert_loop, inverted,
  inverted_result,
}
use mvis_tokenminer.RangeMask.Difference.{IsMask, union_with-contains, subtract-contains}

abbrev low : RangeMask
low = record { all = (0, 20); ranges = (2, 5) ∷ (8, 10) ∷ [] }

abbrev high : RangeMask
high = record { all = (1, 15); ranges = (4, 9) ∷ (12, 15) ∷ [] }

low-IsMask : IsMask low
low-IsMask =
    (omega arith, (omega arith, omega arith, (omega arith, omega arith, tt)), λ x. ground arith)

high-IsMask : IsMask high
high-IsMask =
    (omega arith, (omega arith, omega arith, (omega arith, omega arith, tt)), λ x. ground arith)

merged : union_with high low ≡ some (record { all = (0, 20); ranges = (2, 10) ∷ (12, 15) ∷ [] })
unfolding union_with with_ranges union_all then_with union_range union_loop next_round round
    round_of attached fresh put erase before upper_bound or_this
merged = refl

-- What is taken away has a wider ground range: the difference of two empty masks is not empty.
wider :
    subtract (record { all = (0, 8); ranges = [] }) (record { all = (0, 4); ranges = [] })
    ≡ some (record { all = (0, 8); ranges = (4, 8) ∷ [] })
unfolding subtract inverted inverted_result invert_loop put union_with with_ranges union_all
wider = refl

union_with-contains_example :
    (u : RangeMask) × (union_with high low ≡ some u)
    × IsMask u
    × (u.all ≡ (min high.all.0 low.all.0, max high.all.1 low.all.1))
    × ((x : ℕ) → contains x u.ranges ≡ (contains x low.ranges || contains x high.ranges))
union_with-contains_example = union_with-contains high low high-IsMask low-IsMask

subtract-contains_example :
    (d : RangeMask) × (subtract high low ≡ some d)
    × IsMask d
    × (d.all ≡ low.all)
    × ((x : ℕ) → contains x d.ranges ≡ (contains x low.ranges && not (contains x high.ranges)))
subtract-contains_example =
    subtract-contains high low high-IsMask low-IsMask (omega arith) (omega arith)
