-- ===== src/RangeMask.antt =====
-- Sets of numbers as ranges (libdevcore/RangeMask.h). The map of the ranges is the list of its entries,
-- a begin with an end, in the order of the begins. A number of type T is below 2 ^ 32.
pub mod Sets
pub mod Rounds
pub mod Union
pub mod Difference
use mvis_tokenminer.Prelude.{
  ℕ, zero, suc, ◌+◌, ◌-◌, ◌^◌, ◌%◌, min, max, List, [], ◌∷◌, Option, none, some,
}
use mvis_tokenminer.Prelude.{Bool, true, false, ◌&&◌, ◌||◌, ltb, leb, ◌==◌, if◌then◌else◌}

abbrev pub Range : Type 0
Range = ℕ × ℕ

abbrev pub Ranges : Type 0
Ranges = List Range

-- `m_all` and `m_ranges`
pub record RangeMask : Type 0 where
  pub all : Range
  pub ranges : Ranges

-- `std::map`: `upper_bound`, the entry in front of that one, `m_ranges[k] = e` and `erase`.
unfoldable pub upper_bound : ℕ → Ranges → Option Range
upper_bound i [] = none
upper_bound i ((a, b) ∷ r) = if ltb i a then some (a, b) else upper_bound i r

unfoldable pub or_this : Range → Option Range → Option Range
or_this x none = some x
or_this x (some y) = some y

unfoldable pub before : ℕ → Ranges → Option Range
before i [] = none
before i ((a, b) ∷ r) = if ltb i a then none else or_this (a, b) (before i r)

unfoldable pub put : ℕ → ℕ → Ranges → Ranges
put k e [] = (k, e) ∷ []
put k e ((a, b) ∷ r) =
    if ltb k a then (k, e) ∷ (a, b) ∷ r else if k == a then (k, e) ∷ r else (a, b) ∷ put k e r

unfoldable pub erase : ℕ → Ranges → Ranges
erase k [] = []
erase k ((a, b) ∷ r) = if a == k then r else (a, b) ∷ erase k r

-- A round of the loop of `unionWith`: it is left, or goes on with the next number.
pub data Round : Type 0 where
  left : Ranges → Round
  again : ℕ → Ranges → Round

-- `rangeAfter == m_ranges.end() || rangeAfter->first > _m.second`, and the branches for a range that
-- begins at `i` alone.
unfoldable pub fresh : ℕ → ℕ → Option Range → Ranges → Round
fresh i e none r = left (put i e r)
fresh i e (some (c, d)) r =
    if ltb e c
    then left (put i e r)
    else if c == i
    then again d r
    else again d (erase c (put i d r))

-- The branches for a range that begins at the end of the one with the begin `a`.
unfoldable pub attached : ℕ → ℕ → Option Range → Ranges → Round
attached a e none r = left (put a e r)
attached a e (some (c, d)) r = if ltb e c then left (put a e r) else again d (erase c (put a d r))

unfoldable pub round_of : ℕ → ℕ → Option Range → Option Range → Ranges → Round
round_of i e none after r = fresh i e after r
round_of i e (some (a, b)) after r =
    if ltb b i then fresh i e after r else if b == i then attached a e after r else again b r

unfoldable pub round : ℕ → ℕ → Ranges → Round
round i e r = round_of i e (before i r) (upper_bound i r) r

unfoldable pub next_round : Round → (ℕ → Ranges → Option Ranges) → Option Ranges
next_round (left r) rest = some r
next_round (again i r) rest = rest i r

-- The loop, with fuel; `none` where that runs out. The assertions, which a release build leaves out, ask
-- for a range inside `m_all`.
unfoldable pub union_loop : ℕ → ℕ → ℕ → Ranges → Option Ranges
union_loop zero e i r = if ltb i e then none else some r
union_loop (suc fuel) e i r =
    if ltb i e then next_round (round i e r) (union_loop fuel e) else some r

-- `unionWith(Range)`: each round raises the number, so there are no more than the range has numbers.
unfoldable pub union_range : Range → Ranges → Option Ranges
union_range (i, e) r = union_loop (e - i) e i r

-- `contains`
pub holds : ℕ → Option Range → Bool
holds x none = false
holds x (some (a, b)) = ltb x b

unfoldable pub contains : ℕ → Ranges → Bool
contains x r = holds x (before x r)

unfoldable pub then_with : Option Ranges → (Ranges → Option Ranges) → Option Ranges
then_with none rest = none
then_with (some r) rest = rest r

-- `unionWith(RangeMask)`: each range of the other mask.
unfoldable pub union_all : Ranges → Ranges → Option Ranges
union_all [] r = some r
union_all (p ∷ ps) r = then_with (union_range p r) (union_all ps)

unfoldable pub with_ranges : Range → Option Ranges → Option RangeMask
with_ranges all none = none
with_ranges all (some r) = some (record { all = all; ranges = r })

unfoldable pub union_with : RangeMask → RangeMask → Option RangeMask
union_with m s =
    with_ranges (min m.all.0 s.all.0, max m.all.1 s.all.1) (union_all m.ranges s.ranges)

-- `inverted`: the gaps, from the number behind the last range that was passed.
unfoldable pub invert_loop : ℕ → ℕ → Ranges → Ranges → Ranges
invert_loop end last ret [] = if last == end then ret else put last end ret
invert_loop end last ret ((a, b) ∷ r) =
    invert_loop end b (if a == last then ret else put last a ret) r

unfoldable pub inverted : RangeMask → RangeMask
inverted s = record s { ranges = invert_loop s.all.1 s.all.0 [] s.ranges }

-- `-=` of a mask: `invert().unionWith(_m).invert()`
unfoldable pub inverted_result : Option RangeMask → Option RangeMask
inverted_result none = none
inverted_result (some s) = some (inverted s)

unfoldable pub subtract : RangeMask → RangeMask → Option RangeMask
subtract m s = inverted_result (union_with m (inverted s))
