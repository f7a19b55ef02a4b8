-- ===== src/RangeMask/Difference.antt =====
-- `inverted`, `unionWith` and `-=` as the complement, the union and the difference of sets
-- (libdevcore/RangeMask.h).
use mvis_tokenminer.Prelude.{ℕ, suc, ◌-◌, ◌<◌, ◌≤◌, ◌≡◌, refl, ◌∙◌, arith, min, max, [], ◌∷◌, some}
use mvis_tokenminer.Prelude.{
  true, false, Bool-cases, inl, inr, ◌&&◌, ◌||◌, not, ltb, ◌==◌, if◌then◌else◌,
}
use mvis_tokenminer.RangeMask.{
  Range, Ranges, RangeMask, put, contains, with_ranges, union_with, invert_loop, inverted,
  inverted_result, subtract,
}
use mvis_tokenminer.RangeMask.Sets.{
  within, has, Apart, Apart-lower, has-Apart, contains-has, put-behind,
}
use mvis_tokenminer.RangeMask.Union.{union_all-has}

-- The ranges end before a number.
abbrev Below : ℕ → Ranges → Type 0
Below k [] = Unit
Below k ((a, b) ∷ r) = (b < k) × Below k r

-- The ranges end at a number or before.
abbrev UpTo : ℕ → Ranges → Type 0
UpTo k [] = Unit
UpTo k ((a, b) ∷ r) = (b ≤ k) × UpTo k r

Below-higher : (k l : ℕ) (r : Ranges) → k ≤ l → Below k r → Below l r
Below-higher k l [] h s = tt
Below-higher k l ((a, b) ∷ r) h (p, s) = (omega arith, Below-higher k l r h s)

put_last :
    (low k e : ℕ) (r : Ranges)
    → low ≤ k
    → k < e
    → Apart low r
    → Below k r
    → Apart low (put k e r)
      × ((l : ℕ) → e < l → Below l (put k e r))
      × ((x : ℕ) → has x (put k e r) ≡ (has x r || within k e x))
unfolding put
put_last low k e [] l h s u = ((l, h, tt), λ n p. (p, tt), λ x. ground arith)
put_last low k e ((a, b) ∷ r) l h (la, p, s) (q, u) =
    let (t, under, same) = put_last (suc b) k e r (omega arith) h s u in
    rw (put-behind k e a b r (omega arith)) (
      (la, p, t),
      λ n more. (omega arith, under n more),
      λ x. let here = same x in ground (arith, here),
    )

invert_step :
    (last a b : ℕ) (ret : Ranges)
    → last ≤ a
    → a < b
    → Apart 0 ret
    → Below last ret
    → let next = if a == last then ret else put last a ret in
      Apart 0 next × Below b next × ((x : ℕ) → has x next ≡ (has x ret || within last a x))
invert_step last a b ret l h s u = elim (Bool-cases (a == last)) [
  | inl f ↦ rw f (s, Below-higher last b ret (omega arith) u, λ x. ground (arith, f))
  | inr f ↦
      let (t, under, same) = put_last 0 last a ret (omega arith) (ground (arith, f)) s u in
      rw f (t, under b h, same)
]

invert_loop-has :
    (end last : ℕ) (ret r : Ranges)
    → last ≤ end
    → Apart 0 ret
    → Below last ret
    → Apart last r
    → UpTo end r
    → Apart 0 (invert_loop end last ret r)
      × ((x : ℕ)
          → has x (invert_loop end last ret r)
            ≡ (has x ret || (within last end x && not (has x r))))
unfolding invert_loop
invert_loop-has end last ret [] l s u p q = elim (Bool-cases (last == end)) [
  | inl f ↦ rw f (s, λ x. ground (arith, f))
  | inr f ↦
      let (t, under, same) = put_last 0 last end ret (omega arith) (ground (arith, f)) s u in
      rw f (t, λ x. let here = same x in ground (arith, here))
]
invert_loop-has end last ret ((a, b) ∷ r) l s u (la, p, t) (q, v) =
    let (apart, under, same) = invert_step last a b ret la p s u in
    let (done, there) =
      invert_loop-has end b _ r q apart under (Apart-lower (suc b) b r (omega arith) t) v in
    (
      done,
      λ x.
          let here = same x in
          let rest = there x in
          elim (Bool-cases (ltb x b)) [
            | inl f ↦
                let none_here = has-Apart x (suc b) r (ground (arith, f)) t in
                ground (arith, here, rest, f)
            | inr f ↦ ground (arith, here, rest, f)
          ],
    )

-- The ranges are apart and lie in the ground range.
abbrev pub IsMask : RangeMask → Type 0
IsMask s =
    (s.all.0 ≤ s.all.1)
    × Apart 0 s.ranges
    × ((x : ℕ) → (has x s.ranges && not (within s.all.0 s.all.1 x)) ≡ false)

ends_inside :
    (low end k : ℕ) (r : Ranges)
    → Apart k r
    → ((x : ℕ) → has x r ≡ true → within low end x ≡ true)
    → Apart low r × UpTo end r
ends_inside low end k [] s inside = (tt, tt)
ends_inside low end k ((a, b) ∷ r) (l, p, s) inside =
    let first = inside a (ground arith) in
    let last = inside (b - 1) (ground arith) in
    let (t, u) = ends_inside low end (suc b) r s (λ x h. inside x (ground (arith, h))) in
    ((ground (arith, first), p, s), (ground (arith, last), u))

inverted-has :
    (s : RangeMask)
    → IsMask s
    → IsMask (inverted s)
      × ((x : ℕ) → has x (inverted s).ranges ≡ (within s.all.0 s.all.1 x && not (has x s.ranges)))
unfolding inverted
inverted-has s (l, apart, inside) =
    let (from_low, to_end) =
      ends_inside s.all.0 s.all.1 0 s.ranges apart
        (λ x h. let there = inside x in ground (arith, h, there)) in
    let (t, same) = invert_loop-has s.all.1 s.all.0 [] s.ranges l tt tt from_low to_end in
    ((l, t, λ x. let here = same x in ground (arith, here)), same)

union_with-has :
    (m s : RangeMask)
    → IsMask m
    → IsMask s
    → (u : RangeMask) × (union_with m s ≡ some u)
      × IsMask u
      × (u.all ≡ (min m.all.0 s.all.0, max m.all.1 s.all.1))
      × ((x : ℕ) → has x u.ranges ≡ (has x s.ranges || has x m.ranges))
unfolding union_with with_ranges
union_with-has m s (ml, ma, mi) (sl, sa, si) =
    let (t, ends, apart, same) = union_all-has m.ranges s.ranges sa in
    (
      record { all = (min m.all.0 s.all.0, max m.all.1 s.all.1); ranges = t },
      rw ends refl,
      (
        ground arith,
        apart,
        λ x. let here = same x in let in_m = mi x in let in_s = si x in ground arith,
      ),
      refl,
      same,
    )

-- The union of two masks: the loops end, the result is a mask of the smallest ground range around both,
-- and it contains a number exactly where one of the two does.
pub union_with-contains :
    (m s : RangeMask)
    → IsMask m
    → IsMask s
    → (u : RangeMask) × (union_with m s ≡ some u)
      × IsMask u
      × (u.all ≡ (min m.all.0 s.all.0, max m.all.1 s.all.1))
      × ((x : ℕ) → contains x u.ranges ≡ (contains x s.ranges || contains x m.ranges))
union_with-contains m s hm hs =
    let (u, ends, h, all, same) = union_with-has m s hm hs in
    (
      u,
      ends,
      h,
      all,
      λ x.
          rw
            (
              contains-has x 0 u.ranges h.1,
              contains-has x 0 s.ranges hs.1,
              contains-has x 0 m.ranges hm.1,
            )
            (same x),
    )

around : (m s : Range) → s.0 ≤ m.0 → m.1 ≤ s.1 → (min m.0 s.0, max m.1 s.1) ≡ s
around (a, b) (c, d) low high =
    let first : min a c ≡ c = ground arith in
    let last : max b d ≡ d = ground arith in rw (first, last) refl

-- The difference of two masks, where the ground range of the one that is taken away lies in that of the
-- other: the loops end, the result is a mask of the same ground range, and it contains a number exactly
-- where the one mask does and the other does not.
pub subtract-contains :
    (m s : RangeMask)
    → IsMask m
    → IsMask s
    → s.all.0 ≤ m.all.0
    → m.all.1 ≤ s.all.1
    → (d : RangeMask) × (subtract m s ≡ some d)
      × IsMask d
      × (d.all ≡ s.all)
      × ((x : ℕ) → contains x d.ranges ≡ (contains x s.ranges && not (contains x m.ranges)))
unfolding subtract inverted_result inverted
subtract-contains m s hm hs low high =
    let (hi, first) = inverted-has s hs in
    let (u, ends, hu, all, same) = union_with-has m (inverted s) hm hi in
    let (hd, second) = inverted-has u hu in
    let whole = all ∙ around m.all s.all low high in
    (
      inverted u,
      rw ends refl,
      hd,
      whole,
      λ x.
          let a = first x in
          let b = same x in
          let c = rw whole at second x in
          let in_s = hs.2 x in
          let in_m = hm.2 x in
          rw
            (
              contains-has x 0 (inverted u).ranges hd.1,
              contains-has x 0 s.ranges hs.1,
              contains-has x 0 m.ranges hm.1,
            )
            (ground (arith, a, b, c, in_s, in_m)),
    )
