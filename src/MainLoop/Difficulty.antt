-- ===== src/MainLoop/Difficulty.antt =====
-- Difficulties and targets (ethminer/MinerAux.h: targetFromDiff, diffFromTarget).
use mvis_tokenminer.Prelude.{ℕ, ◌*◌, ◌/◌, ◌^◌, ◌<◌, ◌≤◌, ◌≡◌, ◌↔◌, refl, ap, arith, ok}
use mvis_tokenminer.Prelude.{◌==◌, false, ltb, ltb→lt, Bool-cases, inl, inr}
use mvis_tokenminer.MainLoop.{target_from_diff, diff_from_target, pow_2_234}
use native.Mathlib.Nat.{le-div_iff_mul-le, mul_comm, mod-eq_of_lt}

module _ (d t : ℕ) (d_pos : 0 < d) (t_large : 2 ^ 170 < t) where
  not_zero : (n : ℕ) → 0 < n → (n == 0) ≡ false
  not_zero n h = ground arith

  fits : pow_2_234 / t < 2 ^ 64
  fits = elim (Bool-cases (ltb (pow_2_234 / t) (2 ^ 64))) [
    | inl e ↦ ltb→lt _ _ e
    | inr e ↦
        let large : 2 ^ 64 * t ≤ pow_2_234 =
          (le-div_iff_mul-le {k = t} (omega arith)).0 (ground (arith, e)) in
        absurd (omega (arith, large))
  ]

  -- For a difficulty above zero and a target above 2 ^ 170, below which its difficulty may not fit
  -- 64 bits, neither conversion throws, and the difficulty is at most that of the target exactly when
  -- the target is at most that of the difficulty.
  pub diff_from_target-target_from_diff :
      (u : ℕ) × (k : ℕ) × (target_from_diff d ≡ ok u)
      × (diff_from_target t ≡ ok k)
      × ((d ≤ k) ↔ (t ≤ u))
  unfolding target_from_diff diff_from_target
  diff_from_target-target_from_diff = (
    pow_2_234 / d,
    pow_2_234 / t,
    rw (not_zero d d_pos) refl,
    rw (not_zero t (omega arith)) (ap ok (mod-eq_of_lt fits)),
    (
      λ h.
          (le-div_iff_mul-le {k = d} d_pos).1
            (rw (mul_comm t d) ((le-div_iff_mul-le {k = t} (omega arith)).0 h)),
      λ h.
          (le-div_iff_mul-le {k = t} (omega arith)).1
            (rw (mul_comm d t) ((le-div_iff_mul-le {k = d} d_pos).0 h)),
    ),
  )
