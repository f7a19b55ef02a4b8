-- ===== src/Worker/Waits.antt =====
-- The waits of `startWorking`, `stopWorking` and `terminate` end (libdevcore/Worker.cpp).
use mvis_tokenminer.Prelude.{ℕ, zero, suc, ◌≤◌, ◌≡◌, ◌≢◌, refl, arith, List, [], ◌∷◌, length, take}
use mvis_tokenminer.Prelude.{Bool, true, false, ◌&&◌, ◌||◌, not, Bool-cases, inl, inr}
use mvis_tokenminer.Worker.{Worker, Caller, free, in_start, in_stop, in_terminate, new_worker}
use mvis_tokenminer.Worker.{run_thread, thread_turn, is_over, Reach}
use mvis_tokenminer.Worker.Finite.{follows, is_free, both}
use mvis_tokenminer.Worker.Rest.{is_consistent, fits, Reach-consistent}

-- Turns of the thread alone, of which each says whether its round throws.
abbrev pub turns : List Bool → Worker → Worker
turns [] w = w
turns (throws ∷ more) w = turns more (run_thread throws w)

-- Whatever throws, the wait is over within so many turns.
within : ℕ → Worker → Bool
within zero w = is_over w
within (suc n) w = is_over w || (within n (run_thread false w) && within n (run_thread true w))

over_in :
    (n : ℕ) (w : Worker) (throws : List Bool)
    → within n w ≡ true
    → length throws ≡ n
    → (k : ℕ) × (k ≤ n) × (is_over (turns (take k throws) w) ≡ true)
unfolding within
over_in zero w throws h l = (0, omega arith, h)
over_in (suc n) w [] h l = absurd (omega arith)
over_in (suc n) w (b ∷ throws) h l = elim (Bool-cases (is_over w)) [
  | inl done ↦ (0, omega arith, done)
  | inr waits ↦
      let (k, few, done) = over_in n (run_thread b w) throws (after b waits h) (omega arith) in
      (suc k, omega (arith, few), done)
]
  where
    after :
        (b : Bool)
        → is_over w ≡ false
        → (is_over w || (within n (run_thread false w) && within n (run_thread true w))) ≡ true
        → within n (run_thread b w) ≡ true
    after true waits h = ground (arith, waits, h)
    after false waits h = ground (arith, waits, h)

busy_caller : (c : Caller) → c ≢ free → not (is_free c) ≡ true
busy_caller free h = absurd (h refl)
busy_caller in_start h = refl
busy_caller in_stop h = refl
busy_caller in_terminate h = refl

consistent-within : (w : Worker) → is_consistent w ≡ true → w.caller ≢ free → within 8 w ≡ true
unfolding is_consistent fits run_thread thread_turn is_over within
consistent-within w h c =
    follows (λ u. is_consistent u && not (is_free u.caller)) (within 8) w refl
      (both (is_consistent w) (not (is_free w.caller)) h (busy_caller w.caller c))

-- A call that waits can return after at most eight turns of the thread, whichever of its rounds throw,
-- in every state that any order of turns and calls leads to.
pub waits-end :
    {w : Worker} (throws : List Bool)
    → Reach new_worker w
    → w.caller ≢ free
    → length throws ≡ 8
    → (k : ℕ) × (k ≤ 8) × (is_over (turns (take k throws) w) ≡ true)
waits-end {w = w} throws r c l = over_in 8 w throws (consistent-within w (Reach-consistent r) c) l
