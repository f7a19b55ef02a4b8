-- ===== src/Farm/Handoff.antt =====
-- The solution slot of `GenericFarm` (libethcore/Farm.h): miners put solutions in, and the main loop
-- takes them out.
use mvis_tokenminer.Prelude.{ℕ, ◌≡◌, refl, ap, arith, Bool, Option, none, some, ◌∙◌}
use mvis_tokenminer.Prelude.{List, [], ◌∷◌}
use mvis_tokenminer.Farm.{Farm, submit_proof, take_solution, miner_submit_proof, solution_found}
use mvis_tokenminer.Farm.{set_work, record_solution, reset_best_hash}
use mvis_tokenminer.Miner.{SolutionState}
use mathlib.Core.Path.{ap₂}

-- The calls that reach the slot, in the order in which the lock lets them through, and two that do
-- not.
pub data Call : Type 0 where
  submit : ℕ → ℕ → Call
  found : Call
  new_work : List ℕ → ℕ → Call
  recorded : SolutionState → Bool → Call

-- What the main loop is handed by a call, and the state after it.
pub call : Call → Farm → Option (ℕ × ℕ) × Farm
call (submit nonce i) f = (none, (miner_submit_proof nonce i f).1)
call found f = solution_found f
call (new_work c t) f = (none, set_work c t f)
call (recorded state stale) f = (none, record_solution state stale f)

abbrev pub cons_some {ℓ} : {A : Type ℓ} → Option A → List A → List A
cons_some none xs = xs
cons_some (some x) xs = x ∷ xs

-- All that the main loop is handed by a run, and the last state.
pub run : List Call → Farm → List (ℕ × ℕ) × Farm
run [] f = ([], f)
run (c ∷ cs) f = let (o, g) = call c f in let (os, h) = run cs g in (cons_some o os, h)

-- The specification: a place for one solution, which a second one does not displace.
abbrev pub Place : Type 0
Place = Option (ℕ × ℕ)

abbrev pub place_call : Call → Place → Place × Place
place_call (submit nonce i) none = (none, some (nonce, i))
place_call (submit nonce i) (some p) = (none, some p)
place_call found p = (p, none)
place_call (new_work c t) p = (none, p)
place_call (recorded state stale) p = (none, p)

abbrev pub place_run : List Call → Place → List (ℕ × ℕ) × Place
place_run [] p = ([], p)
place_run (c ∷ cs) p =
    let (o, q) = place_call c p in let (os, r) = place_run cs q in (cons_some o os, r)

-- The solution that waits in the farm.
abbrev pub place_with : ℕ → Option ℕ → Place
place_with nonce none = none
place_with nonce (some i) = some (nonce, i)

abbrev pub place : Farm → Place
place f = place_with f.solution f.solution_miner

call-place :
    (c : Call) (f : Farm)
    → ((call c f).0 ≡ (place_call c (place f)).0)
      × (place (call c f).1 ≡ (place_call c (place f)).1)
unfolding call miner_submit_proof submit_proof take_solution solution_found set_work record_solution
    reset_best_hash
call-place (submit nonce i) f = ground arith
call-place found f = ground arith
call-place (new_work c t) f = ground arith
call-place (recorded state stale) f = (refl, refl)

-- The farm's slot is a place for one solution: over every sequence of calls the main loop is handed
-- what the specification hands out, in the same order, and the same solution is left waiting.
pub run-place_run :
    (cs : List Call) (f : Farm)
    → ((run cs f).0 ≡ (place_run cs (place f)).0)
      × (place (run cs f).1 ≡ (place_run cs (place f)).1)
unfolding run
run-place_run [] f = (refl, refl)
run-place_run (c ∷ cs) f =
    let (handed, left) = call-place c f in
    let (outs, last) = run-place_run cs (call c f).1 in
    (
      ap₂ cons_some handed (outs ∙ ap (λ p. (place_run cs p).0) left),
      last ∙ ap (λ p. (place_run cs p).1) left,
    )
