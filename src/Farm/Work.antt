-- ===== src/Farm/Work.antt =====
-- The work that the farm gives its miners (libethcore/Farm.h, Miner.h).
use mvis_tokenminer.Prelude.{ℕ, ◌≡◌, ◌≢◌, ◌⊎◌, inl, inr, refl, sym, arith, true, false}
use mvis_tokenminer.Prelude.{Bool, map, Bool-cases, not, ◌&&◌, none, List, [], ◌∷◌, All}
use mvis_tokenminer.Prelude.{◌==◌, list_eq, list_eq_iff, list_eq-false, if◌then◌else◌}
use mvis_tokenminer.Miner.{
  Miner, pool, SolutionState, reset_miner_hash, solo, set_miner_work, switch_thread, kick_off,
  pause,
}
use mvis_tokenminer.Farm.{Farm, set_work, set_all_work, miner_submit_proof, submit_proof}
use mvis_tokenminer.Farm.{
  take_solution, solution_found, record_solution, reset_best_hash, is_solo, stop_others,
  clear_challenge,
}

-- A miner has the work, challenge and target, of the farm.
abbrev pub HasWork : List ℕ → ℕ → Miner → Type 0
HasWork c t m = (m.challenge ≡ c) × (m.target ≡ t)

abbrev pub Coherent : Farm → Type 0
Coherent f = All (HasWork f.challenge f.target) f.miners

set_miner_work-HasWork : (c : List ℕ) (t : ℕ) (m : Miner) → HasWork c t (set_miner_work c t m)
unfolding set_miner_work switch_thread kick_off pause
set_miner_work-HasWork [] t m = ground arith
set_miner_work-HasWork (b ∷ c) t m = (refl, refl)

set_all_work-HasWork :
    (c : List ℕ) (t : ℕ) (ms : List Miner) → All (HasWork c t) (set_all_work c t ms)
unfolding set_all_work
set_all_work-HasWork c t [] = tt
set_all_work-HasWork c t (m ∷ ms) = (set_miner_work-HasWork c t m, set_all_work-HasWork c t ms)

same_work :
    (c : List ℕ) (t : ℕ) (f : Farm)
    → (list_eq c f.challenge && t == f.target) ≡ true
    → (c ≡ f.challenge) × (t ≡ f.target)
same_work c t f h = ground (arith, list_eq_iff c f.challenge)

pub set_work-challenge : (c : List ℕ) (t : ℕ) (f : Farm) → (set_work c t f).challenge ≡ c
unfolding set_work
set_work-challenge c t f = ground (arith, same_work c t f)

-- After `setWork` the farm and all its miners have the work that was given, also where the farm had
-- it already and the call returns early.
pub set_work-Coherent :
    (c : List ℕ) (t : ℕ) (f : Farm)
    → Coherent f
    → ((set_work c t f).challenge ≡ c)
      × ((set_work c t f).target ≡ t)
      × All (HasWork c t) (set_work c t f).miners
unfolding set_work
set_work-Coherent c t f h = elim (Bool-cases (list_eq c f.challenge && t == f.target)) [
  | inl same ↦ let (p, q) = same_work c t f same in rw same (sym p, sym q, rw (p, q) h)
  | inr new ↦ rw new (refl, refl, set_all_work-HasWork c t f.miners)
]

set_all_work_starts :
    (b : ℕ) (c : List ℕ) (t : ℕ) (ms : List Miner)
    → All
        (λ m. (m.challenge ≡ b ∷ c) × (m.target ≡ t) × (m.working ≡ true))
        (set_all_work (b ∷ c) t ms)
unfolding set_all_work set_miner_work switch_thread kick_off pause
set_all_work_starts b c t [] = tt
set_all_work_starts b c t (m ∷ ms) = ((refl, refl, refl), set_all_work_starts b c t ms)

-- New work that is not empty starts every miner on it.
pub set_work_starts :
    (b : ℕ) (c : List ℕ) (t : ℕ) (f : Farm)
    → (b ∷ c) ≢ f.challenge
    → All
        (λ m. (m.challenge ≡ b ∷ c) × (m.target ≡ t) × (m.working ≡ true))
        (set_work (b ∷ c) t f).miners
unfolding set_work
set_work_starts b c t f h =
    rw (list_eq-false (b ∷ c) f.challenge h) (set_all_work_starts b c t f.miners)

-- What a solution of the miner of index `i` makes of a miner in solo mode.
abbrev stopped : ℕ → ℕ → Miner → Miner
stopped i t m =
    let n = if not (m.index == i) then set_miner_work [] t m else m in
    if n.index == i then record n { challenge = [] } else n

stopped_lem :
    (i t : ℕ) (c : List ℕ) (m : Miner)
    → c ≢ []
    → HasWork c t m
    → HasWork [] t (stopped i t m)
      × (((stopped i t m).index ≡ i) ⊎ ((stopped i t m).working ≡ false))
unfolding set_miner_work switch_thread pause
stopped_lem i t c m work h = ground arith

stopped_miners :
    (i t : ℕ) (c : List ℕ) (ms : List Miner)
    → c ≢ []
    → All (HasWork c t) ms
    → All (HasWork [] t) (clear_challenge i (stop_others i t ms))
      × All (λ m. (m.index ≡ i) ⊎ (m.working ≡ false)) (clear_challenge i (stop_others i t ms))
unfolding clear_challenge stop_others
stopped_miners i t c [] work h = (tt, tt)
stopped_miners i t c (m ∷ ms) work (hm, h) =
    let (same, idle) = stopped_lem i t c m work hm in
    let (all_same, all_idle) = stopped_miners i t c ms work h in
    ((same, all_same), (idle, all_idle))

solo_submit :
    (nonce i : ℕ) (f : Farm)
    → f.op_mode ≡ solo
    → f.solution_miner ≡ none
    → (g : Farm) × (miner_submit_proof nonce i f ≡ (true, g))
      × (g.challenge ≡ [])
      × (g.target ≡ f.target)
      × (g.miners ≡ clear_challenge i (stop_others i f.target f.miners))
unfolding miner_submit_proof submit_proof take_solution is_solo
solo_submit nonce i f mode free =
    ((miner_submit_proof nonce i f).1, ground arith, ground arith, ground arith, ground arith)

-- A solution that a solo miner finds, while none waits, takes the challenge from every miner, and
-- stops all but that one, whose own loop ends on the answer that it should stop.
pub solo_submit_stops :
    (nonce i : ℕ) (f : Farm)
    → f.op_mode ≡ solo
    → f.solution_miner ≡ none
    → f.challenge ≢ []
    → Coherent f
    → ((miner_submit_proof nonce i f).0 ≡ true)
      × Coherent (miner_submit_proof nonce i f).1
      × ((miner_submit_proof nonce i f).1.challenge ≡ [])
      × All (λ m. (m.index ≡ i) ⊎ (m.working ≡ false)) (miner_submit_proof nonce i f).1.miners
solo_submit_stops nonce i f mode free work h =
    let (g, e, no_challenge, same_target, ms) = solo_submit nonce i f mode free in
    let (all_same, all_idle) = stopped_miners i f.target f.challenge f.miners work h in
    rw e (refl, rw (no_challenge, same_target, ms) all_same, no_challenge, rw ms all_idle)

-- In pool mode a solution disturbs no miner and leaves the work.
pub pool_submit_keeps :
    (nonce i : ℕ) (f : Farm)
    → f.op_mode ≡ pool
    → ((miner_submit_proof nonce i f).1.miners ≡ f.miners)
      × ((miner_submit_proof nonce i f).1.challenge ≡ f.challenge)
      × ((miner_submit_proof nonce i f).1.target ≡ f.target)
      × ((miner_submit_proof nonce i f).1.op_mode ≡ f.op_mode)
unfolding miner_submit_proof submit_proof take_solution is_solo
pool_submit_keeps nonce i f mode = ground arith

pub set_work-op_mode : (c : List ℕ) (t : ℕ) (f : Farm) → (set_work c t f).op_mode ≡ f.op_mode
unfolding set_work
set_work-op_mode c t f = ground arith

reset-HasWork :
    (c : List ℕ) (t : ℕ) (ms : List Miner)
    → All (HasWork c t) ms
    → All (HasWork c t) (map reset_miner_hash ms)
unfolding reset_miner_hash
reset-HasWork c t [] h = tt
reset-HasWork c t (m ∷ ms) (p, h) = (p, reset-HasWork c t ms h)

-- Work is kept by taking a solution out and by recording it.
pub recorded_keeps :
    (state : SolutionState) (stale : Bool) (c : List ℕ) (t : ℕ) (f : Farm)
    → All (HasWork c t) f.miners
    → All (HasWork c t) (record_solution state stale f).miners
      × ((record_solution state stale f).challenge ≡ f.challenge)
      × ((record_solution state stale f).target ≡ f.target)
      × ((record_solution state stale f).op_mode ≡ f.op_mode)
unfolding record_solution reset_best_hash
recorded_keeps state stale c t f h = (reset-HasWork c t f.miners h, refl, refl, refl)

pub found_keeps :
    (f : Farm)
    → ((solution_found f).1.miners ≡ f.miners)
      × ((solution_found f).1.challenge ≡ f.challenge)
      × ((solution_found f).1.target ≡ f.target)
      × ((solution_found f).1.op_mode ≡ f.op_mode)
unfolding solution_found
found_keeps f = ground arith

-- Whether a miner that submits has to stop.
pub submit_stops : (nonce i : ℕ) (f : Farm) → (miner_submit_proof nonce i f).0 ≡ is_solo f.op_mode
unfolding miner_submit_proof submit_proof
submit_stops nonce i f = ground arith
