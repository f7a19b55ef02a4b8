-- ===== src/Farm/Stats.antt =====
-- What changes the statistics of the farm, and what does not (libethcore/Farm.h).
use mvis_tokenminer.Prelude.{ℕ, ◌+◌, ◌%◌, ◌^◌, ◌≡◌, refl, arith, List, true, false}
use mvis_tokenminer.Miner.{accepted, count_accepted, count_accepted_stale}
use mvis_tokenminer.Farm.{
  Farm, set_work, miner_submit_proof, submit_proof, take_solution, solution_found, record_solution,
  reset_best_hash, count_solution,
}

pub set_work-stats : (c : List ℕ) (t : ℕ) (f : Farm) → (set_work c t f).stats ≡ f.stats
unfolding set_work
set_work-stats c t f = ground arith

pub miner_submit_proof-stats :
    (nonce i : ℕ) (f : Farm) → (miner_submit_proof nonce i f).1.stats ≡ f.stats
unfolding miner_submit_proof submit_proof take_solution
miner_submit_proof-stats nonce i f = ground arith

pub solution_found-stats : (f : Farm) → (solution_found f).1.stats ≡ f.stats
unfolding solution_found
solution_found-stats f = ground arith

pub record_solution-accepts :
    (f : Farm)
    → ((record_solution accepted false f).stats.accepts ≡ (f.stats.accepts + 1) % 2 ^ 32)
      × ((record_solution accepted true f).stats.accepts ≡ f.stats.accepts)
unfolding record_solution reset_best_hash count_solution count_accepted count_accepted_stale
record_solution-accepts f = (refl, refl)
