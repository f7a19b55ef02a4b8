-- ===== src/Tests/FarmRuns.antt =====
-- A farm of two miners, and the theorems about it (libethcore/Farm.h).
use mvis_tokenminer.Prelude.{ℕ, ◌≡◌, ◌⊎◌, refl, true, false, none, some}
use mvis_tokenminer.Prelude.{List, [], ◌∷◌, All}
use mvis_tokenminer.Miner.{Miner, SolutionStats, solo, pool, no_hash}
use mvis_tokenminer.Farm.{Farm, miner_submit_proof}
use mvis_tokenminer.Farm.Handoff.{Call, submit, found, run, place, run-place_run}
use mvis_tokenminer.Farm.Work.{Coherent}
use mvis_tokenminer.Farm.Work.{solo_submit_stops}

abbrev miner_at : ℕ → Miner
miner_at i = record {
  index = i;
  challenge = 7 ∷ [];
  target = 1000;
  working = true;
  best_hash = no_hash;
  throttle = 0;
}

abbrev no_stats : SolutionStats
no_stats = record {
  accepts = 0;
  rejects = 0;
  failures = 0;
  accepted_stales = 0;
  rejected_stales = 0;
}

abbrev pub solo_farm : Farm
solo_farm = record {
  miners = miner_at 0 ∷ miner_at 1 ∷ [];
  target = 1000;
  challenge = 7 ∷ [];
  op_mode = solo;
  is_mining = true;
  hash_faults = 0 ∷ 0 ∷ [];
  best_hash = 500;
  stats = no_stats;
  close_hits = 0;
  last_close_hit = 0;
  solution = 0;
  solution_miner = none;
  used_nonces = [];
  log = [];
}

abbrev pub pool_farm : Farm
pool_farm = record solo_farm { op_mode = pool }

abbrev two_solutions : List Call
two_solutions = submit 11 0 ∷ submit 12 1 ∷ found ∷ found ∷ submit 13 1 ∷ []

run-place_run_example :
    ((run two_solutions solo_farm).0 ≡ (11, 0) ∷ [])
    × (place (run two_solutions solo_farm).1 ≡ some (13, 1))
run-place_run_example = run-place_run two_solutions solo_farm

solo_submit_stops_example :
    ((miner_submit_proof 11 0 solo_farm).0 ≡ true)
    × Coherent (miner_submit_proof 11 0 solo_farm).1
    × ((miner_submit_proof 11 0 solo_farm).1.challenge ≡ [])
    × All (λ m. (m.index ≡ 0) ⊎ (m.working ≡ false)) (miner_submit_proof 11 0 solo_farm).1.miners
solo_submit_stops_example =
    solo_submit_stops 11 0 solo_farm refl refl (λ e. cc) ((refl, refl), ((refl, refl), tt))
