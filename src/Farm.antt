-- ===== src/Farm.antt =====
-- libethcore/Farm.h: `GenericFarm`, the part that owns the miners, hands their solutions to the main
-- loop and keeps the session's statistics. Each method holds its locks while it runs, so a run of
-- the threads is a sequence of calls. A pointer to a miner is its index.
pub mod Handoff
pub mod Work
pub mod Records
pub mod Stats
use mvis_tokenminer.Prelude.{ℕ, zero, suc, ◌+◌, ◌-◌, ◌%◌, ◌^◌, Bool, true, false, not, ◌&&◌}
use mvis_tokenminer.Prelude.{Option, none, some, List, [], ◌∷◌, ◌++◌, map}
use mvis_tokenminer.Prelude.{ltb, ◌==◌, if◌then◌else◌, length, set, get_or, replicate, list_eq}
use mvis_tokenminer.Miner.{OperationMode, none_mode, benchmark, solo, pool}
use mvis_tokenminer.Miner.{SolutionState, accepted, rejected, failed, SolutionStats, u32}
use mvis_tokenminer.Miner.{count_accepted, count_accepted_stale, count_rejected}
use mvis_tokenminer.Miner.{count_rejected_stale, count_failed, no_hash}
use mvis_tokenminer.Miner.{Miner, pause, set_miner_work, reset_miner_hash}

-- What the farm writes to the data logger (ethminer/DataLogger.cpp).
pub data Entry : Type 0 where
  best_hash_entry : ℕ → Entry
  close_hit_entry : ℕ → ℕ → ℕ → Entry
  hash_fault_entry : ℕ → Entry

-- The fields of `GenericFarm`. `solution_miner` is `none` where the code has -1. `used_nonces` is the
-- static set of `storeNonceIndex`, and `log` is what went to the data logger, the latest first.
pub record Farm : Type 0 where
  pub miners : List Miner
  pub target : ℕ
  pub challenge : List ℕ
  pub op_mode : OperationMode
  pub is_mining : Bool
  pub hash_faults : List ℕ
  pub best_hash : ℕ
  pub stats : SolutionStats
  pub close_hits : ℕ
  pub last_close_hit : ℕ
  pub solution : ℕ
  pub solution_miner : Option ℕ
  pub used_nonces : List ℕ
  pub log : List Entry

unfoldable pub is_solo : OperationMode → Bool
is_solo solo = true
is_solo _ = false

-- `set<unsigned>::insert` of `storeNonceIndex`: the index is cut to 32 bits.
pub contains : ℕ → List ℕ → Bool
contains n [] = false
contains n (x ∷ xs) = if n == x then true else contains n xs

-- `storeNonceIndex(_nonceIndex, _clear)`
pub store_nonce_index : ℕ → Bool → Farm → Bool × Farm
store_nonce_index n true f = (true, record f { used_nonces = [] })
store_nonce_index n false f =
    if contains (u32 n) f.used_nonces
    then (false, f)
    else (true, record f { used_nonces = u32 n ∷ f.used_nonces })

-- The nonces that stay stored when the miners of the list are given work: the miner of index 0
-- clears them.
pub kept_nonces : List Miner → List ℕ → List ℕ
kept_nonces [] used = used
kept_nonces (m ∷ ms) used = kept_nonces ms (if m.index == 0 then [] else used)

-- `for (auto const& m : m_miners) m->setWork(...)`
pub set_all_work : List ℕ → ℕ → List Miner → List Miner
set_all_work c t ms = map (set_miner_work c t) ms

-- `setWork`
unfoldable pub set_work : List ℕ → ℕ → Farm → Farm
set_work c t f = if list_eq c f.challenge && t == f.target then f else record f {
  challenge = c;
  target = t;
  miners = set_all_work c t f.miners;
  used_nonces = kept_nonces f.miners f.used_nonces;
}

-- `start(_miners)`; the best hash comes from the data logger.
pub start : List Miner → ℕ → Farm → Farm
start ms retrieved f = record f {
  miners = ms;
  hash_faults = replicate (length ms) 0;
  best_hash = retrieved;
}

pub pause_mining : Farm → Farm
pause_mining f = record f { miners = map pause f.miners }

pub stop : Farm → Farm
stop f = record f { miners = []; is_mining = false }

pub set_is_mining : Bool → Farm → Farm
set_is_mining b f = record f { is_mining = b }

-- `suggestBestHash`
pub suggest_best_hash : ℕ → Farm → Farm
suggest_best_hash bh f =
    if ltb bh f.best_hash then record f { best_hash = bh; log = best_hash_entry bh ∷ f.log } else f

-- `GenericMiner::setBestHash` of the miner at a place of the list.
pub set_at : ℕ → (Miner → Miner) → List Miner → List Miner
set_at i g [] = []
set_at zero g (m ∷ ms) = g m ∷ ms
set_at (suc i) g (m ∷ ms) = m ∷ set_at i g ms

pub set_best_hash : ℕ → ℕ → Farm → Farm
set_best_hash i bh f =
    let g = suggest_best_hash bh f in
    record g { miners = set_at i (λ m. record m { best_hash = bh }) g.miners }

-- `resetBestHash`
pub reset_best_hash : Farm → Farm
reset_best_hash f = record f { miners = map reset_miner_hash f.miners; best_hash = no_hash }

-- `reportCloseHit`; `delivered` says whether a handler is set and took the event.
pub report_close_hit : Bool → ℕ → ℕ → ℕ → Farm → Farm
report_close_hit delivered hit work miner f =
    let g = record f { close_hits = u32 (f.close_hits + 1); last_close_hit = hit } in
    if not delivered then record g { log = close_hit_entry hit work miner ∷ g.log } else g

-- `reportHashFault`
pub report_hash_fault : Bool → ℕ → Farm → Farm
report_hash_fault delivered miner f =
    let faults = set f.hash_faults miner (get_or f.hash_faults miner 0 + 1) in
    let g = record f { hash_faults = faults } in
    if not delivered then record g { log = hash_fault_entry miner ∷ g.log } else g

-- The counter that `recordSolution` raises.
pub count_solution : SolutionState → Bool → SolutionStats → SolutionStats
count_solution accepted stale s = if stale then count_accepted_stale s else count_accepted s
count_solution rejected stale s = if stale then count_rejected_stale s else count_rejected s
count_solution failed stale s = count_failed s

-- `recordSolution`
pub record_solution : SolutionState → Bool → Farm → Farm
record_solution state stale f =
    reset_best_hash (record f { stats = count_solution state stale f.stats })

-- `anyThrottling`
pub throttle_sum : List Miner → ℕ
throttle_sum [] = 0
throttle_sum (m ∷ ms) = m.throttle + throttle_sum ms

pub any_throttling : Farm → Bool
any_throttling f = ltb 0 (throttle_sum f.miners)

-- The loop of `submitProof` in solo mode: all miners but the one with the solution get the empty
-- challenge.
pub stop_others : ℕ → ℕ → List Miner → List Miner
stop_others i t [] = []
stop_others i t (m ∷ ms) =
    (if not (m.index == i) then set_miner_work [] t m else m) ∷ stop_others i t ms

pub others : ℕ → List Miner → List Miner
others i [] = []
others i (m ∷ ms) = if not (m.index == i) then m ∷ others i ms else others i ms

-- The state after `submitProof` took the solution.
unfoldable pub take_solution : ℕ → ℕ → Farm → Farm
take_solution nonce i f =
    let g = record f { solution_miner = some i; solution = nonce } in
    if is_solo f.op_mode
    then record g {
      challenge = [];
      miners = stop_others i f.target f.miners;
      used_nonces = kept_nonces (others i f.miners) f.used_nonces;
    }
    else g

-- `GenericFarm::submitProof`: whether the miner should stop, and the new state.
unfoldable pub submit_proof : ℕ → ℕ → Farm → Bool × Farm
submit_proof nonce i f = elim f.solution_miner [
  | none ↦ (is_solo f.op_mode, take_solution nonce i f)
  | some j ↦ (is_solo f.op_mode, f)
]

-- The challenge of the miner with the index is cleared.
pub clear_challenge : ℕ → List Miner → List Miner
clear_challenge i [] = []
clear_challenge i (m ∷ ms) =
    (if m.index == i then record m { challenge = [] } else m) ∷ clear_challenge i ms

-- `GenericMiner::submitProof(h256)` of a miner that has a farm.
unfoldable pub miner_submit_proof : ℕ → ℕ → Farm → Bool × Farm
miner_submit_proof nonce i f =
    let (should_stop, g) = submit_proof nonce i f in
    if should_stop then (true, record g { miners = clear_challenge i g.miners }) else (false, g)

-- `solutionFound`: the solution with its miner, if there is one, and the new state.
unfoldable pub solution_found : Farm → Option (ℕ × ℕ) × Farm
solution_found f = elim f.solution_miner [
  | none ↦ (none, f)
  | some i ↦ (some (f.solution, i), record f { solution_miner = none })
]
