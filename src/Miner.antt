-- ===== src/Miner.antt =====
-- libethcore/Miner.h: the modes, the solution counters and the state of one miner that the farm
-- reads and writes. A hash or a target is the number that it stands for, and the work of a miner's
-- thread is whether it runs.
use mvis_tokenminer.Prelude.{ℕ, ◌+◌, ◌-◌, ◌%◌, ◌^◌, Bool, true, false, List, [], ◌∷◌}

-- `OperationMode`
pub data OperationMode : Type 0 where
  none_mode benchmark solo pool : OperationMode

-- `SolutionState`
pub data SolutionState : Type 0 where
  accepted rejected failed : SolutionState

-- `SolutionStats`; the counters are `unsigned`.
pub record SolutionStats : Type 0 where
  pub accepts : ℕ
  pub rejects : ℕ
  pub failures : ℕ
  pub accepted_stales : ℕ
  pub rejected_stales : ℕ

abbrev pub u32 : ℕ → ℕ
u32 n = n % 2 ^ 32

-- `accepted()`, `acceptedStale()`, `rejected()`, `rejectedStale()`, `failed()`
unfoldable pub count_accepted : SolutionStats → SolutionStats
count_accepted s = record s { accepts = u32 (s.accepts + 1) }

unfoldable pub count_accepted_stale : SolutionStats → SolutionStats
count_accepted_stale s = record s { accepted_stales = u32 (s.accepted_stales + 1) }

unfoldable pub count_rejected : SolutionStats → SolutionStats
count_rejected s = record s { rejects = u32 (s.rejects + 1) }

unfoldable pub count_rejected_stale : SolutionStats → SolutionStats
count_rejected_stale s = record s { rejected_stales = u32 (s.rejected_stales + 1) }

unfoldable pub count_failed : SolutionStats → SolutionStats
count_failed s = record s { failures = u32 (s.failures + 1) }

-- `~uint64_t(0)`
abbrev pub no_hash : ℕ
no_hash = 2 ^ 64 - 1

-- The fields of `GenericMiner` that the farm's calls touch. `working` is the state of its thread.
pub record Miner : Type 0 where
  pub index : ℕ
  pub challenge : List ℕ
  pub target : ℕ
  pub working : Bool
  pub best_hash : ℕ
  pub throttle : ℕ

-- `kickOff()` and `pause()` start and stop the thread.
unfoldable pub kick_off : Miner → Miner
kick_off m = record m { working = true }

unfoldable pub pause : Miner → Miner
pause m = record m { working = false }

-- What `setWork` does to the thread, by the old challenge and the new one.
unfoldable pub switch_thread : List ℕ → List ℕ → Miner → Miner
unfolding kick_off pause
switch_thread old [] m = elim old [ [] ↦ m | _ ∷ _ ↦ pause m ]
switch_thread old (b ∷ c) m = kick_off (pause m)

-- `GenericMiner::setWork`. Clearing the nonces searched is the farm's, in `Farm.set_miner_work`.
unfoldable pub set_miner_work : List ℕ → ℕ → Miner → Miner
unfolding switch_thread
set_miner_work c t m = switch_thread m.challenge c (record m { challenge = c; target = t })

-- `GenericMiner::resetBestHash`
unfoldable pub reset_miner_hash : Miner → Miner
reset_miner_hash m = record m { best_hash = no_hash }
