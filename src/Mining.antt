-- ===== src/Mining.antt =====
-- What miners do with nonces: the work loop of a CPU miner (libethcore/EthashCPUMiner.cpp: workLoop),
-- and what a GPU miner does with the nonces that its search found (libethcore/EthashGPUMiner.cpp:
-- report, EthashCLHook::found). The hash is an argument, and so is what `shouldStop` says.
pub mod Solo
pub mod Hook
pub mod Waiting
use mvis_tokenminer.Prelude.{ℕ, ◌+◌, ◌%◌, ◌^◌, List, [], ◌∷◌, Bool, true, false, ltb}
use mvis_tokenminer.Farm.{Farm, miner_submit_proof}

-- A miner's place in the farm, its challenge and target, and `hashingAcct` of the farm.
pub record Task : Type 0 where
  pub index : ℕ
  pub challenge : List ℕ
  pub account : List ℕ
  pub target : ℕ

-- A submission that does not end the work is followed by the rest.
pub or_rest : Bool × Farm → (Farm → Bool × Farm) → Bool × Farm
or_rest (true, f) rest = (true, f)
or_rest (false, f) rest = rest f

module _ (keccak : List ℕ → List ℕ → ℕ → ℕ) (task : Task) where
  pub is_solution : ℕ → Bool
  is_solution nonce = ltb (keccak task.challenge task.account nonce) task.target

  -- `report`, and the test in the loop of the CPU: a nonce whose hash is below the target is submitted.
  unfoldable pub report : Bool → ℕ → Farm → Bool × Farm
  report true nonce f = miner_submit_proof nonce task.index f
  report false nonce f = (false, f)

  -- `found`: the nonces in their order, until one ends the search; then what `shouldStop` says.
  pub hook_found : Bool → List ℕ → Farm → Bool × Farm
  hook_found stops [] f = (stops, f)
  hook_found stops (nonce ∷ nonces) f =
      or_rest (report (is_solution nonce) nonce f) (hook_found stops nonces)

  -- `workLoop` of the CPU, for as many rounds as there are answers of `shouldStop`: whether the loop
  -- was left, and the farm.
  pub cpu_loop : List Bool → ℕ → Farm → Bool × Farm
  cpu_loop [] nonce f = (false, f)
  cpu_loop (true ∷ answers) nonce f = (true, f)
  cpu_loop (false ∷ answers) nonce f =
      or_rest (report (is_solution nonce) nonce f) (cpu_loop answers ((nonce + 1) % 2 ^ 256))
