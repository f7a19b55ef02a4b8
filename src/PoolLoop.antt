-- ===== src/PoolLoop.antt =====
-- The loop that mines through a stratum client (ethminer/MinerAux.h: doStratum): the work that the
-- client has goes to the farm, and the solutions of the farm go to the client. An exception of the
-- arithmetic is not caught there.
pub mod Following
pub mod Runs
use mvis_tokenminer.Prelude.{ℕ, ◌-◌, List, [], ◌∷◌, Option, none, some, Result, ok, err, ◌>>=◌}
use mvis_tokenminer.Prelude.{Bool, true, false, not, ◌&&◌, ltb, ◌==◌, if◌then◌else◌, list_eq}
use mvis_tokenminer.Miner.{accepted}
use mvis_tokenminer.Farm.{Farm, set_work, record_solution, solution_found}
use mvis_tokenminer.MainLoop.{LoopError, Choice, calc_final_target}
use mvis_tokenminer.MainLoop.Fee.{Fee, abs, switch_fee, share_account}
use mvis_tokenminer.Stratum.{Stratum, get_work, submit_work, switch_acct}

-- The local variables of `doStratum`, the farm with its `hashingAcct`, and the client.
pub record PoolLoop : Type 0 where
  pub challenge : List ℕ
  pub target : ℕ
  pub difficulty : ℕ
  pub account : List ℕ
  pub farm : Farm
  pub client : Stratum
  pub fee : Fee

-- `if (_challenge != challenge) { ... }` and `if (_target != target) { ... }`
unfoldable pub new_challenge : List ℕ → ℕ → PoolLoop → PoolLoop
new_challenge c t s =
    if not (list_eq c s.challenge)
    then record s { challenge = c; target = t; farm = set_work c t s.farm }
    else s

unfoldable pub new_target : ℕ → PoolLoop → PoolLoop
new_target t s =
    if t == s.target then s else record s { target = t; farm = set_work s.challenge t s.farm }

-- The switch between the user's account and the developer's, when its time has come.
unfoldable pub fee_due : ℕ → Fee → Bool
fee_due now fee = not (abs fee.next_switch == 0) && ltb (abs fee.next_switch) (now - fee.restarted)

unfoldable pub new_fee : List ℕ → List ℕ → ℕ → PoolLoop → PoolLoop
new_fee donation user now s =
    if fee_due now s.fee
    then record s {
      fee = switch_fee now s.fee;
      client = switch_acct (share_account donation user (switch_fee now s.fee)) s.client;
    }
    else s

-- A round of the inner loop: what `getWork` gives, the final target, and the farm's new work.
unfoldable pub adopt_work : List ℕ → ℕ → ℕ → PoolLoop → PoolLoop
adopt_work c t d s = new_target t (new_challenge c t (record s { difficulty = d }))

unfoldable pub pool_round : List ℕ → List ℕ → Choice → ℕ → PoolLoop → Result LoopError PoolLoop
pool_round donation user choice now s =
    let (c, t, d, account) = get_work s.client in
    calc_final_target choice (t, d) >>= λ final.
    ok (new_fee donation user now (adopt_work c final.0 final.1 (record s { account = account })))

-- A solution of the farm is submitted if its hash is below the target, and is counted as stale if not.
unfoldable pub count_share : Bool → PoolLoop → PoolLoop
count_share stale s = record s { farm = record_solution accepted stale s.farm }

-- The client gets the solution and its hash as texts.
unfoldable pub submit_share : List ℕ → List ℕ → Bool → PoolLoop → PoolLoop
submit_share nonce hash written s = record s {
  client = submit_work nonce hash s.challenge s.difficulty written s.client;
}

unfoldable pub pool_judge :
    (List ℕ → List ℕ → ℕ → ℕ) → (ℕ → List ℕ) → Bool → Option (ℕ × ℕ) → PoolLoop → PoolLoop
pool_judge keccak bytes written none s = s
pool_judge keccak bytes written (some (solution, i)) s =
    let hash = keccak s.challenge s.account solution in
    if ltb hash s.target
    then count_share false (submit_share (bytes solution) (bytes hash) written s)
    else count_share true s

unfoldable pub pool_take : (List ℕ → List ℕ → ℕ → ℕ) → (ℕ → List ℕ) → Bool → PoolLoop → PoolLoop
pool_take keccak bytes written s =
    pool_judge keccak bytes written (solution_found s.farm).0
      (record s { farm = (solution_found s.farm).1 })
