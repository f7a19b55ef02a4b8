-- ===== src/Session.antt =====
-- The outer loop of `doGetWork` (ethminer/MinerAux.h): polls, solutions that are judged and sent, errors
-- of the connection, and when it is left for the failover node. The calls of the node and of the pool
-- are outside: a step says how they end.
pub mod Outage
pub mod Sent
use mvis_tokenminer.Prelude.{ℕ, ◌+◌, List, [], ◌∷◌, Option, none, some}
use mvis_tokenminer.Prelude.{Bool, true, false, ltb, ◌==◌, if◌then◌else◌, Result, ok, err}
use mvis_tokenminer.Miner.{OperationMode, accepted}
use mvis_tokenminer.Farm.{Farm, set_work, record_solution, solution_found}
use mvis_tokenminer.MainLoop.{MainLoop, LoopError, Answer, poll, after_error}
use mvis_tokenminer.Options.{Settings, fail_over_available}
use mvis_tokenminer.Stratum.{stop_work_at}

-- How a call of `submitWorkPool` or `submitWorkSolo` ends: the pool or the node takes what is submitted;
-- the pool refuses it, which is only logged; the call returns without submitting, since another miner has
-- the challenge; it throws a `JsonRpcException`, or another exception.
pub data Delivery : Type 0 where
  delivered : Delivery
  refused : Delivery
  left_out : Delivery
  rpc_error : Delivery
  other_error : Delivery

-- What `submitWorkPool` or `submitWorkSolo` is called with, the target at that time, and how the call ends.
pub record Sending : Type 0 where
  pub challenge : List ℕ
  pub account : List ℕ
  pub solution : ℕ
  pub hash : ℕ
  pub target : ℕ
  pub delivery : Delivery

-- The local variables of `doGetWork`; `account` is `hashingAcct` of the farm, `calls`
-- the calls of `submitWorkPool` or `submitWorkSolo`, however they ended, the last first, and `open` says that the loop is not left.
pub record Session : Type 0 where
  pub loop : MainLoop
  pub account : List ℕ
  pub farm_retries : ℕ
  pub connected : Bool
  pub calls : List Sending
  pub open_loop : Bool

unfoldable pub max_retries : Settings → ℕ
max_retries s = if fail_over_available s then s.max_farm_retries else stop_work_at

-- A poll that is answered, with the account to mine for. An exception of the arithmetic is caught
-- before the work is changed.
pub answer_taken : Answer → List ℕ → Session → Result LoopError MainLoop → Session
answer_taken a account s (err e) = record s { account = account; loop = after_error a s.loop }
answer_taken a account s (ok l) = record s {
  loop = l;
  account = account;
  connected = true;
  farm_retries = 0;
}

pub answered : Answer → List ℕ → Session → Session
answered a account s = answer_taken a account s (poll a s.loop)

-- `catch (jsonrpc::JsonRpcException& e)`: after enough errors in a row mining is paused, and the loop is
-- left if there is another node.
pub pause_work : MainLoop → MainLoop
pause_work l = record l { challenge = []; farm = set_work [] l.target l.farm }

pub rpc_failed : Settings → Session → Session
rpc_failed p s =
    if s.farm_retries + 1 == max_retries p
    then record s {
      connected = false;
      farm_retries = s.farm_retries + 1;
      loop = pause_work s.loop;
      open_loop = if fail_over_available p then false else s.open_loop;
    }
    else record s { connected = false; farm_retries = s.farm_retries + 1 }

-- `f.recordSolution(SolutionState::Accepted, stale, solutionMiner)`
pub recorded : Bool → Session → Session
recorded stale s = record s {
  loop = record s.loop { farm = record_solution accepted stale s.loop.farm };
}

-- What follows a call. Wherever it returns the solution counts as accepted; an exception that is not of
-- JSON-RPC is caught and logged.
pub hand_over : Settings → Delivery → Session → Session
hand_over p delivered s = recorded false s
hand_over p refused s = recorded false s
hand_over p left_out s = recorded false s
hand_over p rpc_error s = rpc_failed p s
hand_over p other_error s = s

-- A solution is handed over if its hash is below the target, and is counted as stale if not.
pub judge : Settings → (List ℕ → List ℕ → ℕ → ℕ) → ℕ → Delivery → Session → Session
judge p keccak solution d s =
    let hash = keccak s.loop.challenge s.account solution in
    if ltb hash s.loop.target
    then hand_over p d (record s {
      calls =
          record {
            challenge = s.loop.challenge;
            account = s.account;
            solution = solution;
            hash = hash;
            target = s.loop.target;
            delivery = d;
          }
          ∷ s.calls;
    })
    else recorded true s

-- `f.solutionFound(solution, solutionMiner)`
pub found : Settings → (List ℕ → List ℕ → ℕ → ℕ) → Delivery → Option (ℕ × ℕ) → Session → Session
found p keccak d none s = s
found p keccak d (some (solution, i)) s = judge p keccak solution d s

pub take_found : Settings → (List ℕ → List ℕ → ℕ → ℕ) → Delivery → Session → Session
take_found p keccak d s =
    found p keccak d (solution_found s.loop.farm).0
      (record s { loop = record s.loop { farm = (solution_found s.loop.farm).1 } })
