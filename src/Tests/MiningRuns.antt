-- ===== src/Tests/MiningRuns.antt =====
-- Runs of miners and their searches (libethash-cl/ethash_cl_miner.cpp, libethcore/EthashCPUMiner.cpp,
-- EthashGPUMiner.cpp).
use mvis_tokenminer.Prelude.{ℕ, ◌*◌, ◌≤◌, ◌≡◌, refl, arith, true, false}
use mvis_tokenminer.Prelude.{List, [], ◌∷◌, ◌++◌, map, length, replicate}
use mvis_tokenminer.Gpu.{
  Job, Slice, Turn, check_throttle_change, sleep, delay, forget, buffer, set_buffer, low_bytes,
  stitch, enqueue, queue_up,
}
use mvis_tokenminer.Gpu.Pipeline.{
  Work, Call, new_search, job_of, is_empty, read_batch, read_first, read_results, after_sleep, turn,
  turns, begin_search, search_call, searches,
}
use mvis_tokenminer.Gpu.Refinement.{results}
use mvis_tokenminer.Gpu.Order.{searches_in_order}
use mvis_tokenminer.Mining.{Task, cpu_loop, hook_found}
use mvis_tokenminer.Mining.Solo.{
  tried, first_solution, submit_first, hook_found_solo, cpu_loop-hook_found,
}
use mvis_tokenminer.Mining.Hook.{Hook, new_hook, kick_off, pause_search, failed}
use mvis_tokenminer.Mining.Hook.{in_abort}
use mvis_tokenminer.Mining.Waiting.{no_turn, pause_after_failure}
use mvis_tokenminer.Tests.FarmRuns.{solo_farm}

abbrev nonce_of : ℕ → List ℕ
nonce_of n = replicate 31 0 ++ n ∷ []

-- A kernel that finds the number of its run, in the last byte of the nonce.
abbrev kernel : Job → List ℕ
kernel j = length j.account ∷ []

abbrev work_for : ℕ → Work
work_for n = record { challenge = 7 ∷ []; account = replicate n 1; target = 1000 }

abbrev turn_with : ℕ → List Slice → ℕ → Turn
turn_with seen slices n = record {
  seen = seen;
  slices = slices;
  nonce = nonce_of n;
  elapsed = 50;
  found_stops = false;
  searched_stops = false;
}

abbrev call_with : ℕ → List Turn → Call
call_with n ts = record { work = work_for n; seen = 0; turns_of = ts }

abbrev two_calls : List Call
two_calls =
    call_with 3 (
      turn_with 0 [] 1
      ∷ turn_with 0 [] 2
      ∷ turn_with 50 (record { seen = 50; stops = false } ∷ []) 3
      ∷ [])
    ∷ call_with 4 (turn_with 0 [] 4 ∷ turn_with 0 [] 5 ∷ [])
    ∷ []

searches_in_order_example :
    (done : List Job) × (flight : List Job) × ((searches kernel two_calls new_search).queued
      ≡ done ++ flight)
    × (length flight ≤ 1)
    × ((searches kernel two_calls new_search).read ≡ map (results kernel) done)
searches_in_order_example =
    searches_in_order kernel two_calls
      ((omega arith, (omega arith, (omega arith, tt))), ((omega arith, (omega arith, tt)), tt))

-- A throttle of 100 percent forgets a run but not what its buffer holds: a run of later work that uses
-- the buffer again reads the solution of the one that was forgotten as its own.
abbrev forgetful : List Call
forgetful =
    call_with 3 (turn_with 0 [] 1 ∷ turn_with 100 (record { seen = 100; stops = true } ∷ []) 2 ∷ [])
    ∷ call_with 4 (turn_with 0 [] 4 ∷ turn_with 0 [] 5 ∷ [])
    ∷ call_with 5 (turn_with 0 [] 6 ∷ [])
    ∷ []

forgetful_mixes :
    (searches kernel forgetful new_search).read
    ≡ (stitch (nonce_of 4) 4 ∷ []) ∷ (stitch (nonce_of 5) 3 ∷ stitch (nonce_of 5) 4 ∷ []) ∷ []
unfolding searches search_call turns turn check_throttle_change after_sleep read_results queue_up
    begin_search enqueue set_buffer sleep delay forget read_first read_batch is_empty job_of buffer
    low_bytes stitch
forgetful_mixes = refl

abbrev keccak : List ℕ → List ℕ → ℕ → ℕ
keccak challenge account nonce = nonce * 100

abbrev task : Task
task = record { index = 1; challenge = 7 ∷ []; account = []; target = 1000 }

hook_found_solo_example :
    hook_found keccak task false (30 ∷ 5 ∷ 4 ∷ []) solo_farm
    ≡ submit_first keccak task (first_solution keccak task (30 ∷ 5 ∷ 4 ∷ [])) false solo_farm
hook_found_solo_example = hook_found_solo keccak task false (30 ∷ 5 ∷ 4 ∷ []) solo_farm refl

cpu_loop-hook_found_example :
    cpu_loop keccak task (replicate 3 false ++ true ∷ false ∷ []) 20 solo_farm
    ≡ hook_found keccak task true (tried 3 20) solo_farm
cpu_loop-hook_found_example = cpu_loop-hook_found keccak task 3 20 (false ∷ []) solo_farm

-- Started, and asked to pause before the search looks.
abbrev asked : Hook
asked = pause_search (kick_off new_hook)

pause_after_failure_example : (pause_search (failed (kick_off new_hook))).caller ≡ in_abort
unfolding kick_off
pause_after_failure_example =
    pause_after_failure (kick_off new_hook) (pause_search (failed (kick_off new_hook))) refl refl
      no_turn
