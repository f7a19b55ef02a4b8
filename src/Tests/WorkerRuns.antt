-- ===== src/Tests/WorkerRuns.antt =====
-- Runs of a worker and its thread (libdevcore/Worker.cpp).
use mvis_tokenminer.Prelude.{ℕ, ◌≤◌, ◌≡◌, ◌≢◌, refl, true, false, replicate, take}
use mvis_tokenminer.Worker.{Worker, new_worker, run_thread, thread_turn, begin_call, enter, is_over}
use mvis_tokenminer.Worker.{end_call, start, stop, Reach, here, next, turn, call, returns}
use mvis_tokenminer.Worker.{free, stopped}
use mvis_tokenminer.Worker.Rest.{quiet, later, is_busy, stopped-not_busy}
use mvis_tokenminer.Worker.Waits.{turns, waits-end}

abbrev first_start : Worker
first_start = begin_call start new_worker

abbrev claimed : Worker
claimed = run_thread false (run_thread false first_start)

claimed_over : is_over claimed ≡ true
unfolding is_over run_thread thread_turn begin_call enter
claimed_over = refl

claimed_free : (end_call claimed).caller ≡ free
unfolding end_call run_thread thread_turn begin_call enter
claimed_free = refl

abbrev asked_to_stop : Worker
asked_to_stop = begin_call stop (end_call claimed)

abbrev left : Worker
left = run_thread false (run_thread false asked_to_stop)

left_over : is_over left ≡ true
unfolding is_over end_call run_thread thread_turn begin_call enter
left_over = refl

left-stopped : (end_call left).state ≡ stopped
unfolding end_call run_thread thread_turn begin_call enter
left-stopped = refl

left_free : (end_call left).caller ≡ free
unfolding end_call run_thread thread_turn begin_call enter
left_free = refl

Reach-claimed : Reach new_worker claimed
Reach-claimed = next (next (next here (call start refl)) (turn false)) (turn false)

Reach-asked : Reach new_worker asked_to_stop
Reach-asked = next (next Reach-claimed (returns claimed_over)) (call stop claimed_free)

Reach-left : Reach new_worker (end_call left)
Reach-left = next (next (next Reach-asked (turn false)) (turn false)) (returns left_over)

stopped-not_busy_example : is_busy (run_thread false (end_call left)).thread ≡ false
stopped-not_busy_example =
    stopped-not_busy Reach-left left-stopped left_free (later quiet (turn false) tt)

asked_waits : asked_to_stop.caller ≢ free
unfolding end_call run_thread thread_turn begin_call enter
asked_waits e = cc (e)

waits-end_example :
    (k : ℕ) × (k ≤ 8) × (is_over (turns (take k (replicate 8 true)) asked_to_stop) ≡ true)
waits-end_example = waits-end (replicate 8 true) Reach-asked asked_waits refl
