-- ===== src/Worker.antt =====
-- `Worker` (libdevcore/Worker.h, Worker.cpp): a thread that is started, stopped and ended by calls that
-- wait for it. The thread and the caller take turns in any order; a turn is a read or an exchange of the
-- atomic state, or a round of the work. The calls hold a lock, so there is one caller at a time.
pub mod Finite
pub mod Rest
pub mod Waits
use mvis_tokenminer.Prelude.{Bool, true, false, ◌≡◌, List, [], ◌∷◌}

pub data WorkerState : Type 0 where
  starting : WorkerState
  started : WorkerState
  stopping : WorkerState
  stopped : WorkerState
  killing : WorkerState

-- Where the thread is: not there (`m_work` is null), at the test of the outer loop, before the state is
-- exchanged for `Started`, in the work loop, behind it, before the state that was found is put back,
-- in the loop that waits while it is stopped, at its end.
pub data Thread : Type 0 where
  absent : Thread
  top : Thread
  claiming : Thread
  working : Thread
  leaving : Thread
  restoring : WorkerState → Thread
  idle : Thread
  exited : Thread

-- What the caller waits for.
pub data Caller : Type 0 where
  free : Caller
  in_start : Caller
  in_stop : Caller
  in_terminate : Caller

pub record Worker : Type 0 where
  pub state : WorkerState
  pub thread : Thread
  pub caller : Caller

abbrev pub new_worker : Worker
new_worker = record { state = starting; thread = absent; caller = free }

-- `compare_exchange_strong(ex, next)`
abbrev pub exchange_from : WorkerState → WorkerState → WorkerState → WorkerState
exchange_from starting next starting = next
exchange_from started next started = next
exchange_from stopping next stopping = next
exchange_from stopped next stopped = next
exchange_from killing next killing = next
exchange_from _ next state = state

-- A turn of the thread; the work of a round may throw.
unfoldable pub thread_turn : Bool → WorkerState → Thread → WorkerState × Thread
thread_turn throws state absent = (state, absent)
thread_turn throws killing top = (killing, exited)
thread_turn throws state top = (state, claiming)
thread_turn throws state claiming = (exchange_from starting started state, working)
thread_turn true state working = (state, leaving)
thread_turn false started working = (started, working)
thread_turn false state working = (state, leaving)
thread_turn throws state leaving = (stopped, restoring state)
thread_turn throws state (restoring killing) = (killing, idle)
thread_turn throws state (restoring starting) = (starting, idle)
thread_turn throws state (restoring found) = (state, idle)
thread_turn throws stopped idle = (stopped, idle)
thread_turn throws state idle = (state, top)
thread_turn throws state exited = (state, exited)

unfoldable pub run_thread : Bool → Worker → Worker
run_thread throws w =
    let (state, thread) = thread_turn throws w.state w.thread in
    record w { state = state; thread = thread }

pub data Call : Type 0 where
  start : Call
  stop : Call
  terminate : Call

-- `startWorking`, `stopWorking` and `terminate`, up to the wait.
unfoldable pub enter : Call → WorkerState → Thread → WorkerState × Thread × Caller
enter start state absent = (starting, top, in_start)
enter start state thread = (exchange_from stopped starting state, thread, in_start)
enter stop state absent = (state, absent, free)
enter stop state thread = (exchange_from started stopping state, thread, in_stop)
enter terminate state absent = (state, absent, free)
enter terminate state thread = (killing, thread, in_terminate)

unfoldable pub begin_call : Call → Worker → Worker
begin_call c w =
    let (state, thread, caller) = enter c w.state w.thread in
    record { state = state; thread = thread; caller = caller }

-- Whether the wait of the caller is over.
unfoldable pub is_over : Worker → Bool
is_over w = over w.caller w.state w.thread
  where
    over : Caller → WorkerState → Thread → Bool
    over free state thread = false
    over in_start starting thread = false
    over in_start state thread = true
    over in_stop stopped thread = true
    over in_stop state thread = false
    over in_terminate state exited = true
    over in_terminate state thread = false

-- The end of a call; `terminate` resets `m_work`.
unfoldable pub end_call : Worker → Worker
end_call w = ended w.caller
  where
    ended : Caller → Worker
    ended in_terminate = record w { thread = absent; caller = free }
    ended caller = record w { caller = free }

pub data Step (w : Worker) : Worker → Type 0 where
  turn : (throws : Bool) → Step w (run_thread throws w)
  call : (c : Call) → w.caller ≡ free → Step w (begin_call c w)
  returns : is_over w ≡ true → Step w (end_call w)

pub data Reach (w : Worker) : Worker → Type 0 where
  here : Reach w w
  next : {u v : Worker} → Reach w u → Step u v → Reach w v
