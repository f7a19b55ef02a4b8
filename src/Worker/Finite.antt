-- ===== src/Worker/Finite.antt =====
-- Checking a fact about a worker at every value of its parts.
use mvis_tokenminer.Prelude.{Bool, true, false, ◌≡◌, ◌&&◌, ap, arith}
use mvis_tokenminer.Worker.{Worker, WorkerState, starting, started, stopping, stopped, killing}
use mvis_tokenminer.Worker.{
  Thread, absent, top, claiming, working, leaving, restoring, idle, exited,
}
use mvis_tokenminer.Worker.{Caller, free, in_start, in_stop, in_terminate}

abbrev all_states : (WorkerState → Bool) → Bool
all_states p = p starting && (p started && (p stopping && (p stopped && p killing)))

abbrev all_threads : (Thread → Bool) → Bool
all_threads p =
    p absent
    && (p top
        && (p claiming
            && (p working
                && (p leaving && (all_states (λ s. p (restoring s)) && (p idle && p exited))))))

abbrev all_callers : (Caller → Bool) → Bool
all_callers p = p free && (p in_start && (p in_stop && p in_terminate))

abbrev pub all_workers : (Worker → Bool) → Bool
all_workers p =
    all_states
      (λ s. all_threads (λ t. all_callers (λ c. p (record { state = s; thread = t; caller = c }))))

states_sound : (p : WorkerState → Bool) (s : WorkerState) → all_states p ≡ true → p s ≡ true
states_sound p starting h = ground (arith, h)
states_sound p started h = ground (arith, h)
states_sound p stopping h = ground (arith, h)
states_sound p stopped h = ground (arith, h)
states_sound p killing h = ground (arith, h)

threads_sound : (p : Thread → Bool) (t : Thread) → all_threads p ≡ true → p t ≡ true
threads_sound p absent h = ground (arith, h)
threads_sound p top h = ground (arith, h)
threads_sound p claiming h = ground (arith, h)
threads_sound p working h = ground (arith, h)
threads_sound p leaving h = ground (arith, h)
threads_sound p (restoring s) h = states_sound (λ s. p (restoring s)) s (ground (arith, h))
threads_sound p idle h = ground (arith, h)
threads_sound p exited h = ground (arith, h)

callers_sound : (p : Caller → Bool) (c : Caller) → all_callers p ≡ true → p c ≡ true
callers_sound p free h = ground (arith, h)
callers_sound p in_start h = ground (arith, h)
callers_sound p in_stop h = ground (arith, h)
callers_sound p in_terminate h = ground (arith, h)

-- What is checked at all values holds.
pub workers_sound : (p : Worker → Bool) (w : Worker) → all_workers p ≡ true → p w ≡ true
workers_sound p w h =
    callers_sound (λ c. p (record w { caller = c })) w.caller
      (threads_sound (λ t. all_callers (λ c. p (record w { thread = t; caller = c }))) w.thread
        (states_sound
          (λ s.
            all_threads (λ t. all_callers (λ c. p (record { state = s; thread = t; caller = c }))))
          w.state h))

-- A fact that follows from another at all values.
infix 20 ◌implies◌
abbrev pub ◌implies◌ : Bool → Bool → Bool
true implies b = b
false implies b = true

implied : (a b : Bool) → (a implies b) ≡ true → a ≡ true → b ≡ true
implied a b h k = ground (arith, h, k)

-- From a check of what follows, at a worker of which the first is known.
pub follows :
    (p q : Worker → Bool) (w : Worker)
    → all_workers (λ u. p u implies q u) ≡ true
    → p w ≡ true
    → q w ≡ true
follows p q w h k = implied (p w) (q w) (workers_sound (λ u. p u implies q u) w h) k

abbrev pub is_free : Caller → Bool
is_free free = true
is_free in_start = false
is_free in_stop = false
is_free in_terminate = false

pub is_free_of : (c : Caller) → c ≡ free → is_free c ≡ true
is_free_of c h = ap is_free h

pub both : (a b : Bool) → a ≡ true → b ≡ true → (a && b) ≡ true
both a b h k = ground (arith, h, k)
