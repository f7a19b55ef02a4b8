-- ===== src/Worker/Rest.antt =====
-- A worker that was stopped does no work until it is started again (libdevcore/Worker.cpp).
use mvis_tokenminer.Prelude.{Bool, true, false, ◌≡◌, refl, ap, arith, ◌&&◌, not}
use mvis_tokenminer.Worker.{Worker, WorkerState, starting, started, stopping, stopped, killing}
use mvis_tokenminer.Worker.{
  Thread, absent, top, claiming, working, leaving, restoring, idle, exited,
}
use mvis_tokenminer.Worker.{Caller, free, in_start, in_stop, in_terminate, new_worker, run_thread}
use mvis_tokenminer.Worker.{
  Call, start, stop, terminate, begin_call, is_over, end_call, Step, Reach,
}
use mvis_tokenminer.Worker.{turn, call, returns, here, next, thread_turn, enter}
use mvis_tokenminer.Worker.Finite.{follows, is_free, is_free_of, both}

-- The values of the three parts that go together.
unfoldable pub fits : WorkerState → Thread → Caller → Bool
fits state absent free = true
fits starting top in_start = true
fits starting claiming in_start = true
fits starting (restoring started) in_start = true
fits starting (restoring stopping) in_start = true
fits starting idle in_start = true
fits started working free = true
fits started working in_start = true
fits started leaving free = true
fits started leaving in_start = true
fits stopping working in_stop = true
fits stopping leaving in_stop = true
fits stopped (restoring killing) in_terminate = true
fits stopped (restoring started) in_terminate = false
fits stopped (restoring stopping) in_terminate = false
fits stopped idle in_terminate = false
fits stopped (restoring started) caller = true
fits stopped (restoring stopping) caller = true
fits stopped idle caller = true
fits killing (restoring starting) in_terminate = false
fits killing (restoring stopped) in_terminate = false
fits killing (restoring killing) in_terminate = false
fits killing absent in_terminate = false
fits killing thread in_terminate = true
fits state thread caller = false

unfoldable pub is_consistent : Worker → Bool
is_consistent w = fits w.state w.thread w.caller

new_worker-consistent : is_consistent new_worker ≡ true
unfolding is_consistent fits
new_worker-consistent = refl

turn-consistent :
    (throws : Bool) (w : Worker)
    → is_consistent w ≡ true
    → is_consistent (run_thread throws w) ≡ true
unfolding is_consistent fits run_thread thread_turn
turn-consistent true w h = follows is_consistent (λ u. is_consistent (run_thread true u)) w refl h
turn-consistent false w h = follows is_consistent (λ u. is_consistent (run_thread false u)) w refl h

abbrev may_call : Worker → Bool
may_call w = is_consistent w && is_free w.caller

call-consistent :
    (c : Call) (w : Worker)
    → w.caller ≡ free
    → is_consistent w ≡ true
    → is_consistent (begin_call c w) ≡ true
unfolding is_consistent fits begin_call enter
call-consistent start w e h =
    follows may_call (λ u. is_consistent (begin_call start u)) w refl
      (both (is_consistent w) (is_free w.caller) h (is_free_of w.caller e))
call-consistent stop w e h =
    follows may_call (λ u. is_consistent (begin_call stop u)) w refl
      (both (is_consistent w) (is_free w.caller) h (is_free_of w.caller e))
call-consistent terminate w e h =
    follows may_call (λ u. is_consistent (begin_call terminate u)) w refl
      (both (is_consistent w) (is_free w.caller) h (is_free_of w.caller e))

end-consistent :
    (w : Worker) → is_over w ≡ true → is_consistent w ≡ true → is_consistent (end_call w) ≡ true
unfolding is_consistent fits end_call is_over
end-consistent w e h =
    follows (λ u. is_consistent u && is_over u) (λ u. is_consistent (end_call u)) w refl
      (both (is_consistent w) (is_over w) h e)

Step-consistent : {w u : Worker} → Step w u → is_consistent w ≡ true → is_consistent u ≡ true
Step-consistent {w = w} (turn throws) h = turn-consistent throws w h
Step-consistent {w = w} (call c e) h = call-consistent c w e h
Step-consistent {w = w} (returns e) h = end-consistent w e h

pub Reach-consistent : {w : Worker} → Reach new_worker w → is_consistent w ≡ true
Reach-consistent here = new_worker-consistent
Reach-consistent (next r s) = Step-consistent s (Reach-consistent r)

-- No call of `startWorking`.
abbrev pub IsQuiet : {w u : Worker} → Step w u → Type 0
IsQuiet (turn throws) = Unit
IsQuiet (call start e) = ⊥
IsQuiet (call stop e) = Unit
IsQuiet (call terminate e) = Unit
IsQuiet (returns e) = Unit

pub data QuietReach (w : Worker) : Worker → Type 0 where
  quiet : QuietReach w w
  later : {u v : Worker} → QuietReach w u → (s : Step u v) → IsQuiet s → QuietReach w v

-- The values while a worker is not started.
rests : WorkerState → Thread → Caller → Bool
rests state absent free = true
rests stopped (restoring started) free = true
rests stopped (restoring started) in_stop = true
rests stopped (restoring stopping) free = true
rests stopped (restoring stopping) in_stop = true
rests stopped idle free = true
rests stopped idle in_stop = true
rests killing (restoring started) in_terminate = true
rests killing (restoring stopping) in_terminate = true
rests killing idle in_terminate = true
rests killing top in_terminate = true
rests killing exited in_terminate = true
rests state place caller = false

is_resting : Worker → Bool
is_resting w = rests w.state w.thread w.caller

turn-resting :
    (throws : Bool) (w : Worker) → is_resting w ≡ true → is_resting (run_thread throws w) ≡ true
unfolding is_resting rests run_thread thread_turn
turn-resting true w h = follows is_resting (λ u. is_resting (run_thread true u)) w refl h
turn-resting false w h = follows is_resting (λ u. is_resting (run_thread false u)) w refl h

stop-resting :
    (w : Worker) → w.caller ≡ free → is_resting w ≡ true → is_resting (begin_call stop w) ≡ true
unfolding is_resting rests begin_call enter
stop-resting w e h =
    follows (λ u. is_resting u && is_free u.caller) (λ u. is_resting (begin_call stop u)) w refl
      (both (is_resting w) (is_free w.caller) h (is_free_of w.caller e))

terminate-resting :
    (w : Worker)
    → w.caller ≡ free
    → is_resting w ≡ true
    → is_resting (begin_call terminate w) ≡ true
unfolding is_resting rests begin_call enter
terminate-resting w e h =
    follows (λ u. is_resting u && is_free u.caller) (λ u. is_resting (begin_call terminate u)) w
      refl (both (is_resting w) (is_free w.caller) h (is_free_of w.caller e))

end-resting : (w : Worker) → is_over w ≡ true → is_resting w ≡ true → is_resting (end_call w) ≡ true
unfolding is_resting rests end_call is_over
end-resting w e h =
    follows (λ u. is_resting u && is_over u) (λ u. is_resting (end_call u)) w refl
      (both (is_resting w) (is_over w) h e)

Quiet-resting :
    {w u : Worker} (s : Step w u) → IsQuiet s → is_resting w ≡ true → is_resting u ≡ true
Quiet-resting {w = w} (turn throws) q h = turn-resting throws w h
Quiet-resting (call start e) q h = absurd q
Quiet-resting {w = w} (call stop e) q h = stop-resting w e h
Quiet-resting {w = w} (call terminate e) q h = terminate-resting w e h
Quiet-resting {w = w} (returns e) q h = end-resting w e h

QuietReach-resting : {w u : Worker} → is_resting w ≡ true → QuietReach w u → is_resting u ≡ true
QuietReach-resting h quiet = h
QuietReach-resting h (later r s q) = Quiet-resting s q (QuietReach-resting h r)

-- The thread is where it works, or on its way there.
abbrev pub is_busy : Thread → Bool
is_busy claiming = true
is_busy working = true
is_busy place = false

abbrev is_stopped : WorkerState → Bool
is_stopped stopped = true
is_stopped state = false

stopped-resting :
    (w : Worker)
    → w.state ≡ stopped
    → w.caller ≡ free
    → is_consistent w ≡ true
    → is_resting w ≡ true
unfolding is_resting rests is_consistent fits
stopped-resting w e f h =
    follows (λ u. is_consistent u && (is_stopped u.state && is_free u.caller)) is_resting w refl
      (both (is_consistent w) (is_stopped w.state && is_free w.caller) h
        (both (is_stopped w.state) (is_free w.caller) (ap is_stopped e) (is_free_of w.caller f)))

resting-not_busy : (w : Worker) → is_resting w ≡ true → is_busy w.thread ≡ false
unfolding is_resting rests
resting-not_busy w h =
    not_true (is_busy w.thread) (follows is_resting (λ u. not (is_busy u.thread)) w refl h)
  where
    not_true : (b : Bool) → not b ≡ true → b ≡ false
    not_true b k = ground (arith, k)

-- In every order of turns: once a worker is stopped and no call is under way, the thread does no work
-- and is not about to, until `startWorking` is called.
pub stopped-not_busy :
    {w u : Worker}
    → Reach new_worker w
    → w.state ≡ stopped
    → w.caller ≡ free
    → QuietReach w u
    → is_busy u.thread ≡ false
stopped-not_busy {w = w} {u = u} r e f q =
    resting-not_busy u (QuietReach-resting (stopped-resting w e f (Reach-consistent r)) q)
