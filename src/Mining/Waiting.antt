-- ===== src/Mining/Waiting.antt =====
-- Whether a caller of `abort` is released (libethcore/EthashGPUMiner.cpp).
use mvis_tokenminer.Prelude.{true, false, ◌≡◌, ◌⊎◌, arith}
use mvis_tokenminer.Mining.Hook.{
  free, in_abort, Hook, kick_off, pause_search, go_on, searched, should_stop, found, failed, Step,
  kick, pause, wake, join, search, poll, find, Turn, step, fail,
}

pub data Reach (h : Hook) : Hook → Type 0 where
  at_first : Reach h h
  later : {k l : Hook} → Reach h k → Step k l → Reach h l

pub data ReachTurn (h : Hook) : Hook → Type 0 where
  no_turn : ReachTurn h h
  one_more : {k l : Hook} → ReachTurn h k → Turn k l → ReachTurn h l

-- The search is over and the flag is set, or it runs, the thread is not told to stop, and a caller that
-- waits has asked for the end.
abbrev Answers : Hook → Type 0
Answers h =
    ((h.aborted ≡ true) × (h.searching ≡ false))
    ⊎ ((h.searching ≡ true)
        × (h.stopping ≡ false)
        × (h.aborted ≡ false)
        × ((h.caller ≡ free) ⊎ ((h.caller ≡ in_abort) × (h.abort ≡ true))))

-- The caller waits, the flag is not set, and no search runs that could set it.
abbrev Stuck : Hook → Type 0
Stuck h = (h.caller ≡ in_abort) × (h.aborted ≡ false) × (h.searching ≡ false)

turn-Stuck : (h k : Hook) → Stuck h → Turn h k → Stuck k
unfolding kick_off pause_search go_on searched should_stop found failed
turn-Stuck h _ (c, a, s) (step (kick d t)) = cc
turn-Stuck h _ (c, a, s) (step (pause d)) = cc
turn-Stuck h _ (c, a, s) (step (wake d t)) = cc
turn-Stuck h _ (c, a, s) (step (join d t)) = cc
turn-Stuck h _ (c, a, s) (step (search t)) = cc
turn-Stuck h _ (c, a, s) (step (poll t)) = cc
turn-Stuck h _ (c, a, s) (step (find ends t)) = cc
turn-Stuck h _ (c, a, s) (fail t) = cc

stays_Stuck : (h k : Hook) → Stuck h → ReachTurn h k → Stuck k
stays_Stuck h _ s no_turn = s
stays_Stuck h _ s (one_more {k} {l} r t) = turn-Stuck k l (stays_Stuck h k s r) t

-- Where an error of OpenCL left the search, the next call of `pause` waits for ever: whatever follows,
-- its caller is in `abort`, if the flag was not set when the search was left.
pub pause_after_failure :
    (h k : Hook)
    → h.caller ≡ free
    → h.aborted ≡ false
    → ReachTurn (pause_search (failed h)) k
    → k.caller ≡ in_abort
unfolding pause_search failed
pause_after_failure h k c a r = (stays_Stuck (pause_search (failed h)) k (ground arith) r).0
