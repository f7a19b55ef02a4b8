-- ===== src/Mining/Hook.antt =====
-- `EthashCLHook` and the calls of its owner (libethcore/EthashGPUMiner.cpp: kickOff, pause, abort,
-- reset, found, searched, shouldStop): the flags by which a caller and the thread of a search tell each
-- other to stop. A caller that pauses waits for the search first, and for its thread then. The callers
-- are one, since the farm's methods hold a lock.
use mvis_tokenminer.Prelude.{Bool, true, false, ◌||◌, if◌then◌else◌, ◌≡◌}

-- What the thread that calls `kickOff` and `pause` waits for.
pub data Caller : Type 0 where
  free : Caller
  in_abort : Caller
  in_stop : Caller

-- `m_abort` and `m_aborted`, whether the thread is in `search`, and whether it is told to stop.
pub record Hook : Type 0 where
  pub abort : Bool
  pub aborted : Bool
  pub searching : Bool
  pub stopping : Bool
  pub caller : Caller

abbrev pub new_hook : Hook
new_hook = record {
  abort = false;
  aborted = true;
  searching = false;
  stopping = false;
  caller = free;
}

-- `kickOff`: `reset`, and a thread that searches.
unfoldable pub kick_off : Hook → Hook
kick_off h = record h { abort = false; aborted = false; searching = true; stopping = false }

-- `pause`: `abort` up to its wait, and `stopWorking` where `abort` returns at once.
unfoldable pub pause_search : Hook → Hook
pause_search h =
    if h.aborted
    then record h { stopping = true; caller = in_stop }
    else record h { abort = true; caller = in_abort }

-- The wait of `abort` is over.
unfoldable pub go_on : Hook → Hook
go_on h = record h { stopping = true; caller = in_stop }

-- `searched`, after which the search is left where it returned true.
unfoldable pub searched : Hook → Hook
searched h =
    if h.abort || h.stopping
    then record h { aborted = true; searching = false }
    else record h { aborted = false }

-- `shouldStop`
unfoldable pub should_stop : Hook → Hook
should_stop h = if h.abort || h.stopping then record h { aborted = true; searching = false } else h

-- `found`, where a report ends the search or does not.
unfoldable pub found : Bool → Hook → Hook
found ends h =
    if ends
    then record h { aborted = true; searching = false }
    else if h.stopping
    then record h { searching = false }
    else h

-- An error of OpenCL leaves the search.
unfoldable pub failed : Hook → Hook
failed h = record h { searching = false }

-- The caller and the thread take turns in any order; the last step is the error.
pub data Step (h : Hook) : Hook → Type 0 where
  kick : h.caller ≡ free → h.searching ≡ false → Step h (kick_off h)
  pause : h.caller ≡ free → Step h (pause_search h)
  wake : h.caller ≡ in_abort → h.aborted ≡ true → Step h (go_on h)
  join : h.caller ≡ in_stop → h.searching ≡ false → Step h (record h { caller = free })
  search : h.searching ≡ true → Step h (searched h)
  poll : h.searching ≡ true → Step h (should_stop h)
  find : (ends : Bool) → h.searching ≡ true → Step h (found ends h)

pub data Turn (h : Hook) : Hook → Type 0 where
  step : {k : Hook} → Step h k → Turn h k
  fail : h.searching ≡ true → Turn h (failed h)
