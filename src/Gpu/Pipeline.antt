-- ===== src/Gpu/Pipeline.antt =====
-- The loop of `search` (libethash-cl/ethash_cl_miner.cpp): its sleep, the reading of results, and the
-- calls of `search` one after the other.
use mvis_tokenminer.Prelude.{
  ℕ, List, [], ◌∷◌, ◌++◌, map, Bool, true, false, not, ltb, ◌==◌, if◌then◌else◌,
}
use mvis_tokenminer.Prelude.{◌&&◌, length, take}
use mvis_tokenminer.Gpu.{
  Job, Batch, Search, max_search_results, check_throttle_change, Slept, awake, stopped, asleep,
  sleep, delay, forget, buffer, set_buffer, stitch, Turn, Progress, goes, leaves, sleeps, queue_up,
}

-- What `search` is called with.
pub record Work : Type 0 where
  pub challenge : List ℕ
  pub account : List ℕ
  pub target : ℕ

unfoldable pub job_of : Work → List ℕ → Job
job_of w nonce = record {
  challenge = w.challenge;
  account = w.account;
  target = w.target;
  nonce = nonce;
}

unfoldable pub is_empty : List (List ℕ) → Bool
is_empty [] = true
is_empty (n ∷ ns) = false

-- The results of a batch: its nonces go to the hook if there are some, and the buffer is emptied then.
unfoldable pub read_batch : Turn → Batch → Search → Progress
read_batch t b s =
    let nonces = map (stitch b.nonce) (take max_search_results (buffer b.buf s)) in
    let after = record (if is_empty nonces then s else set_buffer b.buf [] s) {
      kernel_time = t.elapsed;
      read = s.read ++ nonces ∷ [];
    } in
    if not (is_empty nonces) && t.found_stops
    then leaves after
    else if t.searched_stops
    then leaves after
    else goes after

unfoldable pub read_first : Turn → List Batch → Search → Progress
read_first t [] s = goes s
read_first t (b ∷ pending) s = read_batch t b (record s { pending = pending })

unfoldable pub read_results : Turn → Search → Progress
read_results t s =
    if length s.pending == s.control.buffer_count then read_first t s.pending s else goes s

module _ (kernel : Job → List ℕ) (work : Work) where
  -- The turn behind the sleep, which may end the search.
  unfoldable pub after_sleep : Turn → Search → Slept → Progress
  after_sleep t s (awake c) =
      read_results t (queue_up kernel (job_of work t.nonce) (record s { control = c }))
  after_sleep t s (stopped c) = leaves (record s { control = c })
  after_sleep t s (asleep c) = sleeps (record s { control = c })

  unfoldable pub turn : Turn → Search → Progress
  turn t s =
      let c = check_throttle_change t.seen s.control in
      if ltb 0 c.throttle
      then after_sleep t (record s { pending = forget c.throttle s.pending })
          (sleep (delay c.throttle s.kernel_time) t.slices c)
      else after_sleep t s (awake c)

  -- The turns up to the one that leaves the loop or still sleeps.
  unfoldable pub turns : List Turn → Progress → Search
  turns ts (leaves s) = s
  turns ts (sleeps s) = s
  turns [] (goes s) = s
  turns (t ∷ ts) (goes s) = turns ts (turn t s)

-- A call of `search`: the throttle that it sees at first, and its turns.
pub record Call : Type 0 where
  pub work : Work
  pub seen : ℕ
  pub turns_of : List Turn

unfoldable pub begin_search : ℕ → Search → Search
begin_search seen s = record s {
  control = record { throttle = 0; buffer_count = if seen == 0 then 2 else 1 };
  kernel_time = 100;
}

module _ (kernel : Job → List ℕ) where
  unfoldable pub search_call : Call → Search → Search
  search_call c s = turns kernel c.work c.turns_of (goes (begin_search c.seen s))

  unfoldable pub searches : List Call → Search → Search
  searches [] s = s
  searches (c ∷ cs) s = searches cs (search_call c s)

-- The members of a miner that is new.
abbrev pub new_search : Search
new_search = record {
  pending = [];
  buf = 0;
  first = [];
  second = [];
  control = record { throttle = 0; buffer_count = 2 };
  kernel_time = 100;
  queued = [];
  read = [];
}
