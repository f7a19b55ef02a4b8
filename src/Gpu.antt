-- ===== src/Gpu.antt =====
-- The search of an OpenCL miner (libethash-cl/ethash_cl_miner.cpp: search, checkThrottleChange): kernel
-- runs that are queued on two buffers, and read one after the other. The kernel is outside: what it
-- writes for a run is an argument, and so are the clock, the random nonces and the throttle that other
-- threads set. An error of OpenCL, which ends the search, is left out.
pub mod Pipeline
pub mod Refinement
pub mod Order
use mvis_tokenminer.Prelude.{
  ℕ, zero, suc, ◌+◌, ◌-◌, ◌*◌, ◌/◌, ◌%◌, ◌^◌, min, List, [], ◌∷◌, ◌++◌, map,
}
use mvis_tokenminer.Prelude.{Bool, true, false, ◌&&◌, ltb, ◌==◌, if◌then◌else◌, length, take, drop}

-- A kernel run: what `message` and the arguments of the kernel are made of. The nonce has 32 bytes.
pub record Job : Type 0 where
  pub challenge : List ℕ
  pub account : List ℕ
  pub target : ℕ
  pub nonce : List ℕ

-- `pending_batch`
pub record Batch : Type 0 where
  pub nonce : List ℕ
  pub buf : ℕ

-- `l_throttle` and `l_bufferCount`
pub record Control : Type 0 where
  pub throttle : ℕ
  pub buffer_count : ℕ

-- `m_pending`, `m_buf`, the solutions that the two buffers hold, and the local variables of `search`.
-- Two logs are kept beside them: the runs that were queued, and the nonces of each batch that was read.
pub record Search : Type 0 where
  pub pending : List Batch
  pub buf : ℕ
  pub first : List ℕ
  pub second : List ℕ
  pub control : Control
  pub kernel_time : ℕ
  pub queued : List Job
  pub read : List (List (List ℕ))

-- `c_maxSearchResults`
abbrev pub max_search_results : ℕ
max_search_results = 63

-- `checkThrottleChange`, with the throttle that it sees.
unfoldable pub check_throttle_change : ℕ → Control → Control
check_throttle_change seen c = record {
  throttle = seen;
  buffer_count =
      if ltb 0 seen && c.throttle == 0
      then 1
      else if ltb 0 c.throttle && seen == 0
      then 2
      else c.buffer_count;
}

-- A piece of the sleep: the throttle that is seen after it, and what `shouldStop` says.
pub record Slice : Type 0 where
  pub seen : ℕ
  pub stops : Bool

-- How the sleep ends; `asleep` where it has not ended with the pieces that are given.
pub data Slept : Type 0 where
  awake : Control → Slept
  stopped : Control → Slept
  asleep : Control → Slept

-- `while (millisDelay > 0)`
unfoldable pub sleep : ℕ → List Slice → Control → Slept
sleep zero slices c = awake c
sleep (suc n) [] c = asleep c
sleep (suc n) (x ∷ xs) c =
    let left = if c.throttle == 100 then 100 else suc n - min 100 (suc n) in
    let rest = sleep left xs (check_throttle_change x.seen c) in
    if x.stops then stopped (check_throttle_change x.seen c) else rest

unfoldable pub delay : ℕ → ℕ → ℕ
delay throttle kernel_time =
    if ltb throttle 100 then throttle * kernel_time / (100 - throttle) else 100

-- `m_pending.clear()` when all is throttled.
unfoldable pub forget : ℕ → List Batch → List Batch
forget throttle pending = if ltb throttle 100 then pending else []

-- The buffers, by their number.
unfoldable pub buffer : ℕ → Search → List ℕ
buffer i s = if i == 0 then s.first else s.second

unfoldable pub set_buffer : ℕ → List ℕ → Search → Search
set_buffer i solutions s =
    if i == 0 then record s { first = solutions } else record s { second = solutions }

-- `*(uint64_t*) (&x[12]) = soln`, on a machine that stores the lowest byte first.
unfoldable pub low_bytes : ℕ → ℕ → List ℕ
low_bytes zero n = []
low_bytes (suc k) n = n % 256 ∷ low_bytes k (n / 256)

unfoldable pub stitch : List ℕ → ℕ → List ℕ
stitch nonce solution = take 12 nonce ++ (low_bytes 8 solution ++ drop 20 nonce)

-- A turn of the loop: the throttle that it sees first, the pieces of its sleep, the random nonce, the
-- time that the kernel took, and what the hook's `found` and `searched` say.
pub record Turn : Type 0 where
  pub seen : ℕ
  pub slices : List Slice
  pub nonce : List ℕ
  pub elapsed : ℕ
  pub found_stops : Bool
  pub searched_stops : Bool

-- The loop goes on, is left, or still sleeps.
pub data Progress : Type 0 where
  goes : Search → Progress
  leaves : Search → Progress
  sleeps : Search → Progress

module _ (kernel : Job → List ℕ) where
  -- The kernel adds its solutions to those that the buffer holds; that it writes the last place over where
  -- there are more than 63 of them is outside.
  unfoldable pub enqueue : Job → Search → Search
  enqueue job s =
      let ran = set_buffer s.buf (buffer s.buf s ++ kernel job) s in
      record ran {
        pending = s.pending ++ record { nonce = job.nonce; buf = s.buf } ∷ [];
        buf = (s.buf + 1) % s.control.buffer_count;
        queued = s.queued ++ job ∷ [];
      }

  unfoldable pub queue_up : Job → Search → Search
  queue_up job s = if ltb (length s.pending) s.control.buffer_count then enqueue job s else s
