-- ===== src/Gpu/Order.antt =====
-- Over any calls of `search` each run that was queued is read once, in order, with its own results
-- (libethash-cl/ethash_cl_miner.cpp).
use mathlib.Core.Path.{subst}
use mvis_tokenminer.Prelude.{
  ℕ, zero, suc, ◌-◌, ◌<◌, ◌≤◌, ◌≡◌, refl, sym, ◌∙◌, ap, arith, min, List, [], ◌∷◌, ◌++◌, map,
}
use mvis_tokenminer.Prelude.{
  false, Bool-cases, inl, inr, ◌⊎◌, ltb, lt→ltb, ◌==◌, if◌then◌else◌, length, All, append-nil,
}
use mvis_tokenminer.Gpu.{
  Job, Batch, Control, Search, check_throttle_change, Slice, Slept, awake, stopped, asleep, sleep,
  delay, forget, Turn, Progress, goes, leaves, sleeps, queue_up,
}
use mvis_tokenminer.Gpu.Pipeline.{
  Work, job_of, read_results, after_sleep, turn, turns, Call, begin_search, search_call, searches,
  new_search,
}
use mvis_tokenminer.Gpu.Refinement.{
  Pipe, idle, busy, results, concrete, Pipelined, PipelinedProgress, two_idle, two_busy, one_idle,
  one_busy,
}

abbrev IsCounted : Control → Type 0
IsCounted c = (c.buffer_count ≡ 1) ⊎ (c.buffer_count ≡ 2)

abbrev IsCountedSlept : Slept → Type 0
IsCountedSlept (awake c) = IsCounted c
IsCountedSlept (stopped c) = IsCounted c
IsCountedSlept (asleep c) = IsCounted c

check_throttle_change-IsCounted :
    (seen : ℕ) (c : Control) → IsCounted c → IsCounted (check_throttle_change seen c)
unfolding check_throttle_change
check_throttle_change-IsCounted seen c h = ground arith

sleep-IsCounted :
    (n : ℕ) (slices : List Slice) (c : Control) → IsCounted c → IsCountedSlept (sleep n slices c)
unfolding sleep
sleep-IsCounted zero slices c h = h
sleep-IsCounted (suc n) [] c h = h
sleep-IsCounted (suc n) (x ∷ xs) c h =
    let again = check_throttle_change-IsCounted x.seen c h in
    elim (Bool-cases x.stops) [
      | inl e ↦ simp e again
      | inr e ↦ simp e (
          sleep-IsCounted (if c.throttle == 100 then 100 else suc n - min 100 (suc n)) xs
            (check_throttle_change x.seen c) again)
    ]

forget_low :
    (seen : ℕ) (c : Control) (pending : List Batch)
    → seen < 100
    → forget (check_throttle_change seen c).throttle pending ≡ pending
unfolding forget check_throttle_change
forget_low seen c pending low = rw (lt→ltb seen 100 low) refl

module _ (kernel : Job → List ℕ) where
  work_phase :
      (t : Turn) (j : Job) (p : Pipe) (c : Control) (time : ℕ)
      → IsCounted c
      → PipelinedProgress kernel (read_results t (queue_up kernel j (concrete kernel c time p)))
  work_phase t j (idle done next) c time (inl e) =
      subst
        (λ x.
          PipelinedProgress kernel
            (read_results t (queue_up kernel j (concrete kernel x time (idle done next)))))
        (ap (λ n. record { throttle = c.throttle; buffer_count = n }) (sym e))
        (one_idle kernel t j done next c.throttle time)
  work_phase t j (idle done next) c time (inr e) =
      subst
        (λ x.
          PipelinedProgress kernel
            (read_results t (queue_up kernel j (concrete kernel x time (idle done next)))))
        (ap (λ n. record { throttle = c.throttle; buffer_count = n }) (sym e))
        (two_idle kernel t j done next c.throttle time)
  work_phase t j (busy done i next) c time (inl e) =
      subst
        (λ x.
          PipelinedProgress kernel
            (read_results t (queue_up kernel j (concrete kernel x time (busy done i next)))))
        (ap (λ n. record { throttle = c.throttle; buffer_count = n }) (sym e))
        (one_busy kernel t j i done next c.throttle time)
  work_phase t j (busy done i next) c time (inr e) =
      subst
        (λ x.
          PipelinedProgress kernel
            (read_results t (queue_up kernel j (concrete kernel x time (busy done i next)))))
        (ap (λ n. record { throttle = c.throttle; buffer_count = n }) (sym e))
        (two_busy kernel t j i done next c.throttle time)

  with_control :
      (p : Pipe) (c d : Control) (time : ℕ)
      → record (concrete kernel c time p) { control = d } ≡ concrete kernel d time p
  with_control (idle done next) c d time = refl
  with_control (busy done i next) c d time = refl

  after_sleep-Pipelined :
      (work : Work) (t : Turn) (p : Pipe) (c : Control) (time : ℕ) (r : Slept)
      → IsCountedSlept r
      → PipelinedProgress kernel (after_sleep kernel work t (concrete kernel c time p) r)
  unfolding after_sleep
  after_sleep-Pipelined work t p c time (awake d) h =
      rw (with_control p c d time) (work_phase t (job_of work t.nonce) p d time h)
  after_sleep-Pipelined work t p c time (stopped d) h = (p, d, time, with_control p c d time, h)
  after_sleep-Pipelined work t p c time (asleep d) h = (p, d, time, with_control p c d time, h)

  control_of : (p : Pipe) (c : Control) (time : ℕ) → (concrete kernel c time p).control ≡ c
  control_of (idle done next) c time = refl
  control_of (busy done i next) c time = refl

  after_sleep_of :
      (work : Work) (t : Turn) (s : Search) (r : Slept)
      → Pipelined kernel s
      → IsCountedSlept r
      → PipelinedProgress kernel (after_sleep kernel work t s r)
  after_sleep_of work t s r (p, c, time, e, _) h =
      subst (λ x. PipelinedProgress kernel (after_sleep kernel work t x r)) (sym e)
        (after_sleep-Pipelined work t p c time r h)

  turn-Pipelined :
      (work : Work) (t : Turn) (s : Search)
      → t.seen < 100
      → Pipelined kernel s
      → PipelinedProgress kernel (turn kernel work t s)
  unfolding turn
  turn-Pipelined work t s low h =
      let (p, c, time, e, one_or_two) = h in
      let d = check_throttle_change t.seen s.control in
      let counted = check_throttle_change-IsCounted t.seen s.control (
        subst IsCounted (sym (ap (λ (x : Search). x.control) e ∙ control_of p c time))
          one_or_two) in
      elim (Bool-cases (ltb 0 d.throttle)) [
        | inl b ↦
            rw (b, forget_low t.seen s.control s.pending low)
              (after_sleep_of work t s (sleep (delay d.throttle s.kernel_time) t.slices d) h
                (sleep-IsCounted (delay d.throttle s.kernel_time) t.slices d counted))
        | inr b ↦ rw b (after_sleep_of work t s (awake d) h counted)
      ]

  turns-Pipelined :
      (work : Work) (ts : List Turn) (r : Progress)
      → All (λ t. t.seen < 100) ts
      → PipelinedProgress kernel r
      → Pipelined kernel (turns kernel work ts r)
  unfolding turns
  turns-Pipelined work [] (leaves s) low h = h
  turns-Pipelined work [] (sleeps s) low h = h
  turns-Pipelined work [] (goes s) low h = h
  turns-Pipelined work (t ∷ ts) (leaves s) low h = h
  turns-Pipelined work (t ∷ ts) (sleeps s) low h = h
  turns-Pipelined work (t ∷ ts) (goes s) (here, low) h =
      turns-Pipelined work ts (turn kernel work t s) low (turn-Pipelined work t s here h)

  anew :
      (p : Pipe) (c d : Control) (time : ℕ)
      → record (concrete kernel c time p) { control = d; kernel_time = 100 }
        ≡ concrete kernel d 100 p
  anew (idle done next) c d time = refl
  anew (busy done i next) c d time = refl

  begin_search-Pipelined :
      (seen : ℕ) (s : Search) → Pipelined kernel s → Pipelined kernel (begin_search seen s)
  unfolding begin_search
  begin_search-Pipelined seen s (p, c, time, e, _) =
      let d : Control = record { throttle = 0; buffer_count = if seen == 0 then 2 else 1 } in
      (
        p,
        d,
        100,
        ap (λ (x : Search). record x { control = d; kernel_time = 100 }) e ∙ anew p c d time,
        ground arith,
      )

  searches-Pipelined :
      (calls : List Call) (s : Search)
      → All (λ c. All (λ t. t.seen < 100) c.turns_of) calls
      → Pipelined kernel s
      → Pipelined kernel (searches kernel calls s)
  unfolding searches search_call
  searches-Pipelined [] s low h = h
  searches-Pipelined (c ∷ calls) s (here, low) h =
      searches-Pipelined calls (search_call kernel c s) low
        (turns-Pipelined c.work c.turns_of _ here (begin_search-Pipelined c.seen s h))

  in_order :
      (s : Search)
      → Pipelined kernel s
      → (done : List Job) × (flight : List Job) × (s.queued ≡ done ++ flight)
        × (length flight ≤ 1)
        × (s.read ≡ map (results kernel) done)
  in_order s (idle done next, c, time, e, _) = (
    done,
    [],
    ap (λ (x : Search). x.queued) e ∙ sym (append-nil done),
    omega arith,
    ap (λ (x : Search). x.read) e,
  )
  in_order s (busy done i next, c, time, e, _) =
      (done, i ∷ [], ap (λ (x : Search). x.queued) e, omega arith, ap (λ (x : Search). x.read) e)

  -- Over any calls of `search` for any work, whatever throttle below 100 percent is seen and when, and
  -- wherever the hook ends a call: of the runs that were queued all but the last one at most were read,
  -- each once and in the order of queueing, and what went to the hook for a run was its own nonce with
  -- each of the solutions, up to 63, that the kernel has for that run.
  pub searches_in_order :
      (calls : List Call)
      → All (λ c. All (λ t. t.seen < 100) c.turns_of) calls
      → (done : List Job) × (flight : List Job) × ((searches kernel calls new_search).queued
          ≡ done ++ flight)
        × (length flight ≤ 1)
        × ((searches kernel calls new_search).read ≡ map (results kernel) done)
  searches_in_order calls low = in_order (searches kernel calls new_search) (
      searches-Pipelined calls new_search low
        (idle [] false, record { throttle = 0; buffer_count = 2 }, 100, refl, inr refl))
