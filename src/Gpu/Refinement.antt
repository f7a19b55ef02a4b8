-- ===== src/Gpu/Refinement.antt =====
-- The search of an OpenCL miner is a pipeline: at most one run is on its way between turns, and each is
-- read once, in the order of queueing, with its own nonce (libethash-cl/ethash_cl_miner.cpp).
use mvis_tokenminer.Prelude.{ℕ, ◌≡◌, refl, sym, ap, List, [], ◌∷◌, ◌++◌, map}
use mvis_tokenminer.Prelude.{
  Bool, true, false, Bool-cases, inl, inr, ◌⊎◌, not, ◌==◌, if◌then◌else◌, take,
}
use mathlib.Core.List.{map-append}
use mvis_tokenminer.Gpu.{
  Job, Batch, Control, Search, max_search_results, buffer, set_buffer, stitch, Turn, Progress, goes,
  leaves, sleeps, enqueue, queue_up,
}
use mvis_tokenminer.Gpu.Pipeline.{is_empty, read_batch, read_first, read_results}

-- The pipeline: the runs that were read, the one on its way, and the number of the next buffer.
pub data Pipe : Type 0 where
  idle : List Job → Bool → Pipe
  busy : List Job → Job → Bool → Pipe

abbrev pub number : Bool → ℕ
number false = 0
number true = 1

module _ (kernel : Job → List ℕ) where
  -- The nonces of a run: its own, with each of the solutions that the kernel has for it.
  abbrev pub results : Job → List (List ℕ)
  results j = map (stitch j.nonce) (take max_search_results (kernel j))

  abbrev pub concrete : Control → ℕ → Pipe → Search
  concrete c time (idle done next) = record {
    pending = [];
    buf = number next;
    first = [];
    second = [];
    control = c;
    kernel_time = time;
    queued = done;
    read = map results done;
  }
  concrete c time (busy done j next) = record {
    pending = record { nonce = j.nonce; buf = number (not next) } ∷ [];
    buf = number next;
    first = if next then kernel j else [];
    second = if next then [] else kernel j;
    control = c;
    kernel_time = time;
    queued = done ++ j ∷ [];
    read = map results done;
  }

  -- Some pipeline, and one or two buffers.
  abbrev pub Pipelined : Search → Type 0
  Pipelined s =
      (p : Pipe) × (c : Control) × (time : ℕ) × (s ≡ concrete c time p)
      × ((c.buffer_count ≡ 1) ⊎ (c.buffer_count ≡ 2))

  abbrev pub PipelinedProgress : Progress → Type 0
  PipelinedProgress (goes s) = Pipelined s
  PipelinedProgress (leaves s) = Pipelined s
  PipelinedProgress (sleeps s) = Pipelined s

  -- The state after a batch was read, with its buffer emptied in any case.
  abbrev cleared : Turn → Batch → Search → Search
  cleared t b s = record (set_buffer b.buf [] s) {
    kernel_time = t.elapsed;
    read = s.read ++ map (stitch b.nonce) (take max_search_results (buffer b.buf s)) ∷ [];
  }

  no_results :
      (n : List ℕ) (solutions : List ℕ)
      → is_empty (map (stitch n) (take max_search_results solutions)) ≡ true
      → solutions ≡ []
  unfolding is_empty
  no_results n [] h = refl
  no_results n (x ∷ xs) h = cc h

  set_buffer-empty : (i : ℕ) (s : Search) → buffer i s ≡ [] → set_buffer i [] s ≡ s
  unfolding buffer set_buffer
  set_buffer-empty i s h = elim (Bool-cases (i == 0)) [
    | inl e ↦ rw e (ap (λ l. record s { first = l }) (sym (rw e at h)))
    | inr e ↦ rw e (ap (λ l. record s { second = l }) (sym (rw e at h)))
  ]

  ended :
      (x y : Bool) (s : Search)
      → Pipelined s
      → PipelinedProgress (if x then leaves s else if y then leaves s else goes s)
  ended true y s h = h
  ended false true s h = h
  ended false false s h = h

  read_batch-Pipelined :
      (t : Turn) (b : Batch) (s : Search)
      → Pipelined (cleared t b s)
      → PipelinedProgress (read_batch t b s)
  unfolding read_batch
  read_batch-Pipelined t b s h =
      elim (Bool-cases
        (is_empty (map (stitch b.nonce) (take max_search_results (buffer b.buf s))))) [
          | inl e ↦
              let same = set_buffer-empty b.buf s (no_results b.nonce (buffer b.buf s) e) in
              rw e (ended false t.searched_stops _ (rw same at h))
          | inr e ↦ rw e (ended t.found_stops t.searched_stops (cleared t b s) h)
        ]

  pub two_idle :
      (t : Turn) (j : Job) (done : List Job) (next : Bool) (throttle time : ℕ)
      → PipelinedProgress (
          read_results t (
            queue_up kernel j
              (concrete (record { throttle = throttle; buffer_count = 2 }) time (idle done next))))
  unfolding read_results queue_up enqueue buffer set_buffer
  two_idle t j done false throttle time =
      (busy done j true, record { throttle = throttle; buffer_count = 2 }, time, refl, inr refl)
  two_idle t j done true throttle time =
      (busy done j false, record { throttle = throttle; buffer_count = 2 }, time, refl, inr refl)

  pub two_busy :
      (t : Turn) (j i : Job) (done : List Job) (next : Bool) (throttle time : ℕ)
      → PipelinedProgress (
          read_results t (
            queue_up kernel j (
              concrete (record { throttle = throttle; buffer_count = 2 }) time (busy done i next))))
  unfolding read_results read_first queue_up enqueue buffer set_buffer
  two_busy t j i done false throttle time = read_batch-Pipelined t _ _ (
    busy (done ++ i ∷ []) j true,
    record { throttle = throttle; buffer_count = 2 },
    t.elapsed,
    simp map-append,
    inr refl,
  )
  two_busy t j i done true throttle time = read_batch-Pipelined t _ _ (
    busy (done ++ i ∷ []) j false,
    record { throttle = throttle; buffer_count = 2 },
    t.elapsed,
    simp map-append,
    inr refl,
  )

  pub one_idle :
      (t : Turn) (j : Job) (done : List Job) (next : Bool) (throttle time : ℕ)
      → PipelinedProgress (
          read_results t (
            queue_up kernel j
              (concrete (record { throttle = throttle; buffer_count = 1 }) time (idle done next))))
  unfolding read_results read_first queue_up enqueue buffer set_buffer
  one_idle t j done false throttle time = read_batch-Pipelined t _ _ (
    idle (done ++ j ∷ []) false,
    record { throttle = throttle; buffer_count = 1 },
    t.elapsed,
    simp map-append,
    inl refl,
  )
  one_idle t j done true throttle time = read_batch-Pipelined t _ _ (
    idle (done ++ j ∷ []) false,
    record { throttle = throttle; buffer_count = 1 },
    t.elapsed,
    simp map-append,
    inl refl,
  )

  pub one_busy :
      (t : Turn) (j i : Job) (done : List Job) (next : Bool) (throttle time : ℕ)
      → PipelinedProgress (
          read_results t (
            queue_up kernel j (
              concrete (record { throttle = throttle; buffer_count = 1 }) time (busy done i next))))
  unfolding read_results read_first queue_up enqueue buffer set_buffer
  one_busy t j i done false throttle time = read_batch-Pipelined t _ _ (
    idle (done ++ i ∷ []) false,
    record { throttle = throttle; buffer_count = 1 },
    t.elapsed,
    simp map-append,
    inl refl,
  )
  one_busy t j i done true throttle time = read_batch-Pipelined t _ _ (
    idle (done ++ i ∷ []) true,
    record { throttle = throttle; buffer_count = 1 },
    t.elapsed,
    simp map-append,
    inl refl,
  )
