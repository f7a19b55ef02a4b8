-- ===== src/Mining/Solo.antt =====
-- Which nonces miners submit (libethcore/EthashCPUMiner.cpp, EthashGPUMiner.cpp).
use mathlib.Core.Path.{fun_ext}
use mvis_tokenminer.Prelude.{
  ℕ, zero, suc, ◌+◌, ◌%◌, ◌^◌, ◌≡◌, refl, ap, ◌∙◌, List, [], ◌∷◌, ◌++◌, Option, none, some,
}
use mvis_tokenminer.Prelude.{Bool, true, false, Bool-cases, inl, inr, if◌then◌else◌, replicate}
use mvis_tokenminer.Miner.{solo, pool}
use mvis_tokenminer.Farm.{Farm, is_solo, miner_submit_proof}
use mvis_tokenminer.Farm.Work.{pool_submit_keeps, submit_stops}
use mvis_tokenminer.Mining.{Task, is_solution, or_rest, report, hook_found, cpu_loop}

-- The nonces that a CPU miner tries, from one on.
abbrev pub tried : ℕ → ℕ → List ℕ
tried zero nonce = []
tried (suc n) nonce = nonce ∷ tried n ((nonce + 1) % 2 ^ 256)

ends : (p : Bool × Farm) (rest : Farm → Bool × Farm) → p.0 ≡ true → or_rest p rest ≡ (true, p.1)
unfolding or_rest
ends (true, g) rest h = refl
ends (false, g) rest h = cc h

goes_on : (p : Bool × Farm) (rest : Farm → Bool × Farm) → p.0 ≡ false → or_rest p rest ≡ rest p.1
unfolding or_rest
goes_on (false, g) rest h = refl
goes_on (true, g) rest h = cc h

module _ (keccak : List ℕ → List ℕ → ℕ → ℕ) (task : Task) where
  -- The first solution of a list of nonces, and all of them.
  abbrev pub first_solution : List ℕ → Option ℕ
  first_solution [] = none
  first_solution (n ∷ ns) = if is_solution keccak task n then some n else first_solution ns

  abbrev pub submit_first : Option ℕ → Bool → Farm → Bool × Farm
  submit_first none stops f = (stops, f)
  submit_first (some n) stops f = (true, (miner_submit_proof n task.index f).1)

  abbrev pub submit_solutions : List ℕ → Farm → Farm
  submit_solutions [] f = f
  submit_solutions (n ∷ ns) f =
      submit_solutions ns
        (if is_solution keccak task n then (miner_submit_proof n task.index f).1 else f)

  unsolved :
      (n : ℕ) (f : Farm) (rest : Farm → Bool × Farm)
      → is_solution keccak task n ≡ false
      → or_rest (report keccak task (is_solution keccak task n) n f) rest ≡ rest f
  unfolding or_rest report
  unsolved n f rest e = rw e refl

  solved_solo :
      (n : ℕ) (f : Farm) (rest : Farm → Bool × Farm)
      → f.op_mode ≡ solo
      → is_solution keccak task n ≡ true
      → or_rest (report keccak task (is_solution keccak task n) n f) rest
        ≡ (true, (miner_submit_proof n task.index f).1)
  unfolding or_rest report is_solo
  solved_solo n f rest mode e =
      rw e
        (ends (miner_submit_proof n task.index f) rest (submit_stops n task.index f ∙ rw mode refl))

  solved_pool :
      (n : ℕ) (f : Farm) (rest : Farm → Bool × Farm)
      → f.op_mode ≡ pool
      → is_solution keccak task n ≡ true
      → or_rest (report keccak task (is_solution keccak task n) n f) rest
        ≡ rest (miner_submit_proof n task.index f).1
  unfolding or_rest report is_solo
  solved_pool n f rest mode e = rw e (
      goes_on (miner_submit_proof n task.index f) rest (submit_stops n task.index f ∙ rw mode refl))

  -- A solo miner submits the first of the nonces that its search found whose hash is below the target,
  -- and no other, and ends the search then; without one nothing changes.
  pub hook_found_solo :
      (stops : Bool) (nonces : List ℕ) (f : Farm)
      → f.op_mode ≡ solo
      → hook_found keccak task stops nonces f ≡ submit_first (first_solution nonces) stops f
  unfolding hook_found
  hook_found_solo stops [] f mode = refl
  hook_found_solo stops (n ∷ ns) f mode = elim (Bool-cases (is_solution keccak task n)) [
    | inl e ↦ solved_solo n f (hook_found keccak task stops ns) mode e ∙ rw e refl
    | inr e ↦
        unsolved n f (hook_found keccak task stops ns) e
        ∙ hook_found_solo stops ns f mode
        ∙ rw e refl
  ]

  -- In pool mode all the nonces that are solutions are submitted, in their order.
  pub hook_found_pool :
      (stops : Bool) (nonces : List ℕ) (f : Farm)
      → f.op_mode ≡ pool
      → hook_found keccak task stops nonces f ≡ (stops, submit_solutions nonces f)
  unfolding hook_found
  hook_found_pool stops [] f mode = refl
  hook_found_pool stops (n ∷ ns) f mode = elim (Bool-cases (is_solution keccak task n)) [
    | inl e ↦
        solved_pool n f (hook_found keccak task stops ns) mode e
        ∙ hook_found_pool stops ns (miner_submit_proof n task.index f).1
            ((pool_submit_keeps n task.index f mode).3 ∙ mode)
        ∙ rw e refl
    | inr e ↦
        unsolved n f (hook_found keccak task stops ns) e
        ∙ hook_found_pool stops ns f mode
        ∙ rw e refl
  ]

  -- The rounds of a CPU miner, up to the first that finds the thread stopped, do what the hook of a GPU
  -- miner does with the nonces from the first on, in the order of counting modulo 2 ^ 256.
  pub cpu_loop-hook_found :
      (rounds nonce : ℕ) (later : List Bool) (f : Farm)
      → cpu_loop keccak task (replicate rounds false ++ true ∷ later) nonce f
        ≡ hook_found keccak task true (tried rounds nonce) f
  unfolding cpu_loop hook_found
  cpu_loop-hook_found zero nonce later f = refl
  cpu_loop-hook_found (suc n) nonce later f =
      ap (or_rest (report keccak task (is_solution keccak task nonce) nonce f))
        (fun_ext (λ g. cpu_loop-hook_found n ((nonce + 1) % 2 ^ 256) later g))
