-- ===== src/PoolLoop/Runs.antt =====
-- Runs of the loop, of the client's handlers and of the miners, in any order (ethminer/MinerAux.h:
-- doStratum; libstratum/EthStratumClient.cpp).
use mathlib.Core.Path.{subst}
use mvis_tokenminer.Prelude.{
  ℕ, ◌≡◌, ◌≢◌, ◌⊎◌, ◌∙◌, List, [], ◌∷◌, Option, none, some, Result, ok, ◌>>=◌,
}
use mvis_tokenminer.Prelude.{Bool, true, false, Bool-cases, Result-cases, inl, inr, ltb}
use mvis_tokenminer.Miner.{accepted}
use mvis_tokenminer.Farm.{Farm, miner_submit_proof, solution_found}
use mvis_tokenminer.Farm.Work.{pool_submit_keeps, found_keeps, recorded_keeps}
use mvis_tokenminer.MainLoop.{LoopError, Choice, calc_final_target}
use mvis_tokenminer.Stratum.{Reception, Attempt, read_response, connect_stratum}
use mvis_tokenminer.PoolLoop.{
  PoolLoop, pool_round, pool_take, pool_judge, count_share, submit_share,
}
use mvis_tokenminer.PoolLoop.Following.{FollowsPool, Mines, FollowsAt-Mines, round_follows}

-- A round of the loop and a look for a solution; a line that the client receives and an attempt to
-- connect; a solution of a miner.
pub data Event : Type 0 where
  round : Choice → ℕ → Event
  look : Bool → Event
  receive : Reception → Event
  attempt : Attempt → Bool → Event
  mine : ℕ → ℕ → Event

follows_again :
    (s : PoolLoop) (f : Farm)
    → FollowsPool s
    → f.miners ≡ s.farm.miners
    → f.challenge ≡ s.farm.challenge
    → f.target ≡ s.farm.target
    → f.op_mode ≡ s.farm.op_mode
    → FollowsPool (record s { farm = f })
follows_again s f (m, ms, k) p q r o = (o ∙ m, rw (p, q, r) ms, still k)
  where
    still :
        (s.challenge ≡ []) ⊎ ((s.farm.challenge ≡ s.challenge) × (s.farm.target ≡ s.target))
        → (s.challenge ≡ []) ⊎ ((f.challenge ≡ s.challenge) × (f.target ≡ s.target))
    still (inl none_yet) = inl none_yet
    still (inr (a, b)) = inr (q ∙ a, r ∙ b)

ended :
    (t u : PoolLoop)
    → FollowsPool t
    → ◌≡◌ {A = Result LoopError PoolLoop} (ok t) (ok u)
    → FollowsPool u
ended t u h e = subst FollowsPool same h
  where
    same : t ≡ u
    same = cc e

module _ (donation user : List ℕ) (keccak : List ℕ → List ℕ → ℕ → ℕ) (bytes : ℕ → List ℕ) where
  abbrev pub event : Event → PoolLoop → Result LoopError PoolLoop
  event (round choice now) s = pool_round donation user choice now s
  event (look written) s = ok (pool_take keccak bytes written s)
  event (receive r) s = ok (record s { client = read_response r s.client })
  event (attempt a written) s = ok (record s { client = connect_stratum a written s.client })
  event (mine nonce i) s = ok (record s { farm = (miner_submit_proof nonce i s.farm).1 })

  -- An exception ends the program.
  abbrev pub pool_run : List Event → PoolLoop → Result LoopError PoolLoop
  pool_run [] s = ok s
  pool_run (x ∷ xs) s = event x s >>= λ u. pool_run xs u

  count_share_follows :
      (stale : Bool) (s : PoolLoop) → FollowsPool s → FollowsPool (count_share stale s)
  unfolding count_share
  count_share_follows stale s (m, ms, k) =
      let (kept, p, q, o) =
        recorded_keeps accepted stale s.farm.challenge s.farm.target s.farm ms in
      (o ∙ m, rw (p, q) kept, rw (p, q) k)

  judge_follows :
      (written : Bool) (o : Option (ℕ × ℕ)) (s : PoolLoop)
      → FollowsPool s
      → FollowsPool (pool_judge keccak bytes written o s)
  unfolding pool_judge submit_share
  judge_follows written none s h = h
  judge_follows written (some (solution, i)) s h =
      elim (Bool-cases (ltb (keccak s.challenge s.account solution) s.target)) [
        | inl e ↦ simp e (count_share_follows false _ h)
        | inr e ↦ simp e (count_share_follows true s h)
      ]

  take_follows :
      (written : Bool) (s : PoolLoop)
      → FollowsPool s
      → FollowsPool (pool_take keccak bytes written s)
  unfolding pool_take
  take_follows written s h =
      let (p, q, r, o) = found_keeps s.farm in
      judge_follows written (solution_found s.farm).0
        (record s { farm = (solution_found s.farm).1 })
        (follows_again s (solution_found s.farm).1 h p q r o)

  event_follows : (x : Event) (s u : PoolLoop) → FollowsPool s → event x s ≡ ok u → FollowsPool u
  event_follows (round choice now) s u h e =
      let (final, _, at_work) = round_follows donation user choice now s u h e in at_work.0
  event_follows (look written) s u h e =
      ended (pool_take keccak bytes written s) u (take_follows written s h) e
  event_follows (receive r) s u h e = ended (record s { client = read_response r s.client }) u h e
  event_follows (attempt a written) s u h e =
      ended (record s { client = connect_stratum a written s.client }) u h e
  event_follows (mine nonce i) s u h e =
      let (p, q, r, o) = pool_submit_keeps nonce i s.farm h.0 in
      let f : Farm = (miner_submit_proof nonce i s.farm).1 in
      ended (record s { farm = f }) u (follows_again s f h p q r o) e

  run_follows :
      (xs : List Event) (s u : PoolLoop) → FollowsPool s → pool_run xs s ≡ ok u → FollowsPool u
  run_follows [] s u h e = ended s u h e
  run_follows (x ∷ xs) s u h e = elim (Result-cases (event x s)) [
    | inl (t, f) ↦ run_follows xs t u (event_follows x s t h f) (rw f at e)
    | inr (y, f) ↦ absurd (cc (rw f at e))
  ]

  -- After any run of rounds, solutions, connections and lines of the pool in any order, a round that ends
  -- leaves the farm and all its miners with the challenge that the client has from the pool, if it has
  -- one, and the target that the difficulty's setting makes of the pool's. At first the farm is in pool
  -- mode, its miners have its work, and the loop has no challenge, whatever the farm mined before, or that
  -- of the farm and its target.
  pub pool_run-Mines :
      (xs : List Event) (choice : Choice) (now : ℕ) (s u v : PoolLoop)
      → FollowsPool s
      → pool_run xs s ≡ ok u
      → u.client.challenge ≢ []
      → pool_round donation user choice now u ≡ ok v
      → (final : ℕ × ℕ) × (calc_final_target choice (u.client.target, u.client.difficulty)
          ≡ ok final)
        × Mines u.client.challenge final.0 v
  pool_run-Mines xs choice now s u v h e some_challenge r =
      let (final, f, at_work) =
        round_follows donation user choice now u v (run_follows xs s u h e) r in
      (final, f, FollowsAt-Mines u.client.challenge final.0 v some_challenge at_work)
