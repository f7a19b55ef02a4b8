-- ===== src/Session/Sent.antt =====
-- What is handed over in a run of the loop, and how it is counted (ethminer/MinerAux.h: doGetWork).
use mvis_tokenminer.Prelude.{
  ℕ, ◌+◌, ◌%◌, ◌^◌, ◌<◌, ◌≡◌, refl, ◌∙◌, ap, arith, List, [], ◌∷◌, Option, none, some,
}
use mvis_tokenminer.Prelude.{
  Bool, true, false, inl, inr, Bool-cases, Result-cases, ◌==◌, ltb, ltb→lt, if◌then◌else◌, All,
}
use mvis_tokenminer.Miner.{SolutionStats, accepted}
use mvis_tokenminer.Farm.{Farm, miner_submit_proof, record_solution}
use mvis_tokenminer.Farm.Stats.{
  set_work-stats, miner_submit_proof-stats, solution_found-stats, record_solution-accepts,
}
use mvis_tokenminer.MainLoop.{Answer, poll}
use mvis_tokenminer.MainLoop.Stats.{polled-stats}
use mvis_tokenminer.Options.{Settings}
use mvis_tokenminer.Session.{
  delivered, refused, left_out, rpc_error, other_error, Delivery, Session, Sending, answered,
  answer_taken, rpc_failed, pause_work, max_retries,
}
use mvis_tokenminer.Session.{recorded, hand_over, judge, found, take_found}

-- How many of the calls returned.
abbrev pub returns : Delivery → ℕ
returns delivered = 1
returns refused = 1
returns left_out = 1
returns rpc_error = 0
returns other_error = 0

abbrev pub returned : List Sending → ℕ
returned [] = 0
returned (x ∷ xs) = returns x.delivery + returned xs

counted :
    (f : Farm) (n : ℕ)
    → f.stats.accepts ≡ n % 2 ^ 32
    → (record_solution accepted false f).stats.accepts ≡ (1 + n) % 2 ^ 32
counted f n h = (record_solution-accepts f).0 ∙ omega (arith, h)

-- The function that hashes a challenge, an account and a solution, and the settings.
module _ (p : Settings) (keccak : List ℕ → List ℕ → ℕ → ℕ) where
  -- What was handed over solves its challenge, and as many calls returned as are counted.
  abbrev pub IsSolution : Sending → Type 0
  IsSolution x = (x.hash ≡ keccak x.challenge x.account x.solution) × (x.hash < x.target)

  abbrev pub IsTallied : Session → Type 0
  IsTallied s = All IsSolution s.calls × (s.loop.farm.stats.accepts ≡ returned s.calls % 2 ^ 32)

  -- The steps: an answer, an error, a solution of a miner, and a look for a solution, whose submission
  -- ends so.
  pub data Step : Type 0 where
    answer : Answer → List ℕ → Step
    fail : Step
    submit : ℕ → ℕ → Step
    take : Delivery → Step

  abbrev pub step : Step → Session → Session
  step (answer a account) s = answered a account s
  step fail s = rpc_failed p s
  step (submit nonce i) s = record s {
    loop = record s.loop { farm = (miner_submit_proof nonce i s.loop.farm).1 };
  }
  step (take d) s = take_found p keccak d s

  -- The steps while the loop is not left.
  abbrev pub run : List Step → Session → Session
  run [] s = s
  run (x ∷ xs) s = run xs (if s.open_loop then step x s else s)

  answered-IsTallied :
      (a : Answer) (account : List ℕ) (s : Session) → IsTallied s → IsTallied (answered a account s)
  unfolding answered answer_taken
  answered-IsTallied a account s (all, n) = elim (Result-cases (poll a s.loop)) [
    | inl (l, e) ↦
        rw e (all, ap (λ (x : SolutionStats). x.accepts) (rw e at (polled-stats a s.loop)) ∙ n)
    | inr (x, e) ↦
        rw e (all, ap (λ (x : SolutionStats). x.accepts) (rw e at (polled-stats a s.loop)) ∙ n)
  ]

  rpc_failed-IsTallied : (s : Session) → IsTallied s → IsTallied (rpc_failed p s)
  unfolding rpc_failed pause_work
  rpc_failed-IsTallied s (all, n) = elim (Bool-cases (s.farm_retries + 1 == max_retries p)) [
    | inl e ↦ rw e (
      all,
      ap (λ (x : SolutionStats). x.accepts) (set_work-stats [] s.loop.target s.loop.farm) ∙ n,
    )
    | inr e ↦ rw e (all, n)
  ]

  hand_over-IsTallied :
      (x : Sending) (d : Delivery) (s : Session)
      → x.delivery ≡ d
      → IsSolution x
      → IsTallied s
      → IsTallied (hand_over p d (record s { calls = x ∷ s.calls }))
  unfolding hand_over recorded
  hand_over-IsTallied x delivered s e h (all, n) =
      ((h, all), rw e (counted s.loop.farm (returned s.calls) n))
  hand_over-IsTallied x refused s e h (all, n) =
      ((h, all), rw e (counted s.loop.farm (returned s.calls) n))
  hand_over-IsTallied x left_out s e h (all, n) =
      ((h, all), rw e (counted s.loop.farm (returned s.calls) n))
  hand_over-IsTallied x rpc_error s e h (all, n) =
      rpc_failed-IsTallied (record s { calls = x ∷ s.calls }) ((h, all), rw e (omega (arith, n)))
  hand_over-IsTallied x other_error s e h (all, n) = ((h, all), rw e (omega (arith, n)))

  judge-IsTallied :
      (solution : ℕ) (d : Delivery) (s : Session)
      → IsTallied s
      → IsTallied (judge p keccak solution d s)
  unfolding judge recorded
  judge-IsTallied solution d s (all, n) =
      elim (Bool-cases (ltb (keccak s.loop.challenge s.account solution) s.loop.target)) [
        | inl e ↦ rw e (hand_over-IsTallied _ d s refl (refl, ltb→lt _ _ e) (all, n))
        | inr e ↦ rw e (all, (record_solution-accepts s.loop.farm).1 ∙ n)
      ]

  found-IsTallied :
      (d : Delivery) (o : Option (ℕ × ℕ)) (s : Session)
      → IsTallied s
      → IsTallied (found p keccak d o s)
  unfolding found
  found-IsTallied d none s h = h
  found-IsTallied d (some (solution, i)) s h = judge-IsTallied solution d s h

  step-IsTallied : (x : Step) (s : Session) → IsTallied s → IsTallied (step x s)
  unfolding take_found
  step-IsTallied (answer a account) s h = answered-IsTallied a account s h
  step-IsTallied fail s h = rpc_failed-IsTallied s h
  step-IsTallied (submit nonce i) s (all, n) = (
    all,
    ap (λ (x : SolutionStats). x.accepts) (miner_submit_proof-stats nonce i s.loop.farm) ∙ n,
  )
  step-IsTallied (take d) s (all, n) =
      found-IsTallied d _ _
        (all, ap (λ (x : SolutionStats). x.accepts) (solution_found-stats s.loop.farm) ∙ n)

  while_open-IsTallied :
      (b : Bool) (x : Step) (s : Session) → IsTallied s → IsTallied (if b then step x s else s)
  while_open-IsTallied true x s h = step-IsTallied x s h
  while_open-IsTallied false x s h = h

  -- Over any run, of answers, errors, solutions of the miners and looks for one, whatever is handed over
  -- has a hash below the target that was in force, the hash of its solution for its challenge and account;
  -- and the accepted solutions that the farm counts, modulo 2 ^ 32, are as many as the calls that returned,
  -- those among them that the pool refused or that submitted nothing, since another miner had the
  -- challenge. Both are to hold before.
  pub run-IsTallied : (steps : List Step) (s : Session) → IsTallied s → IsTallied (run steps s)
  run-IsTallied [] s h = h
  run-IsTallied (x ∷ xs) s h = run-IsTallied xs _ (while_open-IsTallied s.open_loop x s h)
