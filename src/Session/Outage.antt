-- ===== src/Session/Outage.antt =====
-- What errors of the connection do to the work (ethminer/MinerAux.h: doGetWork).
use mvis_tokenminer.Prelude.{
  ℕ, zero, suc, ◌+◌, ◌<◌, ◌≤◌, ◌≡◌, refl, ◌∙◌, ap, arith, List, [], false, true, Bool,
}
use mvis_tokenminer.Prelude.{
  Bool-cases, Result-cases, inl, inr, ◌==◌, ==_iff, ◌&&◌, if◌then◌else◌, length,
}
use mvis_tokenminer.MainLoop.Waking.{woken}
use mvis_tokenminer.Options.{Settings, fail_over_available}
use mvis_tokenminer.MainLoop.{MainLoop, Answer, from_node, seen_before, poll}
use mvis_tokenminer.Farm.Work.{set_work-challenge, set_work-Coherent, Coherent}
use mvis_tokenminer.MainLoop.Polling.{polled, Follows}
use mvis_tokenminer.Session.{Session, rpc_failed, max_retries, pause_work, answer_taken, answered}

-- That many errors, and nothing between them.
abbrev pub outage : ℕ → Settings → Session → Session
outage zero p s = s
outage (suc n) p s = outage n p (rpc_failed p s)

-- Errors before the last one that is allowed leave the work and the loop alone.
waiting :
    (n : ℕ) (p : Settings) (s : Session)
    → s.farm_retries + n < max_retries p
    → ((outage n p s).farm_retries ≡ s.farm_retries + n)
      × ((outage n p s).loop ≡ s.loop)
      × ((outage n p s).open_loop ≡ s.open_loop)
unfolding rpc_failed
waiting zero p s h = (omega arith, refl, refl)
waiting (suc n) p s h = grind (arith, waiting n p (rpc_failed p s))

-- The error that reaches the limit.
limit :
    (p : Settings) (s : Session)
    → s.farm_retries + 1 ≡ max_retries p
    → ((rpc_failed p s).loop ≡ pause_work s.loop)
      × ((rpc_failed p s).open_loop ≡ (if fail_over_available p then false else s.open_loop))
unfolding rpc_failed
limit p s h = rw (h, (==_iff (max_retries p) (max_retries p)).1 refl) (refl, refl)

pauses :
    (n : ℕ) (p : Settings) (s : Session)
    → s.farm_retries + suc n ≡ max_retries p
    → ((outage (suc n) p s).loop ≡ pause_work s.loop)
      × ((outage (suc n) p s).open_loop ≡ (if fail_over_available p then false else s.open_loop))
unfolding rpc_failed
pauses zero p s h = limit p s h
pauses (suc n) p s h =
    let (r, l, o) = waiting 1 p s (omega arith) in
    let (again, open_again) = pauses n p (rpc_failed p s) (omega (arith, r)) in
    (again ∙ ap pause_work l, open_again ∙ ap (λ b. if fail_over_available p then false else b) o)

-- What errors do to the loop: paused, it has the empty challenge and its target, and so have the farm
-- and all its miners; else it is as it was.
abbrev pub Outcome : Bool → MainLoop → MainLoop → Type 0
Outcome true before after =
    (after.challenge ≡ [])
    × (after.target ≡ before.target)
    × (after.recent_challenges ≡ before.recent_challenges)
    × Follows after
Outcome false before after = after ≡ before

pause_work-Outcome : (l : MainLoop) → Coherent l.farm → Outcome true l (pause_work l)
unfolding pause_work
pause_work-Outcome l h = (refl, refl, refl, set_work-Coherent [] l.target l.farm h)

-- Errors in a row, none answered between them: before the limit, the retries of the settings if there
-- is a failover node and four if not, the loop with its farm stays as it is; at the limit the loop, the
-- farm and all its miners have the empty challenge and the target of the loop, and what the loop
-- remembers stays; and the loop is left exactly where the limit is reached and there is a failover node.
-- The miners had the work of the farm before.
pub outage_lem :
    (n : ℕ) (p : Settings) (s : Session)
    → s.farm_retries + n ≤ max_retries p
    → 0 < n
    → Coherent s.loop.farm
    → Outcome (s.farm_retries + n == max_retries p) s.loop (outage n p s).loop
      × ((outage n p s).open_loop ≡ (
          if s.farm_retries + n == max_retries p && fail_over_available p
          then false
          else s.open_loop))
outage_lem zero p s h some_error coherent = absurd (omega arith)
outage_lem (suc n) p s h some_error coherent =
    elim (Bool-cases (s.farm_retries + suc n == max_retries p)) [
      | inl e ↦
          let (paused, left) =
            pauses n p s ((==_iff (s.farm_retries + suc n) (max_retries p)).0 e) in
          rw (e, paused) (pause_work-Outcome s.loop coherent, left)
      | inr e ↦
          let (r, same, open_still) = waiting (suc n) p s (ground arith) in rw e (same, open_still)
    ]

answered-loop :
    (a : Answer) (account : List ℕ) (s : Session)
    → (answered a account s).loop.farm.challenge ≡ (polled a s.loop).farm.challenge
unfolding answered answer_taken
answered-loop a account s = elim (Result-cases (poll a s.loop)) [
  | inl (l, e) ↦ rw e refl
  | inr (x, e) ↦ rw e refl
]

-- In solo mining without a failover node, where as many errors as are allowed were followed by an answer
-- of the node, the farm has the challenge of that answer if the loop does not remember it, and stays
-- paused if it does.
pub outage_resumes :
    (c : List ℕ) (t n : ℕ) (p : Settings) (account : List ℕ) (s : Session)
    → s.farm_retries + suc n ≡ max_retries p
    → length c ≡ 32
    → 0 < t
    → (answered (from_node c t) account (outage (suc n) p s)).loop.farm.challenge
      ≡ (if seen_before c s.loop.recent_challenges then [] else c)
unfolding pause_work
outage_resumes c t n p account s h size positive =
    answered-loop (from_node c t) account (outage (suc n) p s)
    ∙ ap (λ l. (polled (from_node c t) l).farm.challenge) (pauses n p s h).0
    ∙ woken c t (pause_work s.loop) size positive refl
        (set_work-challenge [] s.loop.target s.loop.farm)
