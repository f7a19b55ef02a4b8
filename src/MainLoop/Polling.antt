-- ===== src/MainLoop/Polling.antt =====
-- What polling keeps true of the work (ethminer/MinerAux.h).
use mvis_tokenminer.Prelude.{ℕ, ◌≡◌, List, [], ◌∷◌}
use mvis_tokenminer.Prelude.{
  ◌||◌, ◌&&◌, not, ◌==◌, list_eq, All, inl, inr, Bool-cases, ok, err, Result,
}
use mvis_tokenminer.Prelude.{Result-cases, if◌then◌else◌}
use mvis_tokenminer.Miner.{OperationMode, solo, pool}
use mvis_tokenminer.Farm.{is_solo}
use mvis_tokenminer.Farm.Work.{HasWork, Coherent, set_work-Coherent}
use mvis_tokenminer.MainLoop.{
  MainLoop, change_challenge, change_target, adopt, poll, after_error, Answer, from_pool, from_node,
}
use mvis_tokenminer.MainLoop.{LoopError, seen_before, calc_final_target, diff_from_target}

-- The farm and its miners have the work of the loop.
abbrev pub Follows : MainLoop → Type 0
Follows s =
    (s.farm.challenge ≡ s.challenge)
    × (s.farm.target ≡ s.target)
    × All (HasWork s.challenge s.target) s.farm.miners

given : (c : List ℕ) (t : ℕ) (s : MainLoop) → Follows s → Coherent s.farm
given c t s (a, b, h) = rw (a, b) h

change_challenge-Follows :
    (mode : OperationMode) (c : List ℕ) (t : ℕ) (s : MainLoop)
    → Follows s
    → Follows (change_challenge mode c t s)
unfolding change_challenge
change_challenge-Follows mode c t s h =
    elim (Bool-cases (
      not (list_eq c s.challenge)
      && (not (seen_before c s.recent_challenges) || not (is_solo mode)))) [
        | inl e ↦ rw e (set_work-Coherent c t s.farm (given c t s h))
        | inr e ↦ rw e h
      ]

change_target-Follows : (t : ℕ) (s : MainLoop) → Follows s → Follows (change_target t s)
unfolding change_target
change_target-Follows t s h = elim (Bool-cases (t == s.target)) [
  | inl e ↦ rw e h
  | inr e ↦ rw e (set_work-Coherent s.challenge t s.farm (given s.challenge t s h))
]

-- One poll: where it throws the work stays as it was.
abbrev pub polled : Answer → MainLoop → MainLoop
polled a s = or_same (poll a s)
  where
    or_same : Result LoopError MainLoop → MainLoop
    or_same (ok s') = s'
    or_same (err e) = after_error a s

abbrev pub polls : List Answer → MainLoop → MainLoop
polls [] s = s
polls (a ∷ more) s = polls more (polled a s)

adopt-Follows :
    (mode : OperationMode) (c : List ℕ) (t : ℕ) (s : MainLoop)
    → Follows s
    → Follows (adopt mode c t s)
adopt-Follows mode c t s h =
    change_target-Follows t (change_challenge mode c t s) (change_challenge-Follows mode c t s h)

poll-Follows : (a : Answer) (s : MainLoop) → Follows s → Follows (polled a s)
unfolding poll
poll-Follows (from_pool choice c t d) s h = elim (Result-cases (calc_final_target choice (t, d))) [
  | inl (final, e) ↦ rw e (adopt-Follows pool c final.0 (record s { difficulty = final.1 }) h)
  | inr (x, e) ↦ rw e h
]
poll-Follows (from_node c t) s h =
    elim (Result-cases (diff_from_target (if t == 0 then s.target else t))) [
      | inl (d, e) ↦ rw e (adopt-Follows solo _ _ (record s { difficulty = d }) h)
      | inr (x, e) ↦ rw e h
    ]

-- After any polls, of a pool or a node, the farm and all its miners have the challenge and the target
-- of the loop, if they had before.
pub polls-Follows : (answers : List Answer) (s : MainLoop) → Follows s → Follows (polls answers s)
polls-Follows [] s h = h
polls-Follows (a ∷ more) s h = polls-Follows more (polled a s) (poll-Follows a s h)
