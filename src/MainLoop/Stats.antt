-- ===== src/MainLoop/Stats.antt =====
-- Polls leave the statistics of the farm alone (ethminer/MinerAux.h).
use mvis_tokenminer.Prelude.{
  ℕ, ◌≡◌, refl, ◌∙◌, arith, List, inl, inr, Result-cases, if◌then◌else◌, ◌==◌,
}
use mvis_tokenminer.Miner.{OperationMode, solo, pool}
use mvis_tokenminer.Farm.Stats.{set_work-stats}
use mvis_tokenminer.MainLoop.{
  MainLoop, change_challenge, change_target, adopt, poll, Answer, from_pool, from_node,
  calc_final_target, diff_from_target,
}
use mvis_tokenminer.MainLoop.Polling.{polled}

adopt-stats :
    (mode : OperationMode) (c : List ℕ) (t : ℕ) (l : MainLoop)
    → (adopt mode c t l).farm.stats ≡ l.farm.stats
adopt-stats mode c t l = change_target_stats (change_challenge mode c t l) ∙ change_challenge_stats
  where
    change_target_stats : (k : MainLoop) → (change_target t k).farm.stats ≡ k.farm.stats
    change_target_stats k =
        unfold change_target in ground (arith, set_work-stats k.challenge t k.farm)

    change_challenge_stats : (change_challenge mode c t l).farm.stats ≡ l.farm.stats
    change_challenge_stats = unfold change_challenge in ground (arith, set_work-stats c t l.farm)

pub polled-stats : (a : Answer) (l : MainLoop) → (polled a l).farm.stats ≡ l.farm.stats
unfolding poll
polled-stats (from_pool choice c t d) l = elim (Result-cases (calc_final_target choice (t, d))) [
  | inl (final, e) ↦ rw e (adopt-stats pool c final.0 (record l { difficulty = final.1 }))
  | inr (x, e) ↦ rw e refl
]
polled-stats (from_node c t) l =
    elim (Result-cases (diff_from_target (if t == 0 then l.target else t))) [
      | inl (d, e) ↦ rw e (adopt-stats solo _ _ (record l { difficulty = d }))
      | inr (x, e) ↦ rw e refl
    ]
