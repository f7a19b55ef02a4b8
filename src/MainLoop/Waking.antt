-- ===== src/MainLoop/Waking.antt =====
-- What a loop whose mining is paused makes of an answer of the node (ethminer/MinerAux.h).
use mvis_tokenminer.Prelude.{ℕ, ◌/◌, ◌%◌, ◌^◌, ◌<◌, ◌≡◌, ◌∙◌, arith, List, [], false}
use mvis_tokenminer.Prelude.{◌==◌, if◌then◌else◌, list_eq_iff, length}
use mvis_tokenminer.Miner.{solo}
use mvis_tokenminer.Farm.{is_solo}
use mvis_tokenminer.Farm.Work.{set_work-challenge}
use mvis_tokenminer.MainLoop.{
  MainLoop, from_node, seen_before, change_challenge, change_target, poll, diff_from_target,
  pow_2_234,
}
use mvis_tokenminer.MainLoop.Polling.{polled}

change_target-challenge :
    (t : ℕ) (l : MainLoop)
    → l.farm.challenge ≡ l.challenge
    → (change_target t l).farm.challenge ≡ l.challenge
unfolding change_target
change_target-challenge t l h = ground (arith, set_work-challenge l.challenge t l.farm)

change_challenge-paused :
    (c : List ℕ) (t : ℕ) (l : MainLoop)
    → l.challenge ≡ []
    → l.farm.challenge ≡ []
    → ((change_challenge solo c t l).challenge
        ≡ (if seen_before c l.recent_challenges then [] else c))
      × ((change_challenge solo c t l).farm.challenge ≡ (change_challenge solo c t l).challenge)
unfolding change_challenge is_solo
change_challenge-paused c t l paused idle =
    ground (arith, set_work-challenge c t l.farm, list_eq_iff c l.challenge)

-- A challenge that the loop remembers does not wake it.
pub woken :
    (c : List ℕ) (t : ℕ) (l : MainLoop)
    → length c ≡ 32
    → 0 < t
    → l.challenge ≡ []
    → l.farm.challenge ≡ []
    → (polled (from_node c t) l).farm.challenge
      ≡ (if seen_before c l.recent_challenges then [] else c)
unfolding poll diff_from_target
woken c t l size positive paused idle =
    let seen : MainLoop = record l { difficulty = pow_2_234 / t % 2 ^ 64 } in
    let (kept, same) = change_challenge-paused c t seen paused idle in
    rw (positive_test, positive_test, size)
      (change_target-challenge t (change_challenge solo c t seen) same ∙ kept)
  where
    positive_test : (t == 0) ≡ false
    positive_test = ground arith
