-- ===== src/Tests/LoopRuns.antt =====
-- Runs of the loop that gets work (ethminer/MinerAux.h).
use mvis_tokenminer.Prelude.{ℕ, ◌^◌, ◌≤◌, ◌≡◌, ◌↔◌, refl, arith, List, [], ◌∷◌, map, ok, replicate}
use mvis_tokenminer.MainLoop.{MainLoop, Answer, from_node, from_pool, by_pool, own}
use mvis_tokenminer.MainLoop.{target_from_diff, diff_from_target}
use mvis_tokenminer.MainLoop.Polling.{polls, Follows, polls-Follows}
use mvis_tokenminer.MainLoop.Recent.{Remembers, polls-Remembers}
use mvis_tokenminer.MainLoop.Difficulty.{diff_from_target-target_from_diff}
use mvis_tokenminer.Tests.FarmRuns.{solo_farm, pool_farm}

abbrev solo_loop : MainLoop
solo_loop = record {
  challenge = 7 ∷ [];
  target = 1000;
  recent_challenges = (7 ∷ []) ∷ [];
  difficulty = 4;
  farm = solo_farm;
}

abbrev answers : List (List ℕ × ℕ)
answers = (replicate 32 8, 900) ∷ (7 ∷ [], 0) ∷ (replicate 32 9, 800) ∷ (replicate 32 8, 900) ∷ []

-- The variables before the first poll.
abbrev first_loop : MainLoop
first_loop = record {
  challenge = [];
  target = 0;
  recent_challenges = [];
  difficulty = 4;
  farm = solo_farm;
}

polls-Remembers_example : Remembers (polls (map (λ a. from_node a.0 a.1) answers) first_loop)
polls-Remembers_example = polls-Remembers answers first_loop (tt, omega arith, refl)

abbrev pool_answers : List Answer
pool_answers = from_pool by_pool (8 ∷ []) 900 5 ∷ from_pool (own 3) (9 ∷ []) 900 5 ∷ []

polls-Follows_example : Follows (polls pool_answers (record solo_loop { farm = pool_farm }))
polls-Follows_example =
    polls-Follows pool_answers (record solo_loop { farm = pool_farm })
      (refl, refl, ((refl, refl), ((refl, refl), tt)))

diff_from_target-target_from_diff_example :
    (u : ℕ) × (k : ℕ) × (target_from_diff 1000 ≡ ok u)
    × (diff_from_target (2 ^ 200) ≡ ok k)
    × ((1000 ≤ k) ↔ (2 ^ 200 ≤ u))
diff_from_target-target_from_diff_example =
    diff_from_target-target_from_diff 1000 (2 ^ 200) (omega arith) (omega arith)
