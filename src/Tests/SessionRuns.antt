-- ===== src/Tests/SessionRuns.antt =====
-- Runs of the outer loop of `doGetWork` (ethminer/MinerAux.h).
use mvis_tokenminer.Prelude.{ℕ, ◌≡◌, refl, arith, List, [], ◌∷◌, true, false, replicate}
use mvis_tokenminer.Prelude.{◌==◌, ◌&&◌, if◌then◌else◌, list_eq}
use mvis_tokenminer.Options.{default_settings, fail_over_available}
use mvis_tokenminer.MainLoop.{from_node, from_pool, by_pool, seen_before}
use mvis_tokenminer.Session.{delivered, left_out, rpc_error, Session, max_retries, answered}
use mvis_tokenminer.Session.Outage.{Outcome, outage, outage_lem, outage_resumes}
use mvis_tokenminer.Session.Sent.{answer, fail, submit, take, Step, run, IsTallied, run-IsTallied}
use mvis_tokenminer.Tests.FarmRuns.{solo_farm}

-- A loop that mines for a challenge, which it remembers.
abbrev mining : Session
mining = record {
  loop = record {
    challenge = replicate 32 7;
    target = 1000;
    recent_challenges = replicate 32 7 ∷ [];
    difficulty = 4;
    farm = solo_farm;
  };
  account = [];
  farm_retries = 0;
  connected = true;
  calls = [];
  open_loop = true;
}

four : max_retries (default_settings 0) ≡ 4
unfolding max_retries fail_over_available default_settings list_eq
four = refl

abbrev errors : Session
errors = outage 4 (default_settings 0) mining

outage_lem_example :
    Outcome (4 == max_retries (default_settings 0)) mining.loop errors.loop
    × (errors.open_loop ≡ (
        if 4 == max_retries (default_settings 0) && fail_over_available (default_settings 0)
        then false
        else true))
outage_lem_example =
    outage_lem 4 (default_settings 0) mining (omega (arith, four)) (omega arith)
      ((refl, refl), ((refl, refl), tt))

-- The node comes back with the challenge that it had before.
outage_resumes_example :
    (answered (from_node (replicate 32 7) 1000) [] errors).loop.farm.challenge
    ≡ (if seen_before (replicate 32 7) (replicate 32 7 ∷ []) then [] else replicate 32 7)
outage_resumes_example =
    outage_resumes (replicate 32 7) 1000 3 (default_settings 0) [] mining (omega (arith, four)) refl
      (omega arith)

-- The hash of a solution stands for it.
abbrev keccak : List ℕ → List ℕ → ℕ → ℕ
keccak challenge account solution = solution

abbrev steps : List (Step (default_settings 0) keccak)
steps =
    submit 900 0
    ∷ take delivered
    ∷ submit 2000 1
    ∷ take delivered
    ∷ submit 700 0
    ∷ take left_out
    ∷ fail
    ∷ submit 800 1
    ∷ take rpc_error
    ∷ answer (from_pool by_pool (8 ∷ []) 500 5) (1 ∷ [])
    ∷ []

run-IsTallied_example :
    IsTallied (default_settings 0) keccak (run (default_settings 0) keccak steps mining)
run-IsTallied_example = run-IsTallied (default_settings 0) keccak steps mining (tt, refl)
