-- ===== src/MainLoop.antt =====
-- The loop that gets work (ethminer/MinerAux.h: doGetWork, calcFinalTarget, targetFromDiff,
-- diffFromTarget): what a poll of the pool or the node makes of the work of the farm.
pub mod Polling
pub mod Recent
pub mod Stats
pub mod Waking
pub mod Difficulty
pub mod Fee
use mvis_tokenminer.Prelude.{
  ℕ, zero, suc, ◌+◌, ◌-◌, ◌*◌, ◌/◌, ◌%◌, ◌^◌, List, [], ◌∷◌, Bool, true, false,
}
use mvis_tokenminer.Prelude.{◌||◌, ◌&&◌, not, ltb, ◌==◌, if◌then◌else◌, list_eq, length, take}
use mvis_tokenminer.Prelude.{Result, ok, err, ◌>>=◌}
use mvis_tokenminer.Miner.{OperationMode, solo, pool}
use mvis_tokenminer.Farm.{Farm, set_work, is_solo}

-- The local variables of `doGetWork` that work changes, and the farm.
pub record MainLoop : Type 0 where
  pub challenge : List ℕ
  pub target : ℕ
  pub recent_challenges : List (List ℕ)
  pub difficulty : ℕ
  pub farm : Farm

-- A division of numbers by zero throws.
pub data LoopError : Type 0 where
  division_by_zero : LoopError

abbrev pub pow_2_234 : ℕ
pow_2_234 = 2 ^ 234

pub target_from_diff : ℕ → Result LoopError ℕ
target_from_diff difficulty =
    if difficulty == 0 then err division_by_zero else ok (pow_2_234 / difficulty)

pub diff_from_target : ℕ → Result LoopError ℕ
diff_from_target target =
    if target == 0 then err division_by_zero else ok (pow_2_234 / target % 2 ^ 64)

-- Who chooses the difficulty: the settings, the pool, or the hash rate, which gives the upper 64 bits
-- of the target.
pub data Choice : Type 0 where
  own : ℕ → Choice
  by_pool : Choice
  by_rate : ℕ → Choice

-- `calcFinalTarget`
unfoldable pub calc_final_target : Choice → ℕ × ℕ → Result LoopError (ℕ × ℕ)
calc_final_target (own d) (target, difficulty) = target_from_diff d >>= λ t. ok (t, d)
calc_final_target by_pool (target, difficulty) = ok (target, difficulty)
calc_final_target (by_rate target64) (target, difficulty) =
    diff_from_target (target64 * 2 ^ 192) >>= λ d. ok (target64 * 2 ^ 192, d)

pub seen_before : List ℕ → List (List ℕ) → Bool
seen_before challenge [] = false
seen_before challenge (c ∷ rest) = list_eq c challenge || seen_before challenge rest

-- `push_front`, and `pop_back` when there are more than five.
pub remember : List ℕ → List (List ℕ) → List (List ℕ)
remember challenge recent = take 5 (challenge ∷ recent)

-- `if (_challenge != challenge) { ... }`
pub change_challenge : OperationMode → List ℕ → ℕ → MainLoop → MainLoop
change_challenge mode new_challenge new_target s =
    if not (list_eq new_challenge s.challenge)
      && (not (seen_before new_challenge s.recent_challenges) || not (is_solo mode))
    then record s {
      recent_challenges = remember new_challenge s.recent_challenges;
      challenge = new_challenge;
      target = new_target;
      farm = set_work new_challenge new_target s.farm;
    }
    else s

-- `if (_target != target) { ... }`
pub change_target : ℕ → MainLoop → MainLoop
change_target new_target s =
    if new_target == s.target
    then s
    else record s { target = new_target; farm = set_work s.challenge new_target s.farm }

-- What the pool or the node answers.
pub data Answer : Type 0 where
  from_pool : Choice → List ℕ → ℕ → ℕ → Answer
  from_node : List ℕ → ℕ → Answer

abbrev pub adopt : OperationMode → List ℕ → ℕ → MainLoop → MainLoop
adopt mode new_challenge new_target s =
    change_target new_target (change_challenge mode new_challenge new_target s)

-- What an exception of the arithmetic leaves: the difficulty, which is passed by reference, may be
-- another already.
abbrev pub difficulty_left : Choice → ℕ → ℕ
difficulty_left (own d) by_answer = d
difficulty_left by_pool by_answer = by_answer
difficulty_left (by_rate target64) by_answer = by_answer

abbrev pub after_error : Answer → MainLoop → MainLoop
after_error (from_pool choice c t d) s = record s { difficulty = difficulty_left choice d }
after_error (from_node c t) s = s

-- The check for new work, if it throws nothing.
pub poll : Answer → MainLoop → Result LoopError MainLoop
poll (from_pool choice new_challenge new_target new_difficulty) s =
    calc_final_target choice (new_target, new_difficulty) >>= λ final.
    ok (adopt pool new_challenge final.0 (record s { difficulty = final.1 }))
poll (from_node new_challenge new_target) s = diff_from_target valid_target >>= λ d.
    ok (adopt solo valid_challenge valid_target (record s { difficulty = d }))
  where
    valid_challenge : List ℕ
    valid_challenge = if not (length new_challenge == 32) then s.challenge else new_challenge

    valid_target : ℕ
    valid_target = if new_target == 0 then s.target else new_target
