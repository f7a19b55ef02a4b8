-- ===== src/Thermal/Runaway.antt =====
-- When overheating ends the program (libethcore/Miner.h: PIDController.update).
use mvis_tokenminer.Prelude.{ℕ, ◌+◌, ◌*◌, ◌<◌, ◌≡◌, ◌∙◌, arith, List, [], ◌∷◌}
use mvis_tokenminer.Prelude.{true, if◌then◌else◌, length, All}
use mvis_tokenminer.Thermal.{Thermal, Reading, is_over, heat, cool, update, updates}

-- The readings that are near the limit.
abbrev pub near_count : List Reading → ℕ
near_count [] = 0
near_count (r ∷ rs) = (if r.near then 1 else 0) + near_count rs

update-enabled :
    (r : Reading) (t : Thermal)
    → ((update r t).enabled ≡ t.enabled) × ((update r t).shut_down_time ≡ t.shut_down_time)
unfolding update heat cool
update-enabled r t = ground arith

stays_shut_down :
    (rs : List Reading) (t : Thermal) → t.shut_down ≡ true → (updates rs t).shut_down ≡ true
unfolding updates update heat cool
stays_shut_down [] t h = h
stays_shut_down (r ∷ rs) t h = stays_shut_down rs (update r t) (ground arith)

update_hot :
    (r : Reading) (t : Thermal)
    → t.enabled ≡ true
    → r.above ≡ true
    → r.near ≡ true
    → ((update r t).runaway ≡ t.runaway + 2000)
      × (t.shut_down_time * 1000 + 1 < t.runaway + 2000 → (update r t).shut_down ≡ true)
unfolding update heat is_over
update_hot r t e a n = ground arith

-- A miner that stays too hot ends the program: after readings above the limit alone the farm is shut
-- down, if there is one and there are enough of them for the time that the settings allow.
pub updates-shut_down :
    (rs : List Reading) (t : Thermal)
    → All (λ r. (r.above ≡ true) × (r.near ≡ true)) rs
    → t.enabled ≡ true
    → 0 < length rs
    → t.shut_down_time * 1000 + 1 < t.runaway + 2000 * length rs
    → (updates rs t).shut_down ≡ true
unfolding updates
updates-shut_down [] t hot e some_reading long = absurd (omega arith)
updates-shut_down (r ∷ []) t ((a, n), hot) e some_reading long =
    (update_hot r t e a n).1 (omega arith)
updates-shut_down (r ∷ q ∷ rs) t ((a, n), hot) e some_reading long =
    let (keeps, time) = update-enabled r t in
    let (more, _) = update_hot r t e a n in
    updates-shut_down (q ∷ rs) (update r t) hot (keeps ∙ e) (omega arith) (omega arith)
