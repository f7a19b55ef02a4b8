-- ===== src/Thermal.antt =====
-- The thermal protection of a miner (libethcore/Miner.h: PIDController.update), which runs every two
-- seconds. Temperatures are floating-point numbers: a reading says how the two comparisons come out,
-- and which number the controller's terms add up to. `m_thermalRunaway` and the time to shut down are
-- not cut to 32 bits: an update adds 2000, so the first overflows after 24 days of heat at the
-- earliest, and the second is taken to be below 2^31 / 1000 seconds and not negative.
pub mod Runaway
use mvis_tokenminer.Prelude.{ℕ, ◌+◌, ◌-◌, ◌*◌, min, List, [], ◌∷◌}
use mvis_tokenminer.Prelude.{Bool, true, false, ltb, if◌then◌else◌}
use mvis_tokenminer.MainLoop.Fee.{ℤ, pos, negsuc}

-- The controller, `shutDown` of the farm, and `m_throttle` of the miner. `runaway` is
-- `m_thermalRunaway` plus one, since that begins at -1. `enabled` is false where `setPoint` is below 0.
pub record Thermal : Type 0 where
  pub enabled : Bool
  pub shut_down_time : ℕ
  pub runaway : ℕ
  pub shut_down : Bool
  pub throttle : ℕ

-- `gpuTemp > setPoint`, `gpuTemp > setPoint - 0.75`, and the sum of the controller's terms.
pub record Reading : Type 0 where
  pub above : Bool
  pub near : Bool
  pub terms : ℤ

-- `c_updateRate`
abbrev pub update_rate : ℕ
update_rate = 2000

-- `min(100, max(0, throttle))`
unfoldable pub clamp : ℤ → ℕ
clamp (pos n) = min 100 n
clamp (negsuc n) = 0

-- `gpuTemp > (setPoint - threshold)`
unfoldable pub is_over : Reading → Thermal → Bool
is_over r t = if ltb 1 t.runaway then r.near else r.above

unfoldable pub heat : Thermal → Thermal
heat t =
    let n = t.runaway + update_rate in
    record t {
      runaway = n;
      shut_down = if ltb (t.shut_down_time * 1000 + 1) n then true else t.shut_down;
    }

-- `max(0, m_thermalRunaway - int(c_updateRate * 0.75))`
pub cool : Thermal → Thermal
cool t = record t { runaway = t.runaway - 1 - 1500 + 1 }

-- `update`, with the last throttle that is asked for: what `setThrottle` of the miner makes of it, nothing
-- for a CPU and only while it mines for a GPU, is not part of this state.
unfoldable pub update : Reading → Thermal → Thermal
update r t =
    if t.enabled
    then record (if is_over r t then heat t else cool t) { throttle = clamp r.terms }
    else t

unfoldable pub updates : List Reading → Thermal → Thermal
updates [] t = t
updates (r ∷ rs) t = updates rs (update r t)
