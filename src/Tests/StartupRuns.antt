-- ===== src/Tests/StartupRuns.antt =====
-- Runs of the start of the program and of the thermal protection (ethminer/MinerAux.h,
-- libethcore/Miner.h).
use mvis_tokenminer.Prelude.{ℕ, ◌≡◌, refl, arith, List, [], ◌∷◌, Option, none, some}
use mvis_tokenminer.Prelude.{true, false, if◌then◌else◌, list_eq, replicate}
use mvis_tokenminer.Miner.{solo}
use mvis_tokenminer.MainLoop.Fee.{pos}
use mvis_tokenminer.Numeral.{text}
use mvis_tokenminer.Options.{Settings, Ini, cpu, default_settings}
use mvis_tokenminer.Startup.{Machine, split, put_first, create_miners, up_from}
use mvis_tokenminer.Startup.Account.{digit_value}
use mvis_tokenminer.Startup.Failover.{visits, visit, node_at, do_get_work}
use mvis_tokenminer.Thermal.{Thermal, Reading, updates}
use mvis_tokenminer.Thermal.Runaway.{updates-shut_down}

split_runs : (split (text "a,b,") b',' ≡ text "a" ∷ text "b" ∷ []) × (split [] b',' ≡ [])
unfolding split put_first
split_runs = (refl, refl)

-- A reader of hexadecimal numbers.
abbrev read_u256 : List ℕ → Option ℕ
read_u256 [] = none
read_u256 (a ∷ []) = none
read_u256 (a ∷ x ∷ digits) = digit_value 0 digits

abbrev machine : Machine
machine = record { hardware_concurrency = 4; num_devices = 1; configure_gpu = λ s. true }

create_miners_runs : create_miners machine cpu 3 ≡ some (0 ∷ 1 ∷ 2 ∷ [])
unfolding create_miners up_from
create_miners_runs = refl

abbrev ini : Ini
ini key =
    if list_eq key (text "0xBitcoin.MinerAcct")
    then some (text "0x0123456789012345678901234567890123456789,rig1")
    else none

abbrev solo_settings : Settings
solo_settings = record (default_settings 0) {
  miner_type = cpu;
  op_mode = solo;
  node = record { url = text "node"; is_stratum = false };
}

abbrev cold : Thermal
cold = record { enabled = true; shut_down_time = 5; runaway = 0; shut_down = false; throttle = 0 }

abbrev too_hot : Reading
too_hot = record { above = true; near = true; terms = pos 120 }

updates-shut_down_example : (updates (replicate 3 too_hot) cold).shut_down ≡ true
updates-shut_down_example =
    updates-shut_down (replicate 3 too_hot) cold ((refl, refl), ((refl, refl), ((refl, refl), tt)))
      refl (omega arith) (omega arith)

-- Without a failover node every second round calls nothing.
visits_runs :
    visits
      (record solo_settings { node = record { url = text "node"; is_stratum = false } })
      (false ∷ false ∷ true ∷ [])
      0
    ≡ do_get_work (text "node") ∷ do_get_work (text "node") ∷ []
unfolding visits visit node_at list_eq default_settings
visits_runs = refl
