-- ===== src/Options/Gpu.antt =====
-- The options of the GPUs, of the graph they work on and of the benchmark (ethminer/MinerAux.h:
-- interpretOption, from `--opencl-platform` to `--benchmark-trials`).
use mvis_tokenminer.Prelude.{ℕ, ◌+◌, ◌*◌, List, [], ◌∷◌, ◌++◌, Option, none, some}
use mvis_tokenminer.Prelude.{true, false, ◌&&◌, ltb, if◌then◌else◌, length, list_eq}
use mvis_tokenminer.MainLoop.Fee.{ℤ, pos, negsuc, negate}
use mvis_tokenminer.Numeral.{text, stol, atoi, as_unsigned}
use mvis_tokenminer.Options.{Settings, parallel, sequential, single}
use mvis_tokenminer.Options.{
  Outcome, taken, exits, thrown, either, more, next_argument, behind, stored,
}
use mvis_tokenminer.Options.{stored_or_thrown}

-- The devices that are set, and the arguments behind them.
pub record Devices : Type 0 where
  pub devices : List ℕ
  pub after : List (List ℕ)

-- The loop of `--opencl-devices`: numbers are taken while there is room for one.
unfoldable pub device_loop : List (List ℕ) → List ℕ → Devices
device_loop [] devices = record { devices = devices; after = [] }
device_loop (a ∷ rest) devices = elim (ltb (length devices) 16) [
  | false ↦ record { devices = devices; after = a ∷ rest }
  | true ↦ elim (stol a) [
    | none ↦ record { devices = devices; after = a ∷ rest }
    | some z ↦ device_loop rest (devices ++ as_unsigned z ∷ [])
  ]
]

unfoldable pub devices_taken : Settings → Devices → Outcome
devices_taken s d = taken (record s { opencl_devices = d.devices }) d.after

-- `1000000 * stol(argv[++i])`
pub millions : ℤ → ℤ
millions (pos n) = pos (1000000 * n)
millions (negsuc n) = negate (1000000 * (n + 1))

unfoldable pub megabytes : Option ℤ → Option ℤ
megabytes none = none
megabytes (some z) = some (millions z)

-- The device of `single` is the argument behind it; without one, its text is made of a null pointer,
-- which throws as a text without a number does.
unfoldable pub single_device : Settings → List (List ℕ) → Outcome
single_device s [] = thrown
single_device s (a ∷ rest) =
    stored_or_thrown (λ n. record s { dag_create_device = n }) rest (stol a)

unfoldable pub dag_load_option : List ℕ → List (List ℕ) → Settings → Outcome
dag_load_option mode rest s =
    if list_eq mode (text "parallel")
    then taken (record s { dag_load_mode = parallel }) rest
    else if list_eq mode (text "sequential")
    then taken (record s { dag_load_mode = sequential }) rest
    else if list_eq mode (text "single")
    then single_device (record s { dag_load_mode = single }) rest
    else exits

-- The options of the OpenCL devices; `none` where the argument is none of them.
unfoldable pub gpu_option : List ℕ → List (List ℕ) → Settings → Option Outcome
gpu_option arg rest s =
    let value = stol (next_argument rest) in
    if list_eq arg (text "--opencl-platform") && more rest
    then some (stored (λ n. record s { opencl_platform = n }) (behind rest) value)
    else if either arg (text "--opencl-devices") (text "--opencl-device")
    then some (devices_taken s (device_loop rest s.opencl_devices))
    else if either arg (text "--cl-work-multiplier") (text "--cuda-grid-size") && more rest
    then some (stored (λ n. record s { work_size_multiplier = n }) (behind rest) value)
    else if either arg (text "--cl-local-work") (text "--cuda-block-size") && more rest
    then some (stored (λ n. record s { local_work_size = n }) (behind rest) value)
    else if list_eq arg (text "--list-devices")
    then some (taken (record s { should_list_devices = true }) rest)
    else if list_eq arg (text "--export-dag") && more rest
    then some (
        taken (record s { export_dag = true; export_dag_block = atoi (next_argument rest) })
          (behind rest))
    else if either arg (text "--cl-extragpu-mem") (text "--cuda-extragpu-mem") && more rest
    then some
        (stored_or_thrown (λ n. record s { extra_gpu_memory = n }) (behind rest) (megabytes value))
    else if list_eq arg (text "--allow-opencl-cpu")
    then some (taken (record s { cl_allow_cpu = true }) rest)
    else if either arg (text "-L") (text "--dag-load-mode") && more rest
    then some (dag_load_option (next_argument rest) (behind rest) s)
    else none

-- Those of the benchmark's times.
unfoldable pub trial_option : List ℕ → List (List ℕ) → Settings → Option Outcome
trial_option arg rest s =
    let value = stol (next_argument rest) in
    if list_eq arg (text "--benchmark-warmup") && more rest
    then some (stored (λ n. record s { benchmark_warmup = n }) (behind rest) value)
    else if list_eq arg (text "--benchmark-trial") && more rest
    then some (stored (λ n. record s { benchmark_trial = n }) (behind rest) value)
    else if list_eq arg (text "--benchmark-trials") && more rest
    then some (stored (λ n. record s { benchmark_trials = n }) (behind rest) value)
    else none
