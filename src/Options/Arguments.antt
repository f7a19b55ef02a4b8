-- ===== src/Options/Arguments.antt =====
-- `interpretOption` (ethminer/MinerAux.h) and the loop over the arguments (ethminer/main.cpp: main).
use mvis_tokenminer.Prelude.{ℕ, zero, suc, List, [], ◌∷◌, map, Option, none, some}
use mvis_tokenminer.Prelude.{Bool, true, false, ◌&&◌, ◌==◌, if◌then◌else◌, length, list_eq}
use mvis_tokenminer.Miner.{solo, pool}
use mvis_tokenminer.MainLoop.Fee.{ℤ}
use mvis_tokenminer.Numeral.{text, stol, atoi, as_unsigned}
use mvis_tokenminer.Options.{Settings, cpu, cl, cuda, mixed, to_lower}
use mvis_tokenminer.Options.{Outcome, taken, refused, exits, thrown, either, more}
use mvis_tokenminer.Options.{next_argument, behind, stored, Ini, load_ini_settings}
use mvis_tokenminer.Options.Gpu.{gpu_option, trial_option}

-- The options of the nodes.
unfoldable pub node_option : List ℕ → List (List ℕ) → Settings → Option Outcome
node_option arg rest s =
    let value = stol (next_argument rest) in
    if either arg (text "-N") (text "--node") && more rest
    then some (taken (record s { node = record s.node { url = next_argument rest } }) (behind rest))
    else if either arg (text "-N2") (text "--node2") && more rest
    then some
        (taken (record s { node2 = record s.node2 { url = next_argument rest } }) (behind rest))
    else if either arg (text "-I") (text "--polling-interval") && more rest
    then some (stored (λ n. record s { polling_interval = n }) (behind rest) value)
    else if either arg (text "-R") (text "--farm-retries") && more rest
    then some (stored (λ n. record s { max_farm_retries = n }) (behind rest) value)
    else if list_eq arg (text "--work-timeout") && more rest
    then some (taken (record s { work_timeout = atoi (next_argument rest) }) (behind rest))
    else none

-- The block of `-M`, where an argument follows: no number is an error, unless it looks like an option.
pub starts_dash : List ℕ → Bool
starts_dash [] = false
starts_dash (c ∷ t) = c == 45

unfoldable pub benchmark_block_of : Settings → List ℕ → List (List ℕ) → Option ℤ → Outcome
benchmark_block_of s a rest (some z) = taken (record s { benchmark_block = as_unsigned z }) rest
benchmark_block_of s a rest none = if starts_dash a then taken s (a ∷ rest) else exits

unfoldable pub benchmark_option : Settings → List (List ℕ) → Outcome
benchmark_option s [] = taken s []
benchmark_option s (a ∷ rest) = benchmark_block_of s a rest (stol (map to_lower a))

-- The options of what is mined and how; an argument that is none of them is refused.
unfoldable pub mode_option : List ℕ → List (List ℕ) → Settings → Outcome
mode_option arg rest s =
    if either arg (text "-C") (text "--cpu")
    then taken (record s { miner_type = cpu }) rest
    else if either arg (text "-G") (text "--opencl")
    then taken (record s { miner_type = cl }) rest
    else if either arg (text "-P") (text "--opencl")
    then taken (record s { op_mode = pool }) rest
    else if either arg (text "-S") (text "--opencl")
    then taken (record s { op_mode = solo }) rest
    else if either arg (text "-U") (text "--cuda")
    then taken (record s { miner_type = cuda }) rest
    else if either arg (text "-X") (text "--cuda-opencl")
    then taken (record s { miner_type = mixed }) rest
    else if either arg (text "-M") (text "--benchmark")
    then benchmark_option (record s { do_benchmark = true }) rest
    else if either arg (text "-t") (text "--mining-threads") && more rest
    then stored (λ n. record s { mining_threads = n }) (behind rest) (stol (next_argument rest))
    else if list_eq arg (text "--config")
    then exits
    else refused

unfoldable pub or_next : Option Outcome → Outcome → Outcome
or_next none later = later
or_next (some o) later = o

-- `interpretOption` on an argument and those behind it.
unfoldable pub interpret_option : List ℕ → List (List ℕ) → Settings → Outcome
interpret_option arg rest s =
    or_next (node_option arg rest s)
      (or_next (gpu_option arg rest s) (or_next (trial_option arg rest s) (mode_option arg rest s)))

-- How the loop of `main` ends.
pub data Reading : Type 0 where
  ready : Settings → Reading
  invalid_argument : List ℕ → Reading
  ended : Reading
  terminated : Reading
  out_of_fuel : Reading

unfoldable pub read_arguments : ℕ → List (List ℕ) → Settings → Reading
read_arguments fuel [] s = ready s
read_arguments zero (a ∷ rest) s = out_of_fuel
read_arguments (suc fuel) (a ∷ rest) s = elim (interpret_option a rest s) [
  | taken t after ↦ read_arguments fuel after t
  | refused ↦ invalid_argument a
  | exits ↦ ended
  | thrown ↦ terminated
]

-- `main` up to `execute`: the INI file is read, the one that `--config` names if it comes first, and
-- then the arguments. What the INI file has is none where it cannot be read.
unfoldable pub start_with : Settings → List (List ℕ) → Option Ini → Reading
start_with s args none = ended
start_with s args (some ini) = read_arguments (length args) args (load_ini_settings ini s)

unfoldable pub main_arguments : (List ℕ → Option Ini) → Settings → List (List ℕ) → Reading
main_arguments load s args =
    let arg = next_argument args in
    if either arg (text "-h") (text "--help")
    then ended
    else if either arg (text "-V") (text "--version")
    then ended
    else if list_eq arg (text "--config") && more (behind args)
    then start_with s (behind (behind args)) (load (next_argument (behind args)))
    else start_with s args (load [])
