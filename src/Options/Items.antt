-- ===== src/Options/Items.antt =====
-- Options as values: their arguments, what they mean, and that `interpretOption` takes them so
-- (ethminer/MinerAux.h).
use mvis_tokenminer.Prelude.{ℕ, ◌%◌, ◌^◌, ◌<◌, ◌≡◌, refl, List, [], ◌∷◌}
use mvis_tokenminer.Prelude.{Bool, true, false, ◌||◌, if◌then◌else◌, list_eq}
use mvis_tokenminer.Miner.{solo, pool}
use mvis_tokenminer.Numeral.{text, as_unsigned}
use mvis_tokenminer.Numeral.Decimal.{decimal, stol-decimal}
use mvis_tokenminer.Options.{
  Settings, cpu, cl, cuda, mixed, either, more, next_argument, behind, stored,
}
use mvis_tokenminer.Options.{taken}
use mvis_tokenminer.Options.Gpu.{gpu_option, trial_option}
use mvis_tokenminer.Options.Arguments.{node_option, mode_option, or_next, interpret_option}

-- The options that set a number, and those that are set alone.
pub data Number : Type 0 where
  interval retries platform multiplier local_work warmup trial trials threads : Number

pub data Flag : Type 0 where
  on_cpu on_cl on_cuda on_both in_pool in_solo list_devices with_cpu : Flag

-- An option on the command line, by its short name or its long one, where it has two.
pub data Item : Type 0 where
  main_node : Bool → List ℕ → Item
  fail_over : Bool → List ℕ → Item
  number : Bool → Number → ℕ → Item
  flag : Bool → Flag → Item

abbrev pub node_name : Bool → List ℕ
node_name long = if long then text "--node" else text "-N"

abbrev pub node2_name : Bool → List ℕ
node2_name long = if long then text "--node2" else text "-N2"

abbrev pub number_name : Bool → Number → List ℕ
number_name long interval = if long then text "--polling-interval" else text "-I"
number_name long retries = if long then text "--farm-retries" else text "-R"
number_name long platform = text "--opencl-platform"
number_name long multiplier = if long then text "--cl-work-multiplier" else text "--cuda-grid-size"
number_name long local_work = if long then text "--cl-local-work" else text "--cuda-block-size"
number_name long warmup = text "--benchmark-warmup"
number_name long trial = text "--benchmark-trial"
number_name long trials = text "--benchmark-trials"
number_name long threads = if long then text "--mining-threads" else text "-t"

abbrev pub flag_name : Bool → Flag → List ℕ
flag_name long on_cpu = if long then text "--cpu" else text "-C"
flag_name long on_cl = if long then text "--opencl" else text "-G"
flag_name long on_cuda = if long then text "--cuda" else text "-U"
flag_name long on_both = if long then text "--cuda-opencl" else text "-X"
flag_name long in_pool = text "-P"
flag_name long in_solo = text "-S"
flag_name long list_devices = text "--list-devices"
flag_name long with_cpu = text "--allow-opencl-cpu"

-- The arguments an option is given by.
abbrev pub arguments : Item → List (List ℕ)
arguments (main_node long url) = node_name long ∷ url ∷ []
arguments (fail_over long url) = node2_name long ∷ url ∷ []
arguments (number long o n) = number_name long o ∷ decimal n ∷ []
arguments (flag long f) = flag_name long f ∷ []

-- What an option means.
abbrev pub set_number : Number → ℕ → Settings → Settings
set_number interval n s = record s { polling_interval = n }
set_number retries n s = record s { max_farm_retries = n }
set_number platform n s = record s { opencl_platform = n }
set_number multiplier n s = record s { work_size_multiplier = n }
set_number local_work n s = record s { local_work_size = n }
set_number warmup n s = record s { benchmark_warmup = n }
set_number trial n s = record s { benchmark_trial = n }
set_number trials n s = record s { benchmark_trials = n }
set_number threads n s = record s { mining_threads = n }

abbrev pub set_flag : Flag → Settings → Settings
set_flag on_cpu s = record s { miner_type = cpu }
set_flag on_cl s = record s { miner_type = cl }
set_flag on_cuda s = record s { miner_type = cuda }
set_flag on_both s = record s { miner_type = mixed }
set_flag in_pool s = record s { op_mode = pool }
set_flag in_solo s = record s { op_mode = solo }
set_flag list_devices s = record s { should_list_devices = true }
set_flag with_cpu s = record s { cl_allow_cpu = true }

abbrev pub set_item : Item → Settings → Settings
set_item (main_node long url) s = record s { node = record s.node { url = url } }
set_item (fail_over long url) s = record s { node2 = record s.node2 { url = url } }
set_item (number long o n) s = set_number o (n % 2 ^ 32) s
set_item (flag long f) s = set_flag f s

-- The names that `main` looks for before it reads the options.
abbrev pub opens : List ℕ → Bool
opens arg =
    either arg (text "-h") (text "--help")
    || either arg (text "-V") (text "--version")
    || list_eq arg (text "--config")

-- A number fits the type that it is read at.
abbrev pub Fits : Item → Type 0
Fits (number long o n) = n < 2 ^ 63
Fits _ = Unit

pub number-taken :
    (long : Bool) (o : Number) (n : ℕ) (rest : List (List ℕ)) (s : Settings)
    → n < 2 ^ 63
    → (interpret_option (number_name long o) (decimal n ∷ rest) s
        ≡ taken (set_number o (n % 2 ^ 32) s) rest)
      × (opens (number_name long o) ≡ false)
unfolding interpret_option or_next node_option gpu_option trial_option mode_option either more
    next_argument behind stored as_unsigned list_eq
number-taken false interval n rest s h = (rw (stol-decimal n h) refl, refl)
number-taken true interval n rest s h = (rw (stol-decimal n h) refl, refl)
number-taken false retries n rest s h = (rw (stol-decimal n h) refl, refl)
number-taken true retries n rest s h = (rw (stol-decimal n h) refl, refl)
number-taken long platform n rest s h = (rw (stol-decimal n h) refl, refl)
number-taken false multiplier n rest s h = (rw (stol-decimal n h) refl, refl)
number-taken true multiplier n rest s h = (rw (stol-decimal n h) refl, refl)
number-taken false local_work n rest s h = (rw (stol-decimal n h) refl, refl)
number-taken true local_work n rest s h = (rw (stol-decimal n h) refl, refl)
number-taken long warmup n rest s h = (rw (stol-decimal n h) refl, refl)
number-taken long trial n rest s h = (rw (stol-decimal n h) refl, refl)
number-taken long trials n rest s h = (rw (stol-decimal n h) refl, refl)
number-taken false threads n rest s h = (rw (stol-decimal n h) refl, refl)
number-taken true threads n rest s h = (rw (stol-decimal n h) refl, refl)

pub flag-taken :
    (long : Bool) (f : Flag) (rest : List (List ℕ)) (s : Settings)
    → (interpret_option (flag_name long f) rest s ≡ taken (set_flag f s) rest)
      × (opens (flag_name long f) ≡ false)
unfolding interpret_option or_next node_option gpu_option trial_option mode_option either list_eq
flag-taken false on_cpu rest s = (refl, refl)
flag-taken true on_cpu rest s = (refl, refl)
flag-taken false on_cl rest s = (refl, refl)
flag-taken true on_cl rest s = (refl, refl)
flag-taken false on_cuda rest s = (refl, refl)
flag-taken true on_cuda rest s = (refl, refl)
flag-taken false on_both rest s = (refl, refl)
flag-taken true on_both rest s = (refl, refl)
flag-taken long in_pool rest s = (refl, refl)
flag-taken long in_solo rest s = (refl, refl)
flag-taken long list_devices rest s = (refl, refl)
flag-taken long with_cpu rest s = (refl, refl)

pub node-taken :
    (long : Bool) (url : List ℕ) (rest : List (List ℕ)) (s : Settings)
    → (interpret_option (node_name long) (url ∷ rest) s
        ≡ taken (record s { node = record s.node { url = url } }) rest)
      × (opens (node_name long) ≡ false)
unfolding interpret_option or_next node_option either more next_argument behind list_eq
node-taken false url rest s = (refl, refl)
node-taken true url rest s = (refl, refl)

pub node2-taken :
    (long : Bool) (url : List ℕ) (rest : List (List ℕ)) (s : Settings)
    → (interpret_option (node2_name long) (url ∷ rest) s
        ≡ taken (record s { node2 = record s.node2 { url = url } }) rest)
      × (opens (node2_name long) ≡ false)
unfolding interpret_option or_next node_option either more next_argument behind list_eq
node2-taken false url rest s = (refl, refl)
node2-taken true url rest s = (refl, refl)
