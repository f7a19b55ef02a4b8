-- ===== src/Options.antt =====
-- The settings and the command line (ethminer/MinerAux.h: MinerCLI, loadIniSettings, interpretOption;
-- ethminer/main.cpp), as a build with OpenCL and without CUDA compiles them. An argument is the list of
-- its character codes. The INI file is outside: what it has for a name is an argument.
pub mod Gpu
pub mod Arguments
pub mod Items
pub mod Sound
pub mod Devices
pub mod Reading
use mvis_tokenminer.Prelude.{ℕ, ◌+◌, List, [], ◌∷◌, map, Option, none, some}
use mvis_tokenminer.Prelude.{Bool, true, false, ◌||◌, ◌&&◌, not, leb, if◌then◌else◌, list_eq}
use mvis_tokenminer.Miner.{OperationMode, none_mode}
use mvis_tokenminer.MainLoop.Fee.{ℤ}
use mvis_tokenminer.Numeral.{text, as_unsigned}

-- `MinerType`
pub data MinerType : Type 0 where
  undefined cpu cl cuda mixed : MinerType

-- `DAG_LOAD_MODE_PARALLEL` and its likes.
pub data DagLoadMode : Type 0 where
  parallel sequential single : DagLoadMode

-- `node_t`
pub record Node : Type 0 where
  pub url : List ℕ
  pub is_stratum : Bool

-- The settings of `MinerCLI`; of `m_openclDevices` the `m_openclDeviceCount` entries that are set, and
-- of `m_nodes` the two that `loadIniSettings` puts there.
pub record Settings : Type 0 where
  pub node : Node
  pub node2 : Node
  pub web3_url : List ℕ
  pub polling_interval : ℕ
  pub max_farm_retries : ℕ
  pub work_timeout : ℕ
  pub opencl_platform : ℕ
  pub opencl_devices : List ℕ
  pub work_size_multiplier : ℕ
  pub local_work_size : ℕ
  pub should_list_devices : Bool
  pub export_dag : Bool
  pub export_dag_block : ℕ
  pub extra_gpu_memory : ℕ
  pub cl_allow_cpu : Bool
  pub dag_load_mode : DagLoadMode
  pub dag_create_device : ℕ
  pub benchmark_warmup : ℕ
  pub benchmark_trial : ℕ
  pub benchmark_trials : ℕ
  pub benchmark_block : ℕ
  pub do_benchmark : Bool
  pub miner_type : MinerType
  pub op_mode : OperationMode
  pub mining_threads : ℕ

abbrev pub no_node : Node
no_node = record { url = []; is_stratum = false }

-- The initial values of the members; that of `m_exportDAG_blockNum`, which has none, is an argument.
unfoldable pub default_settings : ℕ → Settings
default_settings export_dag_block = record {
  node = no_node;
  node2 = no_node;
  web3_url = [];
  polling_interval = 2000;
  max_farm_retries = 4;
  work_timeout = 180;
  opencl_platform = 0;
  opencl_devices = [];
  work_size_multiplier = 196608;
  local_work_size = 128;
  should_list_devices = false;
  export_dag = false;
  export_dag_block = export_dag_block;
  extra_gpu_memory = 0;
  cl_allow_cpu = false;
  dag_load_mode = parallel;
  dag_create_device = 0;
  benchmark_warmup = 8;
  benchmark_trial = 3;
  benchmark_trials = 5;
  benchmark_block = 0;
  do_benchmark = false;
  miner_type = undefined;
  op_mode = none_mode;
  mining_threads = 4294967295;
}

-- What `interpretOption` does: it takes the option and leaves these arguments, it returns false, it
-- ends the program with a message, or an exception leaves it.
pub data Outcome : Type 0 where
  taken : Settings → List (List ℕ) → Outcome
  refused : Outcome
  exits : Outcome
  thrown : Outcome

-- `arg == a || arg == b`
unfoldable pub either : List ℕ → List ℕ → List ℕ → Bool
either arg a b = list_eq arg a || list_eq arg b

-- `i + 1 < argc`, `argv[i + 1]`, and the arguments behind that one.
unfoldable pub more : List (List ℕ) → Bool
more [] = false
more (a ∷ rest) = true

unfoldable pub next_argument : List (List ℕ) → List ℕ
next_argument [] = []
next_argument (a ∷ rest) = a

unfoldable pub behind : List (List ℕ) → List (List ℕ)
behind [] = []
behind (a ∷ rest) = rest

-- A number is set in a `try` whose `catch` ends the program, or without one.
unfoldable pub stored : (ℕ → Settings) → List (List ℕ) → Option ℤ → Outcome
stored put rest none = exits
stored put rest (some z) = taken (put (as_unsigned z)) rest

unfoldable pub stored_or_thrown : (ℕ → Settings) → List (List ℕ) → Option ℤ → Outcome
stored_or_thrown put rest none = thrown
stored_or_thrown put rest (some z) = taken (put (as_unsigned z)) rest

-- The tree of the INI file: what it has at `Section.Key`.
abbrev pub Ini : Type 0
Ini = List ℕ → Option (List ℕ)

pub get_or : Option (List ℕ) → List ℕ → List ℕ
get_or none otherwise = otherwise
get_or (some value) otherwise = value

-- `m_defaults`
pub program_default : List ℕ → Option (List ℕ)
program_default key =
    if list_eq key (text "ThermalProtection.TempProvider")
    then some (text "amd_adl")
    else if list_eq key (text "ThermalProtection.ThrottleTemp")
    then some (text "80")
    else if list_eq key (text "ThermalProtection.ShutDown")
    then some (text "20")
    else if list_eq key (text "Node.Host")
    then some (text "127.0.0.1")
    else if list_eq key (text "Node.RPCPort")
    then some (text "8545")
    else none

-- `ProgOpt::Get`, with a default of the call and without one.
pub get_default : Ini → List ℕ → List ℕ → List ℕ
get_default ini key otherwise = get_or (ini key) otherwise

pub get_option : Ini → List ℕ → List ℕ
get_option ini key = get_or (ini key) (get_or (program_default key) [])

pub to_lower : ℕ → ℕ
to_lower c = if leb b'A' c && leb c b'Z' then c + 32 else c

pub says_yes : List ℕ → Bool
says_yes stratum =
    let low = map to_lower stratum in
    list_eq low (text "true") || list_eq low (text "yes") || list_eq low (text "1")

-- `loadIniSettings`
unfoldable pub load_ini_settings : Ini → Settings → Settings
load_ini_settings ini s = record s {
  node = record {
    url = get_option ini (text "Node.Host");
    is_stratum = says_yes (get_default ini (text "Node.Stratum") (text "false"));
  };
  node2 = record {
    url = get_option ini (text "Node2.Host");
    is_stratum = says_yes (get_default ini (text "Node2.Stratum") (text "false"));
  };
  web3_url = get_option ini (text "General.Web3Url");
}

unfoldable pub fail_over_available : Settings → Bool
fail_over_available s = not (list_eq s.node2.url [])
