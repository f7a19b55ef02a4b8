-- ===== src/Startup.antt =====
-- The start of the program (ethminer/MinerAux.h: execute, createMiners; ethminer/Misc.cpp: split;
-- ethminer/Common.cpp: strToInt; setNumInstances and instances of libethcore/EthashCPUMiner.h and
-- EthashGPUMiner.h), as a build with OpenCL and without CUDA compiles it. What the INI file has, what
-- `u256` makes of a text, and what the machine has are outside.
pub mod Account
pub mod Failover
use mvis_tokenminer.Prelude.{
  ℕ, zero, suc, ◌+◌, ◌^◌, min, List, [], ◌∷◌, ◌++◌, map, Option, none, some,
}
use mvis_tokenminer.Prelude.{Bool, true, false, ◌&&◌, ◌||◌, not, leb, ltb, ◌==◌, if◌then◌else◌}
use mvis_tokenminer.Prelude.{length, list_eq, take}
use mvis_tokenminer.Miner.{OperationMode, none_mode}
use mvis_tokenminer.MainLoop.Fee.{ℤ, pos, negsuc}
use mvis_tokenminer.Numeral.{text, stol, atoi}
use mvis_tokenminer.Options.{
  MinerType, undefined, cpu, cl, cuda, mixed, Node, Settings, Ini, get_option, get_default,
  to_lower,
}

-- `split`: pieces as `getline` reads them, so there is none behind a delimiter that ends the text.
unfoldable pub put_first : ℕ → List (List ℕ) → List (List ℕ)
put_first c [] = (c ∷ []) ∷ []
put_first c (piece ∷ pieces) = (c ∷ piece) ∷ pieces

unfoldable pub split : List ℕ → ℕ → List (List ℕ)
split [] delimiter = []
split (c ∷ t) delimiter =
    if c == delimiter then [] ∷ split t delimiter else put_first c (split t delimiter)

-- `strToInt`: what `stoi` gives, if it throws nothing.
pub in_int : ℤ → Bool
in_int (pos n) = ltb n (2 ^ 31)
in_int (negsuc n) = ltb n (2 ^ 31)

pub or_default : ℤ → Option ℤ → ℤ
or_default otherwise none = otherwise
or_default otherwise (some z) = if in_int z then z else otherwise

pub str_to_int : List ℕ → ℤ → ℤ
str_to_int t otherwise = or_default otherwise (stol t)

-- `m_minutesPerShare`, with `none` for -1: the pool's difficulty counts. `atoi` gives an int, so an
-- unsigned number from 2 ^ 31 on stands for one below zero.
pub minutes_per_share : Ini → Option ℕ
minutes_per_share ini =
    let mps = map to_lower (get_default ini (text "0xBitcoin.MinutesPerShare") (text "Pool")) in
    if list_eq mps (text "pool")
    then none
    else if atoi mps == 0 || leb (2 ^ 31) (atoi mps)
    then none
    else some (atoi mps)

-- Why the program ends before it mines; reading the first piece of an empty account is undefined.
pub data Refusal : Type 0 where
  no_type lists_devices no_first_piece no_prefix bad_character bad_account no_mode : Refusal
  no_device no_cuda : Refusal

-- `s_numInstances` of the type of miner is kept with the settings.
pub record Started : Type 0 where
  pub settings : Settings
  pub account : List ℕ
  pub minutes : Option ℕ
  pub difficulty : ℤ
  pub instances : ℕ

-- How the program goes on: it ends, or it does a benchmark, or what it does is undefined as its miners
-- are, or it starts the farm with miners and enters the loop over the nodes.
pub data Startup : Type 0 where
  ends : Refusal → Startup
  benchmarks : Started → Startup
  no_miners : Startup
  mines : Started → List ℕ → Startup

-- The threads of the processor, the OpenCL devices, and what `configureGPU` returns for the settings.
pub record Machine : Type 0 where
  pub hardware_concurrency : ℕ
  pub num_devices : ℕ
  pub configure_gpu : Settings → Bool

-- The checks of `m_userAcct`.
module _ (to_u256 : List ℕ → Option ℕ) where
  pub check_number : List ℕ → Option ℕ → Option Refusal
  check_number acct none = some bad_character
  check_number acct (some n) = if n == 0 || not (length acct == 42) then some bad_account else none

  pub check_first : List (List ℕ) → Option Refusal
  check_first [] = some no_first_piece
  check_first (acct ∷ rest) =
      if list_eq (take 2 acct) (text "0x") then check_number acct (to_u256 acct) else some no_prefix

  pub check_account : List ℕ → Option Refusal
  check_account user_acct = check_first (split user_acct b',')

pub is_undefined : MinerType → Bool
is_undefined undefined = true
is_undefined _ = false

pub is_none_mode : OperationMode → Bool
is_none_mode none_mode = true
is_none_mode _ = false

-- `setDevices`, with `m_miningThreads`.
pub use_devices : Settings → Settings
use_devices s =
    if length s.opencl_devices == 0
    then s
    else record s { mining_threads = length s.opencl_devices }

pub or_ends : Option Refusal → Startup → Startup
or_ends none next = next
or_ends (some r) next = ends r

-- `createMiners`: the indices of the miners that are created, for a CPU or for OpenCL. For other types
-- their number is not set, and there is no function that creates one.
unfoldable pub up_from : ℕ → ℕ → List ℕ
up_from zero i = []
up_from (suc n) i = i ∷ up_from n (i + 1)

unfoldable pub create_miners : Machine → MinerType → ℕ → Option (List ℕ)
create_miners m cpu n = some (up_from (if ltb 0 n then n else m.hardware_concurrency) 0)
create_miners m cl n = some (up_from (if ltb 0 n then n else 1) 0)
create_miners m _ n = none

-- `f.start(createMiners(m_minerType, &f))`
pub start_farm : Started → Option (List ℕ) → Startup
start_farm st none = no_miners
start_farm st (some miners) = mines st miners

-- `doBenchmark`, or the farm and the loop over the nodes.
pub go : Machine → MinerType → Started → Startup
go m type st =
    if st.settings.do_benchmark
    then benchmarks st
    else start_farm st (create_miners m type st.instances)

-- The branches on `m_minerType`, with the instances that they set.
pub configure : Machine → MinerType → (Settings → ℕ → Started) → Settings → Startup
configure m undefined with_instances s = go m undefined (with_instances s 0)
configure m cpu with_instances s =
    go m cpu (with_instances s (min s.mining_threads m.hardware_concurrency))
configure m cl with_instances s =
    if m.configure_gpu (use_devices s)
    then go m cl (with_instances (use_devices s) (min (use_devices s).mining_threads m.num_devices))
    else ends no_device
configure m cuda with_instances s = ends no_cuda
configure m mixed with_instances s =
    if m.configure_gpu (use_devices s)
    then go m mixed
        (with_instances (use_devices s) (min (use_devices s).mining_threads m.num_devices))
    else ends no_device

pub user_account : Ini → List ℕ
user_account ini = get_option ini (text "0xBitcoin.MinerAcct")

pub started : Ini → Settings → ℕ → Started
started ini s n = record {
  settings = s;
  account = user_account ini;
  minutes = minutes_per_share ini;
  difficulty = str_to_int (get_default ini (text "0xBitcoin._Difficulty_") (text "-1")) (negsuc 0);
  instances = n;
}

-- `execute`, up to the benchmark or the loop over the nodes, which `visits` of Startup/Failover runs.
module _ (to_u256 : List ℕ → Option ℕ) (m : Machine) (ini : Ini) where
  pub execute : Settings → Startup
  execute s =
      if is_undefined s.miner_type
      then ends no_type
      else if s.should_list_devices
      then ends lists_devices
      else or_ends (check_account to_u256 (user_account ini)) (
          if is_none_mode s.op_mode then ends no_mode else configure m s.miner_type (started ini) s)
