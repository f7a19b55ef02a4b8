-- ===== src/Options/Sound.antt =====
-- Every option leaves fewer arguments than there were, and no more OpenCL devices than the array of
-- them has places (ethminer/MinerAux.h: interpretOption).
use mvis_tokenminer.Prelude.{
  ℕ, suc, ◌≤◌, List, [], ◌∷◌, ◌++◌, Option, none, some, arith, true, false,
}
use mvis_tokenminer.Prelude.{Bool, if◌then◌else◌, map, length, length-append}
use mvis_tokenminer.MainLoop.Fee.{ℤ}
use mvis_tokenminer.Numeral.{stol, as_unsigned}
use mvis_tokenminer.Options.{Settings, to_lower}
use mvis_tokenminer.Options.{
  Outcome, taken, refused, exits, thrown, stored, stored_or_thrown, behind,
}
use mvis_tokenminer.Options.Gpu.{device_loop, devices_taken, single_device}
use mvis_tokenminer.Options.Gpu.{dag_load_option, gpu_option, trial_option}
use mvis_tokenminer.Options.Arguments.{
  node_option, benchmark_block_of, benchmark_option, mode_option, or_next, interpret_option,
}

-- An option that is taken leaves at most `n` arguments and at most 16 devices.
pub data IsSound (n : ℕ) : Outcome → Type 0 where
  taken_sound :
      {s : Settings} {after : List (List ℕ)}
      → length after ≤ n
      → length s.opencl_devices ≤ 16
      → IsSound n (taken s after)
  refused_sound : IsSound n refused
  exits_sound : IsSound n exits
  thrown_sound : IsSound n thrown

pub data IsSoundOption (n : ℕ) : Option Outcome → Type 0 where
  none_sound : IsSoundOption n none
  some_sound : {o : Outcome} → IsSound n o → IsSoundOption n (some o)

if_IsSound :
    {n : ℕ} {x y : Outcome} (b : Bool) → IsSound n x → IsSound n y → IsSound n (if b then x else y)
if_IsSound true p q = p
if_IsSound false p q = q

if_IsSoundOption :
    {n : ℕ} {x y : Option Outcome} (b : Bool)
    → IsSoundOption n x
    → IsSoundOption n y
    → IsSoundOption n (if b then x else y)
if_IsSoundOption true p q = p
if_IsSoundOption false p q = q

all_left : (rest : List (List ℕ)) → length rest ≤ length rest
all_left rest = omega arith

length-behind : (rest : List (List ℕ)) → length (behind rest) ≤ length rest
unfolding behind
length-behind [] = omega arith
length-behind (a ∷ rest) = omega arith

device_loop_sound :
    (rest : List (List ℕ)) (ds : List ℕ)
    → length ds ≤ 16
    → (length (device_loop rest ds).after ≤ length rest)
      × (length (device_loop rest ds).devices ≤ 16)
unfolding device_loop
device_loop_sound [] ds h = (omega arith, h)
device_loop_sound (a ∷ rest) ds h = grind (
  arith,
  λ (z : ℤ). device_loop_sound rest (ds ++ as_unsigned z ∷ []),
  λ (z : ℤ). length-append ds (as_unsigned z ∷ []),
)

stored-IsSound :
    {n : ℕ} (put : ℕ → Settings) (rest : List (List ℕ)) (z : Option ℤ)
    → length rest ≤ n
    → ((k : ℕ) → length (put k).opencl_devices ≤ 16)
    → IsSound n (stored put rest z)
unfolding stored
stored-IsSound put rest none h few = exits_sound
stored-IsSound put rest (some z) h few = taken_sound h (few (as_unsigned z))

stored_or_thrown-IsSound :
    {n : ℕ} (put : ℕ → Settings) (rest : List (List ℕ)) (z : Option ℤ)
    → length rest ≤ n
    → ((k : ℕ) → length (put k).opencl_devices ≤ 16)
    → IsSound n (stored_or_thrown put rest z)
unfolding stored_or_thrown
stored_or_thrown-IsSound put rest none h few = thrown_sound
stored_or_thrown-IsSound put rest (some z) h few = taken_sound h (few (as_unsigned z))

single_device-IsSound :
    {n : ℕ} (s : Settings) (rest : List (List ℕ))
    → length s.opencl_devices ≤ 16
    → length rest ≤ n
    → IsSound n (single_device s rest)
unfolding single_device
single_device-IsSound s [] few h = thrown_sound
single_device-IsSound s (a ∷ rest) few h =
    stored_or_thrown-IsSound (λ n. record s { dag_create_device = n }) rest (stol a) (omega arith)
      (λ k. few)

ruleset sound = (
  taken_sound, refused_sound, exits_sound, thrown_sound, none_sound, some_sound, if_IsSound,
  if_IsSoundOption, stored-IsSound, stored_or_thrown-IsSound, single_device-IsSound, all_left,
  length-behind,
)

-- The options, each with what is behind it.
module _ (s : Settings) (rest : List (List ℕ)) (few : length s.opencl_devices ≤ 16) where
  dag_load_option-IsSound :
      {n : ℕ} (mode : List ℕ) (after : List (List ℕ))
      → length after ≤ n
      → IsSound n (dag_load_option mode after s)
  unfolding dag_load_option
  dag_load_option-IsSound mode after h = search sound depth 12

  node_option-IsSound : (arg : List ℕ) → IsSoundOption (length rest) (node_option arg rest s)
  unfolding node_option
  node_option-IsSound arg = search sound depth 12

  device_loop-IsSound : IsSound (length rest) (devices_taken s (device_loop rest s.opencl_devices))
  unfolding devices_taken
  device_loop-IsSound =
      let (fits, room) = device_loop_sound rest s.opencl_devices few in taken_sound fits room

  gpu_option-IsSound : (arg : List ℕ) → IsSoundOption (length rest) (gpu_option arg rest s)
  unfolding gpu_option
  gpu_option-IsSound arg = search (sound, device_loop-IsSound, dag_load_option-IsSound) depth 20

  trial_option-IsSound : (arg : List ℕ) → IsSoundOption (length rest) (trial_option arg rest s)
  unfolding trial_option
  trial_option-IsSound arg = search sound depth 12

  benchmark_block_of-IsSound :
      (a : List ℕ) (after : List (List ℕ)) (z : Option ℤ)
      → IsSound (suc (length after)) (benchmark_block_of s a after z)
  unfolding benchmark_block_of
  benchmark_block_of-IsSound a after none = if_IsSound _ (taken_sound (omega arith) few) exits_sound
  benchmark_block_of-IsSound a after (some z) = taken_sound (omega arith) few

  benchmark_option-IsSound :
      (after : List (List ℕ)) → IsSound (length after) (benchmark_option s after)
  unfolding benchmark_option
  benchmark_option-IsSound [] = taken_sound (omega arith) few
  benchmark_option-IsSound (a ∷ after) = benchmark_block_of-IsSound a after (stol (map to_lower a))

mode_option-IsSound :
    (s : Settings) (rest : List (List ℕ))
    → length s.opencl_devices ≤ 16
    → (arg : List ℕ) → IsSound (length rest) (mode_option arg rest s)
unfolding mode_option
mode_option-IsSound s rest few arg =
    search (sound, benchmark_option-IsSound (record s { do_benchmark = true }) rest few rest) depth
      16

or_next-IsSound :
    (n : ℕ) (o : Option Outcome) (later : Outcome)
    → IsSoundOption n o
    → IsSound n later
    → IsSound n (or_next o later)
unfolding or_next
or_next-IsSound n none later none_sound h = h
or_next-IsSound n (some o) later (some_sound k) h = k

pub interpret_option-IsSound :
    (s : Settings) (rest : List (List ℕ))
    → length s.opencl_devices ≤ 16
    → (arg : List ℕ) → IsSound (length rest) (interpret_option arg rest s)
unfolding interpret_option
interpret_option-IsSound s rest few arg =
    or_next-IsSound _ _ _ (node_option-IsSound s rest few arg) (
      or_next-IsSound _ _ _ (gpu_option-IsSound s rest few arg) (
        or_next-IsSound _ _ _ (trial_option-IsSound s rest few arg)
          (mode_option-IsSound s rest few arg)))
