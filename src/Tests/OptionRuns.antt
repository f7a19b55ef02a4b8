-- ===== src/Tests/OptionRuns.antt =====
-- Runs of the command line (ethminer/MinerAux.h, ethminer/main.cpp).
use mvis_tokenminer.Prelude.{
  ℕ, ◌-◌, ◌^◌, ◌≤◌, ◌≡◌, ◌≢◌, refl, arith, List, [], ◌∷◌, Option, none, some, true, false,
}
use mvis_tokenminer.Prelude.{length, list_eq, if◌then◌else◌}
use mvis_tokenminer.MainLoop.Fee.{negsuc}
use mvis_tokenminer.Numeral.{
  text, stol, atoi, stol_of, read_sign, skip_spaces, leading_digits, is_space, is_digit,
  decimal_value, in_long, at_ends, as_unsigned,
}
use mvis_tokenminer.Options.{
  Ini, Settings, default_settings, load_ini_settings, cl, either, more, next_argument, behind,
  stored, stored_or_thrown,
}
use mvis_tokenminer.Options.Gpu.{gpu_option, trial_option, device_loop, devices_taken, megabytes}
use mvis_tokenminer.Options.Arguments.{
  start_with, read_arguments, interpret_option, or_next, node_option, mode_option, main_arguments,
  ready, ended, terminated, out_of_fuel,
}
use mvis_tokenminer.Options.Items.{Item, main_node, number, flag, interval, on_cl, in_pool}
use mvis_tokenminer.Options.Reading.{all_arguments, set_all, main_arguments-all_arguments}
use mvis_tokenminer.Options.Devices.{main_arguments-Devices, main_arguments_ends}

stol_runs :
    (stol (text " -12x") ≡ some (negsuc 11))
    × (stol (text "x12") ≡ none)
    × (stol (text "9223372036854775808") ≡ none)
unfolding stol stol_of read_sign skip_spaces leading_digits is_space is_digit decimal_value in_long
stol_runs = (refl, refl, refl)

atoi_runs : (atoi (text "abc") ≡ 0) × (atoi (text "-1") ≡ 2 ^ 32 - 1)
unfolding atoi read_sign skip_spaces leading_digits is_space is_digit decimal_value at_ends
    as_unsigned
atoi_runs = (refl, refl)

-- An INI file without any value, at the place that is looked at where none is named.
abbrev empty_ini : Ini
empty_ini key = none

abbrev load : List ℕ → Option Ini
load path = if list_eq path [] then some empty_ini else none

abbrev items : List Item
items =
    flag false on_cl
    ∷ flag true in_pool
    ∷ number true interval 700
    ∷ main_node false (text "pool:80")
    ∷ number false interval 900
    ∷ []

main_arguments-all_arguments_example :
    main_arguments load (default_settings 0) (all_arguments items)
    ≡ ready (set_all items (load_ini_settings empty_ini (default_settings 0)))
unfolding list_eq
main_arguments-all_arguments_example =
    main_arguments-all_arguments load empty_ini (default_settings 0) items refl
      (tt, (tt, (omega arith, (tt, (omega arith, tt)))))

abbrev device_line : List (List ℕ)
device_line = text "--opencl-devices" ∷ text "0" ∷ text "2" ∷ text "-G" ∷ []

abbrev device_settings : Settings
device_settings = record (load_ini_settings empty_ini (default_settings 0)) {
  opencl_devices = 0 ∷ 2 ∷ [];
  miner_type = cl;
}

device_run : main_arguments load (default_settings 0) device_line ≡ ready device_settings
unfolding main_arguments start_with read_arguments interpret_option or_next node_option gpu_option
    trial_option mode_option either more next_argument behind stored stored_or_thrown device_loop
    devices_taken megabytes list_eq stol stol_of read_sign skip_spaces leading_digits is_space
    is_digit decimal_value in_long as_unsigned default_settings load_ini_settings
device_run = refl

main_arguments-Devices_example : length device_settings.opencl_devices ≤ 16
main_arguments-Devices_example =
    main_arguments-Devices load 0 device_line device_settings device_run

main_arguments_ends_example : main_arguments load (default_settings 0) device_line ≢ out_of_fuel
main_arguments_ends_example = main_arguments_ends load 0 device_line

-- A number that is missing ends the program with a message, but not that of `--cl-extragpu-mem`.
number_missing :
    (main_arguments load (default_settings 0) (text "-I" ∷ text "x" ∷ []) ≡ ended)
    × (main_arguments load (default_settings 0) (text "--cl-extragpu-mem" ∷ text "x" ∷ [])
        ≡ terminated)
unfolding main_arguments start_with read_arguments interpret_option or_next node_option gpu_option
    trial_option mode_option either more next_argument behind stored stored_or_thrown device_loop
    devices_taken megabytes list_eq stol stol_of read_sign skip_spaces leading_digits is_space
    is_digit decimal_value in_long as_unsigned default_settings load_ini_settings
number_missing = (refl, refl)
