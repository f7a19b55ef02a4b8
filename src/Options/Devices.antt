-- ===== src/Options/Devices.antt =====
-- Reading the command line ends, and sets no more OpenCL devices than the array of them has places
-- (ethminer/MinerAux.h: interpretOption; ethminer/main.cpp: main).
use mvis_tokenminer.Prelude.{
  ℕ, zero, suc, ◌≤◌, ◌≡◌, ◌≢◌, List, [], ◌∷◌, Option, none, some, arith, true, false,
}
use mvis_tokenminer.Prelude.{Bool, if◌then◌else◌, length}
use mvis_tokenminer.Options.{Settings, Ini, default_settings, load_ini_settings}
use mvis_tokenminer.Options.{Outcome, taken, refused, exits, thrown}
use mvis_tokenminer.Options.Arguments.{interpret_option}
use mvis_tokenminer.Options.Arguments.{
  Reading, ready, invalid_argument, ended, terminated, out_of_fuel, read_arguments, start_with,
  main_arguments,
}
use mvis_tokenminer.Options.Sound.{IsSound, taken_sound, refused_sound, exits_sound, thrown_sound}
use mvis_tokenminer.Options.Sound.{interpret_option-IsSound}

-- How reading ends: not for lack of fuel, and with settings that have at most 16 devices.
data IsRead : Reading → Type 0 where
  ready_read : {s : Settings} → length s.opencl_devices ≤ 16 → IsRead (ready s)
  invalid_read : (a : List ℕ) → IsRead (invalid_argument a)
  ended_read : IsRead ended
  terminated_read : IsRead terminated

read_arguments-IsRead :
    (fuel : ℕ) (args : List (List ℕ)) (s : Settings)
    → length args ≤ fuel
    → length s.opencl_devices ≤ 16
    → IsRead (read_arguments fuel args s)
unfolding read_arguments
read_arguments-IsRead zero [] s h few = ready_read few
read_arguments-IsRead (suc fuel) [] s h few = ready_read few
read_arguments-IsRead zero (a ∷ rest) s h few = absurd (omega arith)
read_arguments-IsRead (suc fuel) (a ∷ rest) s h few =
    continues (interpret_option a rest s) (interpret_option-IsSound s rest few a)
      (λ after t. read_arguments-IsRead fuel after t)
  where
    continues :
        (o : Outcome)
        → IsSound (length rest) o
        → ((after : List (List ℕ)) (t : Settings)
            → length after ≤ fuel
            → length t.opencl_devices ≤ 16
            → IsRead (read_arguments fuel after t))
        → IsRead (elim o [
          | taken t after ↦ read_arguments fuel after t
          | refused ↦ invalid_argument a
          | exits ↦ ended
          | thrown ↦ terminated
        ])
    continues (taken t after) (taken_sound fits room) later = later after t (omega arith) room
    continues refused refused_sound later = invalid_read a
    continues exits exits_sound later = ended_read
    continues thrown thrown_sound later = terminated_read

start_with-IsRead :
    (b : ℕ) (args : List (List ℕ)) (ini : Option Ini)
    → IsRead (start_with (default_settings b) args ini)
unfolding start_with load_ini_settings default_settings
start_with-IsRead b args none = ended_read
start_with-IsRead b args (some ini) =
    read_arguments-IsRead (length args) args _ (omega arith) (omega arith)

if_IsRead : {x y : Reading} (b : Bool) → IsRead x → IsRead y → IsRead (if b then x else y)
if_IsRead true p q = p
if_IsRead false p q = q

main_arguments-IsRead :
    (load : List ℕ → Option Ini) (b : ℕ) (args : List (List ℕ))
    → IsRead (main_arguments load (default_settings b) args)
unfolding main_arguments
main_arguments-IsRead load b args = search (if_IsRead, ended_read, start_with-IsRead)

devices_of : (r : Reading) → IsRead r → (s : Settings) → r ≡ ready s → length s.opencl_devices ≤ 16
devices_of (ready t) (ready_read few) s e = ground arith
devices_of (invalid_argument a) (invalid_read _) s e = cc e
devices_of ended ended_read s e = cc e
devices_of terminated terminated_read s e = cc e
devices_of out_of_fuel r s e = elim r [ ]

fuel_left : (r : Reading) → IsRead r → r ≢ out_of_fuel
fuel_left (ready t) (ready_read few) e = cc e
fuel_left (invalid_argument a) (invalid_read _) e = cc e
fuel_left ended ended_read e = cc e
fuel_left terminated terminated_read e = cc e
fuel_left out_of_fuel r e = elim r [ ]

-- Whatever the INI file and the arguments are, the settings that `main` goes on with have at most 16
-- OpenCL devices, as many as the array has places.
pub main_arguments-Devices :
    (load : List ℕ → Option Ini) (b : ℕ) (args : List (List ℕ)) (s : Settings)
    → main_arguments load (default_settings b) args ≡ ready s
    → length s.opencl_devices ≤ 16
main_arguments-Devices load b args s e = devices_of _ (main_arguments-IsRead load b args) s e

-- The loop over the arguments comes to an end, whatever they are: as many rounds as there are arguments
-- are enough.
pub main_arguments_ends :
    (load : List ℕ → Option Ini) (b : ℕ) (args : List (List ℕ))
    → main_arguments load (default_settings b) args ≢ out_of_fuel
main_arguments_ends load b args = fuel_left _ (main_arguments-IsRead load b args)
