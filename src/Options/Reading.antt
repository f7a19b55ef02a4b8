-- ===== src/Options/Reading.antt =====
-- A command line that is printed from options is read as those options, in their order
-- (ethminer/MinerAux.h: interpretOption; ethminer/main.cpp: main).
use mvis_tokenminer.Prelude.{
  ℕ, zero, suc, ◌≤◌, ◌≡◌, refl, ◌∙◌, ap, List, [], ◌∷◌, ◌++◌, Option, some, arith,
}
use mvis_tokenminer.Prelude.{false, length, list_eq, All}
use mvis_tokenminer.Options.{Settings, either, next_argument}
use mvis_tokenminer.Options.{taken, Ini, load_ini_settings}
use mvis_tokenminer.Options.Arguments.{
  interpret_option, ready, read_arguments, start_with, main_arguments,
}
use mvis_tokenminer.Options.Items.{
  Item, main_node, fail_over, number, flag, arguments, set_item, Fits, opens, node-taken,
  node2-taken, number-taken, flag-taken,
}

-- One round of the loop.
round :
    (fuel : ℕ) (a : List ℕ) (rest after : List (List ℕ)) (s t : Settings)
    → interpret_option a rest s ≡ taken t after
    → read_arguments (suc fuel) (a ∷ rest) s ≡ read_arguments fuel after t
unfolding read_arguments
round fuel a rest after s t e = ground arith

-- An option takes its own arguments and no others, and does what it means.
item-read :
    (i : Item) (fuel : ℕ) (rest : List (List ℕ)) (s : Settings)
    → Fits i
    → read_arguments (suc fuel) (arguments i ++ rest) s ≡ read_arguments fuel rest (set_item i s)
item-read (main_node long url) fuel rest s h =
    round fuel _ _ rest s _ (node-taken long url rest s).0
item-read (fail_over long url) fuel rest s h =
    round fuel _ _ rest s _ (node2-taken long url rest s).0
item-read (number long o n) fuel rest s h =
    round fuel _ _ rest s _ (number-taken long o n rest s h).0
item-read (flag long f) fuel rest s h = round fuel _ _ rest s _ (flag-taken long f rest s).0

abbrev pub all_arguments : List Item → List (List ℕ)
all_arguments [] = []
all_arguments (i ∷ is) = arguments i ++ all_arguments is

abbrev pub set_all : List Item → Settings → Settings
set_all [] s = s
set_all (i ∷ is) s = set_all is (set_item i s)

All-read :
    (is : List Item) (fuel : ℕ) (s : Settings)
    → All Fits is
    → length is ≤ fuel
    → read_arguments fuel (all_arguments is) s ≡ ready (set_all is s)
unfolding read_arguments
All-read [] zero s h enough = refl
All-read [] (suc fuel) s h enough = refl
All-read (i ∷ is) zero s h enough = absurd (omega arith)
All-read (i ∷ is) (suc fuel) s (hi, h) enough =
    item-read i fuel (all_arguments is) s hi ∙ All-read is fuel (set_item i s) h (omega arith)

length-all_arguments : (is : List Item) → length is ≤ length (all_arguments is)
length-all_arguments [] = omega arith
length-all_arguments (main_node long url ∷ is) = omega (arith, length-all_arguments is)
length-all_arguments (fail_over long url ∷ is) = omega (arith, length-all_arguments is)
length-all_arguments (number long o n ∷ is) = omega (arith, length-all_arguments is)
length-all_arguments (flag long f ∷ is) = omega (arith, length-all_arguments is)

not_opened :
    (load : List ℕ → Option Ini) (s : Settings) (a : List ℕ) (rest : List (List ℕ))
    → opens a ≡ false
    → main_arguments load s (a ∷ rest) ≡ start_with s (a ∷ rest) (load [])
unfolding main_arguments next_argument
not_opened load s a rest h = ground arith

all_arguments-opened :
    (load : List ℕ → Option Ini) (s : Settings) (is : List Item)
    → main_arguments load s (all_arguments is) ≡ start_with s (all_arguments is) (load [])
unfolding main_arguments next_argument either list_eq
all_arguments-opened load s [] = refl
all_arguments-opened load s (main_node long url ∷ is) =
    not_opened load s _ _ (node-taken long url [] s).1
all_arguments-opened load s (fail_over long url ∷ is) =
    not_opened load s _ _ (node2-taken long url [] s).1
all_arguments-opened load s (number long o n ∷ is) =
    not_opened load s _ _ (number-taken long o 0 [] s (omega arith)).1
all_arguments-opened load s (flag long f ∷ is) = not_opened load s _ _ (flag-taken long f [] s).1

-- Where the INI file is read, the arguments of options, by their short or long names and with numbers
-- below 2 ^ 63, are read to the end, and leave what the options set one after the other over the settings
-- of the file: the last one counts, and a number is kept modulo 2 ^ 32. The options are all but
-- --opencl-devices, --work-timeout, -M, -L, --export-dag and --cl-extragpu-mem.
pub main_arguments-all_arguments :
    (load : List ℕ → Option Ini) (ini : Ini) (s : Settings) (is : List Item)
    → load [] ≡ some ini
    → All Fits is
    → main_arguments load s (all_arguments is) ≡ ready (set_all is (load_ini_settings ini s))
unfolding start_with
main_arguments-all_arguments load ini s is found fits =
    all_arguments-opened load s is
    ∙ ap (start_with s (all_arguments is)) found
    ∙ All-read is (length (all_arguments is)) (load_ini_settings ini s) fits
        (length-all_arguments is)
