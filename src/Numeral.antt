-- ===== src/Numeral.antt =====
-- The numbers of the command line: what `stol` and `atoi` make of an argument, with a 64-bit `long`,
-- and how the settings, unsigned 32-bit numbers, keep it (ethminer/MinerAux.h: interpretOption).
pub mod Decimal
use Prim.Native.Char.{code}
use Prim.Native.String.{String}
use mvis_tokenminer.Prelude.{
  ℕ, suc, ◌+◌, ◌-◌, ◌*◌, ◌%◌, ◌^◌, min, List, [], ◌∷◌, Option, none, some,
}
use mvis_tokenminer.Prelude.{Bool, true, false, ◌&&◌, ◌||◌, leb, ltb, ◌==◌, if◌then◌else◌}
use mvis_tokenminer.MainLoop.Fee.{ℤ, pos, negsuc, negate}

-- The character codes of a literal.
abbrev pub text : String → List ℕ
text String.[] = []
text (String.◌∷◌ c rest) = code c ∷ text rest

-- `isspace` and `isdigit`
unfoldable pub is_space : ℕ → Bool
is_space c = c == 32 || leb 9 c && leb c 13

unfoldable pub is_digit : ℕ → Bool
is_digit c = leb 48 c && leb c 57

unfoldable pub skip_spaces : List ℕ → List ℕ
skip_spaces [] = []
skip_spaces (c ∷ t) = if is_space c then skip_spaces t else c ∷ t

-- A sign, and what follows it.
pub record Signed : Type 0 where
  pub negative : Bool
  pub digits : List ℕ

-- The values of the digits a text starts with; what is behind them is left alone.
unfoldable pub leading_digits : List ℕ → List ℕ
leading_digits [] = []
leading_digits (c ∷ t) = if is_digit c then (c - 48) ∷ leading_digits t else []

unfoldable pub read_sign : List ℕ → Signed
read_sign [] = record { negative = false; digits = [] }
read_sign (c ∷ t) =
    if c == b'-'
    then record { negative = true; digits = leading_digits t }
    else if c == b'+'
    then record { negative = false; digits = leading_digits t }
    else record { negative = false; digits = leading_digits (c ∷ t) }

-- The value of digits behind those of `n`.
unfoldable pub decimal_value : ℕ → List ℕ → ℕ
decimal_value n [] = n
decimal_value n (d ∷ ds) = decimal_value (n * 10 + d) ds

-- `stol` throws where there is no digit, and where the number does not fit a `long`.
unfoldable pub in_long : Bool → ℕ → Option ℤ
in_long true n = if leb n (2 ^ 63) then some (negate n) else none
in_long false n = if ltb n (2 ^ 63) then some (pos n) else none

unfoldable pub stol_of : Bool → List ℕ → Option ℤ
stol_of negative [] = none
stol_of negative (d ∷ ds) = in_long negative (decimal_value 0 (d ∷ ds))

unfoldable pub stol : List ℕ → Option ℤ
stol t = let s = read_sign (skip_spaces t) in stol_of s.negative s.digits

-- What an unsigned 32-bit number makes of a `long`.
unfoldable pub as_unsigned : ℤ → ℕ
as_unsigned (pos n) = n % 2 ^ 32
as_unsigned (negsuc n) = 2 ^ 32 - 1 - n % 2 ^ 32

-- `atoi` throws nothing: it is 0 without digits, and stays at the ends of `long`, cut to an int.
unfoldable pub at_ends : Bool → ℕ → ℤ
at_ends true n = negate (min n (2 ^ 63))
at_ends false n = pos (min n (2 ^ 63 - 1))

unfoldable pub atoi : List ℕ → ℕ
atoi t =
    let s = read_sign (skip_spaces t) in as_unsigned (at_ends s.negative (decimal_value 0 s.digits))
