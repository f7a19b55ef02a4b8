-- ===== src/Hex.antt =====
-- libdevcore/CommonData.h and CommonData.cpp: bytes as hexadecimal text and as nibbles. A byte is a
-- number below 256, and a character is its code.
pub mod RoundTrip
pub mod Errors
use mvis_tokenminer.Prelude.{ℕ, ◌+◌, ◌-◌, ◌*◌, ◌/◌, ◌%◌, ◌<◌}
use mvis_tokenminer.Prelude.{◌&&◌, Option, none, some, List, [], ◌∷◌, ◌++◌}
use mvis_tokenminer.Prelude.{
  Result, ok, err, leb, ◌==◌, if◌then◌else◌, length, get_or, drop, replicate,
}

abbrev pub IsByte : ℕ → Type 0
IsByte b = b < 256

-- `WhenError`.
pub data WhenError : Type 0 where
  dont_throw throw : WhenError

-- `HexPrefix`.
pub data HexPrefix : Type 0 where
  dont_add add : HexPrefix

-- The exceptions of Exceptions.h that the hex functions throw.
pub data HexError : Type 0 where
  bad_hex_character : HexError

-- `std::hex` prints the digits in lower case.
unfoldable pub hex_digit : ℕ → ℕ
hex_digit d = if leb d 9 then b'0' + d else b'a' + (d - 10)

-- What `<< std::hex << (int)i` prints of a byte, with no leading zero.
unfoldable pub hex_number : ℕ → List ℕ
hex_number i = if leb i 15 then hex_digit i ∷ [] else hex_digit (i / 16) ∷ hex_digit (i % 16) ∷ []

-- `std::setfill('0') << std::setw(w)`.
unfoldable pub pad_left : ℕ → List ℕ → List ℕ
pad_left w s = replicate (w - length s) b'0' ++ s

-- The loop of `toHex`; the width is that of the first element, and 2 for the others.
unfoldable pub to_hex_loop : ℕ → List ℕ → List ℕ
to_hex_loop w [] = []
to_hex_loop w (i ∷ rest) = pad_left w (hex_number i) ++ to_hex_loop 2 rest

unfoldable pub to_hex : List ℕ → ℕ → HexPrefix → List ℕ
to_hex bytes w add = b'0' ∷ b'x' ∷ to_hex_loop w bytes
to_hex bytes w dont_add = to_hex_loop w bytes

-- `fromHex(char, WhenError::DontThrow)`, with `none` for the result -1.
unfoldable pub from_hex_digit : ℕ → Option ℕ
from_hex_digit c =
    if leb b'0' c && leb c b'9'
    then some (c - b'0')
    else if leb b'a' c && leb c b'f'
    then some (c - b'a' + 10)
    else if leb b'A' c && leb c b'F'
    then some (c - b'A' + 10)
    else none

-- The whole function over one character: -1 stands as `none`.
pub from_hex_char : ℕ → WhenError → Result HexError (Option ℕ)
unfolding from_hex_digit
from_hex_char c when = elim (from_hex_digit c) [
  | some d ↦ ok (some d)
  | none ↦ elim when [ throw ↦ err bad_hex_character | dont_throw ↦ ok none ]
]

-- What a bad character leads to: an exception, or an empty result.
unfoldable pub bad_character : WhenError → Result HexError (List ℕ)
bad_character throw = err bad_hex_character
bad_character dont_throw = ok []

unfoldable pub join_digits : Option ℕ → Option ℕ → Option ℕ
join_digits (some h) (some l) = some ((h * 16 + l) % 256)
join_digits _ _ = none

-- The loop over pairs of digits; `ret` is what was pushed so far. After the odd digit was taken the
-- characters that are left come in pairs, but for an odd rest, at whose end `_s[i + 1]` reads the
-- terminating zero.
unfoldable pub from_hex_loop : List ℕ → List ℕ → WhenError → Result HexError (List ℕ)
from_hex_loop [] ret when = ok ret
from_hex_loop (h ∷ []) ret when = elim (join_digits (from_hex_digit h) (from_hex_digit 0)) [
  | some b ↦ ok (ret ++ (b ∷ []))
  | none ↦ bad_character when
]
from_hex_loop (h ∷ l ∷ rest) ret when = elim (join_digits (from_hex_digit h) (from_hex_digit l)) [
  | some b ↦ from_hex_loop rest (ret ++ (b ∷ [])) when
  | none ↦ bad_character when
]

-- `(_s[0] == '0' && _s[1] == 'x') ? 2 : 0`; reading at the end of the text gives zero.
unfoldable pub prefix_length : List ℕ → ℕ
prefix_length s = if get_or s 0 0 == b'0' && get_or s 1 0 == b'x' then 2 else 0

-- The branch for a text of odd length, whose first digit is a byte of its own.
unfoldable pub from_hex_odd : List ℕ → WhenError → Result HexError (List ℕ)
from_hex_odd [] when = elim (from_hex_digit 0) [ some d ↦ ok (d ∷ []) | none ↦ bad_character when ]
from_hex_odd (c ∷ rest) when = elim (from_hex_digit c) [
  | some d ↦ from_hex_loop rest (d ∷ []) when
  | none ↦ bad_character when
]

unfoldable pub from_hex : List ℕ → WhenError → Result HexError (List ℕ)
from_hex s when =
    let digits = drop (prefix_length s) s in
    if length s % 2 == 1 then from_hex_odd digits when else from_hex_loop digits [] when

unfoldable pub as_nibbles : List ℕ → List ℕ
as_nibbles [] = []
as_nibbles (i ∷ rest) = (i / 16) ∷ (i % 16) ∷ as_nibbles rest

-- `fromHex` in its default mode throws nothing.
abbrev pub read_bytes : Result HexError (List ℕ) → List ℕ
read_bytes (ok bytes) = bytes
read_bytes (err e) = []
