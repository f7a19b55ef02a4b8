-- ===== src/Hex/RoundTrip.antt =====
-- `fromHex` reads back what `toHex` printed (libdevcore/CommonData.h, CommonData.cpp).
use mvis_tokenminer.Prelude.{ℕ, ◌*◌, ◌/◌, ◌%◌, ◌<◌, ◌≡◌, refl, ◌∙◌, ap, arith}
use mvis_tokenminer.Prelude.{some, List, [], ◌∷◌, ◌++◌, append_assoc, append-nil, drop}
use mvis_tokenminer.Prelude.{false, ◌==◌, length, All, ok}
use mvis_tokenminer.Hex.{IsByte, WhenError, HexPrefix, add, dont_add, hex_digit, hex_number}
use mvis_tokenminer.Hex.{pad_left, to_hex_loop, to_hex, from_hex_digit, join_digits}
use mvis_tokenminer.Hex.{from_hex_loop, prefix_length, from_hex}

pub from_hex_digit-hex_digit : (d : ℕ) → d < 16 → from_hex_digit (hex_digit d) ≡ some d
unfolding from_hex_digit hex_digit
from_hex_digit-hex_digit d h = ground arith

hex_digit-zero : hex_digit 0 ≡ b'0'
unfolding hex_digit
hex_digit-zero = refl

-- No digit is the letter x, so a printed text is never taken for a prefixed one.
hex_digit_not_x : (d : ℕ) → d < 16 → (hex_digit d == b'x') ≡ false
unfolding hex_digit
hex_digit_not_x d h = ground arith

-- The two digits of a byte.
pad_left-hex_number :
    (i : ℕ) → i < 256 → pad_left 2 (hex_number i) ≡ hex_digit (i / 16) ∷ hex_digit (i % 16) ∷ []
unfolding pad_left hex_number
pad_left-hex_number i h = ground (arith, hex_digit-zero)

-- The digits of a list of bytes.
abbrev pub digits : List ℕ → List ℕ
digits [] = []
digits (i ∷ rest) = hex_digit (i / 16) ∷ hex_digit (i % 16) ∷ digits rest

pub to_hex_loop-digits : (bytes : List ℕ) → All IsByte bytes → to_hex_loop 2 bytes ≡ digits bytes
unfolding to_hex_loop
to_hex_loop-digits [] h = refl
to_hex_loop-digits (i ∷ rest) (hi, h) = rw (pad_left-hex_number i hi, to_hex_loop-digits rest h)

join_digits-byte :
    (i : ℕ)
    → i < 256
    → join_digits (from_hex_digit (hex_digit (i / 16))) (from_hex_digit (hex_digit (i % 16)))
      ≡ some i
unfolding join_digits
join_digits-byte i h =
    rw
      (
        from_hex_digit-hex_digit (i / 16) (omega arith),
        from_hex_digit-hex_digit (i % 16) (omega arith),
      )
      (ap some (omega arith))

from_hex_loop_byte :
    (i : ℕ) (more ret : List ℕ) (when : WhenError)
    → i < 256
    → from_hex_loop (hex_digit (i / 16) ∷ hex_digit (i % 16) ∷ more) ret when
      ≡ from_hex_loop more (ret ++ (i ∷ [])) when
unfolding from_hex_loop
from_hex_loop_byte i more ret when h = rw (join_digits-byte i h, from_hex_loop)

from_hex_loop-digits :
    (bytes ret : List ℕ) (when : WhenError)
    → All IsByte bytes
    → from_hex_loop (digits bytes) ret when ≡ ok (ret ++ bytes)
from_hex_loop-digits [] ret when h = rw append-nil (unfold from_hex_loop in refl)
from_hex_loop-digits (i ∷ rest) ret when (hi, h) =
    from_hex_loop_byte i (digits rest) ret when hi
    ∙ from_hex_loop-digits rest (ret ++ (i ∷ [])) when h
    ∙ ap ok (append_assoc ret (i ∷ []) rest)

pub length-digits : (bytes : List ℕ) → length (digits bytes) ≡ 2 * length bytes
length-digits [] = refl
length-digits (i ∷ rest) = omega (arith, length-digits rest)

prefix_length-digits : (bytes : List ℕ) → All IsByte bytes → prefix_length (digits bytes) ≡ 0
unfolding prefix_length
prefix_length-digits [] h = refl
prefix_length-digits (i ∷ rest) (hi, h) = ground (arith, hex_digit_not_x (i % 16) (omega arith))

-- What `from_hex` does with a text of even length.
pub from_hex_even :
    (s : List ℕ) (when : WhenError)
    → length s % 2 ≡ 0
    → from_hex s when ≡ from_hex_loop (drop (prefix_length s) s) [] when
unfolding from_hex
from_hex_even s when h = ground (arith, h)

from_hex-digits :
    (bytes : List ℕ) (when : WhenError) → All IsByte bytes → from_hex (digits bytes) when ≡ ok bytes
from_hex-digits bytes when h =
    from_hex_even (digits bytes) when (omega (arith, length-digits bytes))
    ∙ rw (prefix_length-digits bytes h) (from_hex_loop-digits bytes [] when h)

pub from_hex-prefixed :
    (bytes : List ℕ) (when : WhenError)
    → All IsByte bytes
    → from_hex (b'0' ∷ b'x' ∷ digits bytes) when ≡ ok bytes
from_hex-prefixed bytes when h =
    from_hex_even (b'0' ∷ b'x' ∷ digits bytes) when (omega (arith, length-digits bytes))
    ∙ unfold prefix_length in from_hex_loop-digits bytes [] when h

-- Whatever bytes `toHex` prints at its default width, with the prefix 0x or without it, `fromHex`
-- reads them back, in either error mode.
pub from_hex-to_hex :
    (bytes : List ℕ) (p : HexPrefix) (when : WhenError)
    → All IsByte bytes
    → from_hex (to_hex bytes 2 p) when ≡ ok bytes
unfolding to_hex
from_hex-to_hex bytes dont_add when h =
    rw (to_hex_loop-digits bytes h) (from_hex-digits bytes when h)
from_hex-to_hex bytes add when h = rw (to_hex_loop-digits bytes h) (from_hex-prefixed bytes when h)
