-- ===== src/Hex/Errors.antt =====
-- The two error modes of `fromHex` (libdevcore/CommonData.cpp).
use mvis_tokenminer.Prelude.{ℕ, ◌≡◌, refl, inl, inr, Bool-cases, Option-cases}
use mvis_tokenminer.Prelude.{List, [], ◌∷◌, ◌++◌, ◌==◌, length, drop, ◌%◌, Result, ok, err}
use mvis_tokenminer.Hex.{HexError, throw, dont_throw}
use mvis_tokenminer.Hex.{from_hex_digit, bad_character, join_digits}
use mvis_tokenminer.Hex.{from_hex_loop, from_hex_odd, prefix_length, from_hex}

-- What a result that may be an exception becomes where errors are not thrown.
abbrev pub or_empty : Result HexError (List ℕ) → Result HexError (List ℕ)
or_empty (ok bytes) = ok bytes
or_empty (err e) = ok []

from_hex_loop-dont_throw :
    (s ret : List ℕ) → from_hex_loop s ret dont_throw ≡ or_empty (from_hex_loop s ret throw)
unfolding from_hex_loop bad_character
from_hex_loop-dont_throw [] ret = refl
from_hex_loop-dont_throw (h ∷ []) ret =
    elim (Option-cases (join_digits (from_hex_digit h) (from_hex_digit 0))) [
      | inl e ↦ rw (e, from_hex_loop)
      | inr (b, e) ↦ rw (e, from_hex_loop)
    ]
from_hex_loop-dont_throw (h ∷ l ∷ rest) ret =
    elim (Option-cases (join_digits (from_hex_digit h) (from_hex_digit l))) [
      | inl e ↦ rw (e, from_hex_loop)
      | inr (b, e) ↦ rw (e, from_hex_loop) (from_hex_loop-dont_throw rest (ret ++ (b ∷ [])))
    ]

from_hex_odd-dont_throw : (s : List ℕ) → from_hex_odd s dont_throw ≡ or_empty (from_hex_odd s throw)
unfolding from_hex_odd bad_character
from_hex_odd-dont_throw [] = elim (Option-cases (from_hex_digit 0)) [
  | inl e ↦ rw (e, from_hex_odd)
  | inr (b, e) ↦ rw (e, from_hex_odd)
]
from_hex_odd-dont_throw (c ∷ rest) = elim (Option-cases (from_hex_digit c)) [
  | inl e ↦ rw (e, from_hex_odd)
  | inr (b, e) ↦ rw (e, from_hex_odd) (from_hex_loop-dont_throw rest (b ∷ []))
]

-- On every text `fromHex` without exceptions returns what `fromHex` with exceptions returns, and no
-- bytes at all where that one throws: a bad character is not replaced by a zero.
pub from_hex-dont_throw : (s : List ℕ) → from_hex s dont_throw ≡ or_empty (from_hex s throw)
unfolding from_hex
from_hex-dont_throw s = elim (Bool-cases (length s % 2 == 1)) [
  | inl e ↦ rw e (from_hex_odd-dont_throw (drop (prefix_length s) s))
  | inr e ↦ rw e (from_hex_loop-dont_throw (drop (prefix_length s) s) [])
]
