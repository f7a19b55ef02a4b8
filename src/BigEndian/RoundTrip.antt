-- ===== src/BigEndian/RoundTrip.antt =====
-- Numbers survive the way through big-endian bytes (libdevcore/CommonData.h).
use mvis_tokenminer.Prelude.{
  ℕ, zero, suc, ◌+◌, ◌*◌, ◌/◌, ◌%◌, ◌^◌, ◌≤◌, ◌<◌, ◌≡◌, ◌≢◌, refl, ap, ◌∙◌,
}
use mvis_tokenminer.Prelude.{List, [], ◌∷◌, ◌++◌, arith, length, set, drop, max, get_or}
use mvis_tokenminer.Prelude.{append-nil, append_assoc, length-append, length-set, length-replicate}
use mvis_tokenminer.Prelude.{All, All-append}
use mvis_tokenminer.BigEndian.{IntType, bigint, uint, cast, to_big_endian_loop, to_big_endian}
use mvis_tokenminer.BigEndian.{from_big_endian_loop, from_big_endian, bytes_required}
use mvis_tokenminer.BigEndian.{to_compact_big_endian}
use native.Mathlib.Nat.{mod-eq_of_lt, div-add-mod', add-zero, zero-add}
use mvis_tokenminer.BigEndian.Size.{pow_byte, bytes_required-le_iff, bytes_required-pos}
use mvis_tokenminer.BigEndian.Size.{pos_of_bytes_required, lt-pow-bytes_required}

-- The lowest `k` bytes of a number, the highest first.
abbrev pub be : ℕ → ℕ → List ℕ
be zero n = []
be (suc k) n = be k (n / 256) ++ (n % 256 ∷ [])

pub length-be : (k n : ℕ) → length (be k n) ≡ k
length-be zero n = refl
length-be (suc k) n =
    omega (arith, length-append (be k (n / 256)) (n % 256 ∷ []), length-be k (n / 256))

drop-set : (i v : ℕ) (out : List ℕ) → i < length out → drop i (set out i v) ≡ v ∷ drop (suc i) out
drop-set i v [] h = elim h [ ]
drop-set zero v (x ∷ out) h = refl
drop-set (suc i) v (x ∷ out) h = drop-set i v out (omega arith)

-- The loop fills the first `i` places and leaves the others.
to_big_endian_loop-be :
    (i v : ℕ) (out : List ℕ) → i ≤ length out → to_big_endian_loop i v out ≡ be i v ++ drop i out
unfolding to_big_endian_loop
to_big_endian_loop-be zero v out h = refl
to_big_endian_loop-be (suc i) v out h =
    to_big_endian_loop-be i (v / 256) (set out i (v % 256))
      (omega (arith, length-set out i (v % 256)))
    ∙ rw (drop-set i (v % 256) out h, append_assoc)

drop-length : (out : List ℕ) → drop (length out) out ≡ []
drop-length [] = refl
drop-length (x ∷ out) = drop-length out

pub to_big_endian-be : (v : ℕ) (out : List ℕ) → to_big_endian v out ≡ be (length out) v
unfolding to_big_endian
to_big_endian-be v out =
    to_big_endian_loop-be (length out) v out (omega arith) ∙ rw (drop-length out, append-nil)

pub be-IsByte : (k n : ℕ) → All (λ b. b < 256) (be k n)
be-IsByte zero n = tt
be-IsByte (suc k) n = All-append _ (be k (n / 256)) _ (be-IsByte k (n / 256)) (omega arith)

from_loop-append :
    (t : IntType) (ret : ℕ) (xs ys : List ℕ)
    → from_big_endian_loop t ret (xs ++ ys)
      ≡ from_big_endian_loop t (from_big_endian_loop t ret xs) ys
unfolding from_big_endian_loop
from_loop-append t ret [] ys = refl
from_loop-append t ret (x ∷ xs) ys = from_loop-append t (cast t (ret * 256 + x)) xs ys

-- The values of the type.
abbrev pub Fits : IntType → ℕ → Type 0
Fits bigint n = Unit
Fits (uint w) n = n < 2 ^ w

cast_of_Fits : (t : IntType) (n : ℕ) → Fits t n → cast t n ≡ n
cast_of_Fits bigint n h = refl
cast_of_Fits (uint w) n h = mod-eq_of_lt h

Fits-div : (t : IntType) (n : ℕ) → Fits t n → Fits t (n / 256)
Fits-div bigint n h = tt
Fits-div (uint w) n h = omega arith

pub from_loop-be :
    (t : IntType) (k n : ℕ) → n < 256 ^ k → Fits t n → from_big_endian_loop t 0 (be k n) ≡ n
from_loop-be t zero n h fits = unfold from_big_endian_loop in omega arith
from_loop-be t (suc k) n h fits =
    from_loop-append t 0 (be k (n / 256)) (n % 256 ∷ [])
    ∙ rw (from_loop-be t k (n / 256) (omega (arith, pow_byte k)) (Fits-div t n fits))
        (unfold from_big_endian_loop in last)
  where
    last : cast t (n / 256 * 256 + n % 256) ≡ n
    last = rw (div-add-mod' n 256) (cast_of_Fits t n fits)

from_big_endian-be :
    (t : IntType) (k n : ℕ) → n < 256 ^ k → Fits t n → from_big_endian t (be k n) ≡ n
unfolding from_big_endian
from_big_endian-be = from_loop-be

be-from_loop :
    (bytes : List ℕ) (k ret : ℕ)
    → All (λ b. b < 256) bytes
    → be (k + length bytes) (from_big_endian_loop bigint ret bytes) ≡ be k ret ++ bytes
unfolding from_big_endian_loop
be-from_loop [] k ret h = rw (add-zero, append-nil)
be-from_loop (b ∷ bytes) k ret (hb, h) =
    ap (λ n. be n (from_big_endian_loop bigint (ret * 256 + b) bytes)) count
    ∙ be-from_loop bytes (suc k) (ret * 256 + b) h
    ∙ rw (high, low, append_assoc)
  where
    count : k + length (b ∷ bytes) ≡ suc k + length bytes
    count = omega arith

    high : (ret * 256 + b) / 256 ≡ ret
    high = omega arith

    low : (ret * 256 + b) % 256 ≡ b
    low = omega arith

-- Writing the number that a list of bytes stands for, into a collection of the same size, gives the
-- bytes again.
to_big_endian-from_big_endian :
    (bytes out : List ℕ)
    → All (λ b. b < 256) bytes
    → length out ≡ length bytes
    → to_big_endian (from_big_endian bigint bytes) out ≡ bytes
unfolding from_big_endian
to_big_endian-from_big_endian bytes out h e =
    to_big_endian-be (from_big_endian_loop bigint 0 bytes) out
    ∙ rw (e, ← zero-add (length bytes)) (be-from_loop bytes 0 0 h)

-- A value of the type is read back from its compact form, whatever least width was asked for.
pub from_big_endian-to_compact_big_endian :
    (t : IntType) (val least : ℕ)
    → Fits t val
    → from_big_endian t (to_compact_big_endian val least) ≡ val
unfolding to_compact_big_endian
from_big_endian-to_compact_big_endian t val least fits =
    ap (from_big_endian t) (to_big_endian-be val _)
    ∙ rw length-replicate (from_big_endian-be t width val wide fits)
  where
    width : ℕ
    width = max least (bytes_required val)

    wide : val < 256 ^ width
    wide = (bytes_required-le_iff val width).1 (omega arith)

-- The first of the bytes that `bytesRequired` counts is not zero.
pub be_first :
    (k n : ℕ) (rest : List ℕ) → bytes_required n ≡ suc k → get_or (be (suc k) n ++ rest) 0 0 ≢ 0
be_first zero n rest h =
    omega (arith, pos_of_bytes_required n 0 h, lt-pow-bytes_required n, ap (λ (t : ℕ). 256 ^ t) h)
be_first (suc k) n rest h = rw (append_assoc (be (suc k) (n / 256)) (n % 256 ∷ []) rest) (
    be_first k (n / 256) (n % 256 ∷ rest)
      (omega (arith, bytes_required-pos n (pos_of_bytes_required n (suc k) h))))
