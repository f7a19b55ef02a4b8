-- ===== src/Rlp/Reader.antt =====
-- `RLP` (libdevcore/RLP.h, RLP.cpp): a view of bytes that is read as an item. An exception is an
-- `err`. `out_of_fuel` is no exception of the code: it says that a loop over the items of a payload
-- was given too few rounds.
pub mod Heads
pub mod Items
pub mod Reading
pub mod Progress
use mvis_tokenminer.Prelude.{ℕ, zero, suc, ◌+◌, ◌-◌, ◌*◌, ◌%◌, ◌^◌, min}
use mvis_tokenminer.Prelude.{Bool, true, false, not, ◌&&◌, ◌||◌, List, [], ◌∷◌, ◌++◌}
use mvis_tokenminer.Prelude.{Result, ok, err, ◌>>=◌, ◌>>◌}
use mvis_tokenminer.Prelude.{ltb, leb, ◌==◌, if◌then◌else◌, length, get_or}
use mvis_tokenminer.VectorRef.{cropped, cropped_from, size_max}
use mvis_tokenminer.BigEndian.{IntType, from_big_endian}
use mvis_tokenminer.Rlp.Constants.{data_imm_len_start, data_ind_len_zero, list_start}
use mvis_tokenminer.Rlp.Constants.{list_ind_len_zero, max_length_bytes}
use mvis_tokenminer.Rlp.Constants.{RlpError, bad_rlp, undersize_rlp, oversize_rlp, bad_cast}
use mvis_tokenminer.Rlp.Constants.{out_of_fuel}

unfoldable pub is_null : List ℕ → Bool
is_null [] = true
is_null (n ∷ rest) = false

pub is_empty : List ℕ → Bool
is_empty [] = false
is_empty (n ∷ rest) = n == data_imm_len_start || n == list_start

pub is_data : List ℕ → Bool
is_data [] = false
is_data (n ∷ rest) = ltb n list_start

pub is_list : List ℕ → Bool
is_list [] = false
is_list (n ∷ rest) = leb list_start n

unfoldable pub is_single_byte : List ℕ → Bool
is_single_byte [] = false
is_single_byte (n ∷ rest) = ltb n data_imm_len_start

-- `requireGood`
pub require_good : List ℕ → Result RlpError (Unit {0})
require_good [] = err bad_rlp
require_good (n ∷ rest) =
    if not (n == data_imm_len_start + 1)
    then ok tt
    else if ltb (suc (length rest)) 2
    then err bad_rlp
    else if ltb (get_or rest 0 0) data_imm_len_start
    then err bad_rlp
    else ok tt

-- `isInt`
pub is_int : List ℕ → Result RlpError Bool
is_int [] = ok false
is_int (n ∷ rest) =
    require_good (n ∷ rest)
    >> (if ltb n data_imm_len_start
        then ok (not (n == 0))
        else if n == data_imm_len_start
        then ok true
        else if leb n data_ind_len_zero
        then (if leb (suc (length rest)) 1 then err bad_rlp else ok (not (get_or rest 0 0 == 0)))
        else if ltb n list_start
        then (if leb (suc (length rest)) (1 + n - data_ind_len_zero)
            then err bad_rlp
            else ok (not (get_or rest (n - data_ind_len_zero) 0 == 0)))
        else ok false)

-- `ret = (ret << 8) | m_data[i + 1]`, `k` times; `size_t` has 64 bits.
pub read_size : ℕ → ℕ → List ℕ → ℕ
read_size zero ret rest = ret
read_size (suc k) ret [] = ret
read_size (suc k) ret (b ∷ rest) = read_size k ((ret * 256 + b) % 2 ^ 64) rest

-- The length that stands in the `length_size` bytes behind the head, with the checks on it that the
-- two long branches of `length` share; `least` is the shortest payload that needs the long form.
pub long_length : ℕ → ℕ → List ℕ → Result RlpError ℕ
long_length length_size least rest =
    if leb (suc (length rest)) length_size
    then err bad_rlp
    else if ltb 1 (suc (length rest)) && get_or rest 0 0 == 0
    then err bad_rlp
    else if ltb 8 length_size
    then err undersize_rlp
    else if get_or rest 0 0 == 0
    then err bad_rlp
    else if ltb (read_size length_size 0 rest) least
    then err bad_rlp
    else ok (read_size length_size 0 rest)

-- The last check of `length`: the offset of the payload can be added without overflow.
pub check_size : ℕ → Result RlpError ℕ
check_size ret = if leb (size_max - 0x100) ret then err undersize_rlp else ok ret

pub length_by_head : ℕ → List ℕ → Result RlpError ℕ
length_by_head n rest =
    if ltb n data_imm_len_start
    then ok 1
    else if leb n data_ind_len_zero
    then check_size (n - data_imm_len_start)
    else if ltb n list_start
    then (long_length (n - data_ind_len_zero) (list_start - data_imm_len_start - max_length_bytes)
          rest
        >>= check_size)
    else if leb n list_ind_len_zero
    then check_size (n - list_start)
    else (long_length (n - list_ind_len_zero) (0x100 - list_start - max_length_bytes) rest
        >>= check_size)

-- `length()`
pub payload_length : List ℕ → Result RlpError ℕ
payload_length [] = ok 0
payload_length (n ∷ rest) = require_good (n ∷ rest) >> length_by_head n rest

-- `lengthSize()`
pub length_size : List ℕ → ℕ
length_size [] = 0
length_size (n ∷ rest) =
    if ltb n list_start && ltb data_ind_len_zero n
    then n - data_ind_len_zero
    else if leb list_start n && ltb list_ind_len_zero n
    then n - list_ind_len_zero
    else 0

pub payload_offset : List ℕ → ℕ
payload_offset d = if is_single_byte d then 0 else 1 + length_size d

pub payload : List ℕ → Result RlpError (List ℕ)
payload d = payload_length d >>= λ l.
    if ltb (length d) l then err bad_rlp else ok (cropped (payload_offset d) l d)

unfoldable pub actual_size : List ℕ → Result RlpError ℕ
actual_size d =
    if is_null d
    then ok 0
    else if is_single_byte d
    then ok 1
    else if is_data d || is_list d
    then (payload_length d >>= λ l. ok (payload_offset d + l))
    else ok 0

-- The flags of `Strictness`.
pub record Strictness : Type 0 where
  pub allow_non_canon : Bool
  pub throw_on_fail : Bool
  pub fail_if_too_big : Bool
  pub fail_if_too_small : Bool

abbrev pub strict : Strictness
strict = record {
  allow_non_canon = false;
  throw_on_fail = true;
  fail_if_too_big = true;
  fail_if_too_small = false;
}

abbrev pub very_strict : Strictness
very_strict = record {
  allow_non_canon = false;
  throw_on_fail = true;
  fail_if_too_big = true;
  fail_if_too_small = true;
}

abbrev pub throw_if_too_small : Strictness
throw_if_too_small = record {
  allow_non_canon = false;
  throw_on_fail = true;
  fail_if_too_big = false;
  fail_if_too_small = true;
}

-- A check that failed: an exception, or the null item.
pub fail_with : RlpError → Strictness → Result RlpError (List ℕ)
fail_with e s = if s.throw_on_fail then err e else ok []

-- `RLP(bytesConstRef, Strictness)`, with the view that the object holds for a result.
unfoldable pub make_rlp : List ℕ → Strictness → Result RlpError (List ℕ)
make_rlp d s =
    (if s.fail_if_too_big
      then (actual_size d >>= λ n. if ltb n (length d) then fail_with oversize_rlp s else ok d)
      else ok d)
    >>= λ held.
        if s.fail_if_too_small
        then (actual_size held >>= λ n.
            if ltb (length d) n then fail_with undersize_rlp s else ok held)
        else ok held

-- `sizeAsEncoded`
unfoldable pub size_as_encoded : List ℕ → Result RlpError ℕ
size_as_encoded d = make_rlp d throw_if_too_small >>= actual_size

-- The loop of `items()`.
pub items_loop : ℕ → List ℕ → Result RlpError ℕ
items_loop fuel [] = ok 0
items_loop zero (n ∷ rest) = err out_of_fuel
items_loop (suc fuel) (n ∷ rest) = size_as_encoded (n ∷ rest) >>= λ size.
    items_loop fuel (cropped_from size (n ∷ rest)) >>= λ i. ok (suc i)

-- `items()`: each round drops a byte at least.
pub items : List ℕ → Result RlpError ℕ
items d = if is_list d then (payload d >>= λ p. items_loop (length p) p) else ok 0

-- `toBytes()`, `toString()`: the payload of a string.
pub to_bytes : List ℕ → Result RlpError (List ℕ)
to_bytes d =
    if not (is_data d)
    then ok []
    else (payload d >>= λ p. payload_length d >>= λ l. ok (cropped 0 l p))

-- `toInt<T>(flags)`; `max_size` is that of `intTraits`.
pub to_int : IntType → ℕ → Strictness → List ℕ → Result RlpError ℕ
to_int t max_size s d = require_good d >> is_int d >>= λ int.
    if not int && not s.allow_non_canon || is_list d || is_null d
    then (if s.throw_on_fail then err bad_cast else ok 0)
    else (payload d >>= λ p.
        if ltb max_size (length p) && s.fail_if_too_big
        then (if s.throw_on_fail then err bad_cast else ok 0)
        else ok (from_big_endian t p))
