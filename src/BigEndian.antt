-- ===== src/BigEndian.antt =====
-- libdevcore/CommonData.h: numbers as big-endian bytes. A byte is a number below 256; `& 0xff` is
-- `% 256`, `>>= 8` is `/ 256`, and `(ret << 8) | b` is `ret * 256 + b`, since the low byte of
-- `ret << 8` is zero.
pub mod Size
pub mod RoundTrip
use mvis_tokenminer.Prelude.{ℕ, zero, suc, ◌+◌, ◌*◌, ◌/◌, ◌%◌, ◌^◌, ◌<◌, max, arith, lt_wf}
use mvis_tokenminer.Prelude.{List, [], ◌∷◌, length, set, replicate}
use mathlib.Core.WellFounded.{Acc}
use mathlib.Core.Logic.{dite}
use native.Mathlib.Decide.{dec_lt}

-- The types at which the templates are used: `bigint`, or an unsigned integer of so many bits.
pub data IntType : Type 0 where
  bigint : IntType
  uint : ℕ → IntType

-- `(T)x`
abbrev pub cast : IntType → ℕ → ℕ
cast bigint x = x
cast (uint w) x = x % 2 ^ w

-- The loop of `toBigEndian`: `i` is the position behind the element that is written next.
pub to_big_endian_loop : ℕ → ℕ → List ℕ → List ℕ
to_big_endian_loop zero v out = out
to_big_endian_loop (suc i) v out = to_big_endian_loop i (v / 256) (set out i (v % 256))

-- `toBigEndian(_val, o_out)`: the size of the collection stays as it is.
pub to_big_endian : ℕ → List ℕ → List ℕ
to_big_endian v out = to_big_endian_loop (length out) v out

unfoldable pub from_big_endian_loop : IntType → ℕ → List ℕ → ℕ
from_big_endian_loop t ret [] = ret
from_big_endian_loop t ret (i ∷ rest) = from_big_endian_loop t (cast t (ret * 256 + i)) rest

-- `fromBigEndian<T>`
pub from_big_endian : IntType → List ℕ → ℕ
from_big_endian t bytes = from_big_endian_loop t 0 bytes

pub shift_shrinks : (n : ℕ) → 0 < n → n / 256 < n
shift_shrinks n h = omega arith

-- The rounds of `for (; _i != 0; ++i, _i >>= 8) {}`.
unfoldable pub bytes_required_acc : (n : ℕ) → Acc ◌<◌ n → ℕ
bytes_required_acc n (Acc.intro _ smaller) =
    dite (dec_lt 0 n) (λ h. suc (bytes_required_acc (n / 256) (smaller _ (shift_shrinks n h))))
      (λ _. 0)

-- `bytesRequired`; a count of bytes is far below 2 ^ 32 and does not wrap.
unfoldable pub bytes_required : ℕ → ℕ
bytes_required n = bytes_required_acc n (lt_wf.apply n)

-- `toCompactBigEndian(_val, _min)`; its own loop is that of `bytesRequired`. The overload for one byte,
-- which ignores the least width, is not this one.
pub to_compact_big_endian : ℕ → ℕ → List ℕ
to_compact_big_endian val least = to_big_endian val (replicate (max least (bytes_required val)) 0)
