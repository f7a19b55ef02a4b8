-- ===== src/Rlp/Stream.antt =====
-- `RLPStream` (libdevcore/RLP.h, RLP.cpp): items are appended to a byte buffer, and a list that is
-- complete gets its head put in before its first byte. A buffer is far shorter than 2 ^ 64.
pub mod Bytes
pub mod Close
pub mod Emit
pub mod Integers
use mvis_tokenminer.Prelude.{ℕ, zero, suc, ◌+◌, ◌-◌, ◌/◌, ◌%◌, ◌<◌, lt_wf, arith}
use mvis_tokenminer.Prelude.{Bool, ◌&&◌, not, List, [], ◌∷◌, ◌++◌, Result, ok, err, ◌>>=◌}
use mvis_tokenminer.Prelude.{ltb, leb, ◌==◌, if◌then◌else◌, length, set, take, drop, replicate}
use mvis_tokenminer.BigEndian.{bytes_required, shift_shrinks}
use mvis_tokenminer.Rlp.Constants.{data_imm_len_start, data_imm_len_count, data_ind_len_zero}
use mvis_tokenminer.Rlp.Constants.{list_start, list_imm_len_count, list_ind_len_zero}
use mvis_tokenminer.Rlp.Constants.{RlpError, item_count_too_large, count_too_large}
use mvis_tokenminer.Rlp.Constants.{number_too_large, stack_not_empty}
use mathlib.Core.WellFounded.{Acc}
use mathlib.Core.Logic.{dite}
use native.Mathlib.Decide.{dec_lt}

-- `m_out` and `m_listStack`; the back of the vector is the head of the list. An entry holds the
-- number of items that its list still waits for and the place where its payload begins.
pub record RlpStream : Type 0 where
  pub out : List ℕ
  pub list_stack : List (ℕ × ℕ)

abbrev pub empty_stream : RlpStream
empty_stream = record { out = []; list_stack = [] }

-- `for (; _i; _i >>= 8) *(b--) = (byte)_i;`, where `b` points at the element before place `pos`.
pub write_int_acc : (n : ℕ) → Acc ◌<◌ n → ℕ → List ℕ → List ℕ
write_int_acc n (Acc.intro _ smaller) pos out =
    dite (dec_lt 0 n)
      (λ h.
        write_int_acc (n / 256) (smaller _ (shift_shrinks n h)) (pos - 1)
          (set out (pos - 1) (n % 256)))
      (λ _. out)

pub write_int : ℕ → ℕ → List ℕ → List ℕ
write_int n = write_int_acc n (lt_wf.apply n)

-- `pushInt`
pub push_int : ℕ → ℕ → List ℕ → List ℕ
push_int n br out = write_int n (length out + br) (out ++ replicate br 0)

-- `pushCount`
pub push_count : ℕ → ℕ → List ℕ → Result RlpError (List ℕ)
push_count count base out =
    let br = bytes_required count in
    if ltb 0xff (br + base)
    then err count_too_large
    else ok (push_int count br (out ++ ((br + base) % 256 ∷ [])))

-- `m_out.resize(os + n)` and the `memmove` of what stands from place `p` on: the `n` places from `p`
-- on hold what stood there, and are overwritten next.
pub open_gap : ℕ → ℕ → List ℕ → List ℕ
open_gap p n out = take p out ++ (take n (drop p out ++ replicate n 0) ++ drop p out)

-- The `else` branch of the loop of `noteAppended`: the list whose payload begins at `p` is complete.
pub close_list : ℕ → List ℕ → Result RlpError (List ℕ)
close_list p out =
    let s = length out - p in
    let brs = bytes_required s in
    let encode_size = if ltb s list_imm_len_count then 1 else 1 + brs in
    let wide = open_gap p encode_size out in
    if ltb s list_imm_len_count
    then ok (set wide p ((list_start + s) % 256))
    else if leb (list_ind_len_zero + brs) 0xff
    then ok (write_int s (p + brs + 1) (set wide p ((list_ind_len_zero + brs) % 256)))
    else err count_too_large

-- The loop of `noteAppended`, over the stack.
pub note_loop : ℕ → List ℕ → List (ℕ × ℕ) → Result RlpError RlpStream
note_loop item_count out [] = ok (record { out = out; list_stack = [] })
note_loop item_count out ((waiting, p) ∷ stack) =
    if ltb waiting item_count
    then err item_count_too_large
    else if not (waiting - item_count == 0)
    then ok (record { out = out; list_stack = (waiting - item_count, p) ∷ stack })
    else (close_list p out >>= λ closed. note_loop 1 closed stack)

pub note_appended : ℕ → RlpStream → Result RlpError RlpStream
note_appended item_count s =
    if item_count == 0 then ok s else note_loop item_count s.out s.list_stack

pub append_raw : List ℕ → ℕ → RlpStream → Result RlpError RlpStream
append_raw bytes item_count s = note_appended item_count (record s { out = s.out ++ bytes })

-- `appendList(bytesConstRef)`
pub append_list_rlp : List ℕ → RlpStream → Result RlpError RlpStream
append_list_rlp rlp s =
    if ltb (length rlp) list_imm_len_count
    then append_raw rlp 1 (record s { out = s.out ++ ((length rlp + list_start) % 256 ∷ []) })
    else (push_count (length rlp) list_ind_len_zero s.out >>= λ headed.
        append_raw rlp 1 (record s { out = headed }))

-- `appendList(size_t)`
pub append_list : ℕ → RlpStream → Result RlpError RlpStream
append_list items s =
    if not (items == 0)
    then ok (record s { list_stack = (items, length s.out) ∷ s.list_stack })
    else append_list_rlp [] s

-- The loop that `_compact` asks for.
pub skip_zeros : List ℕ → List ℕ
skip_zeros [] = []
skip_zeros (zero ∷ rest) = skip_zeros rest
skip_zeros (suc b ∷ rest) = suc b ∷ rest

abbrev pub is_low_byte : List ℕ → Bool
is_low_byte (b ∷ []) = ltb b data_imm_len_start
is_low_byte _ = Bool.false

-- The head that `append(bytesConstRef)` writes before the bytes.
pub data_head : List ℕ → List ℕ → Result RlpError (List ℕ)
data_head d out =
    if ltb (length d) data_imm_len_count
    then ok (out ++ ((length d + data_imm_len_start) % 256 ∷ []))
    else push_count (length d) data_ind_len_zero out

-- `append(bytesConstRef, bool)`
pub append_bytes : List ℕ → Bool → RlpStream → Result RlpError RlpStream
append_bytes bytes compact s =
    let d = if compact then skip_zeros bytes else bytes in
    if is_low_byte d
    then note_appended 1 (record s { out = s.out ++ d })
    else (data_head d s.out >>= λ out. append_raw d 0 (record s { out = out }) >>= note_appended 1)

-- The head that `append(bigint)` writes for a number of `br` bytes.
pub int_head : ℕ → List ℕ → Result RlpError (List ℕ)
int_head br out =
    let brbr = bytes_required br in
    if ltb br data_imm_len_count
    then ok (out ++ ((br + data_imm_len_start) % 256 ∷ []))
    else if ltb 0xff (data_ind_len_zero + brbr)
    then err number_too_large
    else ok (push_int br brbr (out ++ ((data_ind_len_zero + brbr) % 256 ∷ [])))

-- `append(bigint)`
pub append_int : ℕ → RlpStream → Result RlpError RlpStream
append_int i s =
    if i == 0
    then note_appended 1 (record s { out = s.out ++ (data_imm_len_start ∷ []) })
    else if ltb i data_imm_len_start
    then note_appended 1 (record s { out = s.out ++ (i % 256 ∷ []) })
    else (int_head (bytes_required i) s.out >>= λ headed.
        note_appended 1 (record s { out = push_int i (bytes_required i) headed }))

abbrev pub finish_with : List (ℕ × ℕ) → List ℕ → Result RlpError (List ℕ)
finish_with [] out = ok out
finish_with (top ∷ stack) out = err stack_not_empty

-- `out()`, `invalidate()`
pub finish : RlpStream → Result RlpError (List ℕ)
finish s = finish_with s.list_stack s.out

-- `clear()`
pub clear : RlpStream → RlpStream
clear s = empty_stream
