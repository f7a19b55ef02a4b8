-- ===== src/Rlp/Constants.antt =====
-- The bytes that head an item (libdevcore/RLP.h), and the exceptions of RLP.cpp.
use mvis_tokenminer.Prelude.{ℕ, ◌+◌, ◌-◌}

abbrev pub max_length_bytes : ℕ
max_length_bytes = 8

abbrev pub data_imm_len_start : ℕ
data_imm_len_start = 0x80

abbrev pub list_start : ℕ
list_start = 0xc0

abbrev pub data_imm_len_count : ℕ
data_imm_len_count = list_start - data_imm_len_start - max_length_bytes

abbrev pub data_ind_len_zero : ℕ
data_ind_len_zero = data_imm_len_start + data_imm_len_count - 1

abbrev pub list_imm_len_count : ℕ
list_imm_len_count = 256 - list_start - max_length_bytes

abbrev pub list_ind_len_zero : ℕ
list_ind_len_zero = list_start + list_imm_len_count - 1

pub data RlpError : Type 0 where
  item_count_too_large count_too_large number_too_large stack_not_empty : RlpError
  bad_rlp undersize_rlp oversize_rlp bad_cast : RlpError
  out_of_fuel : RlpError
