-- ===== src/Rlp/Reader/Heads.antt =====
-- What the reader makes of a head (libdevcore/RLP.cpp), against the specification of Rlp/Item.antt.
use mvis_tokenminer.Prelude.{ℕ, zero, suc, ◌≤◌, ◌<◌, ◌≡◌, ◌≢◌, ◌⊎◌, refl, ap, ◌∙◌, sym, ◌^◌}
use mvis_tokenminer.Prelude.{List, [], ◌∷◌, ◌++◌, arith, ok, true, false}
use mvis_tokenminer.Prelude.{length, get_or, length-append}
use mvis_tokenminer.BigEndian.{bytes_required, uint, from_big_endian_loop}
use mvis_tokenminer.BigEndian.Size.{bytes_required-pos, lt-pow-bytes_required, bytes_required-le}
use mvis_tokenminer.BigEndian.RoundTrip.{be, length-be, from_loop-be, be_first}
use mvis_tokenminer.Rlp.Item.{header, size_limit}
use mvis_tokenminer.Rlp.Reader.{read_size, long_length, check_size, length_by_head, require_good}
use mvis_tokenminer.Rlp.Reader.{payload_length, payload_offset, is_data, is_list, is_single_byte}
use mvis_tokenminer.Rlp.Reader.{length_size}

read_size-append :
    (xs rest : List ℕ) (ret : ℕ)
    → read_size (length xs) ret (xs ++ rest) ≡ from_big_endian_loop (uint 64) ret xs
unfolding read_size from_big_endian_loop
read_size-append [] rest ret = refl
read_size-append (x ∷ xs) rest ret = read_size-append xs rest _

read_size-be :
    (n : ℕ) (rest : List ℕ)
    → n < size_limit
    → read_size (bytes_required n) 0 (be (bytes_required n) n ++ rest) ≡ n
read_size-be n rest h =
    ap (λ k. read_size k 0 (be (bytes_required n) n ++ rest)) (sym (length-be (bytes_required n) n))
    ∙ read_size-append (be (bytes_required n) n) rest 0
    ∙ from_loop-be (uint 64) (bytes_required n) n (lt-pow-bytes_required n) (omega arith)

first_byte : (n : ℕ) (rest : List ℕ) → 0 < n → get_or (be (bytes_required n) n ++ rest) 0 0 ≢ 0
first_byte n rest h = go (bytes_required n) refl
  where
    go : (k : ℕ) → bytes_required n ≡ k → get_or (be k n ++ rest) 0 0 ≢ 0
    go zero e = absurd (omega (arith, lt-pow-bytes_required n, ap (λ (t : ℕ). 256 ^ t) e))
    go (suc k) e = be_first k n rest e

-- The length of a long payload is read back from the bytes behind the head.
long_length-be :
    (n : ℕ) (rest : List ℕ)
    → 56 ≤ n
    → n < size_limit
    → long_length (bytes_required n) 56 (be (bytes_required n) n ++ rest) ≡ ok n
unfolding long_length
long_length-be n rest low high = ground (
  arith,
  read_size-be n rest high,
  first_byte n rest (omega arith),
  bytes_required-le n 8 (omega arith),
  length-append (be (bytes_required n) n) rest,
  length-be (bytes_required n) n,
  lt-pow-bytes_required n,
)

module _ (n : ℕ) (rest : List ℕ) (small : n < size_limit) where
  positive : 56 ≤ n → 0 < bytes_required n
  positive h = omega (arith, bytes_required-pos n (omega arith))

  pub payload_length-list : payload_length (header 0xc0 n ++ rest) ≡ ok n
  unfolding payload_length require_good length_by_head check_size
  payload_length-list =
      ground (arith, long_length-be n rest, bytes_required-le n 8 (omega arith), positive)

  -- A head for one byte is good only before a byte that needs it.
  pub payload_length-str :
      (n ≢ 1) ⊎ ((0x80 ≤ get_or rest 0 0) × (0 < length rest))
      → payload_length (header 0x80 n ++ rest) ≡ ok n
  unfolding payload_length require_good length_by_head check_size
  payload_length-str good =
      ground (arith, long_length-be n rest, bytes_required-le n 8 (omega arith), positive)

  pub payload_offset-list : payload_offset (header 0xc0 n ++ rest) ≡ length (header 0xc0 n)
  unfolding payload_offset is_single_byte length_size
  payload_offset-list =
      ground (arith, bytes_required-le n 8 (omega arith), length-be (bytes_required n) n, positive)

  pub payload_offset-str : payload_offset (header 0x80 n ++ rest) ≡ length (header 0x80 n)
  unfolding payload_offset is_single_byte length_size
  payload_offset-str =
      ground (arith, bytes_required-le n 8 (omega arith), length-be (bytes_required n) n, positive)

  pub header-is_list :
      (is_list (header 0xc0 n ++ rest) ≡ true) × (is_single_byte (header 0xc0 n ++ rest) ≡ false)
  unfolding is_list is_single_byte
  header-is_list = ground (arith, bytes_required-le n 8 (omega arith), positive)

  pub header-is_data :
      (is_data (header 0x80 n ++ rest) ≡ true) × (is_single_byte (header 0x80 n ++ rest) ≡ false)
  unfolding is_data is_single_byte
  header-is_data = ground (arith, bytes_required-le n 8 (omega arith), positive)
