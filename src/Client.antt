-- ===== src/Client.antt =====
-- `FarmClient` (ethminer/FarmClient.h), which speaks to the node in solo mining: the transactions
-- that wait to be mined, the nonce of the next one, the file that miners of one farm share. The
-- node, the settings, the clock and the curve's library are arguments.
pub mod Pending
pub mod Nonces
pub mod MintData
use mvis_tokenminer.Prelude.{ℕ, zero, suc, ◌+◌, ◌-◌, ◌*◌, ◌/◌, ◌%◌, ◌^◌, min, List, [], ◌∷◌, ◌++◌}
use mvis_tokenminer.Prelude.{Option, none, some, Bool, true, false, ◌||◌, ◌&&◌, not, ltb, leb, ◌==◌}
use mvis_tokenminer.Prelude.{
  if◌then◌else◌, Result, ok, err, ◌>>=◌, list_eq, take, replicate, get_elem?, length,
}
use mvis_tokenminer.Hex.{read_bytes, to_hex, from_hex, pad_left, add, dont_add, dont_throw}
use mvis_tokenminer.Rlp.Constants.{RlpError}
use mvis_tokenminer.Transaction.{Transaction, SignatureStruct, no_signature, generate_payload}
use mvis_tokenminer.Transaction.{sign, rlp}

pub data TxStatus : Type 0 where
  succeeded : TxStatus
  failed : TxStatus
  waiting : TxStatus
  not_found : TxStatus

-- What the node answers about a transaction: `exists_tx` whether it has it, `status` the text that
-- its receipt has under that name, empty where there is no receipt yet; none where the call throws.
pub record Node : Type 0 where
  pub exists_tx : List ℕ → Option Bool
  pub status : List ℕ → Option (List ℕ)

-- `getTxStatus`
pub get_tx_status : Node → List ℕ → TxStatus
get_tx_status node tx_hash = by_hash (node.exists_tx tx_hash)
  where
    receipt : Option (List ℕ) → TxStatus
    receipt none = waiting
    receipt (some status) =
        if list_eq status (b'0' ∷ b'x' ∷ b'1' ∷ [])
        then succeeded
        else if list_eq status (b'0' ∷ b'x' ∷ b'0' ∷ [])
        then failed
        else waiting

    by_hash : Option Bool → TxStatus
    by_hash none = waiting
    by_hash (some false) = not_found
    by_hash (some true) = receipt (node.status tx_hash)

abbrev pub is_final : TxStatus → Bool
is_final succeeded = true
is_final failed = true
is_final waiting = false
is_final not_found = false

-- The first loop of `checkPendingTransactions`, for the places below `i`, from the back: the
-- challenges of the transactions that are done.
pub find_done : Node → List Transaction → ℕ → List (List ℕ)
find_done node pending zero = []
find_done node pending (suc i) = add (get_elem? pending i) (find_done node pending i)
  where
    add : Option Transaction → List (List ℕ) → List (List ℕ)
    add none rest = rest
    add (some t) rest = if is_final (get_tx_status node t.tx_hash) then t.challenge ∷ rest else rest

-- `m_pendingTxs.erase(m_pendingTxs.begin() + i)`
pub erase_at : ℕ → List Transaction → List Transaction
erase_at i [] = []
erase_at zero (t ∷ ts) = ts
erase_at (suc i) (t ∷ ts) = t ∷ erase_at i ts

-- The inner loop of the second part, for the places below `i`, from the back.
pub erase_loop : List ℕ → ℕ → List Transaction → List Transaction
erase_loop challenge zero pending = pending
erase_loop challenge (suc i) pending = erase_loop challenge i (look (get_elem? pending i))
  where
    look : Option Transaction → List Transaction
    look none = pending
    look (some t) = if list_eq t.challenge challenge then erase_at i pending else pending

pub erase_done : List (List ℕ) → List Transaction → List Transaction
erase_done [] pending = pending
erase_done (challenge ∷ rest) pending =
    erase_done rest (erase_loop challenge (length pending) pending)

-- `checkPendingTransactions`
pub check_pending_transactions : Node → List Transaction → List Transaction
check_pending_transactions node pending =
    erase_done (find_done node pending (length pending)) pending

-- The state of a client, with the time when `m_lastSolution` was restarted, the file that miners of
-- one farm share, and the account's chain. The nonce is none where the source has -1.
pub record Client : Type 0 where
  pub tx_nonce : Option ℕ
  pub last_solution : ℕ
  pub pending_txs : List Transaction
  pub challenge_file : Option (List ℕ)
  pub chain_id : ℕ

-- `std::left << std::setfill('0') << std::setw(w)`.
pub pad_right : ℕ → List ℕ → List ℕ
pad_right w s = s ++ replicate (w - length s) b'0'

-- The text that becomes the call's data: the first four bytes of the hash of the signature of mint,
-- the nonce that solves the challenge, and the digest.
pub mint_text : List ℕ → List ℕ → List ℕ → List ℕ
mint_text selector solution hash =
    take 10 (to_hex selector 2 add)
    ++ (pad_left 64 (to_hex solution 2 dont_add) ++ pad_right 64 (to_hex hash 2 dont_add))

-- `fromHex(sMethod)`
pub mint_data : List ℕ → List ℕ → List ℕ → List ℕ
mint_data selector solution hash =
    read_bytes (from_hex (mint_text selector solution hash) dont_throw)

-- The gas price of the settings: a number, or what the node's oracle says, where its call may throw.
pub data GasPrice : Type 0 where
  fixed : ℕ → GasPrice
  oracle : Option ℕ → GasPrice

-- How looking at the shared file ends: with its line, with no line since it cannot be opened, or with an
-- exception; and how writing it ends: whole, with the file as it was, or after so many characters.
pub data FileRead : Type 0 where
  readable : FileRead
  unreadable : FileRead
  throwing : FileRead

pub data FileWrite : Type 0 where
  written : FileWrite
  unopened : FileWrite
  broken_off : ℕ → FileWrite

-- What a submission meets outside: whether the settings name a folder, its shared file, the time in seconds, the
-- node's transaction count, the settings of the gas, the address of the contract, the hash of the
-- signature of mint, hashing and the curve's library, and the node's answer to the bytes. None stands
-- for a call that throws.
pub record Outside : Type 0 where
  pub has_folder : Bool
  pub file_read : FileRead
  pub file_write : FileWrite
  pub now : ℕ
  pub next_nonce : Option ℕ
  pub eip1559 : Bool
  pub gas_limit : ℕ
  pub max_fee : ℕ
  pub max_priority_fee : ℕ
  pub gas_price : GasPrice
  pub token_contract : List ℕ
  pub selector : List ℕ
  pub sha3 : List ℕ → ℕ
  pub sign_compact : ℕ → Option SignatureStruct
  pub send_raw : List ℕ → Option (List ℕ)

-- How a submission ends: another miner had the challenge, a call threw, or the transaction waits.
pub data Outcome : Type 0 where
  taken : Outcome
  thrown : Outcome
  sent : Outcome

-- The line that is read, if the file is there; nothing is compared where looking at it throws.
abbrev pub line_read : FileRead → Option (List ℕ) → Option (List ℕ)
line_read readable line = line
line_read unreadable none = none
line_read unreadable (some line) = some []
line_read throwing line = none

-- Whether the first line of the shared file is the challenge's digits.
pub is_taken : Outside → List ℕ → Client → Bool
is_taken o challenge c = o.has_folder && held (line_read o.file_read c.challenge_file)
  where
    held : Option (List ℕ) → Bool
    held none = false
    held (some line) = list_eq line (to_hex challenge 2 dont_add)

-- The file after the digits were written to it. An exception of looking at it is caught behind the
-- writing, which does not take place.
abbrev pub file_after : FileRead → FileWrite → List ℕ → Option (List ℕ) → Option (List ℕ)
file_after throwing w digits line = line
file_after _ written digits line = some digits
file_after _ unopened digits line = line
file_after _ (broken_off n) digits line = some (take n digits)

pub share_challenge : Outside → List ℕ → Client → Client
share_challenge o challenge c =
    if o.has_folder
    then record c {
      challenge_file =
          file_after o.file_read o.file_write (to_hex challenge 2 dont_add) c.challenge_file;
    }
    else c

-- `m_txNonce`, read anew where the last solution is more than five minutes old; the source keeps it in an
-- int, which the nonces are taken to fit.
pub choose_nonce : Outside → Client → Option ℕ
choose_nonce o c = choose c.tx_nonce
  where
    choose : Option ℕ → Option ℕ
    choose none = o.next_nonce
    choose (some n) = if ltb (5 * 60) (o.now - c.last_solution) then o.next_nonce else some (n + 1)

abbrev pub asked_price : GasPrice → ℕ
asked_price (fixed price) = price
asked_price (oracle none) = 0
asked_price (oracle (some price)) = price

-- The transaction that `submitWorkSolo` prepares.
pub prepare : Outside → ℕ → List ℕ → List ℕ → List ℕ → Client → Transaction
prepare o n solution hash challenge c = record {
  chain_id = c.chain_id;
  nonce = n;
  value = 0;
  receive_address = o.token_contract;
  gas_price = if o.eip1559 then 0 else min (asked_price o.gas_price) o.max_fee;
  gas = o.gas_limit;
  call_data = mint_data o.selector solution hash;
  tx_hash = [];
  challenge = challenge;
  eip1559 = o.eip1559;
  priority_fee = if o.eip1559 then o.max_priority_fee else 0;
  max_fee = o.max_fee;
  vrs = no_signature;
}

-- `txSignSend`
pub tx_sign_send : Outside → Transaction → Option Transaction
tx_sign_send o t = with_bytes (sign o.sha3 o.sign_compact t)
  where
    answered : Transaction → Option (List ℕ) → Option Transaction
    answered signed none = none
    answered signed (some tx_hash) = some (record signed { tx_hash = tx_hash })

    with_rlp : Transaction → Result RlpError (List ℕ) → Option Transaction
    with_rlp signed (err e) = none
    with_rlp signed (ok bytes) = answered signed (o.send_raw bytes)

    with_bytes : Result RlpError Transaction → Option Transaction
    with_bytes (err e) = none
    with_bytes (ok signed) = with_rlp signed (rlp generate_payload signed)

-- What follows the choice of the nonce.
pub submit_with : Outside → List ℕ → List ℕ → List ℕ → ℕ → Client → Outcome × Client
submit_with o solution hash challenge n c =
    finish_with (tx_sign_send o (prepare o n solution hash challenge c))
  where
    counted : Client
    counted = record c { tx_nonce = some n; last_solution = o.now }

    finish_with : Option Transaction → Outcome × Client
    finish_with none = (thrown, counted)
    finish_with (some t) = (sent, record counted { pending_txs = c.pending_txs ++ (t ∷ []) })

-- `submitWorkSolo`
pub submit_work_solo : Outside → List ℕ → List ℕ → List ℕ → Client → Outcome × Client
submit_work_solo o solution hash challenge c =
    if is_taken o challenge c then (taken, c) else next (choose_nonce o shared)
  where
    shared : Client
    shared = share_challenge o challenge c

    next : Option ℕ → Outcome × Client
    next none = (thrown, shared)
    next (some n) = submit_with o solution hash challenge n shared
