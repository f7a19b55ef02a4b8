-- ===== src/Tests/ClientRuns.antt =====
-- Runs of the serialisation and the signing of transactions (ethminer/SignTx.h), and of what the
-- client does with them (ethminer/FarmClient.h).
use mvis_tokenminer.Prelude.{zero, suc, All}
use mvis_tokenminer.Hex.{IsByte}
use mvis_tokenminer.Prelude.{
  ℕ, ◌+◌, ◌-◌, ◌≡◌, refl, arith, true, false, List, [], ◌∷◌, ok, some, replicate,
}
use mvis_tokenminer.Prelude.{if◌then◌else◌}
use mvis_tokenminer.Rlp.Item.{list, encode}
use mvis_tokenminer.Transaction.{Transaction, SignatureStruct, generate_payload, rlp, sign}
use mvis_tokenminer.Transaction.{secp256k1n}
use mvis_tokenminer.Transaction.Serial.{legacy_fields, IsSized}
use mvis_tokenminer.Transaction.Payload.{rlp-encode}
use mvis_tokenminer.Transaction.Signing.{sign_lem}
use mvis_tokenminer.Prelude.{not, none, list_eq}
use mvis_tokenminer.Client.{
  readable, written, Node, Client, Outside, fixed, taken, check_pending_transactions,
}
use mvis_tokenminer.Client.Pending.{remove, is_settled, check_pending_transactions_lem}
use mvis_tokenminer.Client.Nonces.{Attempt, attempt, attempts, IsNumbered, attempts-IsNumbered}
use mvis_tokenminer.Client.Nonces.{submit_work_solo_once}

abbrev transfer : Transaction
transfer = record {
  chain_id = 1;
  nonce = 9;
  value = 0;
  receive_address = replicate 20 0x35;
  gas_price = 20;
  gas = 200000;
  call_data = 1 ∷ 2 ∷ [];
  tx_hash = [];
  challenge = 5 ∷ [];
  eip1559 = false;
  priority_fee = 2;
  max_fee = 30;
  vrs = record { r = 0; s = 0; v = 0 };
}

transfer-IsSized : IsSized transfer
transfer-IsSized = record {
  chain_id_fits = omega arith;
  nonce_fits = omega arith;
  value_fits = omega arith;
  gas_price_fits = omega arith;
  gas_fits = omega arith;
  priority_fee_fits = omega arith;
  max_fee_fits = omega arith;
  v_fits = omega arith;
  r_fits = omega arith;
  s_fits = omega arith;
  address_fits = omega arith;
  data_fits = omega arith;
}

rlp-encode_example :
    rlp generate_payload transfer ≡ ok (encode (list (legacy_fields generate_payload transfer)))
rlp-encode_example = rlp-encode generate_payload transfer transfer-IsSized

abbrev high_answer : SignatureStruct
high_answer = record { r = 5; s = secp256k1n - 3; v = 0 }

sign_lem_example :
    sign (λ bytes. 77) (λ hash. some high_answer) transfer
    ≡ ok (record transfer { vrs = record { r = 5; s = 3; v = 38 } })
sign_lem_example =
    sign_lem (λ bytes. 77) (λ hash. some high_answer) transfer transfer-IsSized (omega arith)
      (λ hash. omega arith)

abbrev with_tx : List ℕ → List ℕ → Transaction
with_tx tx_hash challenge = record transfer { tx_hash = tx_hash; challenge = challenge }

-- The node has mined transaction 1, knows 2, and has lost 3.
abbrev node : Node
node = record {
  exists_tx = λ tx_hash. some (not (list_eq tx_hash (3 ∷ [])));
  status = λ tx_hash. some (if list_eq tx_hash (1 ∷ []) then b'0' ∷ b'x' ∷ b'1' ∷ [] else []);
}

abbrev four : List Transaction
four =
    with_tx (1 ∷ []) (7 ∷ [])
    ∷ with_tx (2 ∷ []) (8 ∷ [])
    ∷ with_tx (2 ∷ []) (7 ∷ [])
    ∷ with_tx (3 ∷ []) (9 ∷ [])
    ∷ []

check_pending_transactions_lem_example :
    check_pending_transactions node four ≡ remove (is_settled node four) four
check_pending_transactions_lem_example = check_pending_transactions_lem node four

abbrev outside : Outside
outside = record {
  has_folder = true;
  file_read = readable;
  file_write = written;
  now = 100;
  next_nonce = some 4;
  eip1559 = false;
  gas_limit = 200000;
  max_fee = 30;
  max_priority_fee = 2;
  gas_price = fixed 50;
  token_contract = replicate 20 0x35;
  selector = replicate 32 3;
  sha3 = λ bytes. 77;
  sign_compact = λ hash. some high_answer;
  send_raw = λ bytes. some (9 ∷ []);
}

abbrev attempt_at : ℕ → List ℕ → Attempt
attempt_at now challenge = record {
  outside = record outside { now = now };
  solution = 1 ∷ [];
  hash = 2 ∷ [];
  challenge = challenge;
}

abbrev client : Client
client = record {
  tx_nonce = some 6;
  last_solution = 90;
  pending_txs = [];
  challenge_file = none;
  chain_id = 1;
}

attempts-IsNumbered_example :
    IsNumbered
      (6 + (attempts (attempt_at 100 (5 ∷ []) ∷ []) client).0)
      (attempts (attempt_at 100 (5 ∷ []) ∷ []) client).1
attempts-IsNumbered_example =
    attempts-IsNumbered (attempt_at 100 (5 ∷ []) ∷ []) 6 client (refl, omega arith)
      (omega arith, tt)

submit_work_solo_once_example :
    let left = (attempt (attempt_at 100 (5 ∷ [])) client).1.challenge_file in
    attempt (attempt_at 120 (5 ∷ [])) (record client { challenge_file = left })
    ≡ (taken, record client { challenge_file = left })
submit_work_solo_once_example =
    submit_work_solo_once (attempt_at 100 (5 ∷ [])) (attempt_at 120 (5 ∷ [])) client client refl
      refl refl refl refl refl

three_IsByte : (n : ℕ) → All IsByte (replicate n 3)
three_IsByte zero = tt
three_IsByte (suc n) = (omega arith, three_IsByte n)
