-- ===== src/Transaction/Serial.antt =====
-- The serialisation of a transaction (ethminer/SignTx.h), against the values that RLP encodes.
use mvis_tokenminer.Prelude.{ℕ, ◌^◌, ◌<◌, ◌≡◌, refl, ap, ◌∙◌, sym, arith}
use mvis_tokenminer.Prelude.{List, false}
use mvis_tokenminer.Prelude.{Result, ok, err, ◌>>=◌, All, length}
use mvis_tokenminer.Hex.{IsByte}
use mvis_tokenminer.Rlp.Constants.{RlpError}
use mvis_tokenminer.Rlp.Item.{Item, Items, str, list, nil, cons}
use mvis_tokenminer.Rlp.Stream.{RlpStream, append_int, append_bytes, append_list}
use mvis_tokenminer.Rlp.Stream.Emit.{emit, emit_all, bind_ok}
use mvis_tokenminer.Rlp.Stream.Integers.{compact, append_int-append_bytes}
use mvis_tokenminer.Transaction.{Transaction, SignatureStruct, RlpMode, generate_sig_hash}
use mvis_tokenminer.Transaction.{generate_payload, stream_typed, stream_legacy, stream_signature}

-- A number as an item.
abbrev pub num : ℕ → Item
num i = str (compact i)

abbrev pub signature : SignatureStruct → Items
signature g = cons (num g.v) (cons (num g.r) (cons (num g.s) nil))

abbrev pub typed_front : Transaction → Items → Items
typed_front t rest = cons (num t.chain_id) (
    cons (num t.nonce) (
      cons (num t.priority_fee) (
        cons (num t.max_fee) (
          cons (num t.gas) (
            cons (str t.receive_address)
              (cons (num t.value) (cons (str t.call_data) (cons (list nil) rest))))))))

abbrev pub legacy_front : Transaction → Items → Items
legacy_front t rest = cons (num t.nonce) (
    cons (num t.gas_price) (
      cons (num t.gas)
        (cons (str t.receive_address) (cons (num t.value) (cons (str t.call_data) rest)))))

-- What EIP-1559 and EIP-155 say a transaction is, before it is signed and after.
abbrev pub typed_fields : RlpMode → Transaction → Items
typed_fields generate_sig_hash t = typed_front t nil
typed_fields generate_payload t = typed_front t (signature t.vrs)

abbrev pub legacy_fields : RlpMode → Transaction → Items
legacy_fields generate_sig_hash t =
    legacy_front t (cons (num t.chain_id) (cons (num 0) (cons (num 0) nil)))
legacy_fields generate_payload t = legacy_front t (signature t.vrs)

-- The items of a list, one after another, on a stream that an earlier step may have refused.
run : Items → Result RlpError RlpStream → Result RlpError RlpStream
run nil m = m
run (cons x xs) m = run xs (m >>= emit x)

run-emit_all : (xs : Items) (m : Result RlpError RlpStream) → (m >>= emit_all xs) ≡ run xs m
unfolding run emit_all
run-emit_all nil (ok s) = refl
run-emit_all nil (err e) = refl
run-emit_all (cons x xs) (ok s) = run-emit_all xs (emit x s)
run-emit_all (cons x xs) (err e) = run-emit_all xs (err e)

emit-num :
    (i : ℕ) (m : Result RlpError RlpStream)
    → i < 2 ^ 256
    → (m >>= emit (num i)) ≡ (m >>= append_int i)
unfolding emit
emit-num i (ok s) h = sym (append_int-append_bytes i s h)
emit-num i (err e) h = refl

emit_none : (m : Result RlpError RlpStream) → (m >>= emit (list nil)) ≡ (m >>= append_list 0)
unfolding emit emit_all
emit_none (ok s) = bind_ok (append_list 0 s)
emit_none (err e) = refl

-- What the parts of a transaction are at most.
pub record IsSized (t : Transaction) : Type 0 where
  pub chain_id_fits : t.chain_id < 2 ^ 32
  pub nonce_fits : t.nonce < 2 ^ 256
  pub value_fits : t.value < 2 ^ 256
  pub gas_price_fits : t.gas_price < 2 ^ 256
  pub gas_fits : t.gas < 2 ^ 256
  pub priority_fee_fits : t.priority_fee < 2 ^ 256
  pub max_fee_fits : t.max_fee < 2 ^ 256
  pub v_fits : t.vrs.v < 2 ^ 32
  pub r_fits : t.vrs.r < 2 ^ 256
  pub s_fits : t.vrs.s < 2 ^ 256
  pub address_fits : All IsByte t.receive_address × (length t.receive_address ≡ 20)
  pub data_fits : All IsByte t.call_data × (length t.call_data < 2 ^ 32)

run-num :
    (i : ℕ) (xs : Items) (m : Result RlpError RlpStream)
    → i < 2 ^ 256
    → run (cons (num i) xs) m ≡ run xs (m >>= append_int i)
unfolding run
run-num i xs m h = ap (run xs) (emit-num i m h)

run-str :
    (d : List ℕ) (xs : Items) (m : Result RlpError RlpStream)
    → run (cons (str d) xs) m ≡ run xs (m >>= append_bytes d false)
unfolding run emit
run-str d xs m = refl

run-none :
    (xs : Items) (m : Result RlpError RlpStream)
    → run (cons (list nil) xs) m ≡ run xs (m >>= append_list 0)
unfolding run
run-none xs m = ap (run xs) (emit_none m)

module _ (t : Transaction) (h : IsSized t) where
  run-signature :
      (m : Result RlpError RlpStream) → run (signature t.vrs) m ≡ (m >>= stream_signature t.vrs)
  unfolding stream_signature
  run-signature (ok s) =
      run-num t.vrs.v _ _ (omega (arith, h.v_fits))
      ∙ run-num t.vrs.r _ _ h.r_fits
      ∙ run-num t.vrs.s _ _ h.s_fits
      ∙ (unfold run in refl)
  run-signature (err e) = unfold run in refl

  run-typed_front :
      (rest : Items) (m : Result RlpError RlpStream)
      → run (typed_front t rest) m
        ≡ run rest (
            m
            >>= append_int t.chain_id
            >>= append_int t.nonce
            >>= append_int t.priority_fee
            >>= append_int t.max_fee
            >>= append_int t.gas
            >>= append_bytes t.receive_address false
            >>= append_int t.value
            >>= append_bytes t.call_data false
            >>= append_list 0)
  run-typed_front rest m =
      run-num t.chain_id _ _ (omega (arith, h.chain_id_fits))
      ∙ run-num t.nonce _ _ h.nonce_fits
      ∙ run-num t.priority_fee _ _ h.priority_fee_fits
      ∙ run-num t.max_fee _ _ h.max_fee_fits
      ∙ run-num t.gas _ _ h.gas_fits
      ∙ run-str t.receive_address _ _
      ∙ run-num t.value _ _ h.value_fits
      ∙ run-str t.call_data _ _
      ∙ run-none rest _

  run-legacy_front :
      (rest : Items) (m : Result RlpError RlpStream)
      → run (legacy_front t rest) m
        ≡ run rest (
            m
            >>= append_int t.nonce
            >>= append_int t.gas_price
            >>= append_int t.gas
            >>= append_bytes t.receive_address false
            >>= append_int t.value
            >>= append_bytes t.call_data false)
  run-legacy_front rest m =
      run-num t.nonce _ _ h.nonce_fits
      ∙ run-num t.gas_price _ _ h.gas_price_fits
      ∙ run-num t.gas _ _ h.gas_fits
      ∙ run-str t.receive_address _ _
      ∙ run-num t.value _ _ h.value_fits
      ∙ run-str t.call_data rest _

  run-unsigned :
      (m : Result RlpError RlpStream)
      → run (cons (num t.chain_id) (cons (num 0) (cons (num 0) nil))) m
        ≡ (m >>= λ out. append_int t.chain_id out >>= append_int 0 >>= append_int 0)
  run-unsigned (ok s) =
      run-num t.chain_id _ _ (omega (arith, h.chain_id_fits))
      ∙ run-num 0 _ _ (omega arith)
      ∙ run-num 0 _ _ (omega arith)
      ∙ (unfold run in refl)
  run-unsigned (err e) = unfold run in refl

  pub stream_typed-emit :
      (mode : RlpMode) (s : RlpStream) → emit (list (typed_fields mode t)) s ≡ stream_typed mode t s
  unfolding stream_typed emit
  stream_typed-emit generate_sig_hash s =
      run-emit_all _ (append_list 9 s) ∙ run-typed_front nil _ ∙ (unfold run in sym (bind_ok _))
  stream_typed-emit generate_payload s =
      run-emit_all _ (append_list 12 s) ∙ run-typed_front (signature t.vrs) _ ∙ run-signature _

  pub stream_legacy-emit :
      (mode : RlpMode) (s : RlpStream)
      → emit (list (legacy_fields mode t)) s ≡ stream_legacy mode t s
  unfolding stream_legacy emit
  stream_legacy-emit generate_sig_hash s =
      run-emit_all _ (append_list 9 s) ∙ run-legacy_front _ _ ∙ run-unsigned _
  stream_legacy-emit generate_payload s =
      run-emit_all _ (append_list 9 s) ∙ run-legacy_front (signature t.vrs) _ ∙ run-signature _
