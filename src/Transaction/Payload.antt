-- ===== src/Transaction/Payload.antt =====
-- The bytes that are hashed, signed and sent for a transaction (ethminer/SignTx.h).
use mvis_tokenminer.Prelude.{ℕ, ◌+◌, ◌*◌, ◌^◌, ◌<◌, ◌≤◌, ◌≡◌, refl, arith}
use mvis_tokenminer.Prelude.{List, [], ◌∷◌, Bool, true, false, if◌then◌else◌, inl, inr, Bool-cases}
use mvis_tokenminer.Prelude.{Result, ok, ◌>>=◌, All, length, length-append, ltb}
use mvis_tokenminer.Hex.{IsByte}
use mvis_tokenminer.BigEndian.{bytes_required}
use mvis_tokenminer.BigEndian.Size.{bytes_required-le}
use mvis_tokenminer.BigEndian.RoundTrip.{be-IsByte, length-be}
use mvis_tokenminer.Rlp.Constants.{RlpError}
use mvis_tokenminer.Rlp.Item.{Items, str, list, nil, cons, encode, encode_all, encode_str}
use mvis_tokenminer.Rlp.Item.{header, count_items, IsSmall, AreSmall}
use mvis_tokenminer.Rlp.Stream.{empty_stream, finish}
use mvis_tokenminer.Rlp.Stream.Emit.{emit-finish}
use mvis_tokenminer.Rlp.Stream.Integers.{compact}
use mvis_tokenminer.Transaction.{Transaction, RlpMode, generate_sig_hash, generate_payload}
use mvis_tokenminer.Transaction.{stream_rlp, stream_typed, stream_legacy, rlp, transaction_type}
use mvis_tokenminer.Transaction.Serial.{
  num, signature, typed_front, legacy_front, typed_fields, legacy_fields, IsSized,
  stream_typed-emit,
}
use mvis_tokenminer.Transaction.Serial.{stream_legacy-emit}

-- A string that is far shorter than the address space.
abbrev Short : List ℕ → Type 0
Short d = All IsByte d × (length d < 2 ^ 32)

num-Short : (i : ℕ) → i < 2 ^ 256 → Short (compact i)
num-Short i h = (
  be-IsByte (bytes_required i) i,
  omega (arith, length-be (bytes_required i) i, bytes_required-le i 32 h),
)

length-header : (base n : ℕ) → n < 2 ^ 32 → length (header base n) ≤ 5
length-header base n h = elim (Bool-cases (ltb n 56)) [
  | inl e ↦ rw e (omega arith)
  | inr e ↦ rw e (omega (arith, length-be (bytes_required n) n, bytes_required-le n 4 h))
]

length-encode_str : (d : List ℕ) → length d < 2 ^ 32 → length (encode_str d) ≤ 5 + length d
length-encode_str [] h = omega arith
length-encode_str (b ∷ []) h = elim (Bool-cases (ltb b 0x80)) [
  | inl e ↦ rw e (omega arith)
  | inr e ↦ rw e (omega arith)
]
length-encode_str (b ∷ c ∷ rest) h =
    rw length-append (omega (arith, length-header 0x80 (length (b ∷ c ∷ rest)) h))

-- A list of short strings and empty lists.
AreShort : Items → Type 0
AreShort nil = Unit
AreShort (cons (str d) xs) = Short d × AreShort xs
AreShort (cons (list nil) xs) = AreShort xs
AreShort (cons (list (cons y ys)) xs) = ⊥

length-encode_all : (xs : Items) → AreShort xs → length (encode_all xs) ≤ count_items xs * 2 ^ 33
unfolding AreShort encode encode_all
length-encode_all nil h = omega arith
length-encode_all (cons (str d) xs) h =
    rw (length-append (encode_str d) (encode_all xs))
      (omega (arith, length-encode_str d h.0.1, length-encode_all xs h.1))
length-encode_all (cons (list nil) xs) h = omega (arith, length-encode_all xs h)
length-encode_all (cons (list (cons y ys)) xs) h = elim h [ ]

AreShort-AreSmall : (xs : Items) → AreShort xs → AreSmall xs
unfolding AreShort IsSmall AreSmall encode_all
AreShort-AreSmall nil h = tt
AreShort-AreSmall (cons (str d) xs) h = ((h.0.0, omega (arith, h.0.1)), AreShort-AreSmall xs h.1)
AreShort-AreSmall (cons (list nil) xs) h = ((tt, omega arith), AreShort-AreSmall xs h)
AreShort-AreSmall (cons (list (cons y ys)) xs) h = elim h [ ]

AreShort-IsSmall : (xs : Items) → count_items xs ≤ 12 → AreShort xs → IsSmall (list xs)
unfolding IsSmall
AreShort-IsSmall xs few h = (AreShort-AreSmall xs h, omega (arith, few, length-encode_all xs h))

module _ (t : Transaction) (h : IsSized t) where
  signature-AreShort : AreShort (signature t.vrs)
  unfolding AreShort
  signature-AreShort = (
    num-Short t.vrs.v (omega (arith, h.v_fits)),
    (num-Short t.vrs.r h.r_fits, (num-Short t.vrs.s h.s_fits, tt)),
  )

  unsigned-AreShort : AreShort (cons (num t.chain_id) (cons (num 0) (cons (num 0) nil)))
  unfolding AreShort
  unsigned-AreShort = (
    num-Short t.chain_id (omega (arith, h.chain_id_fits)),
    (num-Short 0 (omega arith), (num-Short 0 (omega arith), tt)),
  )

  address-Short : Short t.receive_address
  address-Short = (h.address_fits.0, omega (arith, h.address_fits.1))

  typed_front-AreShort : (rest : Items) → AreShort rest → AreShort (typed_front t rest)
  unfolding AreShort
  typed_front-AreShort rest k = (
    num-Short t.chain_id (omega (arith, h.chain_id_fits)),
    (
      num-Short t.nonce h.nonce_fits,
      (
        num-Short t.priority_fee h.priority_fee_fits,
        (
          num-Short t.max_fee h.max_fee_fits,
          (
            num-Short t.gas h.gas_fits,
            (address-Short, (num-Short t.value h.value_fits, (h.data_fits, k))),
          ),
        ),
      ),
    ),
  )

  legacy_front-AreShort : (rest : Items) → AreShort rest → AreShort (legacy_front t rest)
  unfolding AreShort
  legacy_front-AreShort rest k = (
    num-Short t.nonce h.nonce_fits,
    (
      num-Short t.gas_price h.gas_price_fits,
      (
        num-Short t.gas h.gas_fits,
        (address-Short, (num-Short t.value h.value_fits, (h.data_fits, k))),
      ),
    ),
  )

  typed-IsSmall : (mode : RlpMode) → IsSmall (list (typed_fields mode t))
  unfolding AreShort
  typed-IsSmall generate_sig_hash = AreShort-IsSmall _ (omega arith) (typed_front-AreShort nil tt)
  typed-IsSmall generate_payload =
      AreShort-IsSmall _ (omega arith) (typed_front-AreShort (signature t.vrs) signature-AreShort)

  legacy-IsSmall : (mode : RlpMode) → IsSmall (list (legacy_fields mode t))
  legacy-IsSmall generate_sig_hash =
      AreShort-IsSmall _ (omega arith) (legacy_front-AreShort _ unsigned-AreShort)
  legacy-IsSmall generate_payload =
      AreShort-IsSmall _ (omega arith) (legacy_front-AreShort _ signature-AreShort)

-- `rlp`, with the kind of the transaction apart from it.
sent : Bool → RlpMode → Transaction → Result RlpError (List ℕ)
sent typed mode t =
    (if typed then stream_typed mode t empty_stream else stream_legacy mode t empty_stream)
    >>= finish
    >>= λ bytes. ok (if typed then transaction_type ∷ bytes else bytes)

sent-encode :
    (typed : Bool) (mode : RlpMode) (t : Transaction)
    → IsSized t
    → sent typed mode t
      ≡ ok (
          if typed
          then transaction_type ∷ encode (list (typed_fields mode t))
          else encode (list (legacy_fields mode t)))
unfolding sent
sent-encode true mode t h =
    rw
      (
        ← stream_typed-emit t h mode empty_stream,
        emit-finish (list (typed_fields mode t)) [] (typed-IsSmall t h mode),
      )
      refl
sent-encode false mode t h =
    rw
      (
        ← stream_legacy-emit t h mode empty_stream,
        emit-finish (list (legacy_fields mode t)) [] (legacy-IsSmall t h mode),
      )
      refl

-- The bytes of a transaction, which are hashed to be signed and sent when it is, are the encoding
-- of the list that EIP-1559 or EIP-155 asks for, with the type in front in the first case, and no
-- step of the serialisation fails, if the parts have the sizes of their types.
pub rlp-encode :
    (mode : RlpMode) (t : Transaction)
    → IsSized t
    → rlp mode t
      ≡ ok (
          if t.eip1559
          then transaction_type ∷ encode (list (typed_fields mode t))
          else encode (list (legacy_fields mode t)))
unfolding rlp stream_rlp sent
rlp-encode mode t h = sent-encode t.eip1559 mode t h
