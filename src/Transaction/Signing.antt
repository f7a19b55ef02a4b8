-- ===== src/Transaction/Signing.antt =====
-- Signing a transaction (ethminer/SignTx.h).
use mvis_tokenminer.Prelude.{
  ℕ, ◌+◌, ◌-◌, ◌*◌, ◌%◌, ◌/◌, ◌^◌, ◌<◌, ◌≤◌, ◌≡◌, refl, ap, ◌∙◌, arith, min,
}
use mvis_tokenminer.Prelude.{List, ◌∷◌, Bool, true, false, if◌then◌else◌, Option, none, some}
use mvis_tokenminer.Prelude.{
  ok, err, Result-cases, ◌⊎◌, not, Option-cases, ltb→lt, ltb, leb, inl, inr, Bool-cases,
}
use mvis_tokenminer.Rlp.Constants.{RlpError}
use mvis_tokenminer.Rlp.Item.{list, encode}
use mvis_tokenminer.Transaction.{Transaction, SignatureStruct, generate_sig_hash}
use mvis_tokenminer.Transaction.{sign, sign_bytes, is_valid, generate_tx_hash, secp256k1n}
use mvis_tokenminer.Transaction.{transaction_type, no_signature, flip_bit}
use mvis_tokenminer.Transaction.Serial.{typed_fields, legacy_fields, IsSized}
use mvis_tokenminer.Transaction.Payload.{rlp-encode}

-- The bytes whose hash is signed.
abbrev pub unsigned : Transaction → List ℕ
unsigned t =
    if t.eip1559
    then transaction_type ∷ encode (list (typed_fields generate_sig_hash t))
    else encode (list (legacy_fields generate_sig_hash t))

-- What the library promises of a signature that it gives: both numbers are in the group, and the
-- recovery number is one of four.
abbrev pub InGroup : Option SignatureStruct → Type 0
InGroup none = Unit
InGroup (some g) = (0 < g.r) × (g.r < secp256k1n) × (0 < g.s) × (g.s < secp256k1n) × (g.v ≤ 3)

-- Of the two signatures `s` and `n - s` the lower one, with the other bit if they were exchanged.
abbrev pub lowest : SignatureStruct → SignatureStruct
lowest g = record {
  r = g.r;
  s = min g.s (secp256k1n - g.s);
  v = if leb g.s (secp256k1n - g.s) then g.v else 1 - g.v;
}

-- EIP-155 puts the chain into the last part of the signature, EIP-1559 does not.
abbrev pub with_chain : Transaction → SignatureStruct → SignatureStruct
with_chain t g = if t.eip1559 then g else record g { v = t.chain_id * 2 + 35 + g.v }

-- A signature whose recovery number is above one is left out.
abbrev pub expected : Transaction → Option SignatureStruct → Transaction
expected t none = t
expected t (some g) = if leb g.v 1 then record t { vrs = with_chain t (lowest g) } else t

abbrev half : ℕ
half = secp256k1n / 2

exchanged_s :
    (s : ℕ)
    → half < s
    → s < secp256k1n
    → (2 ^ 256 + secp256k1n - s) % 2 ^ 256 ≡ min s (secp256k1n - s)
exchanged_s s h k = omega arith

exchanged_v :
    (s v : ℕ) → half < s → v ≤ 1 → flip_bit v ≡ (if leb s (secp256k1n - s) then v else 1 - v)
exchanged_v s v h k = ground arith

kept_s : (s : ℕ) → s ≤ half → s ≡ min s (secp256k1n - s)
kept_s s h = omega arith

kept_v : (s v : ℕ) → s ≤ half → v ≡ (if leb s (secp256k1n - s) then v else 1 - v)
kept_v s v h = ground arith

with_s_v :
    (g : SignatureStruct) (s s' v v' : ℕ)
    → s ≡ s'
    → v ≡ v'
    → record g { v = v; s = s } ≡ record g { v = v'; s = s' }
with_s_v g s s' v v' e k = rw (e, k) refl

sign_bytes-lowest :
    (sc : ℕ → Option SignatureStruct) (hash : ℕ) (g : SignatureStruct)
    → sc hash ≡ some g
    → InGroup (some g)
    → g.v ≤ 1
    → sign_bytes sc hash ≡ lowest g
unfolding sign_bytes
sign_bytes-lowest sc hash g e (r_pos, r_less, s_pos, s_less, v_four) v_bit =
    elim (Bool-cases (ltb half g.s)) [
      | inl high ↦
          rw (e, high)
            (with_s_v g _ _ _ _ (exchanged_s g.s (ltb→lt half g.s high) s_less)
              (exchanged_v g.s g.v (ltb→lt half g.s high) v_bit))
      | inr low ↦
          rw (e, low)
            (with_s_v g _ _ _ _ (kept_s g.s (ground (arith, low)))
              (kept_v g.s g.v (ground (arith, low))))
    ]

sign_bytes-none :
    (sc : ℕ → Option SignatureStruct) (hash : ℕ)
    → sc hash ≡ none
    → sign_bytes sc hash ≡ no_signature
unfolding sign_bytes
sign_bytes-none sc hash e = rw e refl

is_valid-lowest : (g : SignatureStruct) → InGroup (some g) → g.v ≤ 1 → is_valid (lowest g) ≡ true
unfolding is_valid
is_valid-lowest g (r_pos, r_less, s_pos, s_less, v_four) v_bit = ground arith

-- The exchange of the bit keeps a recovery number of two or three above one, so it is not valid.
high_bit-not_valid :
    (sc : ℕ → Option SignatureStruct) (hash : ℕ) (g : SignatureStruct)
    → sc hash ≡ some g
    → g.v ≤ 3
    → 1 < g.v
    → is_valid (sign_bytes sc hash) ≡ false
unfolding sign_bytes is_valid
high_bit-not_valid sc hash g e four high = elim (Bool-cases (ltb half g.s)) [
  | inl exchanged ↦ rw (e, exchanged) (ground arith)
  | inr kept ↦ rw (e, kept) (ground arith)
]

is_valid-none : is_valid no_signature ≡ false
unfolding is_valid
is_valid-none = refl

with_vrs :
    (t : Transaction) (typed : Bool) (g k : SignatureStruct)
    → (if not typed then record t { vrs = k } else record t { vrs = g })
      ≡ record t { vrs = if typed then g else k }
with_vrs t true g k = refl
with_vrs t false g k = refl

unwrapped :
    (swapped : Bool) (v c : ℕ)
    → v ≤ 1
    → c * 2 + 36 < 2 ^ 32
    → ((if swapped then v else 1 - v) + (c * 2 + 35)) % 2 ^ 32
      ≡ c * 2 + 35 + (if swapped then v else 1 - v)
unwrapped true v c h k = omega arith
unwrapped false v c h k = omega arith

-- Signing ends, and puts the lower of the two signatures that the library's answer stands for into
-- the transaction, changing nothing else, or nothing at all where the library gives none or one whose
-- recovery number is two or three; what is signed is the hash of the unsigned bytes. The parts have the
-- sizes of their types, the chain's number leaves room in 32 bits, and of what the library gives both
-- numbers are in the group and the recovery number is at most three.
pub sign_lem :
    (sha3 : List ℕ → ℕ) (sc : ℕ → Option SignatureStruct) (t : Transaction)
    → IsSized t
    → t.chain_id * 2 + 36 < 2 ^ 32
    → ((hash : ℕ) → InGroup (sc hash))
    → sign sha3 sc t ≡ ok (expected t (sc (sha3 (unsigned t))))
unfolding sign generate_tx_hash
sign_lem sha3 sc t h room promise = elim (Option-cases (sc (sha3 (unsigned t)))) [
  | inl e ↦
      rw
        (
          rlp-encode generate_sig_hash t h,
          sign_bytes-none sc (sha3 (unsigned t)) e,
          is_valid-none,
          e,
        )
        refl
  | inr (g, e) ↦
      let known = rw e at (promise (sha3 (unsigned t))) in
      elim (Bool-cases (leb g.v 1)) [
        | inl bit ↦
            let v_bit : g.v ≤ 1 = ground (arith, bit) in
            rw
              (
                rlp-encode generate_sig_hash t h,
                sign_bytes-lowest sc (sha3 (unsigned t)) g e known v_bit,
                is_valid-lowest g known v_bit,
                e,
                bit,
              )
              (ap ok (
                with_vrs t t.eip1559 _ _
                ∙ ap
                    (λ v. record t {
                      vrs = if t.eip1559 then lowest g else record (lowest g) { v = v };
                    })
                    (unwrapped (leb g.s (secp256k1n - g.s)) g.v t.chain_id v_bit room)))
        | inr high ↦
            rw
              (
                rlp-encode generate_sig_hash t h,
                high_bit-not_valid sc (sha3 (unsigned t)) g e known.4 (ground (arith, high)),
                e,
                high,
              )
              refl
      ]
]

-- Signing changes the signature only.
pub sign_keeps :
    (sha3 : List ℕ → ℕ) (sc : ℕ → Option SignatureStruct) (t : Transaction)
    → ((t' : Transaction) × (sign sha3 sc t ≡ ok t') × (record t' { vrs = t.vrs } ≡ t))
      ⊎ ((e : RlpError) × (sign sha3 sc t ≡ err e))
unfolding sign
sign_keeps sha3 sc t = elim (Result-cases (generate_tx_hash sha3 generate_sig_hash t)) [
  | inl (hash, e) ↦ elim (Bool-cases (is_valid (sign_bytes sc hash))) [
    | inl valid ↦ inl (
      record t {
        vrs = if t.eip1559 then sign_bytes sc hash else record (sign_bytes sc hash) {
          v = ((sign_bytes sc hash).v + (t.chain_id * 2 + 35)) % 2 ^ 32;
        };
      },
      rw (e, valid) (ap ok (with_vrs t t.eip1559 _ _)),
      refl,
    )
    | inr bad ↦ inl (t, rw (e, bad) refl, refl)
  ]
  | inr (r, e) ↦ inr (r, rw e refl)
]
