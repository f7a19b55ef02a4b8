-- ===== src/Transaction.antt =====
-- The transactions of solo mining (ethminer/SignTx.h): their serialisation, with and without the
-- signature, and signing. The curve's library and the hash are arguments.
pub mod Serial
pub mod Payload
pub mod Signing
use mvis_tokenminer.Prelude.{ℕ, ◌+◌, ◌-◌, ◌*◌, ◌/◌, ◌%◌, ◌^◌, List, [], ◌∷◌, map, Option}
use mvis_tokenminer.Prelude.{none, some, Bool, true, false, ◌||◌, not, ltb, leb, ◌==◌}
use mvis_tokenminer.Prelude.{if◌then◌else◌, Result, ok, err, ◌>>=◌}
use mvis_tokenminer.Rlp.Constants.{RlpError}
use mvis_tokenminer.Rlp.Stream.{
  RlpStream, empty_stream, append_list, append_int, append_bytes, finish,
}

pub data RlpMode : Type 0 where
  generate_sig_hash : RlpMode
  generate_payload : RlpMode

-- `SignatureStruct`
pub record SignatureStruct : Type 0 where
  pub r : ℕ
  pub s : ℕ
  pub v : ℕ

pub record Transaction : Type 0 where
  pub chain_id : ℕ
  pub nonce : ℕ
  pub value : ℕ
  pub receive_address : List ℕ
  pub gas_price : ℕ
  pub gas : ℕ
  pub call_data : List ℕ
  pub tx_hash : List ℕ
  pub challenge : List ℕ
  pub eip1559 : Bool
  pub priority_fee : ℕ
  pub max_fee : ℕ
  pub vrs : SignatureStruct

-- The last three items of the serialisation.
pub stream_signature : SignatureStruct → RlpStream → Result RlpError RlpStream
stream_signature vrs s = append_int vrs.v s >>= append_int vrs.r >>= append_int vrs.s

-- The two branches of `streamRLP`; the access list is an empty vector.
pub stream_typed : RlpMode → Transaction → RlpStream → Result RlpError RlpStream
stream_typed mode t s =
    append_list (count mode) s
    >>= append_int t.chain_id
    >>= append_int t.nonce
    >>= append_int t.priority_fee
    >>= append_int t.max_fee
    >>= append_int t.gas
    >>= append_bytes t.receive_address false
    >>= append_int t.value
    >>= append_bytes t.call_data false
    >>= append_list 0
    >>= last mode
  where
    count : RlpMode → ℕ
    count generate_sig_hash = 9
    count generate_payload = 12

    last : RlpMode → RlpStream → Result RlpError RlpStream
    last generate_sig_hash out = ok out
    last generate_payload out = stream_signature t.vrs out

pub stream_legacy : RlpMode → Transaction → RlpStream → Result RlpError RlpStream
stream_legacy mode t s =
    append_list 9 s
    >>= append_int t.nonce
    >>= append_int t.gas_price
    >>= append_int t.gas
    >>= append_bytes t.receive_address false
    >>= append_int t.value
    >>= append_bytes t.call_data false
    >>= last mode
  where
    last : RlpMode → RlpStream → Result RlpError RlpStream
    last generate_payload out = stream_signature t.vrs out
    last generate_sig_hash out = append_int t.chain_id out >>= append_int 0 >>= append_int 0

-- `streamRLP`
pub stream_rlp : RlpMode → Transaction → RlpStream → Result RlpError RlpStream
stream_rlp mode t s = if t.eip1559 then stream_typed mode t s else stream_legacy mode t s

abbrev pub transaction_type : ℕ
transaction_type = 2

-- `rlp`
pub rlp : RlpMode → Transaction → Result RlpError (List ℕ)
rlp mode t = stream_rlp mode t empty_stream >>= finish >>= λ bytes.
    ok (if t.eip1559 then transaction_type ∷ bytes else bytes)

-- `generateTxHash`
pub generate_tx_hash : (List ℕ → ℕ) → RlpMode → Transaction → Result RlpError ℕ
generate_tx_hash sha3 mode t = rlp mode t >>= λ bytes. ok (sha3 bytes)

-- `c_secp256k1n`, the order of the curve's group.
abbrev pub secp256k1n : ℕ
secp256k1n = 115792089237316195423570985008687907852837564279074904382605163141518161494337

-- `SignatureStruct::isValid`
pub is_valid : SignatureStruct → Bool
is_valid g =
    if ltb 1 g.v || leb secp256k1n g.r || leb secp256k1n g.s || ltb g.s 1 || ltb g.r 1
    then false
    else true

abbrev pub no_signature : SignatureStruct
no_signature = record { r = 0; s = 0; v = 0 }

-- `ss.v ^ 1`
abbrev pub flip_bit : ℕ → ℕ
flip_bit v = if v % 2 == 0 then v + 1 else v - 1

-- `signBytes`, with what `secp256k1_ecdsa_sign_compact` gives; the difference is one of `u256`.
pub sign_bytes : (ℕ → Option SignatureStruct) → ℕ → SignatureStruct
sign_bytes sign_compact hash = lower_s (sign_compact hash)
  where
    lower_s : Option SignatureStruct → SignatureStruct
    lower_s none = no_signature
    lower_s (some g) =
        if ltb (secp256k1n / 2) g.s
        then record g { v = flip_bit g.v; s = (2 ^ 256 + secp256k1n - g.s) % 2 ^ 256 }
        else g

-- `sign`, with the hash and the secret key's signing function.
pub sign : (List ℕ → ℕ) → (ℕ → Option SignatureStruct) → Transaction → Result RlpError Transaction
sign sha3 sign_compact t =
    generate_tx_hash sha3 generate_sig_hash t >>= λ hash. ok (signed (sign_bytes sign_compact hash))
  where
    signed : SignatureStruct → Transaction
    signed g =
        if is_valid g
        then if not t.eip1559
          then record t { vrs = record g { v = (g.v + (t.chain_id * 2 + 35)) % 2 ^ 32 } }
          else record t { vrs = g }
        else t
