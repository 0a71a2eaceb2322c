-- ===== src/Protocol/Txs.antt =====
-- Transactions as JSON (`protocol_serialize_tx` and `protocol_deserialize_tx` of src/protocol.c).
use mini_coin_slovak.Base.{
  ℕ, ◌^◌, ◌<◌, ◌≡◌, refl, ◌∙◌, false, some, List, [], ◌∷◌, arith, length, take-all, length-take,
  drop, All, length-append,
}
use mini_coin_slovak.CLib.{Bytes, codes, length-decimal-le}
use mini_coin_slovak.Json.{search_text, json_get_string, json_get_uint64}
use mini_coin_slovak.Json.Search.{is_special, quoted}
use mini_coin_slovak.Json.Escape.{json_escape-escaped, length-json_escape-le, escaped-plain}
use mini_coin_slovak.Json.Fields.{Value, text, number, put_fields, IsKey, AreKeys}
use mini_coin_slovak.Json.Fetch.{Holds, json_get_string-field, json_get_uint64-field}
use mini_coin_slovak.Protocol.{tx_json, protocol_serialize_tx, protocol_deserialize_tx}
use mini_coin_slovak.Protocol.Bounds.{HasSizes}
use mini_coin_slovak.Run.{success}
use mini_coin_slovak.Tx.{Tx, addr_len, sig_len}

-- Neither a quote nor a backslash.
abbrev pub IsPlain : Bytes → Type 0
IsPlain = All (λ c. is_special c ≡ false)

-- The texts leave room for their NUL bytes, the numbers have 64 bits, and the signature and the hash,
-- which are printed as they are, have neither quotes nor backslashes.
pub record IsSendable (tx : Tx) : Type 0 where
  pub sender_fits : length tx.sender < addr_len
  pub receiver_fits : length tx.receiver < addr_len
  pub amount_fits : tx.amount < 2 ^ 64
  pub fee_fits : tx.fee < 2 ^ 64
  pub signature_fits : length tx.signature < sig_len
  pub hash_fits : length tx.tx_hash < 65
  pub signature_plain : IsPlain tx.signature
  pub hash_plain : IsPlain tx.tx_hash

abbrev pub tx_fields : Tx → List (Bytes × Value)
tx_fields tx =
    (codes "sender", text tx.sender)
    ∷ (codes "receiver", text tx.receiver)
    ∷ (codes "amount", number tx.amount)
    ∷ (codes "fee", number tx.fee)
    ∷ (codes "signature", text tx.signature)
    ∷ (codes "tx_hash", text tx.tx_hash)
    ∷ []

tx_json-fields : (tx : Tx) → IsSendable tx → tx_json tx ≡ put_fields b'{' (tx_fields tx) (b'}' ∷ [])
unfolding tx_json
tx_json-fields tx h =
    rw
      (
        json_escape-escaped tx.sender 130 (omega (arith, h.sender_fits)),
        json_escape-escaped tx.receiver 130 (omega (arith, h.receiver_fits)),
        escaped-plain tx.signature h.signature_plain,
        escaped-plain tx.tx_hash h.hash_plain,
      )
      refl

pub IsSendable-HasSizes : (tx : Tx) → IsSendable tx → HasSizes tx
IsSendable-HasSizes tx h = record {
  sender_fits = h.sender_fits;
  receiver_fits = h.receiver_fits;
  amount_fits = h.amount_fits;
  fee_fits = h.fee_fits;
  signature_fits = h.signature_fits;
  hash_fits = h.hash_fits;
}

tx_json_fits : (tx : Tx) → HasSizes tx → length (tx_json tx) < 600
unfolding tx_json
tx_json_fits tx h = omega (
  arith,
  length-append {0},
  length-json_escape-le tx.sender 130,
  length-json_escape-le tx.receiver 130,
  length-decimal-le tx.amount,
  length-decimal-le tx.fee,
  h.sender_fits,
  h.receiver_fits,
  h.signature_fits,
  h.hash_fits,
)

-- The buffer of 1024 bytes cuts nothing off.
pub serialized-fields :
    (tx : Tx)
    → IsSendable tx
    → protocol_serialize_tx tx ≡ put_fields b'{' (tx_fields tx) (b'}' ∷ [])
unfolding protocol_serialize_tx
serialized-fields tx h =
    take-all 1023 (tx_json tx) (omega (arith, tx_json_fits tx (IsSendable-HasSizes tx h)))
    ∙ tx_json-fields tx h

keys : (tx : Tx) → AreKeys (tx_fields tx)
keys tx = search

pub length-serialize_tx-lt : (tx : Tx) → HasSizes tx → length (protocol_serialize_tx tx) < 600
unfolding protocol_serialize_tx
length-serialize_tx-lt tx h = omega (arith, length-take 1023 (tx_json tx), tx_json_fits tx h)

pub length-serialized-lt : (tx : Tx) → IsSendable tx → length (protocol_serialize_tx tx) < 600
length-serialized-lt tx h = length-serialize_tx-lt tx (IsSendable-HasSizes tx h)

deserialized :
    (json : Bytes) (tx : Tx)
    → json_get_string json (codes "sender") addr_len ≡ some tx.sender
    → json_get_string json (codes "receiver") addr_len ≡ some tx.receiver
    → json_get_uint64 json (codes "amount") ≡ some tx.amount
    → json_get_uint64 json (codes "fee") ≡ some tx.fee
    → json_get_string json (codes "signature") sig_len ≡ some tx.signature
    → json_get_string json (codes "tx_hash") 65 ≡ some tx.tx_hash
    → protocol_deserialize_tx json ≡ (success, tx)
unfolding protocol_deserialize_tx
deserialized json tx s r a f g t = rw (protocol_deserialize_tx, s, r, a, f, g, t) refl

module _ (tx : Tx) where
  get_string :
      (key s : Bytes) (later : List (Bytes × Value)) (size : ℕ)
      → search_text key (b':' ∷ []) ≡ quoted key []
      → IsKey key
      → length s < size
      → Holds key (text s) later (tx_fields tx) (b'}' ∷ [])
      → json_get_string (put_fields b'{' (tx_fields tx) (b'}' ∷ [])) key size ≡ some s
  get_string key s later size fits hk room h =
      json_get_string-field key b'{' (tx_fields tx) later (b'}' ∷ []) fits hk refl (keys tx) refl s
        size room h

  get_number :
      (key : Bytes) (n : ℕ) (later : List (Bytes × Value))
      → search_text key (b':' ∷ []) ≡ quoted key []
      → IsKey key
      → n < 2 ^ 64
      → Holds key (number n) later (tx_fields tx) (b'}' ∷ [])
      → json_get_uint64 (put_fields b'{' (tx_fields tx) (b'}' ∷ [])) key ≡ some n
  get_number key n later fits hk small h =
      json_get_uint64-field key b'{' (tx_fields tx) later (b'}' ∷ []) fits hk refl (keys tx) refl n
        small h

-- A transaction whose texts leave room for their NUL bytes, whose amount and fee have 64 bits, and
-- whose signature and hash have neither quotes nor backslashes, is read back from its JSON with all
-- its fields, whatever the bytes of its addresses are.
pub protocol_deserialize_tx-protocol_serialize_tx :
    (tx : Tx) → IsSendable tx → protocol_deserialize_tx (protocol_serialize_tx tx) ≡ (success, tx)
protocol_deserialize_tx-protocol_serialize_tx tx h = rw (serialized-fields tx h) (
    deserialized (put_fields b'{' (tx_fields tx) (b'}' ∷ [])) tx
      (get_string tx (codes "sender") tx.sender (drop 1 (tx_fields tx)) addr_len refl (search)
        h.sender_fits refl)
      (get_string tx (codes "receiver") tx.receiver (drop 2 (tx_fields tx)) addr_len refl (search)
        h.receiver_fits refl)
      (get_number tx (codes "amount") tx.amount (drop 3 (tx_fields tx)) refl (search) h.amount_fits
        refl)
      (get_number tx (codes "fee") tx.fee (drop 4 (tx_fields tx)) refl (search) h.fee_fits refl)
      (get_string tx (codes "signature") tx.signature (drop 5 (tx_fields tx)) sig_len refl (search)
        h.signature_fits refl)
      (get_string tx (codes "tx_hash") tx.tx_hash [] 65 refl (search) h.hash_fits refl))
