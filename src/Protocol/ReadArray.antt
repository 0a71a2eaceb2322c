-- ===== src/Protocol/ReadArray.antt =====
-- The transactions of a block, read from a JSON array (the loop of `protocol_deserialize_block` of
-- src/protocol.c).
use mini_coin_slovak.Base.{
  ℕ, zero, suc, ◌≤◌, ◌≡◌, refl, sym, ap, ◌∙◌, some, List, [], ◌∷◌, ◌++◌, arith, length,
  append_assoc, length-append, set, drop, All,
}
use mini_coin_slovak.CLib.{Bytes, codes, strchr}
use mini_coin_slovak.Json.{scan_object}
use mini_coin_slovak.Json.Fields.{text, put_fields}
use mini_coin_slovak.Json.Braces.{IsBraceless, scan_object-fields, put_fields-then}
use mini_coin_slovak.Protocol.{protocol_serialize_tx, read_txs}
use mini_coin_slovak.Protocol.Txs.{
  IsSendable, tx_fields, serialized-fields, protocol_deserialize_tx-protocol_serialize_tx,
}
use mini_coin_slovak.Tx.{Tx}
use mini_coin_slovak.Protocol.Array.{IsCarried, AreCarried, comma, elements}

-- Reading fills the first `n` of the slots.
abbrev pub over : ℕ → List Tx → List Tx → List Tx
over zero txs slots = slots
over (suc n) [] slots = slots
over (suc n) (tx ∷ txs) [] = []
over (suc n) (tx ∷ txs) (b ∷ slots) = tx ∷ over n txs slots

pub tx_fields-IsBraceless : (tx : Tx) → IsCarried tx → All IsBraceless (tx_fields tx)
tx_fields-IsBraceless tx h = (
  (search, h.sender_braceless),
  (
    (search, h.receiver_braceless),
    (search, (search, ((search, h.signature_braceless), ((search, h.hash_braceless), tt)))),
  ),
)

serialized_then :
    (tx : Tx) (t : Bytes)
    → IsSendable tx
    → protocol_serialize_tx tx ++ t ≡ put_fields b'{' (tx_fields tx) (b'}' ∷ t)
serialized_then tx t h =
    ap (λ s. s ++ t) (serialized-fields tx h) ∙ put_fields-then b'{' (tx_fields tx) t

scan_object-tx :
    (tx : Tx) (t : Bytes)
    → IsCarried tx
    → scan_object (protocol_serialize_tx tx ++ t) 0 ≡ (protocol_serialize_tx tx, t)
scan_object-tx tx t h =
    ap (λ s. scan_object s 0) (serialized_then tx t h.sendable)
    ∙ scan_object-fields (codes "sender") (text tx.sender) (drop 1 (tx_fields tx)) t
        (tx_fields-IsBraceless tx h)
    ∙ ap (λ s. (s, t)) (sym (serialized-fields tx h.sendable))

pub strchr-brace : (i : ℕ) (s : Bytes) → strchr (comma i ++ (b'{' ∷ s)) b'{' ≡ some (b'{' ∷ s)
unfolding strchr
strchr-brace zero s = refl
strchr-brace (suc i) s = ground arith

strchr-tx :
    (i : ℕ) (tx : Tx) (t : Bytes)
    → IsSendable tx
    → strchr (comma i ++ (protocol_serialize_tx tx ++ t)) b'{'
      ≡ some (protocol_serialize_tx tx ++ t)
strchr-tx i tx t h =
    rw (serialized_then tx t h)
      (strchr-brace i (drop 1 (put_fields b'{' (tx_fields tx) (b'}' ∷ t))))

read_txs_step :
    (n i : ℕ) (tx : Tx) (t : Bytes) (slots : List Tx)
    → IsCarried tx
    → read_txs (suc n) i (comma i ++ (protocol_serialize_tx tx ++ t)) slots
      ≡ read_txs n (suc i) t (set slots i tx)
unfolding read_txs
read_txs_step n i tx t slots h =
    rw
      (
        read_txs,
        strchr-tx i tx t h.sendable,
        scan_object-tx tx t h,
        protocol_deserialize_tx-protocol_serialize_tx tx h.sendable,
      )
      refl

set-append :
    (before : List Tx) (b v : Tx) (blank : List Tx)
    → set (before ++ (b ∷ blank)) (length before) v ≡ before ++ (v ∷ blank)
set-append [] b v blank = refl
set-append (x ∷ before) b v blank = ap (◌∷◌ x) (set-append before b v blank)

pub read_txs_lem :
    (n i : ℕ) (txs before blank : List Tx) (rest : Bytes)
    → AreCarried n txs
    → length before ≡ i
    → n ≤ length blank
    → read_txs n i (elements n i txs rest) (before ++ blank) ≡ before ++ over n txs blank
unfolding read_txs
read_txs_lem zero i txs before blank rest carried e room = refl
read_txs_lem (suc n) i [] before blank rest carried e room = absurd carried
read_txs_lem (suc n) i (tx ∷ txs) before [] rest carried e room = absurd (omega arith)
read_txs_lem (suc n) i (tx ∷ txs) before (b ∷ blank) rest (ok, carried) e room =
    read_txs_step n i tx (elements n (suc i) txs rest) (before ++ (b ∷ blank)) ok
    ∙ ap (read_txs n (suc i) (elements n (suc i) txs rest)) (
        ap (λ j. set (before ++ (b ∷ blank)) j tx) (sym e)
        ∙ set-append before b tx blank
        ∙ sym (append_assoc before (tx ∷ []) blank))
    ∙ read_txs_lem n (suc i) txs (before ++ (tx ∷ [])) blank rest carried
        (omega (arith, length-append before (tx ∷ []))) (omega arith)
    ∙ append_assoc before (tx ∷ []) (over n txs blank)
