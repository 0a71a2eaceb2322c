-- ===== src/Protocol/Messages.antt =====
-- Messages as JSON (`protocol_serialize_msg` and `protocol_parse_msg` of src/protocol.c).
use mini_coin_slovak.Base.{
  ◌+◌, ◌-◌, ◌<◌, ◌≡◌, refl, sym, ap, ◌∙◌, some, List, [], ◌∷◌, ◌++◌, arith, length, length-append,
  append_assoc, take-all, drop, false, All,
}
use mini_coin_slovak.Base.Int.{pos}
use mini_coin_slovak.CLib.{Bytes, codes, length-decimal-le}
use mini_coin_slovak.Json.{skip_blanks, json_find_key, json_get_int}
use mini_coin_slovak.Json.Search.{quoted}
use mini_coin_slovak.Json.Fields.{Value, text, number, put_fields, AreKeys}
use mini_coin_slovak.Json.Fetch.{json_get_int-field, json_find_key-behind}
use mini_coin_slovak.Json.Braces.{put_fields-then, put_fields-append}
use mini_coin_slovak.Message.{
  MsgType, msg_new_block, msg_new_tx, msg_request_chain, msg_chain_response, msg_peer_list,
  msg_ping, msg_pong, number_of, protocol_serialize_msg, protocol_parse_msg, scan_payload,
}
use mini_coin_slovak.Protocol.{protocol_serialize_tx}
use mini_coin_slovak.Protocol.Payload.{IsPlainField, scan_payload-fields}
use mini_coin_slovak.Protocol.Txs.{IsSendable, IsPlain, tx_fields, serialized-fields}
use mini_coin_slovak.Tx.{Tx}

-- The payload begins with no blank, and the scan for its end stops where it ends.
pub record IsPayload (p : Bytes) : Type 0 where
  pub solid : (r : Bytes) → skip_blanks (p ++ r) ≡ p ++ r
  pub ends : (r : Bytes) → scan_payload (p ++ r) 0 0 false ≡ p

number_of-lt : (type : MsgType) → number_of type < 7
number_of-lt msg_new_block = omega arith
number_of-lt msg_new_tx = omega arith
number_of-lt msg_request_chain = omega arith
number_of-lt msg_chain_response = omega arith
number_of-lt msg_peer_list = omega arith
number_of-lt msg_ping = omega arith
number_of-lt msg_pong = omega arith

module _ (type : MsgType) (p : Bytes) where
  abbrev fields : List (Bytes × Value)
  fields = (codes "type", number (number_of type)) ∷ []

  -- The message with `rest` behind its payload.
  abbrev pub message : Bytes → Bytes
  message rest = put_fields b'{' fields (b',' ∷ quoted (codes "payload") (p ++ rest))

  -- The buffer cuts nothing off.
  pub serialized-message : protocol_serialize_msg type (some p) ≡ message (codes "}\n")
  unfolding protocol_serialize_msg
  serialized-message =
      take-all (length p + 128 - 0 - 1) (message (codes "}\n"))
        (simp length-append (omega (arith, length-decimal-le (number_of type))))

  pub message-append : (r m : Bytes) → message (r ++ m) ≡ message r ++ m
  message-append r m =
      let key = codes "payload" in
      let start = put_fields b'{' fields [] in
      put_fields-append b'{' fields (b',' ∷ quoted key (p ++ (r ++ m)))
      ∙ ap (λ s. start ++ (b',' ∷ quoted key s)) (sym (append_assoc p r m))
      ∙ sym (append_assoc start (b',' ∷ quoted key (p ++ r)) m)
      ∙ ap (λ s. s ++ m) (sym (put_fields-append b'{' fields (b',' ∷ quoted key (p ++ r))))

  keys : AreKeys fields
  keys = search

  get_type :
      (rest : Bytes) → json_get_int (message rest) (codes "type") ≡ some (pos (number_of type))
  get_type rest =
      json_get_int-field (codes "type") b'{' fields [] (b',' ∷ quoted (codes "payload") (p ++ rest))
        refl (search) refl keys refl (number_of type) (omega (arith, number_of-lt type)) refl

  find_payload :
      (rest : Bytes)
      → IsPayload p
      → json_find_key (message rest) (codes "payload") ≡ some (p ++ rest)
  find_payload rest h =
      json_find_key-behind (codes "payload") b'{' fields (p ++ rest) refl (search) refl keys refl
        (h.solid rest)

  pub protocol_parse_msg-message :
      (rest : Bytes)
      → IsPayload p
      → protocol_parse_msg (message rest) ≡ (pos (number_of type), some p)
  unfolding protocol_parse_msg
  protocol_parse_msg-message rest h =
      rw (protocol_parse_msg, get_type rest, find_payload rest h, h.ends rest) refl

-- No text of the transaction has quotes or backslashes.
pub record IsClean (tx : Tx) : Type 0 where
  pub sendable : IsSendable tx
  pub sender_plain : IsPlain tx.sender
  pub receiver_plain : IsPlain tx.receiver

pub tx_fields-IsPlainField : (tx : Tx) → IsClean tx → All IsPlainField (tx_fields tx)
tx_fields-IsPlainField tx h = (
  (search, h.sender_plain),
  (
    (search, h.receiver_plain),
    (
      (search, tt),
      ((search, tt), ((search, h.sendable.signature_plain), ((search, h.sendable.hash_plain), tt))),
    ),
  ),
)

pub tx-IsPayload : (tx : Tx) → IsClean tx → IsPayload (protocol_serialize_tx tx)
unfolding skip_blanks
tx-IsPayload tx h = rw (serialized-fields tx h.sendable) (record {
  solid = λ r. refl;
  ends = λ r.
      ap (λ s. scan_payload s 0 0 false) (put_fields-then b'{' (tx_fields tx) r)
      ∙ scan_payload-fields (codes "sender") (text tx.sender) (drop 1 (tx_fields tx)) r
          (tx_fields-IsPlainField tx h);
})
