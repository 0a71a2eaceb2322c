-- ===== src/Message.antt =====
-- Messages as JSON: the end of src/protocol.c, and `msg_type_t` of include/protocol.h.
use mini_coin_slovak.Base.{
  ℕ, ◌+◌, ◌-◌, Bool, true, false, not, ◌&&◌, ◌||◌, Option, none, some, [], ◌∷◌, ◌++◌, length, ltb,
  ◌==◌, if◌then◌else◌,
}
use mini_coin_slovak.Base.Int.{ℤ, negsuc}
use mini_coin_slovak.CLib.{Bytes, snprintf, codes, decimal}
use mini_coin_slovak.Json.{json_find_key, json_get_int}
use mini_coin_slovak.Protocol.{empty}

-- `msg_type_t`
pub data MsgType : Type 0 where
  msg_new_block msg_new_tx msg_request_chain msg_chain_response msg_peer_list msg_ping msg_pong :
      MsgType

abbrev pub number_of : MsgType → ℕ
number_of msg_new_block = 0
number_of msg_new_tx = 1
number_of msg_request_chain = 2
number_of msg_chain_response = 3
number_of msg_peer_list = 4
number_of msg_ping = 5
number_of msg_pong = 6

abbrev pub payload_or_empty : Option Bytes → Bytes
payload_or_empty none = codes "{}"
payload_or_empty (some payload) = payload

unfoldable pub protocol_serialize_msg : MsgType → Option Bytes → Bytes
protocol_serialize_msg type payload =
    let text = payload_or_empty payload in
    (snprintf (length text + 128) empty (
      codes "{\"type\":"
      ++ (decimal (number_of type) ++ (codes ",\"payload\":" ++ (text ++ codes "}\n"))))).text

-- The scan for the end of a payload: `prev` is the byte before, at the start a NUL.
unfoldable pub scan_payload : Bytes → ℕ → ℕ → Bool → Bytes
scan_payload [] prev depth in_string = []
scan_payload (c ∷ q) prev depth in_string =
    let quote = c == b'"' && not (prev == b'\\') in
    let in_string' = if quote then not in_string else in_string in
    let depth' =
      if quote || in_string
      then depth
      else if c == b'{' || c == b'['
      then depth + 1
      else if c == b'}' || c == b']'
      then depth - 1
      else depth in
    elim (ltb 0 depth') [ true ↦ c ∷ scan_payload q c depth' in_string' | false ↦ c ∷ [] ]

-- The type, -1 where there is none, and the payload, if there is one.
unfoldable pub protocol_parse_msg : Bytes → ℤ × Option Bytes
protocol_parse_msg json = elim (json_get_int json (codes "type")) [
  | none ↦ (negsuc 0, none)
  | some type ↦ elim (json_find_key json (codes "payload")) [
    | none ↦ (type, none)
    | some p ↦ (type, some (scan_payload p 0 0 false))
  ]
]
