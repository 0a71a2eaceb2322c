-- ===== src/Tests/Peers.antt =====
-- Messages from a peer, and what is read from them.
use mini_coin_slovak.Base.{
  none, ◌++◌, All, ℕ, map, ◌≡◌, refl, some, true, false, List, [], ◌∷◌, arith,
}
use mini_coin_slovak.Base.Int.{pos}
use mini_coin_slovak.Block.{block_text, append_tx_hashes, block_compute_hash, block_validate}
use mini_coin_slovak.Chain.{chain_add_block, chain_last_block}
use mini_coin_slovak.CLib.{
  Bytes, codes, decimal, decimal_ℤ, digits, hex, strstr, strchr, strtoull, strtol,
}
use mini_coin_slovak.Json.{
  json_escape, escape_from, json_find_key, after_colon, json_get_string, json_get_uint64,
  json_get_int, string_at, read_string, scan_object,
}
use mini_coin_slovak.Net.{
  node_broadcast_tx, NodeState, Peer, empty_chain, handle_message, handle, on_block,
  broadcast_block_except, send_to_peers,
}
use mini_coin_slovak.Net.Outcome.{empty_chain-HasChainSizes}
use mini_coin_slovak.Net.Safety.{IsKept, handle_message-IsKept}
use mini_coin_slovak.Message.{
  protocol_serialize_msg, protocol_parse_msg, scan_payload, msg_new_block, msg_new_tx,
}
use mini_coin_slovak.Protocol.{
  tx_json, protocol_serialize_tx, protocol_deserialize_tx, txs_json, block_json,
  protocol_serialize_block, read_txs, read_tx_array, read_rest, protocol_deserialize_block,
  protocol_deserialize_chain,
}
use mini_coin_slovak.Net.Lines.{read_message-line}
use mini_coin_slovak.Net.{read_message, read_line}
use mini_coin_slovak.Net.Delivery.{Delivers, node_broadcast_tx-Delivers}
use mini_coin_slovak.Protocol.Messages.{IsClean}
use mini_coin_slovak.Protocol.RoundTrip.{IsNested, protocol_parse_msg-protocol_serialize_msg}
use mini_coin_slovak.Tx.{Tx}
use mini_coin_slovak.Protocol.ChainBounds.{HasChainSizes, protocol_deserialize_chain-HasChainSizes}
use mini_coin_slovak.Run.{returns}
use mini_coin_slovak.Tests.Chains.{first_chain, second_chain, first_chain-IsSound}
use mini_coin_slovak.Tests.Digests.{sum_sha256}

-- The first peer is the one that sends, the second is closed.
abbrev pub peers : List Peer
peers =
    record { fd = 7; host = codes "a"; port = 9333; active = true }
    ∷ record { fd = 8; host = codes "b"; port = 9333; active = false }
    ∷ record { fd = 9; host = codes "c"; port = 9333; active = true }
    ∷ []

abbrev node : NodeState
node = record { chain = first_chain; peers = peers; mempool = [] }

abbrev pub second_json : Bytes
second_json =
    codes
      "{\"index\":1,\"timestamp\":170000006,\"prev_hash\":\"0000000000000000000000000000000000000000000000000000000000000000\",\"nonce\":2,\"hash\":\"0000000000000000000000000000000000000000000000000000000000000000\",\"tx_count\":1,\"transactions\":[{\"sender\":\"a\",\"receiver\":\"b\",\"amount\":5,\"fee\":0,\"signature\":\"\",\"tx_hash\":\"7\"}]}"

abbrev pub block_message : Bytes
block_message = protocol_serialize_msg msg_new_block (some second_json)

-- The block is added, and sent on to the third peer alone.
handling :
    handle_message sum_sha256 node 7 block_message
    ≡ returns (record node { chain = second_chain }, (9, block_message) ∷ [])
unfolding handle_message handle on_block broadcast_block_except send_to_peers protocol_serialize_tx
    tx_json decimal decimal_ℤ digits json_escape escape_from txs_json block_json
    protocol_serialize_block protocol_deserialize_tx protocol_deserialize_block read_rest
    read_tx_array read_txs scan_object json_get_string json_get_uint64 json_get_int json_find_key
    after_colon string_at read_string strstr strchr strtoull strtol protocol_serialize_msg
    protocol_parse_msg scan_payload chain_add_block chain_last_block block_validate
    block_compute_hash block_text append_tx_hashes hex
handling = refl

handle_message-IsKept_example : IsKept sum_sha256 node (record node { chain = second_chain })
unfolding protocol_serialize_msg protocol_parse_msg scan_payload decimal digits json_get_int
    json_find_key after_colon strstr strchr strtol protocol_deserialize_tx
    protocol_deserialize_block read_rest read_tx_array read_txs scan_object json_get_string
    json_get_uint64 string_at read_string strtoull
handle_message-IsKept_example =
    handle_message-IsKept sum_sha256 node 7 block_message first_chain-IsSound (omega arith) handling

protocol_deserialize_chain-HasChainSizes_example :
    HasChainSizes
      (protocol_deserialize_chain (codes "{\"length\":2,\"blocks\":[{\"index\":1}]}") empty_chain).1
protocol_deserialize_chain-HasChainSizes_example =
    protocol_deserialize_chain-HasChainSizes (codes "{\"length\":2,\"blocks\":[{\"index\":1}]}")
      empty_chain empty_chain-HasChainSizes

abbrev payment : Tx
payment = record {
  sender = codes "a";
  receiver = codes "b}";
  amount = 18446744073709551615;
  fee = 1;
  signature = codes "c0ffee";
  tx_hash = codes "00ab";
}

payment-IsClean : IsClean payment
payment-IsClean = record {
  sendable = record {
    sender_fits = omega arith;
    receiver_fits = omega arith;
    amount_fits = omega arith;
    fee_fits = omega arith;
    signature_fits = omega arith;
    hash_fits = omega arith;
    signature_plain = search;
    hash_plain = search;
  };
  sender_plain = search;
  receiver_plain = search;
}

IsNested-payload : IsNested (codes "\"a\":[\"}\",{}]")
IsNested-payload =
    IsNested.nested_append (codes "\"a\"") (codes ":[\"}\",{}]")
      (IsNested.nested_string (codes "a") (search))
      (IsNested.nested_append (codes ":") (codes "[\"}\",{}]")
        (IsNested.nested_bytes (codes ":") (search))
        (IsNested.nested_array (codes "\"}\",{}") (
          IsNested.nested_append (codes "\"}\"") (codes ",{}")
            (IsNested.nested_string (codes "}") (search))
            (IsNested.nested_append (codes ",") (codes "{}")
              (IsNested.nested_bytes (codes ",") (search))
              (IsNested.nested_object [] IsNested.nested_nothing)))))

protocol_parse_msg-protocol_serialize_msg_example :
    protocol_parse_msg (protocol_serialize_msg msg_new_tx (some (codes "{\"a\":[\"}\",{}]}")))
    ≡ (pos 1, some (codes "{\"a\":[\"}\",{}]}"))
protocol_parse_msg-protocol_serialize_msg_example =
    protocol_parse_msg-protocol_serialize_msg msg_new_tx (codes "\"a\":[\"}\",{}]") IsNested-payload

node_broadcast_tx-Delivers_example :
    All (λ (s : ℕ × Bytes). Delivers sum_sha256 payment s.1) (node_broadcast_tx peers payment)
    × (map (λ (s : ℕ × Bytes). s.0) (node_broadcast_tx peers payment) ≡ 7 ∷ 9 ∷ [])
node_broadcast_tx-Delivers_example =
    node_broadcast_tx-Delivers sum_sha256 payment payment-IsClean peers

read_message-line_example :
    read_message (codes "ping" ++ (b'\n' ∷ codes "po")) ≡ some (codes "ping", codes "po")
read_message-line_example = read_message-line (codes "ping") (codes "po") (search) (omega arith)

closed_early : read_message (codes "pin") ≡ none
unfolding read_message read_line
closed_early = refl
