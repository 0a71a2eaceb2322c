-- ===== src/Tests/Systems.antt =====
-- Threads at work: a peer connects, sends a block, and goes.
use mini_coin_slovak.Base.{
  List, ◌++◌, if◌then◌else◌, ◌<◌, ◌≤◌, ◌≡◌, ◌⊎◌, refl, true, false, some, none, [], ◌∷◌, arith,
}
use mini_coin_slovak.Block.{block_text, append_tx_hashes, block_compute_hash, block_validate}
use mini_coin_slovak.Block.Genesis.{block_create_genesis_lem}
use mini_coin_slovak.Chain.{chain_init, chain_add_block, chain_last_block}
use mini_coin_slovak.CLib.{codes, decimal, decimal_ℤ, digits, hex, strstr, strchr, strtoull, strtol}
use mini_coin_slovak.Json.{
  json_escape, escape_from, json_find_key, after_colon, json_get_string, json_get_uint64,
  json_get_int, string_at, read_string, scan_object,
}
use mini_coin_slovak.Net.{
  NodeState, Peer, Sends, handle_message, handle, on_block, broadcast_block_except, send_to_peers,
  add_peer, read_message, read_line,
}
use mini_coin_slovak.Net.Outcome.{IsCounted}
use mini_coin_slovak.Message.{protocol_serialize_msg, protocol_parse_msg, scan_payload}
use mini_coin_slovak.Protocol.{
  tx_json, protocol_serialize_tx, protocol_deserialize_tx, txs_json, block_json,
  protocol_serialize_block, read_txs, read_tx_array, read_rest, protocol_deserialize_block,
}
use mini_coin_slovak.Run.{returns, >>=-returns, success}
use mini_coin_slovak.Session.{node_stop, node_connect_peer}
use mini_coin_slovak.Session.Connect.{joined, request, node_connect_peer-joins, node_stop-closes}
use mini_coin_slovak.Session.Handler.{AllMessages, Ends, peer_handler-Ends}
use mini_coin_slovak.Session.{peer_handler}
use mini_coin_slovak.System.{System, started, Step, Reach}
use mini_coin_slovak.System.Health.{IsHealthy, handle_message-IsHealthy}
use mini_coin_slovak.System.History.{IsRunning}
use mini_coin_slovak.System.Start.{Reach-started}
use mini_coin_slovak.Tests.Blocks.{genesis_nonce}
use mini_coin_slovak.Tests.Chains.{first_chain, second_chain}
use mini_coin_slovak.Tests.Digests.{sum_sha256}
use mini_coin_slovak.Tests.Keys.{toy_keys}
use mini_coin_slovak.Tests.Peers.{block_message}

pub starting : chain_init sum_sha256 1000 ≡ returns first_chain
unfolding chain_init
starting = >>=-returns _ (block_create_genesis_lem sum_sha256 1000 1 (omega arith) genesis_nonce)

abbrev peer : Peer
peer = record { fd = 7; host = codes "a"; port = 9333; active = true }

abbrev connected : NodeState
connected = record { chain = first_chain; peers = peer ∷ []; mempool = [] }

abbrev informed : NodeState
informed = record connected { chain = second_chain }

block_message-IsCounted : IsCounted block_message
unfolding protocol_serialize_msg protocol_parse_msg scan_payload decimal digits json_get_int
    json_find_key after_colon strstr strchr strtol protocol_deserialize_tx
    protocol_deserialize_block read_rest read_tx_array read_txs scan_object json_get_string
    json_get_uint64 string_at read_string strtoull
block_message-IsCounted = omega arith

handling_block : handle_message sum_sha256 connected 7 block_message ≡ returns (informed, [])
unfolding handle_message handle on_block broadcast_block_except send_to_peers protocol_serialize_tx
    tx_json decimal decimal_ℤ digits json_escape escape_from txs_json block_json
    protocol_serialize_block protocol_deserialize_tx protocol_deserialize_block read_rest
    read_tx_array read_txs scan_object json_get_string json_get_uint64 json_get_int json_find_key
    after_colon string_at read_string strstr strchr strtoull strtol protocol_serialize_msg
    protocol_parse_msg scan_payload chain_add_block chain_last_block block_validate
    block_compute_hash block_text append_tx_hashes hex
handling_block = refl

abbrev gone : System
gone = record {
  node = record informed { peers = record peer { active = false } ∷ [] };
  pending = none;
}

history : Reach sum_sha256 toy_keys (started first_chain) gone
unfolding add_peer
history =
    Reach.next
      (Reach.next (Reach.next Reach.here (Step.connects 7 (codes "a") 9333))
        (Step.receives 7 block_message block_message-IsCounted handling_block))
      (Step.loses 0)

Reach-started_example : IsRunning sum_sha256 gone
Reach-started_example = Reach-started sum_sha256 toy_keys 1000 starting history

connected-IsRunning : IsRunning sum_sha256 (record { node = connected; pending = none })
unfolding add_peer
connected-IsRunning =
    Reach-started sum_sha256 toy_keys 1000 starting
      (Reach.next Reach.here (Step.connects 7 (codes "a") 9333))

handle_message-IsHealthy_example :
    (node' : NodeState) × (sends : Sends) × (handle_message sum_sha256 connected 7 block_message
      ≡ returns (node', sends))
    × IsHealthy sum_sha256 node'
    × (1 ≤ node'.chain.length)
    × (node'.peers ≡ peer ∷ [])
handle_message-IsHealthy_example =
    handle_message-IsHealthy sum_sha256 connected connected-IsRunning.healthy 7 block_message
      block_message-IsCounted

-- The same block from the socket, and then the end of the connection.
block_message-AllMessages : AllMessages IsCounted 500 block_message
unfolding protocol_serialize_msg protocol_parse_msg scan_payload decimal digits json_get_int
    json_find_key after_colon strstr strchr strtol protocol_deserialize_tx
    protocol_deserialize_block read_rest read_tx_array read_txs scan_object json_get_string
    json_get_uint64 string_at read_string strtoull read_message read_line
block_message-AllMessages = (omega arith, tt)

peer_handler-Ends_example :
    Ends sum_sha256 0 connected (peer_handler sum_sha256 500 connected 0 block_message)
unfolding protocol_serialize_msg decimal digits
peer_handler-Ends_example =
    peer_handler-Ends sum_sha256 0 500 connected block_message connected-IsRunning.healthy
      (omega arith) (omega arith) block_message-AllMessages

node_connect_peer-joins_example :
    ((1 < 16)
      × (node_connect_peer connected (some 8) (codes "b") 9334
          ≡ (success, joined connected 8 (codes "b") 9334, (8, request) ∷ (8, request) ∷ [])))
    ⊎ ((16 ≤ 1)
        × ((before : List Peer) × (last : Peer) × (peer ∷ [] ≡ before ++ (last ∷ []))
            × (node_connect_peer connected (some 8) (codes "b") 9334
                ≡ (success, connected, if last.active then (last.fd, request) ∷ [] else []))))
node_connect_peer-joins_example = node_connect_peer-joins connected 8 (codes "b") 9334

node_stop-closes_example :
    node_stop connected ≡ (record connected { peers = record peer { active = false } ∷ [] }, 7 ∷ [])
node_stop-closes_example = node_stop-closes connected
