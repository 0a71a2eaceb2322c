-- ===== src/Net.antt =====
-- src/net.c and include/net.h: the table of peers, and what a node does with a message. Sockets are
-- not modelled: what is sent is a list of file descriptors and texts, in order. Whether a send
-- succeeds is never checked.
pub mod Outcome
pub mod Safety
pub mod Total
pub mod Delivery
pub mod Lines
pub mod OneLine
pub mod Payment
pub mod Exchange
pub mod Blocks
use mini_coin_slovak.Base.{
  ℕ, zero, suc, ◌-◌, Bool, true, false, not, ◌&&◌, Option, none, some, List, [], ◌∷◌, ◌++◌, map,
  length, get_elem?, ltb, leb, ◌==◌, if◌then◌else◌,
}
use mini_coin_slovak.Base.Int.{ℤ, pos, negsuc}
use mini_coin_slovak.Block.{Block, zero_block}
use mini_coin_slovak.Chain.{Blockchain, chain_add_block, chain_replace}
use mini_coin_slovak.CLib.{Bytes, strncpy}
use mini_coin_slovak.Node.{on_new_tx}
use mini_coin_slovak.Message.{
  MsgType, msg_new_block, msg_new_tx, msg_request_chain, msg_chain_response, msg_peer_list,
  msg_ping, msg_pong, protocol_serialize_msg, protocol_parse_msg,
}
use mini_coin_slovak.Protocol.{
  protocol_serialize_block, protocol_serialize_tx, protocol_serialize_chain,
  protocol_deserialize_block, protocol_deserialize_tx, protocol_deserialize_chain,
}
use mini_coin_slovak.Run.{Run, returns, ◌>>=◌, Status, success, failure}
use mini_coin_slovak.Sha256.{Sha256}
use mini_coin_slovak.Tx.{Tx}

abbrev pub max_peers : ℕ
max_peers = 16

abbrev pub max_msg_size : ℕ
max_msg_size = 1048576

-- The byte `c` in front of a line.
abbrev pub cons_line : ℕ → Option (Bytes × Bytes) → Option (Bytes × Bytes)
cons_line c none = none
cons_line c (some (line, rest)) = some (c ∷ line, rest)

-- The loop of `read_message` with room for `room` more bytes, on what the socket still brings before
-- it is closed: the bytes of the line, and what is left on the socket.
unfoldable pub read_line : ℕ → Bytes → Option (Bytes × Bytes)
read_line zero socket = some ([], socket)
read_line (suc room) [] = none
read_line (suc room) (c ∷ socket) = elim (c == b'\n') [
  | true ↦ some ([], socket)
  | false ↦ cons_line c (read_line room socket)
]

-- A buffer as a string: up to its first NUL byte.
abbrev pub c_string : Bytes → Bytes
c_string [] = []
c_string (c ∷ s) = let rest = c_string s in if c == 0 then [] else c ∷ rest

abbrev pub as_string : Option (Bytes × Bytes) → Option (Bytes × Bytes)
as_string none = none
as_string (some (line, rest)) = some (c_string line, rest)

-- `none` is the result NULL: the connection ends before the line does.
unfoldable pub read_message : Bytes → Option (Bytes × Bytes)
read_message socket = as_string (read_line (max_msg_size - 1) socket)

-- `peer_t` without its thread.
pub record Peer : Type 0 where
  pub fd : ℕ
  pub host : Bytes
  pub port : ℕ
  pub active : Bool

-- `node_t`: the chain that it points to, the peers `peers[0]` to `peers[peer_count - 1]`, and the
-- mempool behind its callback `on_new_tx`.
pub record NodeState : Type 0 where
  pub chain : Blockchain
  pub peers : List Peer
  pub mempool : List Tx

-- `send_message(fd, msg)`
abbrev pub Sends : Type 0
Sends = List (ℕ × Bytes)

abbrev pub is_excluded : Option ℕ → ℕ → Bool
is_excluded none fd = false
is_excluded (some exclude) fd = fd == exclude

-- The loop over the peers, where `none` excludes no file descriptor (-1 in the source).
unfoldable pub send_to_peers : List Peer → Option ℕ → Bytes → Sends
send_to_peers [] exclude msg = []
send_to_peers (peer ∷ peers) exclude msg =
    let others = send_to_peers peers exclude msg in
    if peer.active && not (is_excluded exclude peer.fd) then (peer.fd, msg) ∷ others else others

unfoldable pub broadcast_block_except : List Peer → Block → Option ℕ → Run Sends
broadcast_block_except peers block exclude = do
  json ← protocol_serialize_block block
  returns (send_to_peers peers exclude (protocol_serialize_msg msg_new_block (some json)))

unfoldable pub node_broadcast_block : List Peer → Block → Run Sends
node_broadcast_block peers block = broadcast_block_except peers block none

unfoldable pub node_broadcast_tx : List Peer → Tx → Sends
node_broadcast_tx peers tx =
    send_to_peers peers none (protocol_serialize_msg msg_new_tx (some (protocol_serialize_tx tx)))

unfoldable pub node_send_tx : ℕ → Tx → Sends
node_send_tx peer_fd tx =
    (peer_fd, protocol_serialize_msg msg_new_tx (some (protocol_serialize_tx tx))) ∷ []

-- `node_request_chain` for an index that is not negative.
unfoldable pub node_request_chain : List Peer → ℕ → Sends
node_request_chain peers peer_idx = elim (get_elem? peers peer_idx) [
  | none ↦ []
  | some peer ↦
      if peer.active then (peer.fd, protocol_serialize_msg msg_request_chain none) ∷ [] else []
]

-- `on_peer_connected` of src/main.c: the loop over the mempool.
abbrev pub send_all : ℕ → List Tx → Sends
send_all peer_fd [] = []
send_all peer_fd (tx ∷ mempool) = node_send_tx peer_fd tx ++ send_all peer_fd mempool

-- The table after `add_peer`, and what is sent to the new peer: a request for its chain, and the
-- transactions that wait (`on_peer_connected` of src/main.c). With a full table nothing happens.
unfoldable pub add_peer : NodeState → ℕ → Bytes → ℕ → Status × NodeState × Sends
add_peer node fd host port =
    let peer : Peer = record { fd = fd; host = strncpy host 255; port = port; active = true } in
    let peers = node.peers ++ (peer ∷ []) in
    if leb max_peers (length node.peers) then (failure, node, []) else (
      success,
      record node { peers = peers },
      node_request_chain peers (length node.peers) ++ send_all fd node.mempool,
    )

-- `(msg_type_t)type` where it is one of the constants.
abbrev pub msg_type : ℤ → Option MsgType
msg_type (pos n) =
    get_elem?
      (msg_new_block ∷ msg_new_tx ∷ msg_request_chain ∷ msg_chain_response ∷ msg_peer_list
        ∷ msg_ping ∷ msg_pong ∷ [])
      n
msg_type (negsuc n) = none

-- What follows `chain_add_block` in `case MSG_NEW_BLOCK`.
abbrev pub announce : NodeState → ℕ → Block → Status × Blockchain → Run (NodeState × Sends)
announce node peer_fd block (failure, chain) = returns (record node { chain = chain }, [])
announce node peer_fd block (success, chain) = do
  sends ← broadcast_block_except node.peers block (some peer_fd)
  returns (record node { chain = chain }, sends)

-- `calloc` of a chain.
abbrev pub empty_chain : Blockchain
empty_chain = record { blocks = λ i. zero_block; length = 0 }

module _ (H : Sha256) where
  -- `case MSG_NEW_BLOCK`
  unfoldable pub on_block : NodeState → ℕ → Status × Block → Run (NodeState × Sends)
  on_block node peer_fd (failure, block) = returns (node, [])
  on_block node peer_fd (success, block) = do
    added ← chain_add_block H node.chain block
    announce node peer_fd block added

  -- `case MSG_NEW_TX`
  unfoldable pub on_tx : NodeState → Status × Tx → NodeState
  on_tx node (failure, tx) = node
  on_tx node (success, tx) = record node { mempool = on_new_tx node.mempool tx }

  -- `case MSG_CHAIN_RESPONSE`
  unfoldable pub on_chain : NodeState → Status × Blockchain → Run (NodeState × Sends)
  on_chain node (failure, other) = returns (node, [])
  on_chain node (success, other) = do
    replaced ← chain_replace H node.chain other
    returns (record node { chain = replaced.1 }, [])

  -- The cases of `handle_message` by the type of the message, with its payload, if any.
  unfoldable pub handle : NodeState → ℕ → Option MsgType → Option Bytes → Run (NodeState × Sends)
  handle node peer_fd (some msg_new_block) (some payload) =
      on_block node peer_fd (protocol_deserialize_block payload)
  handle node peer_fd (some msg_new_tx) (some payload) =
      returns (on_tx node (protocol_deserialize_tx payload), [])
  handle node peer_fd (some msg_chain_response) (some payload) =
      on_chain node (protocol_deserialize_chain payload empty_chain)
  handle node peer_fd (some msg_request_chain) payload = do
    json ← protocol_serialize_chain node.chain
    returns (node, (peer_fd, protocol_serialize_msg msg_chain_response (some json)) ∷ [])
  handle node peer_fd (some msg_ping) payload =
      returns (node, (peer_fd, protocol_serialize_msg msg_pong none) ∷ [])
  handle node peer_fd _ _ = returns (node, [])

  unfoldable pub handle_message : NodeState → ℕ → Bytes → Run (NodeState × Sends)
  handle_message node peer_fd raw =
      let (type, payload) = protocol_parse_msg raw in handle node peer_fd (msg_type type) payload
