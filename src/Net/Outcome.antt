-- ===== src/Net/Outcome.antt =====
-- What a message can do to a node (`handle_message` of src/net.c), whatever bytes it is made of.
use mini_coin_slovak.Base.{ℕ, ◌≤◌, ◌<◌, ◌≡◌, subst, Option, none, some, arith}
use mini_coin_slovak.Base.Int.{pos_part}
use mini_coin_slovak.Block.{Block}
use mini_coin_slovak.Chain.{Blockchain, chain_add_block, chain_replace}
use mini_coin_slovak.CLib.{Bytes}
use mini_coin_slovak.Net.{
  NodeState, Sends, announce, on_block, on_tx, on_chain, handle, handle_message, empty_chain,
  msg_type, broadcast_block_except,
}
use mini_coin_slovak.Node.{on_new_tx}
use mini_coin_slovak.Message.{
  MsgType, msg_new_block, msg_new_tx, msg_request_chain, msg_chain_response, msg_peer_list,
  msg_ping, msg_pong, protocol_parse_msg,
}
use mini_coin_slovak.Protocol.{
  protocol_deserialize_block, protocol_deserialize_tx, protocol_deserialize_chain,
  protocol_serialize_chain,
}
use mini_coin_slovak.Protocol.Bounds.{HasSizes, protocol_deserialize_tx-HasSizes}
use mini_coin_slovak.Protocol.BlockBounds.{
  HasBlockSizes, zero_block-HasBlockSizes, protocol_deserialize_block-HasBlockSizes,
}
use mini_coin_slovak.Protocol.ChainBounds.{HasChainSizes, protocol_deserialize_chain-HasChainSizes}
use mini_coin_slovak.Run.{Run, returns, >>=-eq-returns, Status, success, failure}
use mini_coin_slovak.Sha256.{Sha256}
use mini_coin_slovak.Tx.{Tx}

pub empty_chain-HasChainSizes : HasChainSizes empty_chain
empty_chain-HasChainSizes = record {
  blocks_fit = λ i. zero_block-HasBlockSizes;
  length_fits = omega arith;
}

-- No more transactions are claimed than a block has slots for.
abbrev pub HasCount : Block → Type 0
HasCount b = pos_part b.tx_count ≤ 10

abbrev pub HaveCounts : Blockchain → Type 0
HaveCounts c = (i : ℕ) → i < c.length → HasCount (c.blocks i)

-- No block in the message claims more than ten transactions.
abbrev pub HasCounts : Option MsgType → Option Bytes → Type 0
HasCounts (some msg_new_block) (some p) = HasCount (protocol_deserialize_block p).1
HasCounts (some msg_chain_response) (some p) =
    HaveCounts (protocol_deserialize_chain p empty_chain).1
HasCounts _ _ = Unit

abbrev pub IsCounted : Bytes → Type 0
IsCounted raw = HasCounts (msg_type (protocol_parse_msg raw).0) (protocol_parse_msg raw).1

-- Nothing, a transaction for the mempool, a block for the chain, or another chain: each of the declared
-- sizes.
pub data Outcome (H : Sha256) (node : NodeState) : NodeState → Type 0 where
  nothing : Outcome H node node
  transaction :
      (tx : Tx) → HasSizes tx → Outcome H node (record node { mempool = on_new_tx node.mempool tx })
  block :
      (b : Block) {s : Status} {c : Blockchain}
      → HasBlockSizes b
      → HasCount b
      → chain_add_block H node.chain b ≡ returns (s, c)
      → Outcome H node (record node { chain = c })
  chain :
      (other : Blockchain) {s : Status} {c : Blockchain}
      → HasChainSizes other
      → HaveCounts other
      → chain_replace H node.chain other ≡ returns (s, c)
      → Outcome H node (record node { chain = c })

module _ (H : Sha256) (node : NodeState) where
  is_outcome :
      {a a' : NodeState} {s s' : Sends}
      → ◌≡◌ {A = Run (NodeState × Sends)} (returns (a, s)) (returns (a', s'))
      → Outcome H node a
      → Outcome H node a'
  is_outcome {a} {a'} e k = let same : a ≡ a' = cc in subst (Outcome H node) same k

  -- Sending the block on to the other peers changes nothing.
  announce_keeps :
      (fd : ℕ) (b : Block) (added : Status × Blockchain) {node' : NodeState} {sends : Sends}
      → Outcome H node (record node { chain = added.1 })
      → announce node fd b added ≡ returns (node', sends)
      → Outcome H node node'
  announce_keeps fd b (failure, c) out e = is_outcome e out
  announce_keeps fd b (success, c) out e =
      let (sends', _, rest) = >>=-eq-returns (broadcast_block_except node.peers b (some fd)) _ e in
      is_outcome rest out

  on_block-Outcome :
      (fd : ℕ) (r : Status × Block) {node' : NodeState} {sends : Sends}
      → HasBlockSizes r.1
      → HasCount r.1
      → on_block H node fd r ≡ returns (node', sends)
      → Outcome H node node'
  unfolding on_block
  on_block-Outcome fd (failure, b) sizes count e = is_outcome e nothing
  on_block-Outcome fd (success, b) sizes count e =
      let (result, added, rest) = >>=-eq-returns (chain_add_block H node.chain b) _ e in
      announce_keeps fd b result (block b sizes count added) rest

  on_chain-Outcome :
      (r : Status × Blockchain) {node' : NodeState} {sends : Sends}
      → HasChainSizes r.1
      → HaveCounts r.1
      → on_chain H node r ≡ returns (node', sends)
      → Outcome H node node'
  unfolding on_chain
  on_chain-Outcome (failure, other) sizes counts e = is_outcome e nothing
  on_chain-Outcome (success, other) sizes counts e =
      let (result, replaced, rest) = >>=-eq-returns (chain_replace H node.chain other) _ e in
      is_outcome rest (chain other sizes counts replaced)

  on_tx-Outcome : (r : Status × Tx) → HasSizes r.1 → Outcome H node (on_tx H node r)
  unfolding on_tx
  on_tx-Outcome (failure, tx) sizes = nothing
  on_tx-Outcome (success, tx) sizes = transaction tx sizes

  handle-Outcome :
      (fd : ℕ) (type : Option MsgType) (payload : Option Bytes) {node' : NodeState} {sends : Sends}
      → HasCounts type payload
      → handle H node fd type payload ≡ returns (node', sends)
      → Outcome H node node'
  unfolding handle
  handle-Outcome fd (some msg_new_block) (some p) counts e =
      on_block-Outcome fd (protocol_deserialize_block p)
        (protocol_deserialize_block-HasBlockSizes p) counts e
  handle-Outcome fd (some msg_chain_response) (some p) counts e =
      on_chain-Outcome (protocol_deserialize_chain p empty_chain)
        (protocol_deserialize_chain-HasChainSizes p empty_chain empty_chain-HasChainSizes) counts e
  handle-Outcome fd (some msg_new_tx) (some p) counts e =
      is_outcome e (on_tx-Outcome (protocol_deserialize_tx p) (protocol_deserialize_tx-HasSizes p))
  handle-Outcome fd (some msg_request_chain) payload counts e =
      let (json, _, rest) = >>=-eq-returns (protocol_serialize_chain node.chain) _ e in
      is_outcome rest nothing
  handle-Outcome fd (some msg_ping) payload counts e = is_outcome e nothing
  handle-Outcome fd (some msg_new_block) none counts e = is_outcome e nothing
  handle-Outcome fd (some msg_chain_response) none counts e = is_outcome e nothing
  handle-Outcome fd (some msg_new_tx) none counts e = is_outcome e nothing
  handle-Outcome fd (some msg_peer_list) payload counts e = is_outcome e nothing
  handle-Outcome fd (some msg_pong) payload counts e = is_outcome e nothing
  handle-Outcome fd none payload counts e = is_outcome e nothing

  pub handle_message-Outcome :
      (fd : ℕ) (raw : Bytes) {node' : NodeState} {sends : Sends}
      → IsCounted raw
      → handle_message H node fd raw ≡ returns (node', sends)
      → Outcome H node node'
  unfolding handle_message
  handle_message-Outcome fd raw counts e =
      handle-Outcome fd (msg_type (protocol_parse_msg raw).0) (protocol_parse_msg raw).1 counts e
