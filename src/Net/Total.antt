-- ===== src/Net/Total.antt =====
-- `handle_message` of src/net.c on a healthy node always returns: no message makes it read or write
-- outside its arrays and buffers, if no block in it claims more transactions than there are slots.
use mini_coin_slovak.Base.{ℕ, ◌≡◌, refl, ◌∙◌, Option, none, some, arith, inl, inr, List}
use mini_coin_slovak.Block.{Block}
use mini_coin_slovak.Chain.{Blockchain, chain_add_block, chain_replace}
use mini_coin_slovak.Chain.Add.{chain_add_block-Accepts}
use mini_coin_slovak.Chain.Invariant.{IsSound, chain_replace-refuses}
use mini_coin_slovak.Chain.Replace.{chain_replace-Wins}
use mini_coin_slovak.CLib.{Bytes}
use mini_coin_slovak.Net.{
  Peer, NodeState, announce, on_block, on_chain, handle, handle_message, empty_chain, msg_type,
  broadcast_block_except,
}
use mini_coin_slovak.Net.Outcome.{
  HasCount, HaveCounts, HasCounts, IsCounted, empty_chain-HasChainSizes,
}
use mini_coin_slovak.Net.Safety.{ℕ-cases, received-IsStored}
use mini_coin_slovak.Message.{
  MsgType, msg_new_block, msg_new_tx, msg_request_chain, msg_chain_response, msg_peer_list,
  msg_ping, msg_pong, protocol_parse_msg,
}
use mini_coin_slovak.Protocol.{protocol_deserialize_block, protocol_deserialize_chain}
use mini_coin_slovak.Protocol.BlockBounds.{
  HasBlockSizes, HasBlockSizes-IsWellFormed, protocol_deserialize_block-HasBlockSizes,
}
use mini_coin_slovak.Protocol.ChainBounds.{HasChainSizes, protocol_deserialize_chain-HasChainSizes}
use mini_coin_slovak.Protocol.Total.{
  protocol_serialize_block-Prints, protocol_serialize_chain-Prints,
}
use mini_coin_slovak.Run.{Run, returns, >>=-returns, Status, success, failure}
use mini_coin_slovak.Sha256.{Sha256}

-- The run comes to an end, and has a value.
abbrev pub Returns {ℓ} : {A : Type ℓ} → Run A → Type ℓ
Returns {A} run = (a : A) × (run ≡ returns a)

broadcast_block_except-Returns :
    (peers : List Peer) (b : Block) (exclude : Option ℕ)
    → HasBlockSizes b
    → HasCount b
    → Returns (broadcast_block_except peers b exclude)
unfolding broadcast_block_except
broadcast_block_except-Returns peers b exclude sizes count =
    let (json, printed, _) = protocol_serialize_block-Prints b sizes count in
    (_, >>=-returns _ printed)

module _ (H : Sha256) where
  chain_add_block-Returns :
      (c : Blockchain) (b : Block)
      → IsSound H c
      → HasBlockSizes b
      → HasCount b
      → Returns (chain_add_block H c b)
  chain_add_block-Returns c b sound sizes count =
      elim (chain_add_block-Accepts H c b sound.stored (HasBlockSizes-IsWellFormed b sizes count)) [
        | inl (_, added, _) ↦ (_, added)
        | inr (_, refused) ↦ (_, refused)
      ]

  chain_replace-Returns :
      (c other : Blockchain)
      → IsSound H c
      → HasChainSizes other
      → HaveCounts other
      → Returns (chain_replace H c other)
  chain_replace-Returns c other sound sizes counts = elim (ℕ-cases other.length) [
    | inl empty ↦ (_, chain_replace-refuses H c other (omega (arith, sound.stored.ne_empty)))
    | inr some_block ↦
        elim (chain_replace-Wins H c other (received-IsStored other sizes counts some_block)) [
          | inl (_, taken, _) ↦ (_, taken)
          | inr (_, refused) ↦ (_, refused)
        ]
  ]

  module _ (node : NodeState) (sound : IsSound H node.chain)
      (sizes : HasChainSizes node.chain) where
    announce-Returns :
        (fd : ℕ) (b : Block) (r : Status × Blockchain)
        → HasBlockSizes b
        → HasCount b
        → Returns (announce node fd b r)
    announce-Returns fd b (failure, c) fits count = (_, refl)
    announce-Returns fd b (success, c) fits count =
        let (sends, sent) = broadcast_block_except-Returns node.peers b (some fd) fits count in
        (_, >>=-returns _ sent)

    on_block-Returns :
        (fd : ℕ) (r : Status × Block)
        → HasBlockSizes r.1
        → HasCount r.1
        → Returns (on_block H node fd r)
    unfolding on_block
    on_block-Returns fd (failure, b) fits count = (_, refl)
    on_block-Returns fd (success, b) fits count =
        let (r, added) = chain_add_block-Returns node.chain b sound fits count in
        let (result, announced) = announce-Returns fd b r fits count in
        (result, >>=-returns _ added ∙ announced)

    on_chain-Returns :
        (r : Status × Blockchain) → HasChainSizes r.1 → HaveCounts r.1 → Returns (on_chain H node r)
    unfolding on_chain
    on_chain-Returns (failure, other) fits counts = (_, refl)
    on_chain-Returns (success, other) fits counts =
        let (r, replaced) = chain_replace-Returns node.chain other sound fits counts in
        (_, >>=-returns _ replaced)

    handle-Returns :
        (fd : ℕ) (type : Option MsgType) (payload : Option Bytes)
        → HasCounts type payload
        → Returns (handle H node fd type payload)
    unfolding handle
    handle-Returns fd (some msg_new_block) (some p) counts =
        on_block-Returns fd (protocol_deserialize_block p)
          (protocol_deserialize_block-HasBlockSizes p) counts
    handle-Returns fd (some msg_chain_response) (some p) counts =
        on_chain-Returns (protocol_deserialize_chain p empty_chain)
          (protocol_deserialize_chain-HasChainSizes p empty_chain empty_chain-HasChainSizes) counts
    handle-Returns fd (some msg_request_chain) payload counts =
        let (json, printed) =
          protocol_serialize_chain-Prints node.chain sizes
            (λ i h. (sound.stored.blocks_fit i h).count) in
        (_, >>=-returns _ printed)
    handle-Returns fd (some msg_new_tx) (some p) counts = (_, refl)
    handle-Returns fd (some msg_ping) payload counts = (_, refl)
    handle-Returns fd (some msg_new_block) none counts = (_, refl)
    handle-Returns fd (some msg_chain_response) none counts = (_, refl)
    handle-Returns fd (some msg_new_tx) none counts = (_, refl)
    handle-Returns fd (some msg_peer_list) payload counts = (_, refl)
    handle-Returns fd (some msg_pong) payload counts = (_, refl)
    handle-Returns fd none payload counts = (_, refl)

    -- On a sound chain of the declared sizes, whatever bytes a peer sends, if no block among them claims more
    -- than ten transactions, `handle_message` returns.
    pub handle_message-Returns :
        (fd : ℕ) (raw : Bytes) → IsCounted raw → Returns (handle_message H node fd raw)
    unfolding handle_message
    handle_message-Returns fd raw counts =
        handle-Returns fd (msg_type (protocol_parse_msg raw).0) (protocol_parse_msg raw).1 counts
