-- ===== src/Net/Exchange.antt =====
-- Two nodes: one asks for the chain (`node_request_chain` of src/net.c), the other answers, and the first
-- takes the chain over (`handle_message`).
use mini_coin_slovak.Base.{
  ℕ, ◌-◌, ◌<◌, ◌≤◌, ◌≡◌, refl, ap, ◌∙◌, subst, inl, inr, some, none, [], ◌∷◌, ◌++◌, arith, map,
}
use mini_coin_slovak.Base.Int.{pos}
use mini_coin_slovak.Chain.{Blockchain, max_blocks, chain_replace}
use mini_coin_slovak.Chain.Add.{live}
use mini_coin_slovak.Chain.Invariant.{IsSound, chain_replace-IsSound}
use mini_coin_slovak.Chain.Replace.{Wins, replaced, chain_replace-Wins}
use mini_coin_slovak.Chain.Valid.{IsStored, IsValid}
use mini_coin_slovak.CLib.{Bytes, codes}
use mini_coin_slovak.Net.{NodeState, empty_chain, msg_type, on_chain, handle, handle_message}
use mini_coin_slovak.Net.Outcome.{HaveCounts, empty_chain-HasChainSizes}
use mini_coin_slovak.Net.Safety.{received-IsStored}
use mini_coin_slovak.Message.{
  MsgType, msg_new_block, msg_new_tx, msg_request_chain, msg_chain_response, msg_peer_list,
  msg_ping, msg_pong, number_of, protocol_serialize_msg,
}
use mini_coin_slovak.Protocol.ChainBounds.{HasChainSizes, protocol_deserialize_chain-HasChainSizes}
use mini_coin_slovak.Protocol.Chains.{
  copied, length-taken, blocks-taken, deserialized_chain, live-copied,
}
use mini_coin_slovak.Protocol.Messages.{
  IsPayload, message, message-append, serialized-message, protocol_parse_msg-message,
}
use mini_coin_slovak.Protocol.NestedPayloads.{IsBroadcastable, braced-IsPayload, chain-IsPayload}
use mini_coin_slovak.Protocol.Nesting.{Glides-nil}
use mini_coin_slovak.Protocol.PrintedBlocks.{received}
use mini_coin_slovak.Protocol.PrintedChains.{printed_chain, serialized_chain}
use mini_coin_slovak.Protocol.Received.{received-IsMined}
use mini_coin_slovak.Run.{returns, >>=-returns, success}
use mini_coin_slovak.Sha256.{Sha256}

module _ (H : Sha256) (c : Blockchain)
    (fine : (j : ℕ) → j < c.length → IsBroadcastable (c.blocks j)) where
  abbrev copy : Blockchain
  copy = copied c empty_chain

  length-copy : copy.length ≡ c.length
  length-copy = length-taken c.length 0 c.blocks (record empty_chain { length = 0 }) ∙ omega arith

  same_block : (j : ℕ) → j < c.length → copy.blocks j ≡ received (c.blocks j)
  same_block j lt =
      blocks-taken c.length 0 c.blocks (record empty_chain { length = 0 }) j j (omega arith) lt

  copy-IsValid : IsValid H c → IsValid H copy
  copy-IsValid valid j lo lt =
      let lt' : j < c.length = omega (arith, length-copy) in
      let follows = valid j lo lt' in
      rw (same_block j lt', same_block (j - 1) (omega arith))
        (follows.0, received-IsMined H (c.blocks j) (fine j lt').linkable.portable follows.1)

  copy-HaveCounts : HaveCounts copy
  copy-HaveCounts j lt =
      let lt' : j < c.length = omega (arith, length-copy) in
      let h = (fine j lt').linkable.portable in rw (same_block j lt', h.tx_count_is) h.count_le

msg_type-number_of : (type : MsgType) → msg_type (pos (number_of type)) ≡ some type
msg_type-number_of msg_new_block = refl
msg_type-number_of msg_new_tx = refl
msg_type-number_of msg_request_chain = refl
msg_type-number_of msg_chain_response = refl
msg_type-number_of msg_peer_list = refl
msg_type-number_of msg_ping = refl
msg_type-number_of msg_pong = refl

-- A message without its newline is handled by its type, with its payload.
pub handle_message-line :
    (H : Sha256) (node : NodeState) (peer_fd : ℕ) (type : MsgType) (p : Bytes)
    → IsPayload p
    → handle_message H node peer_fd (message type p (codes "}"))
      ≡ handle H node peer_fd (some type) (some p)
unfolding handle_message
handle_message-line H node peer_fd type p h =
    ap (λ m. handle H node peer_fd (msg_type m.0) m.1)
      (protocol_parse_msg-message type p (codes "}") h)
    ∙ ap (λ t. handle H node peer_fd t (some p)) (msg_type-number_of type)

pub message-newline :
    (type : MsgType) (p : Bytes)
    → protocol_serialize_msg type (some p) ≡ message type p (codes "}") ++ (b'\n' ∷ [])
message-newline type p = serialized-message type p ∙ message-append type p (codes "}") (b'\n' ∷ [])

request_text :
    protocol_serialize_msg msg_request_chain none
    ≡ protocol_serialize_msg msg_request_chain (some (codes "{}"))
unfolding protocol_serialize_msg
request_text = refl

module _ (H : Sha256) (asked asking : NodeState) (fd fd' : ℕ)
    (fine : (j : ℕ) → j < asked.chain.length → IsBroadcastable (asked.chain.blocks j)) where
  abbrev reply : Bytes
  reply = message msg_chain_response (printed_chain asked.chain) (codes "}")

  abbrev request : Bytes
  request = message msg_request_chain (codes "{}") (codes "}")

  answers : handle_message H asked fd request ≡ returns (asked, (fd, reply ++ (b'\n' ∷ [])) ∷ [])
  unfolding handle
  answers =
      handle_message-line H asked fd msg_request_chain (codes "{}") (braced-IsPayload [] Glides-nil)
      ∙ >>=-returns _ (serialized_chain asked.chain (λ j lt. (fine j lt).linkable))
      ∙ ap (λ m. returns (asked, (fd, m) ∷ []))
          (message-newline msg_chain_response (printed_chain asked.chain))

  abbrev taken_over : NodeState
  taken_over = record asking { chain = replaced asking.chain (copy H asked.chain fine) }

  takes_over :
      1 ≤ asked.chain.length
      → asked.chain.length ≤ 10000
      → chain_replace H asking.chain (copy H asked.chain fine) ≡ returns (success, taken_over.chain)
      → handle_message H asking fd' reply ≡ returns (taken_over, [])
  unfolding handle on_chain
  takes_over some' le won =
      handle_message-line H asking fd' msg_chain_response (printed_chain asked.chain)
        (chain-IsPayload asked.chain fine)
      ∙ ap (on_chain H asking)
          (deserialized_chain asked.chain empty_chain (λ j lt. (fine j lt).linkable) some' le)
      ∙ >>=-returns _ won

  copy-IsStored :
      1 ≤ asked.chain.length → asked.chain.length ≤ 10000 → IsStored (copy H asked.chain fine)
  copy-IsStored some' le =
      let read =
        deserialized_chain asked.chain empty_chain (λ j lt. (fine j lt).linkable) some' le in
      received-IsStored (copy H asked.chain fine)
        (subst (λ r. HasChainSizes r.1) read
          (protocol_deserialize_chain-HasChainSizes (printed_chain asked.chain) empty_chain
            empty_chain-HasChainSizes))
        (copy-HaveCounts H asked.chain fine) (omega (arith, length-copy H asked.chain fine))

-- Two nodes with sound chains: one asks the other, whose chain is longer and has only blocks that can be
-- sent. Both the request and the answer are a text with a newline behind it. Handling the request without the
-- newline, the other node sends this one answer and stays as it was; handling the answer without the
-- newline, the node that asks takes over the same list of blocks, but for zeroes in the slots that are not in
-- use, as a chain that is sound again, and changes nothing else.
pub handle_message-exchanges :
    (H : Sha256) (asked asking : NodeState) (fd fd' : ℕ)
    → IsSound H asked.chain
    → IsSound H asking.chain
    → asking.chain.length < asked.chain.length
    → ((j : ℕ) → j < asked.chain.length → IsBroadcastable (asked.chain.blocks j))
    → (request reply : Bytes) × (chain : Blockchain) × (protocol_serialize_msg msg_request_chain
          none
        ≡ request ++ (b'\n' ∷ []))
      × (handle_message H asked fd request ≡ returns (asked, (fd, reply ++ (b'\n' ∷ [])) ∷ []))
      × (handle_message H asking fd' reply ≡ returns (record asking { chain = chain }, []))
      × (live chain ≡ map received (live asked.chain))
      × IsSound H chain
unfolding max_blocks
handle_message-exchanges H asked asking fd fd' sound sound' longer fine =
    let c = copy H asked.chain fine in
    let le : asked.chain.length ≤ 10000 = sound.stored.fits in
    let stored = copy-IsStored H asked asking fd fd' fine sound.stored.ne_empty le in
    let wins : Wins H asking.chain c = (
      omega (arith, length-copy H asked.chain fine),
      copy-IsValid H asked.chain fine sound.valid,
    ) in
    elim (chain_replace-Wins H asking.chain c stored) [
      | inr (loses, _) ↦ absurd (loses wins)
      | inl (_, won, same) ↦ (
        request H asked asking fd fd' fine,
        reply H asked asking fd fd' fine,
        replaced asking.chain c,
        request_text ∙ message-newline msg_request_chain (codes "{}"),
        answers H asked asking fd fd' fine,
        takes_over H asked asking fd fd' fine sound.stored.ne_empty le won,
        same ∙ live-copied asked.chain empty_chain,
        (chain_replace-IsSound H asking.chain c sound' stored won).0,
      )
    ]
