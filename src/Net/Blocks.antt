-- ===== src/Net/Blocks.antt =====
-- From `node_broadcast_block` of one node to `handle_message` of another (src/net.c).
use mini_coin_slovak.Base.{
  ℕ, ◌≡◌, refl, ap, ◌∙◌, inl, inr, some, none, List, [], ◌∷◌, ◌++◌, map, All, Bool-cases, ◌==◌,
  if◌then◌else◌,
}
use mini_coin_slovak.Block.{Block}
use mini_coin_slovak.Chain.{Blockchain, chain_add_block}
use mini_coin_slovak.Chain.Add.{Accepts, extend, chain_add_block-Accepts}
use mini_coin_slovak.Chain.Valid.{IsStored}
use mini_coin_slovak.CLib.{Bytes, codes}
use mini_coin_slovak.Net.{
  NodeState, Peer, Sends, send_to_peers, node_broadcast_block, broadcast_block_except, on_block,
  handle, handle_message,
}
use mini_coin_slovak.Net.Delivery.{active_fds, send_to_peers-All}
use mini_coin_slovak.Net.Exchange.{handle_message-line, message-newline}
use mini_coin_slovak.Message.{msg_new_block, protocol_serialize_msg}
use mini_coin_slovak.Protocol.Messages.{message}
use mini_coin_slovak.Protocol.NestedPayloads.{IsBroadcastable, block-IsPayload}
use mini_coin_slovak.Protocol.PrintedBlocks.{received}
use mini_coin_slovak.Protocol.PrintedChains.{whole, serialized_whole, deserialized_whole}
use mini_coin_slovak.Protocol.Received.{
  whole-received, received-IsLinkable, received-IsWellFormed, received-IsMined,
}
use mini_coin_slovak.Run.{returns, >>=-returns, success}
use mini_coin_slovak.Sha256.{Sha256}

-- All but one file descriptor.
abbrev pub others : ℕ → List ℕ → List ℕ
others fd [] = []
others fd (f ∷ fds) = let rest = others fd fds in if f == fd then rest else f ∷ rest

send_to_peers-others :
    (fd : ℕ) (peers : List Peer) (msg : Bytes)
    → send_to_peers peers (some fd) msg ≡ map (λ f. (f, msg)) (others fd (active_fds peers))
unfolding send_to_peers
send_to_peers-others fd [] msg = refl
send_to_peers-others fd (peer ∷ peers) msg =
    let rest = send_to_peers-others fd peers msg in
    elim (Bool-cases peer.active) [
      | inr closed ↦ rw (send_to_peers, closed) rest
      | inl connected ↦ elim (Bool-cases (peer.fd == fd)) [
        | inl same ↦ rw (send_to_peers, connected, same) rest
        | inr other ↦ rw (send_to_peers, connected, other) (ap (λ r. (peer.fd, msg) ∷ r) rest)
      ]
    ]

-- The text ends with a newline. Handling it without the newline, the node has the block at the end of its
-- chain, with zeroes in the slots that are not in use, and sends the text on to its connected peers but `fd`.
abbrev pub Spreads : Sha256 → Block → NodeState → ℕ → Bytes → Type 0
Spreads H b node fd msg =
    (line : Bytes) × (msg ≡ line ++ (b'\n' ∷ []))
    × (handle_message H node fd line
        ≡ returns (
          record node { chain = extend node.chain (received b) },
          map (λ f. (f, msg)) (others fd (active_fds node.peers)),
        ))

module _ (H : Sha256) (b : Block) (fine : IsBroadcastable b) where
  abbrev line : Bytes
  line = message msg_new_block (whole b) (codes "}")

  abbrev msg : Bytes
  msg = protocol_serialize_msg msg_new_block (some (whole b))

  added :
      (c : Blockchain)
      → IsStored c
      → Accepts H c b
      → chain_add_block H c (received b) ≡ returns (success, extend c (received b))
  added c st a =
      let a' : Accepts H c (received b) = record {
        room = a.room;
        next_index = a.next_index;
        linked = a.linked;
        is_mined = received-IsMined H b fine.linkable.portable a.is_mined;
      } in
      elim (chain_add_block-Accepts H c (received b) st (received-IsWellFormed b fine.linkable)) [
        | inl (_, done, _) ↦ done
        | inr (refuses, _) ↦ absurd (refuses a')
      ]

  announced :
      (node : NodeState) (fd : ℕ)
      → broadcast_block_except node.peers (received b) (some fd)
        ≡ returns (send_to_peers node.peers (some fd) msg)
  unfolding broadcast_block_except
  announced node fd = >>=-returns _ (
      serialized_whole (received b) (received-IsLinkable b fine.linkable)
      ∙ ap returns (whole-received b fine.linkable))

  handled :
      (node : NodeState) (fd : ℕ)
      → IsStored node.chain
      → Accepts H node.chain b
      → handle_message H node fd line
        ≡ returns (
          record node { chain = extend node.chain (received b) },
          map (λ f. (f, msg)) (others fd (active_fds node.peers)),
        )
  unfolding handle on_block
  handled node fd st a =
      handle_message-line H node fd msg_new_block (whole b) (block-IsPayload b fine)
      ∙ ap (on_block H node fd) (deserialized_whole b fine.linkable)
      ∙ >>=-returns _ (added node.chain st a)
      ∙ >>=-returns _ (announced node fd)
      ∙ ap (λ sends. returns (record node { chain = extend node.chain (received b) }, sends))
          (send_to_peers-others fd node.peers msg)

  -- A block that can be sent is sent to exactly the connected peers, in their order, each time as a text
  -- that ends with a newline; and when a node whose stored chain accepts the block handles that text
  -- without the newline, for the peer `fd`, it has the block at the end of its chain, with zeroes in the slots
  -- that are not in use, and sends the same text on to exactly its connected peers but `fd`, in their order.
  pub node_broadcast_block-Spreads :
      (peers : List Peer) (node : NodeState) (fd : ℕ)
      → IsStored node.chain
      → Accepts H node.chain b
      → (sends : Sends) × (node_broadcast_block peers b ≡ returns sends)
        × All (λ (s : ℕ × Bytes). Spreads H b node fd s.1) sends
        × (map (λ (s : ℕ × Bytes). s.0) sends ≡ active_fds peers)
  unfolding node_broadcast_block broadcast_block_except
  node_broadcast_block-Spreads peers node fd st a =
      let (all, fds) =
        send_to_peers-All (Spreads H b node fd) peers msg
          (line, message-newline msg_new_block (whole b), handled node fd st a) in
      (send_to_peers peers none msg, >>=-returns _ (serialized_whole b fine.linkable), all, fds)
