-- ===== src/Net/Delivery.antt =====
-- From `node_broadcast_tx` of one node to `handle_message` of another (src/net.c).
use mini_coin_slovak.Base.{
  ℕ, ◌≡◌, refl, ap, ◌∙◌, some, none, List, [], ◌∷◌, ◌++◌, map, All, Bool-cases, inl, inr,
  if◌then◌else◌,
}
use mini_coin_slovak.CLib.{Bytes, codes}
use mini_coin_slovak.Net.{
  NodeState, Peer, send_to_peers, node_broadcast_tx, handle_message, handle, on_tx,
}
use mini_coin_slovak.Node.{on_new_tx}
use mini_coin_slovak.Node.Mempool.{queued}
use mini_coin_slovak.Message.{msg_new_tx, protocol_serialize_msg}
use mini_coin_slovak.Protocol.{protocol_serialize_tx}
use mini_coin_slovak.Protocol.Messages.{
  message, message-append, serialized-message, protocol_parse_msg-message, IsClean, tx-IsPayload,
}
use mini_coin_slovak.Protocol.Txs.{protocol_deserialize_tx-protocol_serialize_tx}
use mini_coin_slovak.Run.{returns}
use mini_coin_slovak.Sha256.{Sha256}
use mini_coin_slovak.Tx.{Tx}

-- The file descriptors of the peers that are connected.
abbrev pub active_fds : List Peer → List ℕ
active_fds [] = []
active_fds (peer ∷ peers) =
    let others = active_fds peers in if peer.active then peer.fd ∷ others else others

-- The text ends with a newline, and whichever node handles it without the newline has the transaction at the
-- end of its mempool, if fewer than 100 wait there, and answers nothing.
abbrev pub Delivers : Sha256 → Tx → Bytes → Type 0
Delivers H tx msg =
    (line : Bytes) × (msg ≡ line ++ (b'\n' ∷ []))
    × ((node : NodeState) (fd : ℕ)
        → handle_message H node fd line
          ≡ returns (record node { mempool = queued node.mempool tx }, []))

-- Each connected peer is sent the text, in their order.
pub send_to_peers-All :
    (P : Bytes → Type 0) (peers : List Peer) (msg : Bytes)
    → P msg
    → All (λ (s : ℕ × Bytes). P s.1) (send_to_peers peers none msg)
      × (map (λ (s : ℕ × Bytes). s.0) (send_to_peers peers none msg) ≡ active_fds peers)
unfolding send_to_peers
send_to_peers-All P [] msg d = (tt, refl)
send_to_peers-All P (peer ∷ peers) msg d =
    let (all, fds) = send_to_peers-All P peers msg d in
    elim (Bool-cases peer.active) [
      | inl connected ↦ rw (send_to_peers, connected) ((d, all), ap (λ r. peer.fd ∷ r) fds)
      | inr closed ↦ rw (send_to_peers, closed) (all, fds)
    ]

module _ (H : Sha256) (tx : Tx) (clean : IsClean tx) where
  abbrev json : Bytes
  json = protocol_serialize_tx tx

  pub handled :
      (node : NodeState) (fd : ℕ)
      → handle_message H node fd (message msg_new_tx json (codes "}"))
        ≡ returns (record node { mempool = queued node.mempool tx }, [])
  unfolding handle_message handle on_tx on_new_tx
  handled node fd =
      rw
        (
          handle_message,
          protocol_parse_msg-message msg_new_tx json (codes "}") (tx-IsPayload tx clean),
          protocol_deserialize_tx-protocol_serialize_tx tx clean.sendable,
        )
        refl

  message-Delivers : Delivers H tx (protocol_serialize_msg msg_new_tx (some json))
  message-Delivers = (
    message msg_new_tx json (codes "}"),
    serialized-message msg_new_tx json ∙ message-append msg_new_tx json (codes "}") (b'\n' ∷ []),
    handled,
  )

  -- A transaction whose texts have neither quotes nor backslashes and fit their arrays, and whose amount
  -- and fee have 64 bits, is sent to exactly the connected peers, in their order, each time as a text
  -- that ends with a newline; and whichever node handles that text without the newline has the
  -- transaction, with all its fields, at the end of its mempool, if fewer than 100 wait there, and changes
  -- and answers nothing else.
  pub node_broadcast_tx-Delivers :
      (peers : List Peer)
      → All (λ (s : ℕ × Bytes). Delivers H tx s.1) (node_broadcast_tx peers tx)
        × (map (λ (s : ℕ × Bytes). s.0) (node_broadcast_tx peers tx) ≡ active_fds peers)
  unfolding node_broadcast_tx
  node_broadcast_tx-Delivers peers =
      send_to_peers-All (Delivers H tx) peers (protocol_serialize_msg msg_new_tx (some json))
        message-Delivers
