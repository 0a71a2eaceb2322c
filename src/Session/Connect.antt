-- ===== src/Session/Connect.antt =====
-- Connecting to a peer, and the end of the node (`node_connect_peer`, `add_peer` and `node_stop` of
-- src/net.c).
use mini_coin_slovak.Base.{
  ℕ, ◌-◌, ◌<◌, ◌≤◌, ◌≡◌, ◌⊎◌, refl, ap, true, false, none, some, List, [], ◌∷◌, ◌++◌, map, arith,
  length, get_elem?, leb, leb_iff, Bool-cases, inl, inr, length-append, if◌then◌else◌,
}
use mini_coin_slovak.CLib.{Bytes, strncpy}
use mini_coin_slovak.Net.{
  Peer, NodeState, max_peers, add_peer, node_request_chain, node_send_tx, send_all,
}
use mini_coin_slovak.Net.Delivery.{active_fds}
use mini_coin_slovak.Message.{msg_request_chain, msg_new_tx, protocol_serialize_msg}
use mini_coin_slovak.Protocol.{protocol_serialize_tx}
use mini_coin_slovak.Run.{success, failure}
use mini_coin_slovak.Session.{close_peers, node_stop, node_connect_peer}
use mini_coin_slovak.Tx.{Tx}

get_elem?-last {ℓ} :
    {A : Type ℓ} (xs : List A) (a : A) → get_elem? (xs ++ (a ∷ [])) (length xs) ≡ some a
get_elem?-last [] a = refl
get_elem?-last (x ∷ xs) a = get_elem?-last xs a

has_last {ℓ} :
    {A : Type ℓ} (xs : List A)
    → 1 ≤ length xs
    → (before : List A) × (last : A) × (xs ≡ before ++ (last ∷ []))
has_last [] h = absurd (omega arith)
has_last (x ∷ []) h = ([], x, refl)
has_last (x ∷ y ∷ xs) h =
    let (before, last, e) = has_last (y ∷ xs) (omega arith) in (x ∷ before, last, ap (◌∷◌ x) e)

abbrev pub request : Bytes
request = protocol_serialize_msg msg_request_chain none

abbrev pub tx_message : Tx → Bytes
tx_message tx = protocol_serialize_msg msg_new_tx (some (protocol_serialize_tx tx))

abbrev pub new_peer : ℕ → Bytes → ℕ → Peer
new_peer fd host port = record { fd = fd; host = strncpy host 255; port = port; active = true }

abbrev pub to_fd : ℕ → Bytes → ℕ × Bytes
to_fd fd msg = (fd, msg)

-- The transactions that wait, each in a message.
send_all_lem :
    (fd : ℕ) (mempool : List Tx)
    → send_all fd mempool ≡ map (λ tx. to_fd fd (tx_message tx)) mempool
unfolding node_send_tx
send_all_lem fd [] = refl
send_all_lem fd (tx ∷ mempool) = ap (λ rest. (fd, tx_message tx) ∷ rest) (send_all_lem fd mempool)

module _ (node : NodeState) (fd : ℕ) (host : Bytes) (port : ℕ) where
  abbrev pub joined : NodeState
  joined = record node { peers = node.peers ++ (new_peer fd host port ∷ []) }

  request_last : node_request_chain joined.peers (length node.peers) ≡ (fd, request) ∷ []
  unfolding node_request_chain
  request_last = rw (node_request_chain, get_elem?-last node.peers (new_peer fd host port)) refl

  -- With room in the table, `add_peer` puts the connection at its end, and sends it a request for the
  -- chain and then every transaction of the mempool, in order.
  pub add_peer-joins :
      length node.peers < max_peers
      → add_peer node fd host port
        ≡ (success, joined, (fd, request) ∷ map (λ tx. to_fd fd (tx_message tx)) node.mempool)
  unfolding add_peer
  add_peer-joins room =
      let free : leb max_peers (length node.peers) ≡ false = ground arith in
      rw (add_peer, free, request_last, send_all_lem fd node.mempool) refl

  -- A full table refuses every connection, and nothing is sent.
  pub add_peer-full :
      max_peers ≤ length node.peers → add_peer node fd host port ≡ (failure, node, [])
  unfolding add_peer
  add_peer-full full =
      let taken : leb max_peers (length node.peers) ≡ true = (leb_iff _ _).1 full in
      rw (add_peer, taken) refl

  last_index : length joined.peers - 1 ≡ length node.peers
  last_index = omega (arith, length-append node.peers (new_peer fd host port ∷ []))

  ask_last :
      (before : List Peer) (last : Peer)
      → node.peers ≡ before ++ (last ∷ [])
      → node_request_chain node.peers (length node.peers - 1)
        ≡ (if last.active then (last.fd, request) ∷ [] else [])
  unfolding node_request_chain
  ask_last before last e =
      let index : length (before ++ (last ∷ [])) - 1 ≡ length before =
        omega (arith, length-append before (last ∷ [])) in
      rw (e, node_request_chain, index, get_elem?-last before last) refl

  -- Once a connection is made, `node_connect_peer` returns 0. With fewer than 16 peers in the table it
  -- has put the peer at its end, and has sent it a request for the chain, every transaction of the mempool in
  -- order, and the request again; with a full table nothing has changed, and the request has gone to the
  -- last peer of the table, if that is connected.
  pub node_connect_peer-joins :
      ((length node.peers < 16)
        × (node_connect_peer node (some fd) host port ≡ (
          success,
          joined,
          (fd, request)
              ∷ (map (λ tx. to_fd fd (tx_message tx)) node.mempool ++ ((fd, request) ∷ [])),
        )))
      ⊎ ((16 ≤ length node.peers)
          × ((before : List Peer) × (last : Peer) × (node.peers ≡ before ++ (last ∷ []))
              × (node_connect_peer node (some fd) host port
                  ≡ (success, node, if last.active then (last.fd, request) ∷ [] else []))))
  unfolding node_connect_peer
  node_connect_peer-joins = elim (Bool-cases (leb max_peers (length node.peers))) [
    | inl taken ↦
        let full : max_peers ≤ length node.peers = (leb_iff _ _).0 taken in
        let (before, last, e) = has_last node.peers (omega arith) in
        inr (
          full,
          (
            before,
            last,
            e,
            rw (node_connect_peer, add_peer-full full)
                (ap (λ sends. (success, node, sends)) (ask_last before last e)),
          ),
        )
    | inr free ↦
        let room : length node.peers < max_peers = ground arith in
        inl (room, rw (node_connect_peer, add_peer-joins room, last_index, request_last) refl)
  ]

-- The same peer, no longer connected.
abbrev pub unconnected : Peer → Peer
unconnected peer = record { fd = peer.fd; host = peer.host; port = peer.port; active = false }

close_peers_lem :
    (peers : List Peer) → close_peers peers ≡ (map unconnected peers, active_fds peers)
unfolding close_peers
close_peers_lem [] = refl
close_peers_lem (peer ∷ peers) = elim (Bool-cases peer.active) [
  | inl connected ↦ rw (close_peers, connected, close_peers_lem peers) refl
  | inr already ↦ rw (close_peers, already, close_peers_lem peers) refl
]

-- `node_stop` marks every peer as disconnected, and closes exactly the sockets of those that were
-- connected, in their order.
pub node_stop-closes :
    (node : NodeState)
    → node_stop node ≡ (record node { peers = map unconnected node.peers }, active_fds node.peers)
node_stop-closes node =
    ap (λ (r : List Peer × List ℕ). (record node { peers = r.0 }, r.1)) (close_peers_lem node.peers)
