-- ===== src/Session.antt =====
-- The life of a connection (src/net.c): the thread that reads from a peer, connecting to a peer, and
-- the end of the node. What the operating system answers is an argument.
pub mod Handler
pub mod Connect
pub mod Accept
use mini_coin_slovak.Base.{
  ℕ, zero, suc, ◌-◌, Bool, true, false, Option, none, some, List, [], ◌∷◌, ◌++◌, length, get_elem?,
  set, if◌then◌else◌,
}
use mini_coin_slovak.Chain.{Blockchain}
use mini_coin_slovak.CLib.{Bytes}
use mini_coin_slovak.Net.{
  Peer, NodeState, Sends, read_message, handle_message, add_peer, node_request_chain,
}
use mini_coin_slovak.Run.{Run, returns, out_of_fuel, ◌>>=◌, deref, Status, success, failure}
use mini_coin_slovak.Sha256.{Sha256}

-- `active = 0`
abbrev pub closed : Peer → Peer
closed peer = record peer { active = false }

-- `node->peers[idx].active = 0`
abbrev pub close_at : List Peer → ℕ → List Peer
close_at [] idx = []
close_at (peer ∷ peers) zero = closed peer ∷ peers
close_at (peer ∷ peers) (suc idx) = peer ∷ close_at peers idx

abbrev pub disconnect : NodeState → ℕ → NodeState
disconnect node idx = record node { peers = close_at node.peers idx }

-- The end of `node_stop`: the peers, and the file descriptors that are closed.
unfoldable pub close_peers : List Peer → List Peer × List ℕ
close_peers [] = ([], [])
close_peers (peer ∷ peers) =
    let (rest, fds) = close_peers peers in
    if peer.active then (closed peer ∷ rest, peer.fd ∷ fds) else (peer ∷ rest, fds)

abbrev pub node_stop : NodeState → NodeState × List ℕ
node_stop node = let (peers, fds) = close_peers node.peers in (record node { peers = peers }, fds)

-- `node_init`, where the callbacks of `main` are set too. `listens` says whether `socket`, `bind` and
-- `listen` succeed; the accepting thread is started.
unfoldable pub node_init : Bool → Blockchain → Option NodeState
node_init false chain = none
node_init true chain = some (record { chain = chain; peers = []; mempool = [] })

-- What `accept` brings: the socket of a connection, and the address and port of its other end.
pub record Accepted : Type 0 where
  pub client_fd : ℕ
  pub host : Bytes
  pub port : ℕ

-- The loop of `accept_thread` over the connections that come, in which nothing else happens; calls
-- of `accept` that fail are not among them.
unfoldable pub accept_thread : NodeState → List Accepted → NodeState × Sends
unfolding add_peer
accept_thread node [] = (node, [])
accept_thread node (client ∷ clients) =
    let (added, node', sends) = add_peer node client.client_fd client.host client.port in
    let (node'', later) = accept_thread node' clients in (node'', sends ++ later)

-- `connected` is the socket, once `getaddrinfo`, `socket` and `connect` have succeeded. In an empty
-- table there is no peer to ask, as in the source with its index -1.
unfoldable pub node_connect_peer : NodeState → Option ℕ → Bytes → ℕ → Status × NodeState × Sends
unfolding add_peer node_request_chain
node_connect_peer node none host port = (failure, node, [])
node_connect_peer node (some fd) host port =
    let (added, node', sends) = add_peer node fd host port in
    (success, node', sends ++ node_request_chain node'.peers (length node'.peers - 1))

abbrev pub after_sends : Sends → NodeState × Sends → Run (NodeState × Sends)
after_sends sends (node, later) = returns (node, sends ++ later)

module _ (H : Sha256) where
  -- The loop of `peer_handler` for the peer at `idx`, on all that its socket brings before it is
  -- closed, while the node runs and no other thread changes it.
  unfoldable pub peer_handler : ℕ → NodeState → ℕ → Bytes → Run (NodeState × Sends)
  unfolding read_message handle_message
  peer_handler zero node idx socket = out_of_fuel
  peer_handler (suc fuel) node idx socket = do
    peer ← deref (get_elem? node.peers idx)
    elim peer.active [
      | false ↦ returns (node, [])
      | true ↦ elim (read_message socket) [
        | none ↦ returns (disconnect node idx, [])
        | some (msg, rest) ↦ do
          (node', sends) ← handle_message H node peer.fd msg
          result ← peer_handler fuel node' idx rest
          after_sends sends result
      ]
    ]
