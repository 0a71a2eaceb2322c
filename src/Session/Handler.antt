-- ===== src/Session/Handler.antt =====
-- The thread of a peer (`peer_handler` of src/net.c) comes to its end when the connection does, and leaves
-- the node healthy.
use mini_coin_slovak.Base.{
  ℕ, zero, suc, ◌<◌, ◌≤◌, ◌≡◌, refl, sym, ap, ◌∙◌, subst, false, Option, none, some, List, [], ◌∷◌,
  ◌++◌, arith, length, get_elem?, get_elem?_total, Bool-cases, Option-cases, inl, inr,
}
use mini_coin_slovak.CLib.{Bytes}
use mini_coin_slovak.Net.{Peer, NodeState, Sends, read_message}
use mini_coin_slovak.Net.Lines.{read_message-lt}
use mini_coin_slovak.Net.Outcome.{IsCounted}
use mini_coin_slovak.Run.{Run, returns, >>=-returns, deref}
use mini_coin_slovak.Session.{close_at, disconnect, after_sends, peer_handler}
use mini_coin_slovak.Sha256.{Sha256}
use mini_coin_slovak.System.Health.{IsHealthy, with_peers, handle_message-IsHealthy}

-- A message, and what holds of the bytes behind it.
abbrev NextIs : (Bytes → Type 0) → (Bytes → Type 0) → Option (Bytes × Bytes) → Type 0
NextIs P Q none = Unit
NextIs P Q (some (msg, rest)) = P msg × Q rest

-- The first `n` messages on the socket.
abbrev pub AllMessages : (Bytes → Type 0) → ℕ → Bytes → Type 0
AllMessages P zero socket = Unit
AllMessages P (suc n) socket = NextIs P (AllMessages P n) (read_message socket)

length-close_at : (peers : List Peer) (idx : ℕ) → length (close_at peers idx) ≡ length peers
length-close_at [] idx = refl
length-close_at (peer ∷ peers) zero = refl
length-close_at (peer ∷ peers) (suc idx) = ap suc (length-close_at peers idx)

-- A peer that is not connected is closed already.
close_at-inactive :
    (peers : List Peer) (idx : ℕ) {peer : Peer}
    → get_elem? peers idx ≡ some peer
    → peer.active ≡ false
    → close_at peers idx ≡ peers
close_at-inactive [] idx e a = absurd (ground arith)
close_at-inactive (p ∷ peers) zero {peer} e a =
    let same : p ≡ peer = cc in
    let off : p.active ≡ false = ap (λ (q : Peer). q.active) same ∙ a in
    ap (λ q. q ∷ peers) (rw (← off) refl)
close_at-inactive (p ∷ peers) (suc idx) e a = ap (◌∷◌ p) (close_at-inactive peers idx e a)

-- The peer at an index is no longer connected, and every other entry is as it was.
abbrev pub IsClosed : List Peer → ℕ → List Peer → Type 0
IsClosed peers idx peers' =
    (before after : List Peer) × (peer : Peer) × (peers ≡ before ++ (peer ∷ after))
    × (length before ≡ idx)
    × (peers'
        ≡ before
          ++ (record { fd = peer.fd; host = peer.host; port = peer.port; active = false } ∷ after))

close_at-IsClosed :
    (peers : List Peer) (idx : ℕ) → idx < length peers → IsClosed peers idx (close_at peers idx)
close_at-IsClosed [] idx h = absurd (omega arith)
close_at-IsClosed (p ∷ peers) zero h = ([], peers, p, refl, refl, refl)
close_at-IsClosed (p ∷ peers) (suc idx) h =
    let (before, after, peer, e, at, e') = close_at-IsClosed peers idx (omega arith) in
    (p ∷ before, after, peer, ap (◌∷◌ p) e, ap suc at, ap (◌∷◌ p) e')

pub disconnect-IsHealthy :
    (H : Sha256) (node : NodeState) (idx : ℕ) → IsHealthy H node → IsHealthy H (disconnect node idx)
disconnect-IsHealthy H node idx healthy =
    with_peers H node healthy (close_at node.peers idx)
      (omega (arith, length-close_at node.peers idx, healthy.peers_room))

module _ (H : Sha256) (idx : ℕ) where
  -- The run returns a healthy node with a chain that is not shorter, and with such a table of peers.
  abbrev pub Finishes : (List Peer → Type 0) → NodeState → Run (NodeState × Sends) → Type 0
  Finishes P node run =
      (node' : NodeState) × (sends : Sends) × (run ≡ returns (node', sends))
      × IsHealthy H node'
      × (node.chain.length ≤ node'.chain.length)
      × P node'.peers

  abbrev pub Ends : NodeState → Run (NodeState × Sends) → Type 0
  Ends node = Finishes (IsClosed node.peers idx) node

  peer_handler-closes :
      (fuel : ℕ) (node : NodeState) (socket : Bytes)
      → IsHealthy H node
      → idx < length node.peers
      → length socket < fuel
      → AllMessages IsCounted fuel socket
      → Finishes (λ ps. ps ≡ close_at node.peers idx) node (peer_handler H fuel node idx socket)
  unfolding peer_handler
  peer_handler-closes zero node socket healthy there enough counted = absurd (omega arith)
  peer_handler-closes (suc fuel) node socket healthy there enough counted =
      let (peer, found) = get_elem?_total node.peers idx there in
      elim (Bool-cases peer.active) [
        | inr off ↦ (
          node,
          [],
          >>=-returns _ (ap deref found) ∙ rw off refl,
          healthy,
          omega arith,
          sym (close_at-inactive node.peers idx found off),
        )
        | inl on ↦ elim (Option-cases (read_message socket)) [
          | inl eof ↦ (
            disconnect node idx,
            [],
            >>=-returns _ (ap deref found) ∙ rw (on, eof) refl,
            disconnect-IsHealthy H node idx healthy,
            omega arith,
            refl,
          )
          | inr ((msg, rest), line) ↦
              let (count, later) =
                subst (NextIs IsCounted (AllMessages IsCounted fuel)) line counted in
              let (node1, sends1, handled, healthy1, longer1, peers1) =
                handle_message-IsHealthy H node healthy peer.fd msg count in
              let (node2, sends2, ends, healthy2, longer2, peers2) =
                peer_handler-closes fuel node1 rest healthy1 (rw peers1 there)
                  (omega (arith, read_message-lt socket msg rest line)) later in
              (
                node2,
                sends1 ++ sends2,
                >>=-returns _ (ap deref found)
                    ∙ rw (on, line) (>>=-returns _ handled ∙ >>=-returns (after_sends sends1) ends),
                healthy2,
                omega arith,
                peers2 ∙ ap (λ ps. close_at ps idx) peers1,
              )
        ]
      ]

  -- From a healthy node, for a peer in its table, and when no block in the messages claims more than ten
  -- transactions: with more rounds than bytes arrive, `peer_handler` comes to its end without undefined
  -- behaviour; then the peer is disconnected and no other entry of the table has changed, the node is
  -- healthy, and its chain is not shorter.
  pub peer_handler-Ends :
      (fuel : ℕ) (node : NodeState) (socket : Bytes)
      → IsHealthy H node
      → idx < length node.peers
      → length socket < fuel
      → AllMessages IsCounted fuel socket
      → Ends node (peer_handler H fuel node idx socket)
  peer_handler-Ends fuel node socket healthy there enough counted =
      let (node', sends, runs, healthy', longer, closed) =
        peer_handler-closes fuel node socket healthy there enough counted in
      (
        node',
        sends,
        runs,
        healthy',
        longer,
        subst (IsClosed node.peers idx) (sym closed) (close_at-IsClosed node.peers idx there),
      )
