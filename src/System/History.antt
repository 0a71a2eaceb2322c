-- ===== src/System/History.antt =====
-- After any interleaving of its threads the node is healthy (src/net.c and src/main.c).
use mini_coin_slovak.Base.{
  ℕ, ◌<◌, ◌≤◌, ◌≡◌, refl, sym, ap, subst, Option, none, some, List, [], ◌∷◌, arith, length, leb,
  leb_iff, map, length-append, Bool-cases, inl, inr,
}
use mini_coin_slovak.Block.{Block, block_mine}
use mini_coin_slovak.Chain.{Blockchain, chain_add_block}
use mini_coin_slovak.CLib.{Bytes}
use mini_coin_slovak.Ed25519.{Ed25519}
use mini_coin_slovak.Net.{Peer, NodeState, max_peers, add_peer}
use mini_coin_slovak.Net.Outcome.{block, handle_message-Outcome}
use mini_coin_slovak.Net.Safety.{Outcome-IsKept}
use mini_coin_slovak.Node.{Mined, finish_mining, mine_and_add}
use mini_coin_slovak.Run.{Run, returns, Status, success, failure, >>=-eq-returns, when_returns}
use mini_coin_slovak.Session.{closed, node_stop}
use mini_coin_slovak.Session.Connect.{node_stop-closes, add_peer-joins, add_peer-full, joined}
use mini_coin_slovak.Session.Handler.{disconnect-IsHealthy}
use mini_coin_slovak.Sha256.{Sha256}
use mini_coin_slovak.System.{
  System, Step, receives, loses, connects, pays, prepares, mines, stops, Reach, here, next,
}
use mini_coin_slovak.System.Health.{
  IsHealthy, with_mempool, with_peers, add_block-IsHealthy, Outcome-IsHealthy,
}
use mini_coin_slovak.System.Mining.{IsDraft, prepare_block-IsDraft, block_mine-IsDraft}
use mini_coin_slovak.System.Sending.{KeepsMempool, do_send-KeepsMempool}

-- The block that is being mined has the declared sizes.
abbrev pub IsPending : Option Block → Type 0
IsPending none = Unit
IsPending (some b) = IsDraft b

pub record IsRunning (H : Sha256) (s : System) : Type 0 where
  pub healthy : IsHealthy H s.node
  pub pending : IsPending s.pending

module _ (H : Sha256) (node : NodeState) (healthy : IsHealthy H node) where
  add_peer-IsHealthy :
      (fd : ℕ) (host : Bytes) (port : ℕ)
      → IsHealthy H (add_peer node fd host port).1
        × (node.chain.length ≤ (add_peer node fd host port).1.chain.length)
  add_peer-IsHealthy fd host port = elim (Bool-cases (leb max_peers (length node.peers))) [
    | inl taken ↦
        rw (add_peer-full node fd host port ((leb_iff _ _).0 taken)) (healthy, omega arith)
    | inr free ↦
        let room : length node.peers < max_peers = ground arith in
        rw (add_peer-joins node fd host port room) (
          with_peers H node healthy (joined node fd host port).peers
              (omega (arith, length-append node.peers)),
          omega arith,
        )
  ]

  length-map-closed : (peers : List Peer) → length (map closed peers) ≡ length peers
  length-map-closed [] = refl
  length-map-closed (p ∷ peers) = omega (arith, length-map-closed peers)

  node_stop-IsHealthy : IsHealthy H (node_stop node).0
  node_stop-IsHealthy =
      subst (λ (r : NodeState × List ℕ). IsHealthy H r.0) (sym (node_stop-closes node))
        (with_peers H node healthy (map closed node.peers)
          (omega (arith, length-map-closed node.peers, healthy.peers_room)))

  chain_of_mined :
      (b : Block) (r : Status × Blockchain) {m : Mined}
      → ◌≡◌ {A = Run Mined} (returns (finish_mining b r)) (returns m)
      → m.chain ≡ r.1
  chain_of_mined b (failure, c) {m} e =
      let same : finish_mining b (failure, c) ≡ m = cc in sym (ap (λ (m : Mined). m.chain) same)
  chain_of_mined b (success, c) {m} e =
      let same : finish_mining b (success, c) ≡ m = cc in sym (ap (λ (m : Mined). m.chain) same)

  mine_and_add-IsHealthy :
      (fuel : ℕ) (b : Block) {m : Mined}
      → IsDraft b
      → mine_and_add H fuel node.chain b ≡ returns m
      → IsHealthy H (record node { chain = m.chain }) × (node.chain.length ≤ m.chain.length)
  unfolding mine_and_add
  mine_and_add-IsHealthy fuel b {m} draft e =
      let ((attempts, mined), found, rest) = >>=-eq-returns (block_mine H fuel b) _ e in
      let ((status, c), added, done) = >>=-eq-returns (chain_add_block H node.chain mined) _ rest in
      let d =
        when_returns (λ (r : ℕ × Block). IsDraft r.1) (block_mine-IsDraft H fuel b draft) found in
      let same : m.chain ≡ c = chain_of_mined mined (status, c) done in
      rw same (
        add_block-IsHealthy H node healthy mined d.sizes d.count added,
        (Outcome-IsKept H node healthy.sound (block mined d.sizes d.count added)).1,
      )

module _ (H : Sha256) (E : Ed25519) where
  Step-IsRunning :
      {s t : System}
      → Step H E s t
      → IsRunning H s
      → IsRunning H t × (s.node.chain.length ≤ t.node.chain.length)
  Step-IsRunning {s} (receives fd raw counts e) run =
      let out = handle_message-Outcome H s.node fd raw counts e in
      (
        record { healthy = Outcome-IsHealthy H s.node run.healthy out; pending = run.pending },
        (Outcome-IsKept H s.node run.healthy.sound out).1,
      )
  Step-IsRunning {s} (loses idx) run = (
    record { healthy = disconnect-IsHealthy H s.node idx run.healthy; pending = run.pending },
    omega arith,
  )
  Step-IsRunning {s} (connects fd host port) run =
      let (healthy, longer) = add_peer-IsHealthy H s.node run.healthy fd host port in
      (record { healthy = healthy; pending = run.pending }, longer)
  Step-IsRunning {s} (pays wallet seen receiver amount fee a f e) run =
      let (room, fits) =
        when_returns KeepsMempool
          (do_send-KeepsMempool H E wallet s.node.mempool run.healthy.mempool_room
            run.healthy.mempool_fits seen receiver amount fee a f)
          e in
      (
        record { healthy = with_mempool H s.node run.healthy _ room fits; pending = run.pending },
        omega arith,
      )
  Step-IsRunning {s} (prepares now address seen chains sizes e) run = (
    record {
      healthy = with_mempool H s.node run.healthy [] (omega arith) tt;
      pending =
          when_returns IsDraft
            (prepare_block-IsDraft H now address seen chains s.node.mempool sizes
              run.healthy.mempool_fits)
            e;
    },
    omega arith,
  )
  Step-IsRunning {s} (mines fuel b p e) run =
      let (healthy, longer) =
        mine_and_add-IsHealthy H s.node run.healthy fuel b (subst IsPending p run.pending) e in
      (record { healthy = healthy; pending = tt }, longer)
  Step-IsRunning {s} stops run = (
    record { healthy = node_stop-IsHealthy H s.node run.healthy; pending = run.pending },
    omega arith,
  )

  -- After any sequence of messages, connections, payments, mined blocks and closed connections, in which no
  -- block from the network claims more than ten transactions, a healthy node is healthy: its chain is
  -- stored and valid and not shorter than it was, the mempool and the table of peers are within their
  -- arrays, all texts and numbers have the declared sizes, and so has the block that is being mined.
  pub Reach-IsRunning :
      {start s : System}
      → IsRunning H start
      → Reach H E start s
      → IsRunning H s × (start.node.chain.length ≤ s.node.chain.length)
  Reach-IsRunning run here = (run, omega arith)
  Reach-IsRunning run (next r step) =
      let (before, longer) = Reach-IsRunning run r in
      let (after, longer') = Step-IsRunning step before in (after, omega arith)
