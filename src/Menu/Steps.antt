-- ===== src/Menu/Steps.antt =====
-- What the user does at the menu (src/main.c) is a sequence of steps of the node as a whole.
use mini_coin_slovak.Base.{ℕ, ◌^◌, ◌<◌, ◌≡◌, refl, sym, ap, ◌∙◌, subst, Option, none, some, []}
use mini_coin_slovak.Block.{Block, block_mine}
use mini_coin_slovak.Chain.{Blockchain, chain_add_block, chain_get_balance}
use mini_coin_slovak.CLib.{Bytes}
use mini_coin_slovak.Ed25519.{Ed25519}
use mini_coin_slovak.Menu.{
  Choice, mine, send, print_chain, wallet_info, connect, network_status, show_mempool, quit,
  unknown, Order, Target, Round, uint16, broadcast_mined, do_connect_peer, ask_and_send, act,
}
use mini_coin_slovak.Net.{NodeState, Sends}
use mini_coin_slovak.Node.{Mined, finish_mining, do_mine, do_send, prepare_block, mine_and_add}
use mini_coin_slovak.Run.{Run, returns, >>=-eq-returns, Status, success, failure}
use mini_coin_slovak.Session.{node_connect_peer}
use mini_coin_slovak.Sha256.{Sha256}
use mini_coin_slovak.System.{System, Step, Reach}
use mini_coin_slovak.System.Health.{IsHealthy}
use mini_coin_slovak.Wallet.{Wallet}

-- Between two choices no block is being mined.
abbrev pub at_menu : NodeState → System
at_menu node = record { node = node; pending = none }

-- The numbers that the user types are those of a uint64_t.
abbrev pub HasWords : Option Order → Type 0
HasWords none = Unit
HasWords (some order) = (order.amount < 2 ^ 64) × (order.fee < 2 ^ 64)

pub same_state :
    {a a' : NodeState} {s s' : Sends}
    → ◌≡◌ {A = Run (NodeState × Sends)} (returns (a, s)) (returns (a', s'))
    → a ≡ a'
same_state e = cc

module _ (H : Sha256) (E : Ed25519) where
  pub Reach-trans : {s t u : System} → Reach H E s t → Reach H E t u → Reach H E s u
  Reach-trans r Reach.here = r
  Reach-trans r (Reach.next r' step) = Reach.next (Reach-trans r r') step

  finished :
      (b : Block) (r : Status × Blockchain) {m : Mined}
      → ◌≡◌ {A = Run Mined} (returns (finish_mining b r)) (returns m)
      → m.mempool ≡ []
  finished b (failure, c) {m} e =
      let same : finish_mining b (failure, c) ≡ m = cc in sym (ap (λ (m : Mined). m.mempool) same)
  finished b (success, c) {m} e =
      let same : finish_mining b (success, c) ≡ m = cc in sym (ap (λ (m : Mined). m.mempool) same)

  mined_mempool :
      (fuel : ℕ) (c : Blockchain) (b : Block) {m : Mined}
      → mine_and_add H fuel c b ≡ returns m
      → m.mempool ≡ []
  unfolding mine_and_add
  mined_mempool fuel c b {m} e =
      let (mined, _, rest) = >>=-eq-returns (block_mine H fuel b) _ e in
      let (added, _, done) = >>=-eq-returns (chain_add_block H c mined.1) _ rest in
      finished mined.1 added done

  module _ (wallet : Wallet E) where
    mine-Reach :
        (fuel : ℕ) (node : NodeState) (round : Round) {node' : NodeState} {sends : Sends}
        → IsHealthy H node
        → act H E wallet fuel node round mine ≡ returns (node', sends)
        → Reach H E (at_menu node) (at_menu node')
    unfolding act do_mine
    mine-Reach fuel node round {node'} healthy e =
        let (m, mining, rest) =
          >>=-eq-returns
            (do_mine H fuel round.now wallet.address node.chain (λ i. node.chain) node.chain
              node.mempool)
            _ e in
        let (b, prepared, added) =
          >>=-eq-returns
            (prepare_block H round.now wallet.address node.chain (λ i. node.chain) node.mempool) _
            mining in
        let (sends', _, done) = >>=-eq-returns (broadcast_mined node m.broadcast) _ rest in
        let emptied = mined_mempool fuel node.chain b added in
        let same : record node { chain = m.chain; mempool = [] } ≡ node' =
          ap (λ mempool. record node { chain = m.chain; mempool = mempool }) (sym emptied)
          ∙ same_state done in
        subst (λ n. Reach H E (at_menu node) (at_menu n)) same
          (Reach.next
            (Reach.next Reach.here (
              Step.prepares round.now wallet.address node.chain (λ i. node.chain) healthy.sizes
                prepared))
            (Step.mines fuel b refl added))

    send-Reach :
        (node : NodeState) (order : Option Order) {node' : NodeState} {sends : Sends}
        → HasWords order
        → ask_and_send H E wallet node order ≡ returns (node', sends)
        → Reach H E (at_menu node) (at_menu node')
    unfolding ask_and_send
    send-Reach node none words e =
        subst (λ n. Reach H E (at_menu node) (at_menu n)) (same_state e) Reach.here
    send-Reach node (some order) (a, f) e =
        let (sent, sending, rest) =
          >>=-eq-returns
            (do_send H E wallet node.chain node.mempool order.receiver order.amount order.fee) _
            e in
        subst (λ n. Reach H E (at_menu node) (at_menu n)) (same_state rest)
          (Reach.next Reach.here
            (Step.pays wallet node.chain order.receiver order.amount order.fee a f sending))

    socket-Reach :
        (node : NodeState) (socket : Option ℕ) (host : Bytes) (port : ℕ)
        → Reach H E (at_menu node) (at_menu (node_connect_peer node socket host port).1)
    unfolding node_connect_peer
    socket-Reach node none host port = Reach.here
    socket-Reach node (some fd) host port = Reach.next Reach.here (Step.connects fd host port)

    connect-Reach :
        (node : NodeState) (target : Option Target)
        → Reach H E (at_menu node) (at_menu (do_connect_peer node target).0)
    unfolding do_connect_peer
    connect-Reach node none = Reach.here
    connect-Reach node (some target) =
        socket-Reach node target.socket target.host (uint16 target.port)

    stays :
        (node : NodeState) {node' : NodeState} {sends : Sends}
        → ◌≡◌ {A = Run (NodeState × Sends)} (returns (node, [])) (returns (node', sends))
        → Reach H E (at_menu node) (at_menu node')
    stays node e = subst (λ n. Reach H E (at_menu node) (at_menu n)) (same_state e) Reach.here

    pub act-Reach :
        (fuel : ℕ) (node : NodeState) (round : Round) (choice : Choice) {node' : NodeState}
        {sends : Sends}
        → IsHealthy H node
        → HasWords round.order
        → act H E wallet fuel node round choice ≡ returns (node', sends)
        → Reach H E (at_menu node) (at_menu node')
    unfolding act
    act-Reach fuel node round mine healthy words e = mine-Reach fuel node round healthy e
    act-Reach fuel node round send healthy words e = send-Reach node round.order words e
    act-Reach fuel node round connect healthy words e =
        subst (λ n. Reach H E (at_menu node) (at_menu n)) (same_state e)
          (connect-Reach node round.target)
    act-Reach fuel node round print_chain healthy words e = stays node e
    act-Reach fuel node round wallet_info healthy words e =
        stays node (>>=-eq-returns (chain_get_balance node.chain wallet.address) _ e).2
    act-Reach fuel node round network_status healthy words e = stays node e
    act-Reach fuel node round show_mempool healthy words e = stays node e
    act-Reach fuel node round quit healthy words e = stays node e
    act-Reach fuel node round unknown healthy words e = stays node e
