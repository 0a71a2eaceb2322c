-- ===== src/Menu/Conduct.antt =====
-- What the user's texts do to the node (the loop of `main` in src/main.c), in terms of the operations that
-- they stand for.
use mini_coin_slovak.Base.{
  ℕ, ◌≡◌, refl, sym, ap, ◌∙◌, subst, Bool, true, false, Option, none, some, List, [], ◌∷◌, ◌++◌,
  map, Bool-cases, inl, inr,
}
use mini_coin_slovak.Block.{Block}
use mini_coin_slovak.Chain.{chain_get_balance}
use mini_coin_slovak.CLib.{Bytes, codes}
use mini_coin_slovak.Ed25519.{Ed25519}
use mini_coin_slovak.Menu.{
  Choice, mine, send, print_chain, wallet_info, connect, network_status, show_mempool, quit,
  unknown, choose, is_quit, Order, Target, Round, uint16, broadcast_mined, broadcast_sent,
  do_connect_peer, ask_and_send, act, menu_loop,
}
use mini_coin_slovak.Menu.Choices.{Means, Prints, Quits, choose-Means, low16, uint16-low16}
use mini_coin_slovak.Net.{NodeState, Sends, node_broadcast_block, node_broadcast_tx}
use mini_coin_slovak.Node.{Mined, Sent, do_mine, do_send}
use mini_coin_slovak.Run.{Run, returns, ◌>>=◌, >>=-eq-returns, Status}
use mini_coin_slovak.Session.{node_stop, node_connect_peer, after_sends}
use mini_coin_slovak.Session.Connect.{unconnected, node_stop-closes}
use mini_coin_slovak.Sha256.{Sha256}
use mini_coin_slovak.Tx.{Tx}
use mini_coin_slovak.Wallet.{Wallet}

-- A block that was mined, and a transaction that was made, are broadcast; nothing else is.
abbrev pub BlockGoesOut : NodeState → Option Block → Sends → Type 0
BlockGoesOut node none sends = sends ≡ []
BlockGoesOut node (some b) sends = node_broadcast_block node.peers b ≡ returns sends

abbrev pub PaymentGoesOut : NodeState → Option Tx → Sends → Type 0
PaymentGoesOut node none sends = sends ≡ []
PaymentGoesOut node (some tx) sends = sends ≡ node_broadcast_tx node.peers tx

module _ (H : Sha256) (E : Ed25519) (wallet : Wallet E) (fuel : ℕ) where
  -- What one round does, by the text that is typed.
  pub data Does (node : NodeState) (round : Round) : NodeState → Sends → Type 0 where
    mines :
        (m : Mined) (sends : Sends)
        → round.choice ≡ codes "1"
        → do_mine H fuel round.now wallet.address node.chain
            (λ i. node.chain)
            node.chain
            node.mempool
          ≡ returns m
        → BlockGoesOut node m.broadcast sends
        → Does node round (record node { chain = m.chain; mempool = m.mempool }) sends
    pays :
        (order : Order) (sent : Sent) (sends : Sends)
        → round.choice ≡ codes "2"
        → round.order ≡ some order
        → do_send H E wallet node.chain node.mempool order.receiver order.amount order.fee
          ≡ returns sent
        → PaymentGoesOut node sent.broadcast sends
        → Does node round (record node { mempool = sent.mempool }) sends
    misreads_order : round.choice ≡ codes "2" → round.order ≡ none → Does node round node []
    connects :
        (target : Target) (status : Status) (node' : NodeState) (sends : Sends)
        → round.choice ≡ codes "5"
        → round.target ≡ some target
        → node_connect_peer node target.socket target.host (low16 target.port)
          ≡ (status, node', sends)
        → Does node round node' sends
    misreads_target : round.choice ≡ codes "5" → round.target ≡ none → Does node round node []
    prints : Prints round.choice → Does node round node []

  -- What the loop does: its rounds in their order, up to the end of the input or to one that quits; then
  -- every peer is disconnected.
  pub data Conducts : NodeState → List Round → NodeState → Sends → Type 0 where
    input_ends :
        (node : NodeState)
        → Conducts node [] (record node { peers = map unconnected node.peers }) []
    quits :
        (node : NodeState) (round : Round) (rounds : List Round)
        → Quits round.choice
        → Conducts node (round ∷ rounds) (record node { peers = map unconnected node.peers }) []
    goes_on :
        (round : Round) (rounds : List Round) (node node1 node2 : NodeState) (sends1 sends2 : Sends)
        → Does node round node1 sends1
        → Conducts node1 rounds node2 sends2
        → Conducts node (round ∷ rounds) node2 (sends1 ++ sends2)

  carried :
      (P : NodeState → Sends → Type 0) {a a' : NodeState} {s s' : Sends}
      → ◌≡◌ {A = Run (NodeState × Sends)} (returns (a, s)) (returns (a', s'))
      → P a s
      → P a' s'
  carried P {a} {a'} {s} {s'} e p =
      let same_node : a ≡ a' = cc in
      let same_sends : s ≡ s' = cc in subst (λ n. P n s') same_node (subst (P a) same_sends p)

  block_goes_out :
      (node : NodeState) (b : Option Block) {sends : Sends}
      → broadcast_mined node b ≡ returns sends
      → BlockGoesOut node b sends
  block_goes_out node none e = cc
  block_goes_out node (some b) e = e

  payment_goes_out :
      (node : NodeState) (tx : Option Tx) → PaymentGoesOut node tx (broadcast_sent node tx)
  payment_goes_out node none = refl
  payment_goes_out node (some tx) = refl

  module _ (node : NodeState) (round : Round) where
    order-Does :
        (order : Option Order) {node' : NodeState} {sends : Sends}
        → round.choice ≡ codes "2"
        → round.order ≡ order
        → ask_and_send H E wallet node order ≡ returns (node', sends)
        → Does node round node' sends
    unfolding ask_and_send
    order-Does none typed given e = carried (Does node round) e (Does.misreads_order typed given)
    order-Does (some order) typed given e =
        let (sent, sending, rest) =
          >>=-eq-returns
            (do_send H E wallet node.chain node.mempool order.receiver order.amount order.fee) _
            e in
        carried (Does node round) rest (
          Does.pays order sent (broadcast_sent node sent.broadcast) typed given sending
            (payment_goes_out node sent.broadcast))

    target-Does :
        (target : Option Target)
        → round.choice ≡ codes "5"
        → round.target ≡ target
        → Does node round (do_connect_peer node target).0 (do_connect_peer node target).1
    unfolding do_connect_peer
    target-Does none typed given = Does.misreads_target typed given
    target-Does (some target) typed given =
        let r = node_connect_peer node target.socket target.host (uint16 target.port) in
        Does.connects target r.0 r.1 r.2 typed given
          (ap (node_connect_peer node target.socket target.host) (sym (uint16-low16 target.port)))

    act-Does :
        (choice : Choice) {node' : NodeState} {sends : Sends}
        → Means round.choice choice
        → is_quit choice ≡ false
        → act H E wallet fuel node round choice ≡ returns (node', sends)
        → Does node round node' sends
    unfolding act
    act-Does mine means goes e =
        let (m, mining, rest) =
          >>=-eq-returns
            (do_mine H fuel round.now wallet.address node.chain (λ i. node.chain) node.chain
              node.mempool)
            _ e in
        let (sends', out, done) = >>=-eq-returns (broadcast_mined node m.broadcast) _ rest in
        carried (Does node round) done
          (Does.mines m sends' means mining (block_goes_out node m.broadcast out))
    act-Does send means goes e = order-Does round.order means refl e
    act-Does connect means goes e =
        carried (Does node round) e (target-Does round.target means refl)
    act-Does print_chain means goes e = carried (Does node round) e (Does.prints means)
    act-Does wallet_info means goes e =
        carried (Does node round)
          (>>=-eq-returns (chain_get_balance node.chain wallet.address) _ e).2 (Does.prints means)
    act-Does network_status means goes e = carried (Does node round) e (Does.prints means)
    act-Does show_mempool means goes e = carried (Does node round) e (Does.prints means)
    act-Does quit means goes e = cc
    act-Does unknown means goes e = carried (Does node round) e (Does.prints means)

  -- A choice that quits is one of the two texts.
  quit-Quits : (t : Bytes) (choice : Choice) → Means t choice → is_quit choice ≡ true → Quits t
  quit-Quits t quit means e = means
  quit-Quits t mine means e = cc
  quit-Quits t send means e = cc
  quit-Quits t connect means e = cc
  quit-Quits t print_chain means e = cc
  quit-Quits t wallet_info means e = cc
  quit-Quits t network_status means e = cc
  quit-Quits t show_mempool means e = cc
  quit-Quits t unknown means e = cc

  -- The rest of a round and of the loop, for a choice that ends it or not.
  abbrev proceed : NodeState → Round → List Round → Bool → Run (NodeState × Sends)
  proceed node round rounds ends = elim ends [
    | true ↦ returns ((node_stop node).0, [])
    | false ↦ do
      result ← act H E wallet fuel node round (choose round.choice)
      later ← menu_loop H E wallet fuel result.0 rounds
      after_sends result.1 later
  ]

  stopped :
      (node : NodeState) {node' : NodeState} {sends : Sends}
      → ◌≡◌ {A = Run (NodeState × Sends)}
          (returns ((node_stop node).0, []))
          (returns (node', sends))
      → ◌≡◌ {A = Run (NodeState × Sends)}
          (returns (record node { peers = map unconnected node.peers }, []))
          (returns (node', sends))
  stopped node e =
      ap (λ (r : NodeState × List ℕ). returns (r.0, [])) (sym (node_stop-closes node)) ∙ e

  pub menu_loop-Conducts :
      (node : NodeState) (rounds : List Round) {node' : NodeState} {sends : Sends}
      → menu_loop H E wallet fuel node rounds ≡ returns (node', sends)
      → Conducts node rounds node' sends
  unfolding menu_loop
  menu_loop-Conducts node [] e =
      let rest = (>>=-eq-returns (chain_get_balance node.chain wallet.address) _ e).2 in
      carried (Conducts node []) (stopped node rest) (Conducts.input_ends node)
  menu_loop-Conducts node (round ∷ rounds) {node'} {sends} e =
      let (balance, shown, chosen) =
        >>=-eq-returns (chain_get_balance node.chain wallet.address) _ e in
      let means = choose-Means round.choice in
      elim (Bool-cases (is_quit (choose round.choice))) [
        | inl ends ↦
            let last = ap (proceed node round rounds) (sym ends) ∙ chosen in
            carried (Conducts node (round ∷ rounds)) (stopped node last) (
              Conducts.quits node round rounds
                (quit-Quits round.choice (choose round.choice) means ends))
        | inr goes ↦
            let next = ap (proceed node round rounds) (sym goes) ∙ chosen in
            let ((node1, sends1), acts, rest) =
              >>=-eq-returns (act H E wallet fuel node round (choose round.choice)) _ next in
            let ((node2, sends2), later, done) =
              >>=-eq-returns (menu_loop H E wallet fuel node1 rounds) _ rest in
            carried (Conducts node (round ∷ rounds)) done (
              Conducts.goes_on round rounds node node1 node2 sends1 sends2
                (act-Does node round (choose round.choice) means goes acts)
                (menu_loop-Conducts node1 rounds later))
      ]
