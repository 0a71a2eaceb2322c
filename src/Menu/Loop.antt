-- ===== src/Menu/Loop.antt =====
-- The loop of `main` (src/main.c), and the program from its start to its end.
use mini_coin_slovak.Base.{
  ℕ, ◌≡◌, refl, sym, ◌∙◌, subst, Bool, true, false, Option, some, List, [], ◌∷◌, arith, All,
  Option-cases, inl, inr,
}
use mini_coin_slovak.Block.{genesis_start}
use mini_coin_slovak.Block.Genesis.{genesis}
use mini_coin_slovak.Block.Mine.{IsProof}
use mini_coin_slovak.Chain.Add.{live}
use mini_coin_slovak.Chain.{Blockchain, chain_init, chain_get_balance}
use mini_coin_slovak.Ed25519.{Ed25519}
use mini_coin_slovak.Menu.{choose, is_quit, Round, act, menu_loop, run_node, main}
use mini_coin_slovak.Net.{NodeState, Sends}
use mini_coin_slovak.Run.{Run, returns, ◌>>=◌, >>=-eq-returns}
use mini_coin_slovak.Session.{node_init, node_stop, after_sends}
use mini_coin_slovak.Sha256.{Sha256}
use mini_coin_slovak.System.{started, Step, Reach}
use mini_coin_slovak.System.Health.{IsHealthy}
use mini_coin_slovak.System.History.{Reach-IsRunning}
use mini_coin_slovak.System.Start.{started-IsRunning, chain_init-genesis}
use mini_coin_slovak.Wallet.{Wallet, File, open_wallet}
use mini_coin_slovak.Menu.Conduct.{Conducts, menu_loop-Conducts}
use mini_coin_slovak.Menu.Steps.{at_menu, HasWords, same_state, Reach-trans, act-Reach}

same_end :
    {a a' : NodeState} {s s' : Sends}
    → ◌≡◌ {A = Run (Option (NodeState × Sends))} (returns (some (a, s))) (returns (some (a', s')))
    → a ≡ a'
same_end e = cc

module _ (H : Sha256) (E : Ed25519) where
  module _ (wallet : Wallet E) where
    stop-Reach : (node : NodeState) → Reach H E (at_menu node) (at_menu (node_stop node).0)
    stop-Reach node = Reach.next Reach.here Step.stops

    stopped-Reach :
        (node : NodeState) {node' : NodeState} {sends : Sends}
        → ◌≡◌ {A = Run (NodeState × Sends)}
            (returns ((node_stop node).0, []))
            (returns (node', sends))
        → Reach H E (at_menu node) (at_menu node')
    stopped-Reach node e =
        subst (λ n. Reach H E (at_menu node) (at_menu n)) (same_state e) (stop-Reach node)

    -- The rest of a round and of the loop, for a choice that ends it or not.
    abbrev proceed : ℕ → NodeState → Round → List Round → Bool → Run (NodeState × Sends)
    proceed fuel node round rounds quits = elim quits [
      | true ↦ returns ((node_stop node).0, [])
      | false ↦ do
        result ← act H E wallet fuel node round (choose round.choice)
        later ← menu_loop H E wallet fuel result.0 rounds
        after_sends result.1 later
    ]

    arrives :
        {node node' : NodeState}
        → IsHealthy H node
        → Reach H E (at_menu node) (at_menu node')
        → Reach H E (at_menu node) (at_menu node') × IsHealthy H node'
    arrives healthy r =
        (r, (Reach-IsRunning H E (record { healthy = healthy; pending = tt }) r).0.healthy)

    menu_loop-Reach :
        (fuel : ℕ) (node : NodeState) (rounds : List Round) {node' : NodeState} {sends : Sends}
        → IsHealthy H node
        → All (λ (r : Round). HasWords r.order) rounds
        → menu_loop H E wallet fuel node rounds ≡ returns (node', sends)
        → Reach H E (at_menu node) (at_menu node') × IsHealthy H node'
    unfolding menu_loop
    menu_loop-Reach fuel node [] healthy words e =
        arrives healthy
          (stopped-Reach node (>>=-eq-returns (chain_get_balance node.chain wallet.address) _ e).2)
    menu_loop-Reach fuel node (round ∷ rounds) {node'} {sends} healthy words e =
        let (balance, shown, chosen) =
          >>=-eq-returns (chain_get_balance node.chain wallet.address) _ e in
        elim (is_quit (choose round.choice))
            as (λ quits.
              proceed fuel node round rounds quits ≡ returns (node', sends)
              → Reach H E (at_menu node) (at_menu node') × IsHealthy H node') [
                | true ↦ λ e. arrives healthy (stopped-Reach node e)
                | false ↦ λ e.
                    let ((node1, sends1), acts, rest) =
                      >>=-eq-returns (act H E wallet fuel node round (choose round.choice)) _ e in
                    let (first, healthy1) = arrives healthy (
                      act-Reach H E wallet fuel node round (choose round.choice) healthy words.0
                        acts) in
                    let ((node2, sends2), later, done) =
                      >>=-eq-returns (menu_loop H E wallet fuel node1 rounds) _ rest in
                    let (second, _) = menu_loop-Reach fuel node1 rounds healthy1 words.1 later in
                    arrives healthy (
                      subst (λ n. Reach H E (at_menu node) (at_menu n)) (same_state done)
                        (Reach-trans H E first second))
              ]
          chosen

  -- From the running node on.
  run_node-Reach :
      (fuel : ℕ) (wallet : Wallet E) (c : Blockchain) (listens : Bool) (rounds : List Round)
      {node' : NodeState} {sends : Sends}
      → chain_init H fuel ≡ returns c
      → All (λ (r : Round). HasWords r.order) rounds
      → run_node H E fuel wallet (node_init listens c) rounds ≡ returns (some (node', sends))
      → Reach H E (started c) (at_menu node') × IsHealthy H node'
  unfolding run_node node_init
  run_node-Reach fuel wallet c false rounds init words e = absurd (ground arith)
  run_node-Reach fuel wallet c true rounds {node'} init words e =
      let ((node, sends'), loops, done) =
        >>=-eq-returns
          (menu_loop H E wallet fuel (record { chain = c; peers = []; mempool = [] }) rounds) _ e in
      subst (λ n. Reach H E (started c) (at_menu n) × IsHealthy H n) (same_end done)
        (menu_loop-Reach wallet fuel (record { chain = c; peers = []; mempool = [] }) rounds
          (started-IsRunning H fuel init).healthy words loops)

  run_node-Conducts :
      (fuel : ℕ) (wallet : Wallet E) (c : Blockchain) (listens : Bool) (rounds : List Round)
      {node' : NodeState} {sends : Sends}
      → run_node H E fuel wallet (node_init listens c) rounds ≡ returns (some (node', sends))
      → Conducts H E wallet fuel (started c).node rounds node' sends
  unfolding run_node node_init
  run_node-Conducts fuel wallet c false rounds e = absurd (ground arith)
  run_node-Conducts fuel wallet c true rounds {node'} {sends} e =
      let ((node, sends'), loops, done) =
        >>=-eq-returns (menu_loop H E wallet fuel (started c).node rounds) _ e in
      let same : node ≡ node' = same_end done in
      let same_sends : sends' ≡ sends = cc in
      subst (λ n. Conducts H E wallet fuel (started c).node rounds n sends) same
        (subst (Conducts H E wallet fuel (started c).node rounds node) same_sends
          (menu_loop-Conducts H E wallet fuel (started c).node rounds loops))

  -- Whatever the user does, if the numbers that are typed fit a uint64_t and no other thread changes the
  -- node: when `main` comes to its normal end, it had a wallet and a chain of the mined genesis block alone;
  -- with these, no peers and an empty mempool, the rounds have been conducted in their order, each as its text
  -- says (1 mines, 2 pays, 5 connects, q and Q quit, any other text changes and sends nothing), and then every
  -- peer was disconnected; this is a sequence of the node's steps from the start, and the node is healthy.
  pub main-Reach :
      (fuel : ℕ) (opens : Bool) (generated : Option E.Key) (file : File E) (listens : Bool)
      (rounds : List Round) {node' : NodeState} {sends : Sends}
      → All (λ (r : Round). HasWords r.order) rounds
      → main H E fuel opens generated file listens rounds ≡ returns (some (node', sends))
      → (wallet : Wallet E) × (c : Blockchain) × (n : ℕ) × ((open_wallet E opens generated file).0
          ≡ some wallet)
        × IsProof H genesis_start n
        × (live c ≡ genesis H n ∷ [])
        × Conducts H E wallet fuel (started c).node rounds node' sends
        × Reach H E (started c) (at_menu node')
        × IsHealthy H node'
  unfolding main
  main-Reach fuel opens generated file listens rounds {node'} {sends} words e =
      elim (Option-cases (open_wallet E opens generated file).0) [
        | inl none_left ↦ absurd (ground (arith, none_left))
        | inr (wallet, found) ↦
            let begun : main H E fuel opens generated file listens rounds ≡ (
                chain_init H fuel >>= λ c. run_node H E fuel wallet (node_init listens c) rounds) =
              rw (main, found) refl in
            let (c, init, rest) = >>=-eq-returns (chain_init H fuel) _ (sym begun ∙ e) in
            let (n, proof, alone) = chain_init-genesis H fuel init in
            let (steps, healthy) = run_node-Reach fuel wallet c listens rounds init words rest in
            (
              wallet,
              c,
              n,
              found,
              proof,
              alone,
              run_node-Conducts fuel wallet c listens rounds rest,
              steps,
              healthy,
            )
      ]
