-- ===== src/Menu.antt =====
-- The menu of src/main.c: the choices, and what each does to the node. What the user types, the time, and
-- what the operating system answers are arguments; what is printed is left out.
pub mod Steps
pub mod Choices
pub mod Conduct
pub mod Loop
use mini_coin_slovak.Base.{
  ℕ, ◌+◌, ◌-◌, ◌%◌, ◌^◌, Bool, true, false, ◌||◌, Option, none, some, List, [], ◌∷◌, ◌++◌,
  if◌then◌else◌,
}
use mini_coin_slovak.Base.Int.{ℤ, pos_part, neg_part}
use mini_coin_slovak.Block.{Block}
use mini_coin_slovak.Chain.{chain_init, chain_get_balance}
use mini_coin_slovak.CLib.{Bytes, str_eq, codes}
use mini_coin_slovak.Ed25519.{Ed25519}
use mini_coin_slovak.Net.{NodeState, Sends, node_broadcast_block, node_broadcast_tx}
use mini_coin_slovak.Node.{Mined, Sent, do_mine, do_send}
use mini_coin_slovak.Run.{Run, returns, ◌>>=◌, Status}
use mini_coin_slovak.Session.{node_init, node_connect_peer, node_stop, after_sends}
use mini_coin_slovak.Sha256.{Sha256}
use mini_coin_slovak.Tx.{Tx}
use mini_coin_slovak.Wallet.{Wallet, File, open_wallet}

-- The branches of the loop in `main`.
pub data Choice : Type 0 where
  mine send print_chain wallet_info connect network_status show_mempool quit unknown : Choice

unfoldable pub choose : Bytes → Choice
choose choice =
    if str_eq choice (codes "1")
    then mine
    else if str_eq choice (codes "2")
    then send
    else if str_eq choice (codes "3")
    then print_chain
    else if str_eq choice (codes "4")
    then wallet_info
    else if str_eq choice (codes "5")
    then connect
    else if str_eq choice (codes "6")
    then network_status
    else if str_eq choice (codes "7")
    then show_mempool
    else if str_eq choice (codes "q") || str_eq choice (codes "Q")
    then quit
    else unknown

abbrev pub is_quit : Choice → Bool
is_quit quit = true
is_quit _ = false

-- The three inputs of `do_send`.
pub record Order : Type 0 where
  pub receiver : Bytes
  pub amount : ℕ
  pub fee : ℕ

-- The inputs of `do_connect_peer`, and the socket of the connection, if it is made.
pub record Target : Type 0 where
  pub host : Bytes
  pub port : ℤ
  pub socket : Option ℕ

-- One round of the loop: what is typed, and the time. `none` stands for an input that `scanf` cannot read.
pub record Round : Type 0 where
  pub choice : Bytes
  pub now : ℤ
  pub order : Option Order
  pub target : Option Target

-- `(uint16_t)port`
abbrev pub uint16 : ℤ → ℕ
uint16 port = (pos_part port + (2 ^ 16 - neg_part port % 2 ^ 16)) % 2 ^ 16

-- What is broadcast at the end of `do_mine`, and of `do_send`.
abbrev pub broadcast_mined : NodeState → Option Block → Run Sends
broadcast_mined node none = returns []
broadcast_mined node (some block) = node_broadcast_block node.peers block

abbrev pub broadcast_sent : NodeState → Option Tx → Sends
broadcast_sent node none = []
broadcast_sent node (some tx) = node_broadcast_tx node.peers tx

abbrev pub after_mining : NodeState → Mined → Run (NodeState × Sends)
after_mining node mined = do
  sends ← broadcast_mined node mined.broadcast
  returns (record node { chain = mined.chain; mempool = mined.mempool }, sends)

abbrev pub after_sending : NodeState → Sent → Run (NodeState × Sends)
after_sending node sent =
    returns (record node { mempool = sent.mempool }, broadcast_sent node sent.broadcast)

unfoldable pub do_connect_peer : NodeState → Option Target → NodeState × Sends
do_connect_peer node none = (node, [])
do_connect_peer node (some target) =
    let (status, node', sends) =
      node_connect_peer node target.socket target.host (uint16 target.port) in
    (node', sends)

module _ (H : Sha256) (E : Ed25519) (wallet : Wallet E) where
  unfoldable pub ask_and_send : NodeState → Option Order → Run (NodeState × Sends)
  ask_and_send node none = returns (node, [])
  ask_and_send node (some order) = do
    sent ← do_send H E wallet node.chain node.mempool order.receiver order.amount order.fee
    after_sending node sent

  -- A branch of the loop, while no other thread changes the node; `fuel` rounds are given to `block_mine`.
  unfoldable pub act : ℕ → NodeState → Round → Choice → Run (NodeState × Sends)
  unfolding do_connect_peer ask_and_send
  act fuel node round mine = do
    mined ←
        do_mine H fuel round.now wallet.address node.chain (λ i. node.chain) node.chain node.mempool
    after_mining node mined
  act fuel node round send = ask_and_send node round.order
  act fuel node round wallet_info = do
    balance ← chain_get_balance node.chain wallet.address
    returns (node, [])
  act fuel node round connect = returns (do_connect_peer node round.target)
  act fuel node round _ = returns (node, [])

  -- The loop of `main`, and `node_stop` behind it: it ends with the input, or with `q`.
  -- In each round `print_menu` first computes the balance, which it prints.
  unfoldable pub menu_loop : ℕ → NodeState → List Round → Run (NodeState × Sends)
  unfolding choose act
  menu_loop fuel node [] = do
    balance ← chain_get_balance node.chain wallet.address
    returns ((node_stop node).0, [])
  menu_loop fuel node (round ∷ rounds) = do
    balance ← chain_get_balance node.chain wallet.address
    elim (is_quit (choose round.choice)) [
      | true ↦ returns ((node_stop node).0, [])
      | false ↦ do
        result ← act fuel node round (choose round.choice)
        later ← menu_loop fuel result.0 rounds
        after_sends result.1 later
    ]

module _ (H : Sha256) (E : Ed25519) where
  -- `none` is the exit status 1.
  unfoldable pub run_node :
      ℕ → Wallet E → Option NodeState → List Round → Run (Option (NodeState × Sends))
  unfolding menu_loop
  run_node fuel wallet none rounds = returns none
  run_node fuel wallet (some node) rounds = do
    result ← menu_loop H E wallet fuel node rounds
    returns (some result)

  -- `main`, with what the user does in the loop.
  unfoldable pub main :
      ℕ → Bool → Option E.Key → File E → Bool → List Round → Run (Option (NodeState × Sends))
  unfolding open_wallet node_init run_node
  main fuel opens generated file listens rounds = elim (open_wallet E opens generated file).0 [
    | none ↦ returns none
    | some wallet ↦ do
      chain ← chain_init H fuel
      run_node fuel wallet (node_init listens chain) rounds
  ]
