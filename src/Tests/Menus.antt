-- ===== src/Tests/Menus.antt =====
-- The program from its start to its end: the user connects to a peer, mistypes, and quits.
use mini_coin_slovak.Base.{ℕ, ◌≡◌, refl, ◌∙◌, drop, arith, true, false, some, none, List, [], ◌∷◌}
use mini_coin_slovak.Base.Int.{pos, ◌-ℤ◌}
use mini_coin_slovak.Block.{genesis_start}
use mini_coin_slovak.Block.Genesis.{genesis}
use mini_coin_slovak.Block.Mine.{IsProof}
use mini_coin_slovak.Chain.Add.{live}
use mini_coin_slovak.Chain.{Blockchain, chain_get_balance}
use mini_coin_slovak.Chain.Balance.{chain_get_balance-net}
use mini_coin_slovak.CLib.{Bytes, codes, hex}
use mini_coin_slovak.Menu.{Round, choose, act, do_connect_peer, menu_loop, run_node, main}
use mini_coin_slovak.Menu.Conduct.{Conducts}
use mini_coin_slovak.Menu.Steps.{at_menu}
use mini_coin_slovak.Menu.Loop.{main-Reach}
use mini_coin_slovak.Net.{NodeState, Peer, add_peer, node_request_chain}
use mini_coin_slovak.Run.{returns, >>=-returns}
use mini_coin_slovak.Session.{Accepted, close_peers, node_init, node_connect_peer, accept_thread}
use mini_coin_slovak.Session.Accept.{taken, accept_thread-takes}
use mini_coin_slovak.Session.Connect.{request}
use mini_coin_slovak.System.{started, Reach}
use mini_coin_slovak.System.Health.{IsHealthy}
use mini_coin_slovak.Tests.Chains.{first_chain, first_chain-IsSound}
use mini_coin_slovak.Tests.Digests.{sum_sha256}
use mini_coin_slovak.Tests.Keys.{toy_keys}
use mini_coin_slovak.Tests.Systems.{starting}
use mini_coin_slovak.Tests.Wallets.{address}
use mini_coin_slovak.Wallet.{Wallet, extract_address, wallet_create, wallet_load, open_wallet}

abbrev idle : Bytes → Round
idle choice = record { choice = choice; now = pos 170000008; order = none; target = none }

abbrev rounds : List Round
rounds =
    record (idle (codes "5")) {
      target = some (record { host = codes "localhost"; port = pos 9334; socket = some 7 });
    }
    ∷ idle (codes "?")
    ∷ idle (codes "q")
    ∷ idle (codes "5")
    ∷ []

abbrev last_peer : Peer
last_peer = record { fd = 7; host = codes "localhost"; port = 9334; active = false }

abbrev last_node : NodeState
last_node = record { chain = first_chain; peers = last_peer ∷ []; mempool = [] }

abbrev wallet : Wallet toy_keys
wallet = record { keypair = tt; address = address }

abbrev first_node : NodeState
first_node = record { chain = first_chain; peers = []; mempool = [] }

abbrev connected_node : NodeState
connected_node = record first_node { peers = record last_peer { active = true } ∷ [] }

no_coins : chain_get_balance first_chain address ≡ returns (pos 0)
no_coins =
    chain_get_balance-net first_chain address first_chain-IsSound.stored (omega arith)
    ∙ (unfold ◌-ℤ◌ in refl)

last_round :
    menu_loop sum_sha256 toy_keys wallet 1000 connected_node (drop 2 rounds)
    ≡ returns (last_node, [])
unfolding menu_loop choose close_peers
last_round = >>=-returns _ no_coins

two_rounds :
    menu_loop sum_sha256 toy_keys wallet 1000 connected_node (drop 1 rounds)
    ≡ returns (last_node, [])
unfolding menu_loop choose act
two_rounds = >>=-returns _ no_coins ∙ >>=-returns _ last_round

all_rounds :
    menu_loop sum_sha256 toy_keys wallet 1000 first_node rounds
    ≡ returns (last_node, (7, request) ∷ (7, request) ∷ [])
unfolding menu_loop choose act do_connect_peer node_connect_peer add_peer node_request_chain
all_rounds = >>=-returns _ no_coins ∙ >>=-returns _ two_rounds

running :
    main sum_sha256 toy_keys 1000 true (some tt) none true rounds
    ≡ returns (some (last_node, (7, request) ∷ (7, request) ∷ []))
unfolding main open_wallet wallet_load wallet_create extract_address run_node node_init hex
running = >>=-returns _ starting ∙ >>=-returns _ all_rounds

main-Reach_example :
    (wallet : Wallet toy_keys) × (c : Blockchain) × (n : ℕ) × ((open_wallet toy_keys true
        (some tt)
        none).0
      ≡ some wallet)
    × IsProof sum_sha256 genesis_start n
    × (live c ≡ genesis sum_sha256 n ∷ [])
    × Conducts sum_sha256 toy_keys wallet 1000
        (started c).node
        rounds
        last_node
        ((7, request) ∷ (7, request) ∷ [])
    × Reach sum_sha256 toy_keys (started c) (at_menu last_node)
    × IsHealthy sum_sha256 last_node
main-Reach_example =
    main-Reach sum_sha256 toy_keys 1000 true (some tt) none true rounds (search) running

abbrev clients : List Accepted
clients =
    record { client_fd = 8; host = codes "10.0.0.2"; port = 40000 }
    ∷ record { client_fd = 9; host = codes "10.0.0.3"; port = 40001 }
    ∷ []

accept_thread-takes_example :
    (accept_thread last_node clients).0
    ≡ record last_node { peers = last_peer ∷ taken last_node.peers clients }
accept_thread-takes_example = accept_thread-takes last_node clients
