-- ===== src/System.antt =====
-- The node as a whole: the threads of src/net.c and the menu of src/main.c work on the chain, the mempool
-- and the table of peers. A step is the handling of one message, connection or choice, or one half of
-- mining; threads take their steps in any order. The answer to a REQUEST_CHAIN is part of its step and reads
-- the chain of one moment, although `protocol_serialize_chain` takes no mutex and reads the length twice.
pub mod Health
pub mod Mining
pub mod Sending
pub mod History
pub mod Start
use mini_coin_slovak.Base.{ℕ, ◌^◌, ◌<◌, ◌≡◌, Option, none, some, List, [], ◌∷◌}
use mini_coin_slovak.Base.Int.{ℤ}
use mini_coin_slovak.Block.{Block}
use mini_coin_slovak.Chain.{Blockchain}
use mini_coin_slovak.CLib.{Bytes}
use mini_coin_slovak.Ed25519.{Ed25519}
use mini_coin_slovak.Net.{NodeState, Sends, add_peer, handle_message}
use mini_coin_slovak.Net.Outcome.{IsCounted}
use mini_coin_slovak.Node.{Sent, Mined, do_send, prepare_block, mine_and_add}
use mini_coin_slovak.Protocol.ChainBounds.{HasChainSizes}
use mini_coin_slovak.Run.{returns}
use mini_coin_slovak.Session.{disconnect, node_stop}
use mini_coin_slovak.Sha256.{Sha256}
use mini_coin_slovak.Wallet.{Wallet}

-- The node, and the block that the menu is mining, if any.
pub record System : Type 0 where
  pub node : NodeState
  pub pending : Option Block

-- `main` after `chain_init` and `node_init`: no peers, and an empty mempool.
abbrev pub started : Blockchain → System
started chain = record { node = record { chain = chain; peers = []; mempool = [] }; pending = none }

module _ (H : Sha256) (E : Ed25519) where
  -- The chain that `prepares` and `pays` read may be an earlier one, and what they read of it may not be of
  -- one moment. A message is handled whether or not its peer is still connected.
  pub data Step (s : System) : System → Type 0 where
    -- `handle_message` in the thread of a peer
    receives :
        (fd : ℕ) (raw : Bytes) {node : NodeState} {sends : Sends}
        → IsCounted raw
        → handle_message H s.node fd raw ≡ returns (node, sends)
        → Step s (record s { node = node })
    -- the end of `peer_handler`
    loses : (idx : ℕ) → Step s (record s { node = disconnect s.node idx })
    -- `add_peer`, in `accept_thread` or in `node_connect_peer`
    connects :
        (fd : ℕ) (host : Bytes) (port : ℕ)
        → Step s (record s { node = (add_peer s.node fd host port).1 })
    -- `do_send`
    pays :
        (wallet : Wallet E) (seen : Blockchain) (receiver : Bytes) (amount fee : ℕ) {sent : Sent}
        → amount < 2 ^ 64
        → fee < 2 ^ 64
        → do_send H E wallet seen s.node.mempool receiver amount fee ≡ returns sent
        → Step s (record s { node = record s.node { mempool = sent.mempool } })
    -- the first half of `do_mine`
    prepares :
        (now : ℤ) (address : Bytes) (seen : Blockchain) (chains : ℕ → Blockchain) {b : Block}
        → HasChainSizes seen
        → prepare_block H now address seen chains s.node.mempool ≡ returns b
        → Step s (record { node = record s.node { mempool = [] }; pending = some b })
    -- the second half of `do_mine`
    mines :
        (fuel : ℕ) (b : Block) {mined : Mined}
        → s.pending ≡ some b
        → mine_and_add H fuel s.node.chain b ≡ returns mined
        → Step s (record { node = record s.node { chain = mined.chain }; pending = none })
    -- `node_stop`
    stops : Step s (record s { node = (node_stop s.node).0 })

  pub data Reach (start : System) : System → Type 0 where
    here : Reach start start
    next : {s t : System} → Reach start s → Step s t → Reach start t
