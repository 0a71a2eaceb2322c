-- ===== src/Node.antt =====
-- The transactions that wait, mining and sending of src/main.c. Other threads can change the chain
-- between two of its uses: so each use has a chain of its own. `do_mine` reads the last block under the mutex
-- of the chain, and `chain_add_block` takes it; `chain_get_balance` takes none, and its one call is read here
-- as if it saw the chain of one moment.
pub mod Mempool
pub mod Collect
pub mod Mining
pub mod Accounts
pub mod Sending
pub mod Reward
use mini_coin_slovak.Base.{
  ℕ, suc, Bool, ◌+◌, ◌%◌, ◌^◌, true, false, Option, none, some, List, [], ◌∷◌, ◌++◌, length, set,
  ltb, if◌then◌else◌,
}
use mini_coin_slovak.Base.Int.{ℤ, pos, pos_part, leb_ℤ, ltb_ℤ, signed64}
use mini_coin_slovak.Block.{Block, zero_block, max_tx_per_block, hash_hex_len, block_mine}
use mini_coin_slovak.Chain.{Blockchain, chain_last_block, chain_get_balance, chain_add_block}
use mini_coin_slovak.CLib.{Bytes, strncpy}
use mini_coin_slovak.Ed25519.{Ed25519}
use mini_coin_slovak.Run.{Run, returns, ◌>>=◌, deref, Status, success, failure}
use mini_coin_slovak.Sha256.{Sha256}
use mini_coin_slovak.Tx.{Tx, min_tx_fee, tx_create, tx_create_coinbase, tx_compute_hash}
use mini_coin_slovak.Wallet.{Wallet, wallet_sign_tx}

abbrev pub mempool_size : ℕ
mempool_size = 100

-- The mempool is the list of the slots in use, `mempool[0]` to `mempool[mempool_count - 1]`; no
-- other slot is ever read.
unfoldable pub on_new_tx : List Tx → Tx → List Tx
on_new_tx mempool tx = if ltb (length mempool) mempool_size then mempool ++ (tx ∷ []) else mempool

-- `mempool[i].amount + mempool[i].fee` on a uint64_t.
abbrev pub total_cost : ℕ → ℕ → ℕ
total_cost amount fee = (amount + fee) % 2 ^ 64

-- `balance >= (int64_t)total_cost`
unfoldable pub is_affordable : ℤ → Tx → Bool
is_affordable balance tx = leb_ℤ (signed64 (total_cost tx.amount tx.fee)) balance

-- What the loop over the mempool fills: the block's transactions, their count, and the fees.
pub record Collected : Type 0 where
  pub transactions : List Tx
  pub tx_count : ℕ
  pub total_fees : ℕ

abbrev pub include_tx : Collected → Tx → Collected
include_tx block tx = record {
  transactions = set block.transactions block.tx_count tx;
  tx_count = block.tx_count + 1;
  total_fees = (block.total_fees + tx.fee) % 2 ^ 64;
}

-- The loop over the mempool, from the slot `i` on.
unfoldable pub collect : (ℕ → Blockchain) → ℕ → List Tx → Collected → Run Collected
collect chains i [] block = returns block
collect chains i (tx ∷ mempool) block = elim (ltb block.tx_count max_tx_per_block) [
  | false ↦ returns block
  | true ↦ do
    balance ← chain_get_balance (chains i) tx.sender
    elim (is_affordable balance tx) [
      | true ↦ collect chains (suc i) mempool (include_tx block tx)
      | false ↦ collect chains (suc i) mempool block
    ]
]

-- What `do_mine` leaves behind: the chain, the mempool, and the block that was broadcast, if any.
pub record Mined : Type 0 where
  pub chain : Blockchain
  pub mempool : List Tx
  pub broadcast : Option Block

abbrev pub finish_mining : Block → Status × Blockchain → Mined
finish_mining block (success, chain) = record {
  chain = chain;
  mempool = [];
  broadcast = some block;
}
finish_mining block (failure, chain) = record { chain = chain; mempool = []; broadcast = none }

-- What `do_send` leaves behind: the mempool, and the transaction that was broadcast, if any.
pub record Sent : Type 0 where
  pub mempool : List Tx
  pub broadcast : Option Tx

module _ (H : Sha256) where
  -- The coinbase with the fees.
  unfoldable pub reward : Bytes → ℕ → Tx
  reward address total_fees =
      let coinbase = tx_create_coinbase H address in
      tx_compute_hash H (record coinbase { amount = (coinbase.amount + total_fees) % 2 ^ 64 })

  -- The new block before it is mined.
  unfoldable pub new_block : Block → ℤ → Bytes → Collected → Block
  new_block last now address c = record zero_block {
    index = (last.index + 1) % 2 ^ 32;
    timestamp = now;
    prev_hash = strncpy last.hash hash_hex_len;
    transactions = set c.transactions 0 (reward address c.total_fees);
    tx_count = pos c.tx_count;
  }

  -- The first half of `do_mine`, up to the animations: the chain is `seen` when its last block is
  -- read, and `chains` while the transactions are chosen.
  unfoldable pub prepare_block : ℤ → Bytes → Blockchain → (ℕ → Blockchain) → List Tx → Run Block
  prepare_block now address seen chains mempool = do
    last ← deref (chain_last_block seen)
    c ←
        collect chains 0 mempool
          (record { transactions = zero_block.transactions; tx_count = 1; total_fees = 0 })
    returns (new_block last now address c)

  -- The second half: the chain is `current` when the block is added.
  unfoldable pub mine_and_add : ℕ → Blockchain → Block → Run Mined
  mine_and_add fuel current block = do
    mined ← block_mine H fuel block
    added ← chain_add_block H current mined.1
    returns (finish_mining mined.1 added)

  -- `do_mine` at the time `now`. The mempool, emptied in its first half, is that of its result when
  -- no transaction arrives in its second half.
  unfoldable pub do_mine :
      ℕ → ℤ → Bytes → Blockchain → (ℕ → Blockchain) → Blockchain → List Tx → Run Mined
  unfolding prepare_block mine_and_add
  do_mine fuel now address seen chains current mempool = do
    block ← prepare_block now address seen chains mempool
    mine_and_add fuel current block

  -- The end of `do_send`, with the signed transaction.
  unfoldable pub submit : List Tx → Status × Tx → Sent
  unfolding on_new_tx
  submit mempool (failure, tx) = record { mempool = mempool; broadcast = none }
  submit mempool (success, tx) = record { mempool = on_new_tx mempool tx; broadcast = some tx }

  -- `do_send` once its three inputs have been read.
  unfoldable pub do_send :
      (E : Ed25519) → Wallet E → Blockchain → List Tx → Bytes → ℕ → ℕ → Run Sent
  do_send E wallet chain mempool receiver amount fee = elim (ltb fee min_tx_fee) [
    | true ↦ returns (record { mempool = mempool; broadcast = none })
    | false ↦ do
      balance ← chain_get_balance chain wallet.address
      let poor = ltb_ℤ balance (signed64 (total_cost amount fee))
      elim poor [
        | true ↦ returns (record { mempool = mempool; broadcast = none })
        | false ↦ returns (
            submit mempool
              (wallet_sign_tx E wallet (tx_create H wallet.address receiver amount fee)))
      ]
  ]
