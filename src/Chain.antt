-- ===== src/Chain.antt =====
-- src/chain.c and include/chain.h: the blockchain. Each function that takes the mutex is one step:
-- it holds the lock from its first read to its last write.
pub mod Valid
pub mod Add
pub mod Replace
pub mod Invariant
pub mod History
pub mod Sums
pub mod Balance
pub mod Accounts
pub mod Unchecked
use mini_coin_slovak.Base.{
  ℕ, zero, suc, ◌+◌, ◌-◌, ◌%◌, ◌^◌, Bool, true, false, not, ◌&&◌, Option, none, some, List, leb,
  ltb, ◌==◌, if◌then◌else◌, get_elem?,
}
use mini_coin_slovak.Base.Int.{ℤ, pos, negsuc, pos_part, ◌+ℤ◌, ◌-ℤ◌, leb_ℤ, ltb_ℤ, signed64}
use mini_coin_slovak.Block.{Block, zero_block, block_validate, block_create_genesis}
use mini_coin_slovak.CLib.{Bytes, str_eq}
use mini_coin_slovak.Run.{Run, returns, undefined, ◌>>=◌, deref, Status, success, failure}
use mini_coin_slovak.Sha256.{Sha256}
use mini_coin_slovak.Tx.{Tx}

unfoldable pub max_blocks : ℕ
max_blocks = 10000

-- `blockchain_t` without its mutex: `blocks` is the array of `max_blocks` blocks, by index.
pub record Blockchain : Type 0 where
  pub blocks : ℕ → Block
  pub length : ℕ

-- `blocks[i] = b`
abbrev pub write : (ℕ → Block) → ℕ → Block → ℕ → Block
write blocks i b j = if j == i then b else blocks j

abbrev pub copy : ℕ → (ℕ → Block) → (ℕ → Block) → ℕ → Block
copy n from to i = if ltb i n then from i else to i

-- `balance += x` and `balance -= x` on an `int64_t`, where an overflow is undefined.
pub int64 : ℤ → Run ℤ
int64 z = if ltb_ℤ z (pos (2 ^ 63)) && leb_ℤ (negsuc (2 ^ 63 - 1)) z then returns z else undefined

unfoldable pub chain_last_block : Blockchain → Option Block
chain_last_block chain = if chain.length == 0 then none else some (chain.blocks (chain.length - 1))

-- What one transaction does to the balance of `addr`: as its receiver, and as its sender.
pub credit : Bytes → Tx → ℤ → Run ℤ
credit addr tx balance =
    if str_eq tx.receiver addr then int64 (balance +ℤ signed64 tx.amount) else returns balance

pub debit : Bytes → Tx → ℤ → Run ℤ
debit addr tx balance =
    if str_eq tx.sender addr
    then int64 (balance -ℤ signed64 ((tx.amount + tx.fee) % 2 ^ 64))
    else returns balance

pub apply_tx : Bytes → Tx → ℤ → Run ℤ
apply_tx addr tx balance = do credited ← credit addr tx balance; debit addr tx credited

-- The inner loop of `chain_get_balance`, with `rounds` transactions left from the slot `j` on.
pub balance_of_txs : ℕ → ℕ → List Tx → Bytes → ℤ → Run ℤ
balance_of_txs zero j txs addr balance = returns balance
balance_of_txs (suc rounds) j txs addr balance = do
  tx ← deref (get_elem? txs j)
  balance' ← apply_tx addr tx balance
  balance_of_txs rounds (suc j) txs addr balance'

-- The outer loop, with `rounds` blocks left from the block `i` on.
pub balance_of_blocks : ℕ → ℕ → (ℕ → Block) → Bytes → ℤ → Run ℤ
balance_of_blocks zero i blocks addr balance = returns balance
balance_of_blocks (suc rounds) i blocks addr balance = do
  balance' ← balance_of_txs (pos_part (blocks i).tx_count) 0 (blocks i).transactions addr balance
  balance_of_blocks rounds (suc i) blocks addr balance'

pub chain_get_balance : Blockchain → Bytes → Run ℤ
chain_get_balance chain addr = balance_of_blocks chain.length 0 chain.blocks addr (pos 0)

module _ (H : Sha256) where
  unfoldable pub chain_init : ℕ → Run Blockchain
  chain_init fuel = do
    genesis ← block_create_genesis H fuel
    returns (record { blocks = write (λ i. zero_block) 0 genesis; length = 1 })

  unfoldable pub chain_add_block : Blockchain → Block → Run (Status × Blockchain)
  unfolding max_blocks
  chain_add_block chain block = if leb max_blocks chain.length then returns (failure, chain) else do
    last ← deref (chain_last_block chain)
    if not (block.index == (last.index + 1) % 2 ^ 32)
        then returns (failure, chain)
        else if not (str_eq block.prev_hash last.hash)
        then returns (failure, chain)
        else do
          status ← block_validate H block
          elim status [
            | failure ↦ returns (failure, chain)
            | success ↦ returns (
              success,
              record { blocks = write chain.blocks chain.length block; length = chain.length + 1 },
            )
          ]

  -- The loop of `chain_validate`, with `rounds` blocks left from the block `i` on.
  pub validate_from : ℕ → ℕ → (ℕ → Block) → Run Status
  validate_from zero i blocks = returns success
  validate_from (suc rounds) i blocks =
      let rest = validate_from rounds (suc i) blocks in
      if not (str_eq (blocks i).prev_hash (blocks (i - 1)).hash) then returns failure else do
        status ← block_validate H (blocks i)
        elim status [ failure ↦ returns failure | success ↦ rest ]

  pub chain_validate : Blockchain → Run Status
  chain_validate chain = validate_from (chain.length - 1) 1 chain.blocks

  -- More blocks than the array holds would be written past its end.
  pub chain_replace : Blockchain → Blockchain → Run (Status × Blockchain)
  unfolding max_blocks
  chain_replace chain other = if leb other.length chain.length then returns (failure, chain) else do
    status ← chain_validate other
    elim status [
      | failure ↦ returns (failure, chain)
      | success ↦
          (if ltb max_blocks other.length
            then undefined
            else returns (
              success,
              record {
                blocks = copy other.length other.blocks chain.blocks;
                length = other.length;
              },
            ))
    ]
