-- ===== src/Block.antt =====
-- src/block.c and include/block.h: blocks, their hashes, mining and validation.
pub mod Text
pub mod Validate
pub mod Mine
pub mod Overrun
pub mod Genesis
use mini_coin_slovak.Base.{
  ℕ, zero, suc, ◌+◌, ◌-◌, ◌^◌, ◌%◌, true, false, not, List, [], ◌++◌, ltb, if◌then◌else◌, replicate,
  get_elem?,
}
use mini_coin_slovak.Base.Int.{ℤ, pos, pos_part}
use mini_coin_slovak.CLib.{
  Bytes, str_eq, strncmp_eq, strncpy, Buffer, snprintf, decimal, decimal_ℤ, hex,
}
use mini_coin_slovak.Run.{Run, returns, out_of_fuel, ◌>>=◌, deref, Status, success, failure}
use mini_coin_slovak.Sha256.{Sha256}
use mini_coin_slovak.Tx.{Tx, zero_tx}

abbrev pub max_tx_per_block : ℕ
max_tx_per_block = 10

abbrev pub hash_hex_len : ℕ
hash_hex_len = 65

abbrev pub mining_difficulty : ℕ
mining_difficulty = 2

-- `block_t`: `transactions` is the whole array of `max_tx_per_block` slots, and `tx_count` the
-- `int` that says how many are in use.
pub record Block : Type 0 where
  pub index : ℕ
  pub timestamp : ℤ
  pub transactions : List Tx
  pub tx_count : ℤ
  pub prev_hash : Bytes
  pub nonce : ℕ
  pub hash : Bytes

-- `memset(&block, 0, sizeof(block))`
abbrev pub zero_block : Block
zero_block = record {
  index = 0;
  timestamp = pos 0;
  transactions = replicate max_tx_per_block zero_tx;
  tx_count = pos 0;
  prev_hash = [];
  nonce = 0;
  hash = [];
}

-- `memset(target, '0', MINING_DIFFICULTY)`
abbrev pub target : Bytes
target = replicate mining_difficulty b'0'

-- The loop over the transactions, with `rounds` of them left from the slot `i` on. A slot past
-- the end of the array is an undefined read.
unfoldable pub append_tx_hashes : ℕ → ℕ → List Tx → Buffer → Run Buffer
append_tx_hashes zero i txs buf = returns buf
append_tx_hashes (suc rounds) i txs buf = elim (ltb buf.offset (4096 - 65)) [
  | false ↦ returns buf
  | true ↦ do
    tx ← deref (get_elem? txs i)
    append_tx_hashes rounds (suc i) txs (snprintf 4096 buf tx.tx_hash)
]

-- What is hashed, in `char buf[4096]`: all fields but `hash`, and of the transactions their hashes.
unfoldable pub block_text : Block → Run Bytes
block_text block = do
  buf ← append_tx_hashes (pos_part block.tx_count) 0 block.transactions (
      snprintf 4096 (record { text = []; offset = 0 })
        (decimal block.index
          ++ (decimal_ℤ block.timestamp ++ (block.prev_hash ++ decimal block.nonce))))
  returns buf.text

-- The genesis block before it is mined.
abbrev pub genesis_start : Block
genesis_start = record zero_block {
  index = 0;
  timestamp = pos 1231006505;
  tx_count = pos 0;
  prev_hash = replicate 64 b'0';
}

module _ (H : Sha256) where
  unfoldable pub block_compute_hash : Block → Run Bytes
  block_compute_hash block = do text ← block_text block; returns (hex (H.digest text))

  -- The `do … while (1)` of `block_mine`: it returns the number of attempts, and the block with
  -- its nonce and its hash.
  unfoldable pub mine_loop : ℕ → Block → ℕ → Run (ℕ × Block)
  mine_loop zero block attempts = out_of_fuel
  mine_loop (suc fuel) block attempts = do
    hash ← block_compute_hash block
    let attempts' = (attempts + 1) % 2 ^ 64
    elim (strncmp_eq mining_difficulty hash target) [
      | true ↦ returns (attempts', record block { hash = strncpy hash hash_hex_len })
      | false ↦ mine_loop fuel (record block { nonce = (block.nonce + 1) % 2 ^ 64 }) attempts'
    ]

  unfoldable pub block_mine : ℕ → Block → Run (ℕ × Block)
  block_mine fuel block = mine_loop fuel (record block { nonce = 0 }) 0

  unfoldable pub block_validate : Block → Run Status
  block_validate block = do
    computed ← block_compute_hash block
    returns (
        if not (str_eq computed block.hash)
        then failure
        else if not (strncmp_eq mining_difficulty block.hash target)
        then failure
        else success)

  unfoldable pub block_create_genesis : ℕ → Run Block
  block_create_genesis fuel = do
    (attempts, genesis) ← block_mine fuel genesis_start
    returns genesis
