-- ===== src/Tx.antt =====
-- src/tx.c and include/tx.h: transactions.
pub mod Hash
use mini_coin_slovak.Base.{ℕ, ◌-◌, [], ◌∷◌, ◌++◌}
use mini_coin_slovak.CLib.{Bytes, strncpy, snprintf, decimal, hex}
use mini_coin_slovak.Sha256.{Sha256}

abbrev pub addr_len : ℕ
addr_len = 65

abbrev pub sig_len : ℕ
sig_len = 129

abbrev pub mining_reward : ℕ
mining_reward = 50

abbrev pub min_tx_fee : ℕ
min_tx_fee = 1

-- "COINBASE"
abbrev pub coinbase_addr : Bytes
coinbase_addr = b'C' ∷ b'O' ∷ b'I' ∷ b'N' ∷ b'B' ∷ b'A' ∷ b'S' ∷ b'E' ∷ []

-- `tx_t`; `amount` and `fee` are below 2 ^ 64.
pub record Tx : Type 0 where
  pub sender : Bytes
  pub receiver : Bytes
  pub amount : ℕ
  pub fee : ℕ
  pub signature : Bytes
  pub tx_hash : Bytes

-- `memset(&tx, 0, sizeof(tx))`
abbrev pub zero_tx : Tx
zero_tx = record { sender = []; receiver = []; amount = 0; fee = 0; signature = []; tx_hash = [] }

-- What is hashed: `snprintf(buf, sizeof(buf), "%s%s%lu%lu", …)` with `char buf[512]`.
unfoldable pub tx_text : Tx → Bytes
tx_text tx =
    (snprintf 512 (record { text = []; offset = 0 })
      (tx.sender ++ (tx.receiver ++ (decimal tx.amount ++ decimal tx.fee)))).text

module _ (H : Sha256) where
  unfoldable pub tx_compute_hash : Tx → Tx
  tx_compute_hash tx = record tx { tx_hash = hex (H.digest (tx_text tx)) }

  unfoldable pub tx_create_coinbase : Bytes → Tx
  tx_create_coinbase miner_addr = tx_compute_hash (record zero_tx {
    sender = strncpy coinbase_addr (addr_len - 1);
    receiver = strncpy miner_addr (addr_len - 1);
    amount = mining_reward;
    fee = 0;
    signature = coinbase_addr;
  })

  pub tx_create : Bytes → Bytes → ℕ → ℕ → Tx
  tx_create sender receiver amount fee = tx_compute_hash (record zero_tx {
    sender = strncpy sender (addr_len - 1);
    receiver = strncpy receiver (addr_len - 1);
    amount = amount;
    fee = fee;
  })
