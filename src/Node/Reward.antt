-- ===== src/Node/Reward.antt =====
-- The coinbase that `do_mine` of src/main.c makes.
use mini_coin_slovak.Base.{ℕ, ◌+◌, ◌%◌, ◌^◌, ◌≡◌, refl, ap, ◌++◌, take, arith, length-take}
use mini_coin_slovak.CLib.{Bytes, codes, hex, decimal}
use mini_coin_slovak.Node.{reward}
use mini_coin_slovak.Sha256.{Sha256}
use mini_coin_slovak.Tx.{Tx, coinbase_addr, tx_create_coinbase, tx_compute_hash}
use mini_coin_slovak.Tx.Hash.{
  IsCreated, HasAddresses, tx_compute_hash-IsHashed, length-tx_hash, tx_create_coinbase-IsCreated,
}

-- The coinbase of a new block pays 50 coins and the fees (modulo 2^64) from "COINBASE" to the miner,
-- cut to 64 bytes, with no fee of its own and "COINBASE" for a signature; its hash has 64 digits and
-- covers the raised amount.
pub reward-IsCreated :
    (H : Sha256) (address : Bytes) (total_fees : ℕ)
    → IsCreated H coinbase_addr address ((50 + total_fees) % 2 ^ 64) 0 (reward H address total_fees)
      × ((reward H address total_fees).signature ≡ coinbase_addr)
unfolding reward tx_compute_hash tx_create_coinbase
reward-IsCreated H address total_fees =
    let base = (tx_create_coinbase-IsCreated H address).0 in
    let raised : Tx = record (tx_create_coinbase H address) {
      amount = (50 + total_fees) % 2 ^ 64;
    } in
    let fits : HasAddresses raised = record {
      sender_fits = omega arith;
      receiver_fits = omega (arith, length-take 64 address);
    } in
    (
      record {
        sender_is = refl;
        receiver_is = refl;
        amount_is = refl;
        fee_is = refl;
        is_hashed = tx_compute_hash-IsHashed H raised fits;
        hash_length = length-tx_hash H raised;
      },
      refl,
    )

-- The coinbase, with every field written out.
abbrev pub coinbase : Sha256 → Bytes → ℕ → Tx
coinbase H address total_fees =
    let amount = (50 + total_fees) % 2 ^ 64 in
    record {
      sender = codes "COINBASE";
      receiver = take 64 address;
      amount = amount;
      fee = 0;
      signature = codes "COINBASE";
      tx_hash =
          hex (H.digest (codes "COINBASE" ++ (take 64 address ++ (decimal amount ++ decimal 0))));
    }

pub reward-coinbase :
    (H : Sha256) (address : Bytes) (total_fees : ℕ)
    → reward H address total_fees ≡ coinbase H address total_fees
unfolding reward tx_compute_hash tx_create_coinbase
reward-coinbase H address total_fees =
    ap (λ (h : Bytes). record (coinbase H address total_fees) { tx_hash = h })
      (reward-IsCreated H address total_fees).0.is_hashed
