-- ===== src/Tests/Nodes.antt =====
-- Mining and sending on a chain of two blocks, where "b" has five coins.
use mini_coin_slovak.Base.{ℕ, ◌≡◌, refl, ◌∙◌, ◌⊎◌, some, none, List, [], ◌∷◌, arith, length, set}
use mini_coin_slovak.Base.Int.{ℤ, pos, ◌-ℤ◌}
use mini_coin_slovak.Block.{Block, zero_block}
use mini_coin_slovak.Chain.{chain_get_balance}
use mini_coin_slovak.Chain.Balance.{chain_get_balance-net}
use mini_coin_slovak.CLib.{Bytes, codes}
use mini_coin_slovak.Node.{do_send, reward}
use mini_coin_slovak.Node.Mining.{candidate}
use mini_coin_slovak.Node.Reward.{coinbase, reward-IsCreated}
use mini_coin_slovak.Node.Sending.{
  CanPay, signed, sent, nothing, do_send-CanPay, do_send-overspends,
}
use mini_coin_slovak.Run.{returns}
use mini_coin_slovak.Tests.Chains.{second_chain, second_chain-IsStored}
use mini_coin_slovak.Tests.Keys.{toy_signature, toy_keys}
use mini_coin_slovak.Tests.Digests.{sum_sha256}
use mini_coin_slovak.Tx.{Tx, coinbase_addr}
use mini_coin_slovak.Tx.Hash.{IsCreated}
use mini_coin_slovak.Wallet.{Wallet}

-- The first payment is too much, the second is not.
abbrev waiting : List Tx
waiting =
    record {
      sender = codes "b";
      receiver = codes "a";
      amount = 9;
      fee = 1;
      signature = [];
      tx_hash = codes "00";
    }
    ∷ record {
      sender = codes "b";
      receiver = codes "a";
      amount = 3;
      fee = 1;
      signature = [];
      tx_hash = codes "ef";
    }
    ∷ []

abbrev bal : ℕ → ℤ
bal i = pos 5

pub balance_of_b : chain_get_balance second_chain (codes "b") ≡ returns (pos 5)
balance_of_b =
    chain_get_balance-net second_chain (codes "b") second_chain-IsStored (omega arith)
    ∙ (unfold ◌-ℤ◌ in refl)

abbrev third_start : Block
third_start = candidate sum_sha256 second_chain bal (pos 170000007) (codes "m") waiting

-- The payment of 9 is left out.
third_transactions :
    third_start.transactions
    ≡ set (set zero_block.transactions 0 (coinbase sum_sha256 (codes "m") 1)) 1 (record {
      sender = codes "b";
      receiver = codes "a";
      amount = 3;
      fee = 1;
      signature = [];
      tx_hash = codes "ef";
    })
third_transactions = refl

reward-IsCreated_example :
    IsCreated sum_sha256 coinbase_addr (codes "m") 53 0 (reward sum_sha256 (codes "m") 3)
    × ((reward sum_sha256 (codes "m") 3).signature ≡ coinbase_addr)
reward-IsCreated_example = reward-IsCreated sum_sha256 (codes "m") 3

abbrev wallet_of_b : Wallet toy_keys
wallet_of_b = record { keypair = tt; address = codes "b" }

do_send-CanPay_example :
    (CanPay (pos 5) 4 1
      × ((sig : Bytes) × (some toy_signature ≡ some sig)
          × (do_send sum_sha256 toy_keys wallet_of_b second_chain [] (codes "c") 4 1
              ≡ returns (sent sum_sha256 toy_keys wallet_of_b second_chain [] (codes "c") 4 1 sig))
          × IsCreated sum_sha256
              (codes "b")
              (codes "c")
              4
              1
              (signed sum_sha256 toy_keys wallet_of_b second_chain [] (codes "c") 4 1 sig)
          × (length
                (signed sum_sha256 toy_keys wallet_of_b second_chain []
                  (codes "c")
                  4
                  1
                  sig).signature
              ≡ 128)))
    ⊎ (((¬ CanPay (pos 5) 4 1) ⊎ (some toy_signature ≡ none))
        × (do_send sum_sha256 toy_keys wallet_of_b second_chain [] (codes "c") 4 1
            ≡ returns (nothing sum_sha256 toy_keys wallet_of_b second_chain [] (codes "c") 4 1)))
do_send-CanPay_example =
    do_send-CanPay sum_sha256 toy_keys wallet_of_b second_chain [] (codes "c") 4 1 (pos 5)
      balance_of_b

do_send-overspends_example :
    (do_send sum_sha256 toy_keys wallet_of_b second_chain [] (codes "c") 18446744073709551615 1
      ≡ returns (
          sent sum_sha256 toy_keys wallet_of_b second_chain []
            (codes "c")
            18446744073709551615
            1
            toy_signature))
    × ((signed sum_sha256 toy_keys wallet_of_b second_chain []
          (codes "c")
          18446744073709551615
          1
          toy_signature).amount
        ≡ 18446744073709551615)
do_send-overspends_example =
    do_send-overspends sum_sha256 toy_keys wallet_of_b second_chain [] (codes "c")
      18446744073709551615 1 5 toy_signature balance_of_b (omega arith) refl refl
