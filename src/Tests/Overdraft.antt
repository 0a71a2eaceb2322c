-- ===== src/Tests/Overdraft.antt =====
-- Mining two payments of "b", who has five coins, that cost nine together.
use mini_coin_slovak.Base.{ℕ, zero, suc, ◌<◌, ◌≡◌, refl, some, [], ◌∷◌, arith, replicate}
use mini_coin_slovak.Base.Int.{pos, negsuc}
use mini_coin_slovak.Block.{Block}
use mini_coin_slovak.Block.Mine.{IsProof, with_nonce, mined}
use mini_coin_slovak.Block.Text.{block_hash}
use mini_coin_slovak.Block.Validate.{not-MeetsTarget}
use mini_coin_slovak.Chain.{Blockchain, chain_get_balance, max_blocks}
use mini_coin_slovak.CLib.{codes, decimal, decimal_ℤ, digits, hex}
use mini_coin_slovak.Node.{do_mine}
use mini_coin_slovak.Node.Accounts.{both, do_mine-overdraws}
use mini_coin_slovak.Run.{returns}
use mini_coin_slovak.Tests.Chains.{second_chain, second_chain-IsSound}
use mini_coin_slovak.Tests.Nodes.{balance_of_b}
use mini_coin_slovak.Tests.Digests.{sum_sha256}
use mini_coin_slovak.Tx.{Tx}

-- Two payments that the five coins cover, but not together.
abbrev first_half : Tx
first_half = record {
  sender = codes "b";
  receiver = codes "a";
  amount = 3;
  fee = 1;
  signature = [];
  tx_hash = codes "ef";
}

abbrev second_half : Tx
second_half = record {
  sender = codes "b";
  receiver = codes "a";
  amount = 4;
  fee = 1;
  signature = [];
  tx_hash = codes "cd77";
}

abbrev overdrawn : Block
overdrawn = both sum_sha256 second_chain 5 (pos 170000007) (codes "m") first_half second_half

overdrawn_none_before : (k : ℕ) → k < 1 → ¬ IsProof sum_sha256 overdrawn k
unfolding hex decimal decimal_ℤ digits
overdrawn_none_before zero h = not-MeetsTarget (block_hash sum_sha256 (with_nonce overdrawn 0)) refl
overdrawn_none_before (suc k) h = absurd (omega arith)

overdrawn-IsProof : IsProof sum_sha256 overdrawn 1
unfolding hex decimal decimal_ℤ digits
overdrawn-IsProof = (replicate 62 b'0', refl)

do_mine-overdraws_example :
    (after : Blockchain) × (debt : ℕ) × (do_mine sum_sha256 1000
        (pos 170000007)
        (codes "m")
        second_chain
        (λ i. second_chain)
        second_chain
        (first_half ∷ second_half ∷ [])
      ≡ returns
          (record { chain = after; mempool = []; broadcast = some (mined sum_sha256 overdrawn 1) }))
    × (chain_get_balance after (codes "b") ≡ returns (negsuc debt))
unfolding max_blocks
do_mine-overdraws_example =
    do_mine-overdraws sum_sha256 second_chain 5 (pos 170000007) (codes "m") first_half second_half
      1000 1 second_chain-IsSound (omega arith) (omega arith) refl balance_of_b (omega arith)
      (omega arith) (omega arith) (omega arith) (omega arith) overdrawn_none_before
      overdrawn-IsProof (omega arith) (omega arith)
