-- ===== src/Tests/Chains.antt =====
-- src/chain.c on chains of one and of two blocks.
use mini_coin_slovak.Base.{ℕ, zero, suc, ◌≤◌, ◌<◌, ◌++◌, ◌≡◌, refl, ◌⊎◌, [], ◌∷◌, arith}
use mini_coin_slovak.Base.Int.{pos, ◌-ℤ◌}
use mini_coin_slovak.Block.{
  zero_block, block_text, append_tx_hashes, block_compute_hash, block_validate, genesis_start,
}
use mini_coin_slovak.Block.Genesis.{genesis, genesis_start-IsWellFormed}
use mini_coin_slovak.Block.Mine.{mined-IsWellFormed}
use mini_coin_slovak.Block.Text.{IsWellFormed}
use mini_coin_slovak.Chain.{
  Blockchain, write, chain_init, chain_add_block, chain_replace, chain_validate, chain_get_balance,
  max_blocks, chain_last_block,
}
use mini_coin_slovak.Chain.Add.{Accepts, extend, live, chain_add_block-Accepts}
use mini_coin_slovak.Chain.Balance.{chain_get_balance-net}
use mini_coin_slovak.Chain.History.{Step, Reach, Reach-IsSound}
use mini_coin_slovak.Chain.Invariant.{IsSound, chain_init-IsSound}
use mini_coin_slovak.Chain.Replace.{Wins, replaced, chain_replace-Wins}
use mini_coin_slovak.Chain.Unchecked.{recounted, chain_replace-recounted}
use mini_coin_slovak.Chain.Valid.{IsStored, IsValid, chain_validate-IsValid}
use mini_coin_slovak.CLib.{decimal, decimal_ℤ, digits, hex}
use mini_coin_slovak.Run.{returns, undefined, success, failure}
use mini_coin_slovak.Tests.Blocks.{second, second-IsWellFormed, genesis_nonce}
use mini_coin_slovak.Tests.Digests.{sum_sha256}

abbrev pub first_chain : Blockchain
first_chain = record { blocks = write (λ i. zero_block) 0 (genesis sum_sha256 1); length = 1 }

abbrev pub second_chain : Blockchain
second_chain = extend first_chain second

chain_init-IsSound_example :
    (c : Blockchain) × (chain_init sum_sha256 1000 ≡ returns c)
    × (live c ≡ genesis sum_sha256 1 ∷ [])
    × IsSound sum_sha256 c
chain_init-IsSound_example = chain_init-IsSound sum_sha256 1000 1 (omega arith) genesis_nonce

first_chain-fits : (i : ℕ) → i < 1 → IsWellFormed (first_chain.blocks i)
first_chain-fits zero h = mined-IsWellFormed sum_sha256 genesis_start genesis_start-IsWellFormed 1
first_chain-fits (suc i) h = absurd (omega arith)

first_chain-IsStored : IsStored first_chain
unfolding max_blocks
first_chain-IsStored = record {
  ne_empty = omega arith;
  fits = omega arith;
  blocks_fit = first_chain-fits;
}

pub first_chain-IsSound : IsSound sum_sha256 first_chain
first_chain-IsSound = record {
  stored = first_chain-IsStored;
  valid = λ i lo h. absurd (omega arith);
}

second_chain-fits : (i : ℕ) → i < 2 → IsWellFormed (second_chain.blocks i)
second_chain-fits zero h = first_chain-fits 0 (omega arith)
second_chain-fits (suc zero) h = second-IsWellFormed
second_chain-fits (suc (suc i)) h = absurd (omega arith)

pub second_chain-IsStored : IsStored second_chain
unfolding max_blocks
second_chain-IsStored = record {
  ne_empty = omega arith;
  fits = omega arith;
  blocks_fit = second_chain-fits;
}

adding : chain_add_block sum_sha256 first_chain second ≡ returns (success, second_chain)
unfolding chain_add_block chain_last_block block_validate block_compute_hash block_text
    append_tx_hashes decimal decimal_ℤ digits hex
adding = refl

chain_validate-IsValid_example :
    ((chain_validate sum_sha256 second_chain ≡ returns success) × IsValid sum_sha256 second_chain)
    ⊎ ((chain_validate sum_sha256 second_chain ≡ returns failure)
        × (¬ IsValid sum_sha256 second_chain))
chain_validate-IsValid_example =
    chain_validate-IsValid sum_sha256 second_chain second_chain-IsStored

chain_add_block-Accepts_example :
    (Accepts sum_sha256 first_chain second
      × (chain_add_block sum_sha256 first_chain second ≡ returns (success, second_chain))
      × (live second_chain ≡ live first_chain ++ (second ∷ [])))
    ⊎ ((¬ Accepts sum_sha256 first_chain second)
        × (chain_add_block sum_sha256 first_chain second ≡ returns (failure, first_chain)))
chain_add_block-Accepts_example =
    chain_add_block-Accepts sum_sha256 first_chain second first_chain-IsStored second-IsWellFormed

chain_replace-Wins_example :
    (Wins sum_sha256 first_chain second_chain
      × (chain_replace sum_sha256 first_chain second_chain
          ≡ returns (success, replaced first_chain second_chain))
      × (live (replaced first_chain second_chain) ≡ live second_chain))
    ⊎ ((¬ Wins sum_sha256 first_chain second_chain)
        × (chain_replace sum_sha256 first_chain second_chain ≡ returns (failure, first_chain)))
chain_replace-Wins_example =
    chain_replace-Wins sum_sha256 first_chain second_chain second_chain-IsStored

pub second_chain-IsSound : IsSound sum_sha256 second_chain
second_chain-IsSound =
    (Reach-IsSound first_chain-IsSound
      (Reach.next Reach.here (Step.adds second second-IsWellFormed adding))).0

Reach-IsSound_example : IsSound sum_sha256 second_chain × (1 ≤ 2)
Reach-IsSound_example =
    Reach-IsSound first_chain-IsSound
      (Reach.next Reach.here (Step.adds second second-IsWellFormed adding))

chain_get_balance-net_example :
    chain_get_balance second_chain (b'a' ∷ []) ≡ returns (pos 0 -ℤ pos 5)
chain_get_balance-net_example =
    chain_get_balance-net second_chain (b'a' ∷ []) second_chain-IsStored (omega arith)

second_chain-Wins : Wins sum_sha256 first_chain second_chain
second_chain-Wins = (omega arith, second_chain-IsSound.valid)

chain_replace-recounted_example :
    (chain_replace sum_sha256 first_chain (recounted second_chain (pos 11))
      ≡ returns (success, replaced first_chain (recounted second_chain (pos 11))))
    × (chain_get_balance (replaced first_chain (recounted second_chain (pos 11))) (b'a' ∷ [])
        ≡ undefined)
chain_replace-recounted_example =
    chain_replace-recounted sum_sha256 first_chain second_chain (pos 11) (b'a' ∷ [])
      second_chain-IsStored second_chain-Wins (omega arith)
