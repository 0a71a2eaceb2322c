-- ===== src/Block/Genesis.antt =====
-- The first block of every chain: `block_create_genesis` (src/block.c).
use mini_coin_slovak.Base.{ℕ, ◌<◌, ◌^◌, ◌≡◌, arith}
use mini_coin_slovak.Run.{returns}
use mini_coin_slovak.Sha256.{Sha256}
use mini_coin_slovak.Block.{Block, genesis_start, block_create_genesis}
use mini_coin_slovak.Block.Text.{IsWellFormed}
use mini_coin_slovak.Block.Mine.{IsProof, mined, block_mine-least}

pub genesis_start-IsWellFormed : IsWellFormed genesis_start
genesis_start-IsWellFormed = omega arith

module _ (H : Sha256) where
  -- The genesis block that has the nonce `n`.
  abbrev pub genesis : ℕ → Block
  genesis = mined H genesis_start

  -- `n` is the nonce at which the search for the genesis block stops.
  abbrev pub IsGenesisNonce : ℕ → Type 0
  IsGenesisNonce n =
      (n < 2 ^ 64) × ((k : ℕ) → k < n → ¬ IsProof H genesis_start k) × IsProof H genesis_start n

  pub block_create_genesis_lem :
      (fuel n : ℕ) → n < fuel → IsGenesisNonce n → block_create_genesis H fuel ≡ returns (genesis n)
  unfolding block_create_genesis
  block_create_genesis_lem fuel n enough (small, none_before, proof) =
      rw
        (block_mine-least H genesis_start genesis_start-IsWellFormed fuel n enough small none_before
          proof).0
