-- ===== src/Tests/Blocks.antt =====
-- src/block.c on blocks that can be followed by hand.
use mini_coin_slovak.Base.{ℕ, zero, suc, ◌<◌, ◌^◌, ◌≡◌, refl, [], ◌∷◌, arith, replicate, set}
use mini_coin_slovak.Base.Int.{pos}
use mini_coin_slovak.Block.{
  Block, zero_block, genesis_start, append_tx_hashes, block_text, block_compute_hash, block_mine,
  mine_loop, block_validate,
}
use mini_coin_slovak.Block.Genesis.{IsGenesisNonce}
use mini_coin_slovak.Block.Mine.{
  mined-IsWellFormed, IsProof, with_nonce, mined, block_mine-least, block_mine-diverges,
}
use mini_coin_slovak.Block.Overrun.{block_validate-undefined}
use mini_coin_slovak.Block.Text.{IsWellFormed, block_hash, block_compute_hash-eq-block_hash}
use mini_coin_slovak.Block.Validate.{not-MeetsTarget, block_validate-SameHashes}
use mini_coin_slovak.CLib.{decimal, decimal_ℤ, digits, hex}
use mini_coin_slovak.Run.{returns, undefined, out_of_fuel, success}
use mini_coin_slovak.Tests.Digests.{sum_sha256, constant_sha256}
use mini_coin_slovak.Tx.{Tx, zero_tx}

abbrev pub payment : ℕ → Tx
payment amount = record zero_tx {
  sender = b'a' ∷ [];
  receiver = b'b' ∷ [];
  amount = amount;
  tx_hash = b'7' ∷ [];
}

-- The block after the genesis block, with one transaction.
abbrev pub second_start : ℕ → Block
second_start amount = record zero_block {
  index = 1;
  timestamp = pos 170000006;
  transactions = set zero_block.transactions 0 (payment amount);
  tx_count = pos 1;
  prev_hash = replicate 64 b'0';
}

pub second_start-IsWellFormed : IsWellFormed (second_start 5)
second_start-IsWellFormed = omega arith

mining :
    block_mine sum_sha256 1000 (second_start 5) ≡ returns (3, mined sum_sha256 (second_start 5) 2)
unfolding block_mine mine_loop block_compute_hash block_text append_tx_hashes decimal decimal_ℤ
    digits hex
mining = refl

abbrev pub second : Block
second = mined sum_sha256 (second_start 5) 2

pub second-IsWellFormed : IsWellFormed second
second-IsWellFormed = mined-IsWellFormed sum_sha256 (second_start 5) second_start-IsWellFormed 2

block_compute_hash-eq-block_hash_example :
    block_compute_hash sum_sha256 second ≡ returns (block_hash sum_sha256 second)
block_compute_hash-eq-block_hash_example =
    block_compute_hash-eq-block_hash sum_sha256 second second-IsWellFormed

-- The amount of a validated payment, raised from 5 to 5000.
block_validate-SameHashes_example :
    block_validate sum_sha256 (record second { transactions = (second_start 5000).transactions })
    ≡ block_validate sum_sha256 second
block_validate-SameHashes_example =
    block_validate-SameHashes sum_sha256 second (second_start 5000).transactions (ground arith)

none_before_2 : (k : ℕ) → k < 2 → ¬ IsProof sum_sha256 (second_start 5) k
unfolding hex decimal decimal_ℤ digits
none_before_2 zero h = not-MeetsTarget (block_hash sum_sha256 (with_nonce (second_start 5) 0)) refl
none_before_2 (suc zero) h =
    not-MeetsTarget (block_hash sum_sha256 (with_nonce (second_start 5) 1)) refl
none_before_2 (suc (suc k)) h = absurd (omega arith)

second_start-IsProof : IsProof sum_sha256 (second_start 5) 2
unfolding hex decimal decimal_ℤ digits
second_start-IsProof = (replicate 62 b'0', refl)

block_mine-least_example :
    (block_mine sum_sha256 1000 (second_start 5) ≡ returns (3, second))
    × (block_validate sum_sha256 second ≡ returns success)
block_mine-least_example =
    block_mine-least sum_sha256 (second_start 5) second_start-IsWellFormed 1000 2 (omega arith)
      (omega arith) none_before_2 second_start-IsProof

second_start-not-IsProof : (k : ℕ) → k < 2 ^ 64 → ¬ IsProof constant_sha256 (second_start 5) k
unfolding hex
second_start-not-IsProof k h =
    not-MeetsTarget (block_hash constant_sha256 (with_nonce (second_start 5) k)) refl

block_mine-diverges_example : block_mine constant_sha256 70 (second_start 5) ≡ out_of_fuel
block_mine-diverges_example =
    block_mine-diverges constant_sha256 (second_start 5) second_start-IsWellFormed
      second_start-not-IsProof 70

block_validate-undefined_example :
    block_validate sum_sha256 (record (second_start 5) { tx_count = pos 11 }) ≡ undefined
block_validate-undefined_example =
    block_validate-undefined sum_sha256 (record (second_start 5) { tx_count = pos 11 }) refl
      (omega arith) (omega arith) (omega arith)

genesis_none_before : (k : ℕ) → k < 1 → ¬ IsProof sum_sha256 genesis_start k
unfolding hex decimal decimal_ℤ digits
genesis_none_before zero h =
    not-MeetsTarget (block_hash sum_sha256 (with_nonce genesis_start 0)) refl
genesis_none_before (suc k) h = absurd (omega arith)

genesis_start-IsProof : IsProof sum_sha256 genesis_start 1
unfolding hex decimal decimal_ℤ digits
genesis_start-IsProof = (replicate 62 b'0', refl)

pub genesis_nonce : IsGenesisNonce sum_sha256 1
genesis_nonce = (omega arith, genesis_none_before, genesis_start-IsProof)
