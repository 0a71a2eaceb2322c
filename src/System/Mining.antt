-- ===== src/System/Mining.antt =====
-- Mining while other threads change the chain (`do_mine` of src/main.c): whatever balances it sees, the
-- block that is made has the declared sizes.
use mini_coin_slovak.Base.{
  ℕ, zero, suc, ◌+◌, ◌-◌, ◌==◌, ◌%◌, ◌^◌, ◌<◌, ◌≤◌, ◌≡◌, refl, ◌∙◌, List, [], ◌∷◌, arith, length,
  length-set, length-take, ltb, ltb_iff, All, Bool-cases, inl, inr, take,
}
use mini_coin_slovak.Base.Int.{ℤ}
use mini_coin_slovak.Block.{
  Block, zero_block, max_tx_per_block, mining_difficulty, target, block_text, block_compute_hash,
  mine_loop, block_mine,
}
use mini_coin_slovak.Chain.{Blockchain, chain_last_block, chain_get_balance}
use mini_coin_slovak.CLib.{Bytes, hex, length-hex, strncmp_eq}
use mini_coin_slovak.Net.Outcome.{HasCount}
use mini_coin_slovak.Node.{
  Collected, include_tx, is_affordable, collect, reward, new_block, prepare_block,
}
use mini_coin_slovak.Node.Reward.{reward-IsCreated}
use mini_coin_slovak.Protocol.Bounds.{HasSizes}
use mini_coin_slovak.Protocol.BlockBounds.{HasBlockSizes, set-HasSizes, zero_block-HasBlockSizes}
use mini_coin_slovak.Protocol.ChainBounds.{HasChainSizes}
use mini_coin_slovak.Run.{
  returns, >>=-eq-returns, deref, WhenReturns, >>=-WhenReturns, when_returns,
}
use mini_coin_slovak.Sha256.{Sha256}
use mini_coin_slovak.Tx.{Tx}

-- What the loop over the mempool has collected fits into a block.
pub record IsCollected (c : Collected) : Type 0 where
  pub slots : length c.transactions ≡ 10
  pub fits : All HasSizes c.transactions
  pub count : c.tx_count ≤ 10

include_tx-IsCollected :
    (c : Collected) (tx : Tx)
    → IsCollected c
    → c.tx_count < 10
    → HasSizes tx
    → IsCollected (include_tx c tx)
include_tx-IsCollected c tx h room sizes = record {
  slots = length-set c.transactions c.tx_count tx ∙ h.slots;
  fits = set-HasSizes c.transactions c.tx_count tx h.fits sizes;
  count = omega arith;
}

collect-IsCollected :
    (chains : ℕ → Blockchain) (i : ℕ) (mempool : List Tx) (block : Collected)
    → All HasSizes mempool
    → IsCollected block
    → WhenReturns IsCollected (collect chains i mempool block)
unfolding collect
collect-IsCollected chains i [] block sizes h = h
collect-IsCollected chains i (tx ∷ mempool) block sizes h =
    elim (Bool-cases (ltb block.tx_count max_tx_per_block)) [
      | inr full ↦ rw (collect, full) h
      | inl room ↦
          rw (collect, room)
            (>>=-WhenReturns IsCollected (chain_get_balance (chains i) tx.sender) _
              (λ balance known. elim (Bool-cases (is_affordable balance tx)) [
                | inl pays ↦ rw pays (
                    collect-IsCollected chains (suc i) mempool (include_tx block tx) sizes.1
                      (include_tx-IsCollected block tx h ((ltb_iff _ _).0 room) sizes.0))
                | inr poor ↦ rw poor (collect-IsCollected chains (suc i) mempool block sizes.1 h)
              ]))
    ]

-- A block on its way: of the declared sizes, with no more transactions than slots.
pub record IsDraft (b : Block) : Type 0 where
  pub sizes : HasBlockSizes b
  pub count : HasCount b

last-HasBlockSizes :
    (c : Blockchain) → HasChainSizes c → WhenReturns HasBlockSizes (deref (chain_last_block c))
unfolding chain_last_block
last-HasBlockSizes c sizes = elim (Bool-cases (c.length == 0)) [
  | inl none_yet ↦ rw (chain_last_block, none_yet) tt
  | inr some_block ↦ rw (chain_last_block, some_block) (sizes.blocks_fit (c.length - 1))
]

module _ (H : Sha256) where
  reward-HasSizes : (address : Bytes) (fees : ℕ) → HasSizes (reward H address fees)
  reward-HasSizes address fees =
      let (made, signed) = reward-IsCreated H address fees in
      record {
        sender_fits = rw made.sender_is (omega arith);
        receiver_fits = rw made.receiver_is (omega (arith, length-take 64 address));
        amount_fits = rw made.amount_is (omega arith);
        fee_fits = rw made.fee_is (omega arith);
        signature_fits = rw signed (omega arith);
        hash_fits = omega (arith, made.hash_length);
      }

  new_block-IsDraft :
      (last : Block) (now : ℤ) (address : Bytes) (c : Collected)
      → HasBlockSizes last
      → IsCollected c
      → IsDraft (new_block H last now address c)
  unfolding new_block
  new_block-IsDraft last now address c sizes h = record {
    sizes = record {
      index_fits = omega arith;
      slots = length-set c.transactions 0 (reward H address c.total_fees) ∙ h.slots;
      txs_fit =
          set-HasSizes c.transactions 0 (reward H address c.total_fees) h.fits
            (reward-HasSizes address c.total_fees);
      prev_fits = omega (arith, length-take 65 last.hash, sizes.hash_fits);
      nonce_fits = omega arith;
      hash_fits = omega arith;
    };
    count = h.count;
  }

  -- Whatever the chain is when the balances are read, the block that is prepared has the declared sizes.
  pub prepare_block-IsDraft :
      (now : ℤ) (address : Bytes) (seen : Blockchain) (chains : ℕ → Blockchain) (mempool : List Tx)
      → HasChainSizes seen
      → All HasSizes mempool
      → WhenReturns IsDraft (prepare_block H now address seen chains mempool)
  unfolding prepare_block
  prepare_block-IsDraft now address seen chains mempool sizes fits =
      let start : Collected = record {
        transactions = zero_block.transactions;
        tx_count = 1;
        total_fees = 0;
      } in
      let start_fits : IsCollected start = record {
        slots = refl;
        fits = zero_block-HasBlockSizes.txs_fit;
        count = omega arith;
      } in
      >>=-WhenReturns IsDraft (deref (chain_last_block seen)) _ (λ last found.
        >>=-WhenReturns IsDraft (collect chains 0 mempool start) _ (λ c done.
          new_block-IsDraft last now address c
            (when_returns HasBlockSizes (last-HasBlockSizes seen sizes) found)
            (when_returns IsCollected (collect-IsCollected chains 0 mempool start fits start_fits)
              done)))

  hash_fits : (b : Block) {h : Bytes} → block_compute_hash H b ≡ returns h → length h ≡ 64
  unfolding block_compute_hash
  hash_fits b {h} e =
      let (text, _, made) = >>=-eq-returns (block_text b) _ e in
      let same : hex (H.digest text) ≡ h = cc in
      rw (← same) (omega (arith, length-hex (H.digest text), H.length-digest text))

  found-IsDraft :
      (b : Block) (h : Bytes) → length h ≡ 64 → IsDraft b → IsDraft (record b { hash = take 65 h })
  found-IsDraft b h long d = record {
    sizes = record {
      index_fits = d.sizes.index_fits;
      slots = d.sizes.slots;
      txs_fit = d.sizes.txs_fit;
      prev_fits = d.sizes.prev_fits;
      nonce_fits = d.sizes.nonce_fits;
      hash_fits = omega (arith, length-take 65 h);
    };
    count = d.count;
  }

  with_nonce-IsDraft :
      (b : Block) (n : ℕ) → n < 2 ^ 64 → IsDraft b → IsDraft (record b { nonce = n })
  with_nonce-IsDraft b n small d = record {
    sizes = record {
      index_fits = d.sizes.index_fits;
      slots = d.sizes.slots;
      txs_fit = d.sizes.txs_fit;
      prev_fits = d.sizes.prev_fits;
      nonce_fits = small;
      hash_fits = d.sizes.hash_fits;
    };
    count = d.count;
  }

  mine_loop-IsDraft :
      (fuel : ℕ) (b : Block) (attempts : ℕ)
      → IsDraft b
      → WhenReturns (λ (r : ℕ × Block). IsDraft r.1) (mine_loop H fuel b attempts)
  unfolding mine_loop
  mine_loop-IsDraft zero b attempts d = tt
  mine_loop-IsDraft (suc fuel) b attempts d =
      >>=-WhenReturns (λ (r : ℕ × Block). IsDraft r.1) (block_compute_hash H b) _
        (λ h computed. elim (Bool-cases (strncmp_eq mining_difficulty h target)) [
          | inl hit ↦ rw hit (found-IsDraft b h (hash_fits b computed) d)
          | inr miss ↦ rw miss (
              mine_loop-IsDraft fuel (record b { nonce = (b.nonce + 1) % 2 ^ 64 })
                ((attempts + 1) % 2 ^ 64)
                (with_nonce-IsDraft b ((b.nonce + 1) % 2 ^ 64) (omega arith) d))
        ])

  -- The block stays of the declared sizes when it is mined.
  pub block_mine-IsDraft :
      (fuel : ℕ) (b : Block)
      → IsDraft b
      → WhenReturns (λ (r : ℕ × Block). IsDraft r.1) (block_mine H fuel b)
  unfolding block_mine
  block_mine-IsDraft fuel b d =
      mine_loop-IsDraft fuel (record b { nonce = 0 }) 0 (with_nonce-IsDraft b 0 (omega arith) d)
