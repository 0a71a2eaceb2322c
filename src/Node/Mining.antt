-- ===== src/Node/Mining.antt =====
-- What `do_mine` of src/main.c does while no other thread changes the chain.
use mini_coin_slovak.Base.{
  ℕ, zero, suc, ◌+◌, ◌-◌, ◌%◌, ◌^◌, ◌<◌, ◌≤◌, ◌≡◌, refl, ap, ◌∙◌, subst, some, List, [], ◌∷◌, arith,
  length, length-take, take, take-all, replicate, Bool-cases, inl, inr, All,
}
use native.Mathlib.Nat.{zero-add}
use mini_coin_slovak.Base.Int.{ℤ, pos}
use mini_coin_slovak.Block.{Block, zero_block, block_mine}
use mini_coin_slovak.Block.Mine.{IsProof, mined, block_mine-least, mined-IsWellFormed}
use mini_coin_slovak.Block.Text.{IsWellFormed}
use mini_coin_slovak.Block.Validate.{IsMined, block_validate-success}
use mini_coin_slovak.Chain.{Blockchain, max_blocks, chain_add_block, chain_last_block}
use mini_coin_slovak.Chain.Add.{
  last_block, extend, Accepts, chain_add_block-Accepts, chain_last_block_lem,
}
use mini_coin_slovak.Chain.Invariant.{IsSound, chain_add_block-IsSound}
use mini_coin_slovak.CLib.{Bytes}
use mini_coin_slovak.Node.{
  reward, new_block, do_mine, prepare_block, mine_and_add, Mined, Collected, collect,
}
use mini_coin_slovak.Node.Collect.{
  fees, filled, covers, affordable, AreBalances, HaveSmallCosts, collected, so_far, collect_lem,
}
use mini_coin_slovak.Node.Reward.{coinbase, reward-coinbase}
use mini_coin_slovak.Run.{returns, deref, success, >>=-returns}
use mini_coin_slovak.Sha256.{Sha256}
use mini_coin_slovak.Tx.{Tx, zero_tx, tx_create_coinbase}
use mini_coin_slovak.Tx.Hash.{length-tx_hash}

-- Hashes fit their arrays.
abbrev pub HaveHashes : List Tx → Type 0
HaveHashes = All (λ (tx : Tx). length tx.tx_hash ≤ 64)

length-filled : (txs slots : List Tx) → length (filled txs slots) ≡ length slots
length-filled [] slots = refl
length-filled (tx ∷ txs) [] = refl
length-filled (tx ∷ txs) (b ∷ slots) = ap suc (length-filled txs slots)

filled-HaveHashes :
    (txs slots : List Tx) → HaveHashes txs → HaveHashes slots → HaveHashes (filled txs slots)
filled-HaveHashes [] slots h hs = hs
filled-HaveHashes (tx ∷ txs) [] h hs = tt
filled-HaveHashes (tx ∷ txs) (b ∷ slots) h hs = (h.0, filled-HaveHashes txs slots h.1 hs.1)

HaveHashes-zeroes : (n : ℕ) → HaveHashes (replicate n zero_tx)
HaveHashes-zeroes zero = tt
HaveHashes-zeroes (suc n) = (omega arith, HaveHashes-zeroes n)

take-HaveHashes : (n : ℕ) (txs : List Tx) → HaveHashes txs → HaveHashes (take n txs)
take-HaveHashes zero txs h = tt
take-HaveHashes (suc n) [] h = tt
take-HaveHashes (suc n) (tx ∷ txs) h = (h.0, take-HaveHashes n txs h.1)

affordable-HaveHashes :
    (bal : ℕ → ℤ) (i : ℕ) (txs : List Tx) → HaveHashes txs → HaveHashes (affordable bal i txs)
affordable-HaveHashes bal i [] h = tt
affordable-HaveHashes bal i (tx ∷ txs) h = elim (Bool-cases (covers (bal i) tx)) [
  | inl pays ↦ rw (pays) (h.0, affordable-HaveHashes bal (suc i) txs h.1)
  | inr poor ↦ rw (poor) (affordable-HaveHashes bal (suc i) txs h.1)
]

module _ (H : Sha256) (c : Blockchain) (bal : ℕ → ℤ) (now : ℤ) (address : Bytes)
    (mempool : List Tx) where
  -- The first nine transactions of the mempool whose amount and fee their senders' balances cover.
  abbrev pub paid : List Tx
  paid = take 9 (affordable bal 0 mempool)

  -- The block that is to be mined: behind the last block of the chain, with a coinbase that carries
  -- the fees, and with the transactions that are paid.
  abbrev pub candidate : Block
  candidate = record {
    index = ((last_block c).index + 1) % 2 ^ 32;
    timestamp = now;
    transactions = filled (coinbase H address (fees paid % 2 ^ 64) ∷ paid) zero_block.transactions;
    tx_count = pos (1 + length paid);
    prev_hash = (last_block c).hash;
    nonce = 0;
    hash = [];
  }

  new_block-candidate :
      length (last_block c).hash ≤ 64
      → new_block H
          (last_block c)
          now
          address
          (collected (λ i. c) bal (zero_tx ∷ []) (replicate 9 zero_tx) 1 0 paid)
        ≡ candidate
  unfolding new_block
  new_block-candidate fits =
      rw
        (
          take-all 65 (last_block c).hash (omega arith),
          zero-add,
          reward-coinbase H address (fees paid % 2 ^ 64),
        )
        refl

  length-reward : (f : ℕ) → length (reward H address f).tx_hash ≤ 64
  unfolding reward
  length-reward f =
      let coinbase = tx_create_coinbase H address in
      omega (arith, length-tx_hash H (record coinbase { amount = (coinbase.amount + f) % 2 ^ 64 }))

  candidate-IsWellFormed :
      HaveHashes mempool → length (last_block c).hash ≤ 64 → IsWellFormed candidate
  candidate-IsWellFormed hashes fits = record {
    slots = length-filled (coinbase H address (fees paid % 2 ^ 64) ∷ paid) zero_block.transactions;
    count = omega (arith, length-take 9 (affordable bal 0 mempool));
    prev_fits = fits;
    hash_fits = omega arith;
    hashes_fit =
        filled-HaveHashes (coinbase H address (fees paid % 2 ^ 64) ∷ paid) zero_block.transactions
          (
            subst (λ (tx : Tx). length tx.tx_hash ≤ 64)
                (reward-coinbase H address (fees paid % 2 ^ 64))
                (length-reward (fees paid % 2 ^ 64)),
            take-HaveHashes 9 (affordable bal 0 mempool)
                (affordable-HaveHashes bal 0 mempool hashes),
          )
          (HaveHashes-zeroes 10);
  }

  mined-Accepts :
      (n : ℕ)
      → c.length < max_blocks
      → IsMined H (mined H candidate n)
      → Accepts H c (mined H candidate n)
  mined-Accepts n room m = record { room = room; next_index = refl; linked = refl; is_mined = m }

  added :
      (b : Block)
      → IsSound H c
      → IsWellFormed b
      → Accepts H c b
      → chain_add_block H c b ≡ returns (success, extend c b)
  added b sound wf a = elim (chain_add_block-Accepts H c b sound.stored wf) [
    | inl (_, done, _) ↦ done
    | inr (refuses, _) ↦ absurd (refuses a)
  ]

  abbrev pub extended : Block → Mined
  extended b = record { chain = extend c b; mempool = []; broadcast = some b }

  do_mine_runs :
      (fuel : ℕ) (b : Block) {col : Collected} {attempts : ℕ}
      → chain_last_block c ≡ some (last_block c)
      → collect (λ i. c) 0 mempool (so_far (λ i. c) bal (zero_tx ∷ []) (replicate 9 zero_tx) 1 0)
        ≡ returns col
      → block_mine H fuel (new_block H (last_block c) now address col) ≡ returns (attempts, b)
      → chain_add_block H c b ≡ returns (success, extend c b)
      → do_mine H fuel now address c (λ i. c) c mempool ≡ returns (extended b)
  unfolding do_mine prepare_block mine_and_add
  do_mine_runs fuel b l k m a =
      >>=-returns (mine_and_add H fuel c) (>>=-returns _ (ap deref l) ∙ >>=-returns _ k)
      ∙ >>=-returns _ m
      ∙ >>=-returns _ a

  pub do_mine-IsSound :
      (fuel n : ℕ)
      → IsSound H c
      → c.length < max_blocks
      → HaveHashes mempool
      → AreBalances (λ i. c) bal 0 mempool
      → HaveSmallCosts mempool
      → n < fuel
      → n < 2 ^ 64
      → ((k : ℕ) → k < n → ¬ IsProof H candidate k)
      → IsProof H candidate n
      → (do_mine H fuel now address c (λ i. c) c mempool ≡ returns (extended (mined H candidate n)))
        × IsSound H (extend c (mined H candidate n))
  do_mine-IsSound fuel n sound room hashes known costs enough small none_before proof =
      let b = mined H candidate n in
      let fits =
        (sound.stored.blocks_fit (c.length - 1) (omega (arith, sound.stored.ne_empty))).hash_fits in
      let wf = candidate-IsWellFormed hashes fits in
      let wf' = mined-IsWellFormed H candidate wf n in
      let (stops, passes) = block_mine-least H candidate wf fuel n enough small none_before proof in
      let a = mined-Accepts n room (block_validate-success H b wf' passes) in
      let done = added b sound wf' a in
      (
        do_mine_runs fuel b (chain_last_block_lem c sound.stored.ne_empty)
            (collect_lem (λ i. c) bal 0 1 0 mempool (zero_tx ∷ []) (replicate 9 zero_tx) known costs
              refl refl (omega arith))
            (ap (block_mine H fuel) (new_block-candidate fits) ∙ stops) done,
        (chain_add_block-IsSound H c b sound wf' done).0,
      )
