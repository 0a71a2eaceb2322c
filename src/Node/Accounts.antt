-- ===== src/Node/Accounts.antt =====
-- What mining (`do_mine` of src/main.c) does to the balances.
use mini_coin_slovak.Base.{
  ℕ, zero, suc, ◌+◌, ◌%◌, ◌^◌, ◌<◌, ◌≤◌, ◌≡◌, refl, sym, subst, ap, ◌∙◌, true, some, List, [], ◌∷◌,
  arith, length, length-take, take,
}
use mini_coin_slovak.Base.Int.{ℤ, pos, negsuc, pos_part, neg_part, int_laws}
use mini_coin_slovak.Block.{Block, zero_block}
use mini_coin_slovak.Block.Mine.{IsProof, mined}
use mini_coin_slovak.Chain.{Blockchain, max_blocks, chain_get_balance}
use mini_coin_slovak.Chain.Accounts.{moved, chain_get_balance-extend}
use mini_coin_slovak.Chain.Add.{extend, live}
use mini_coin_slovak.Chain.Invariant.{IsSound}
use mini_coin_slovak.Chain.Sums.{used, volume, all_txs, received, spent}
use mini_coin_slovak.CLib.{Bytes, str_eq, str_eq_iff}
use mini_coin_slovak.Node.{do_mine}
use mini_coin_slovak.Node.Collect.{fees, filled, covers, affordable, AreBalances, HaveSmallCosts}
use mini_coin_slovak.Node.Mining.{HaveHashes, paid, candidate, do_mine-IsSound}
use mini_coin_slovak.Node.Reward.{coinbase}
use mini_coin_slovak.Run.{returns}
use mini_coin_slovak.Sha256.{Sha256}
use mini_coin_slovak.Tx.{Tx}

take-filled :
    (n : ℕ) (txs slots : List Tx)
    → n ≡ length txs
    → n ≤ length slots
    → take n (filled txs slots) ≡ txs
take-filled zero [] slots e h = refl
take-filled zero (tx ∷ txs) slots e h = absurd (omega arith)
take-filled (suc n) [] slots e h = absurd (omega arith)
take-filled (suc n) (tx ∷ txs) [] e h = absurd (omega arith)
take-filled (suc n) (tx ∷ txs) (b ∷ slots) e h =
    ap (◌∷◌ tx) (take-filled n txs slots (omega arith) (omega arith))

module _ (H : Sha256) (c : Blockchain) (bal : ℕ → ℤ) (now : ℤ) (address : Bytes)
    (mempool : List Tx) where
  -- The transactions of the new block.
  abbrev pub entered : List Tx
  entered =
      let txs = paid H c bal now address mempool in coinbase H address (fees txs % 2 ^ 64) ∷ txs

  used-mined : (n : ℕ) → used (mined H (candidate H c bal now address mempool) n) ≡ entered
  used-mined n =
      take-filled (1 + length (paid H c bal now address mempool)) entered zero_block.transactions
        (omega arith) (omega (arith, length-take 9 (affordable bal 0 mempool)))

  pub do_mine-moves :
      (fuel n : ℕ) (addr : Bytes)
      → IsSound H c
      → c.length < max_blocks
      → HaveHashes mempool
      → AreBalances (λ i. c) bal 0 mempool
      → HaveSmallCosts mempool
      → n < fuel
      → n < 2 ^ 64
      → ((k : ℕ) → k < n → ¬ IsProof H (candidate H c bal now address mempool) k)
      → IsProof H (candidate H c bal now address mempool) n
      → volume (all_txs (live c)) + volume entered < 2 ^ 63
      → (after : Blockchain) × (balance : ℤ) × (do_mine H fuel now address c (λ i. c) c mempool
          ≡ returns (record {
            chain = after;
            mempool = [];
            broadcast = some (mined H (candidate H c bal now address mempool) n);
          }))
        × (chain_get_balance c addr ≡ returns balance)
        × (chain_get_balance after addr ≡ returns (moved balance addr entered))
  do_mine-moves fuel n addr sound room hashes known costs enough small none_before proof bounded =
      let b = mined H (candidate H c bal now address mempool) n in
      let (done, sound') =
        do_mine-IsSound H c bal now address mempool fuel n sound room hashes known costs enough
          small none_before proof in
      let bounded' : volume (all_txs (live c)) + volume (used b) < 2 ^ 63 =
        rw (used-mined n) bounded in
      let (balance, before, later) =
        chain_get_balance-extend c b addr sound.stored sound'.stored bounded' in
      (
        extend c b,
        balance,
        done,
        before,
        later ∙ ap (λ txs. returns (moved balance addr txs)) (used-mined n),
      )

-- The block with a coinbase and two payments of the mempool, when the sender of both has `have`.
abbrev pub both : Sha256 → Blockchain → ℕ → ℤ → Bytes → Tx → Tx → Block
both H c have now address t u = candidate H c (λ i. pos have) now address (t ∷ u ∷ [])

-- The coinbase of that block, and the payments.
abbrev pub three : Sha256 → Bytes → Tx → Tx → List Tx
three H address t u = coinbase H address (fees (t ∷ u ∷ []) % 2 ^ 64) ∷ t ∷ u ∷ []

affordable-both :
    (have : ℕ) (t u : Tx)
    → t.amount + t.fee ≤ have
    → u.amount + u.fee ≤ have
    → have < 2 ^ 63
    → affordable (λ i. pos have) 0 (t ∷ u ∷ []) ≡ t ∷ u ∷ []
affordable-both have t u covers_t covers_u small =
    let pays_t : covers (pos have) t ≡ true = ground arith in
    let pays_u : covers (pos have) u ≡ true = ground arith in rw (pays_t, pays_u) refl

entered-both :
    (H : Sha256) (c : Blockchain) (have : ℕ) (now : ℤ) (address : Bytes) (t u : Tx)
    → affordable (λ i. pos have) 0 (t ∷ u ∷ []) ≡ t ∷ u ∷ []
    → entered H c (λ i. pos have) now address (t ∷ u ∷ []) ≡ three H address t u
entered-both H c have now address t u e = rw e refl

negative : (z : ℤ) → pos_part z < neg_part z → (debt : ℕ) × (z ≡ negsuc debt)
negative (pos n) h = absurd (omega arith)
negative (negsuc n) h = (n, refl)

spent-both :
    (H : Sha256) (address : Bytes) (t u : Tx)
    → t.sender ≡ u.sender
    → t.amount + t.fee + u.amount + u.fee ≤ spent t.sender (three H address t u)
spent-both H address t u same =
    let pays_t : str_eq t.sender t.sender ≡ true = (str_eq_iff t.sender t.sender).1 refl in
    let pays_u : str_eq u.sender t.sender ≡ true = (str_eq_iff u.sender t.sender).1 (sym same) in
    rw (pays_t, pays_u) (omega arith)

moved-negative :
    (have : ℕ) (addr : Bytes) (txs : List Tx)
    → have + received addr txs < spent addr txs
    → (debt : ℕ) × (moved (pos have) addr txs ≡ negsuc debt)
moved-negative have addr txs h = negative (moved (pos have) addr txs) (omega int_laws)

-- Two payments of one sender, each of which the balance covers, in a mempool of their own. As in
-- `do_mine-moves`, and when they cost more together than the sender has and receives in the block:
-- `do_mine` puts both into the block, and returns with a chain on which the balance of the sender is
-- negative.
pub do_mine-overdraws :
    (H : Sha256) (c : Blockchain) (have : ℕ) (now : ℤ) (address : Bytes) (t u : Tx) (fuel n : ℕ)
    → IsSound H c
    → c.length < max_blocks
    → HaveHashes (t ∷ u ∷ [])
    → t.sender ≡ u.sender
    → chain_get_balance c t.sender ≡ returns (pos have)
    → t.amount + t.fee ≤ have
    → u.amount + u.fee ≤ have
    → have < 2 ^ 63
    → n < fuel
    → n < 2 ^ 64
    → ((k : ℕ) → k < n → ¬ IsProof H (both H c have now address t u) k)
    → IsProof H (both H c have now address t u) n
    → volume (all_txs (live c)) + volume (three H address t u) < 2 ^ 63
    → have + received t.sender (three H address t u) < t.amount + t.fee + u.amount + u.fee
    → (after : Blockchain) × (debt : ℕ) × (do_mine H fuel now address c (λ i. c) c (t ∷ u ∷ [])
        ≡ returns (record {
          chain = after;
          mempool = [];
          broadcast = some (mined H (both H c have now address t u) n);
        }))
      × (chain_get_balance after t.sender ≡ returns (negsuc debt))
do_mine-overdraws H c have now address t u fuel n sound room hashes same known covers_t covers_u
      small enough small' none_before proof bounded more =
    let e =
      entered-both H c have now address t u (affordable-both have t u covers_t covers_u small) in
    let bounded' : volume (all_txs (live c))
          + volume (entered H c (λ i. pos have) now address (t ∷ u ∷ []))
        < 2 ^ 63 =
      subst (λ txs. volume (all_txs (live c)) + volume txs < 2 ^ 63) (sym e) bounded in
    let (after, balance, done, before, later) =
      do_mine-moves H c (λ i. pos have) now address (t ∷ u ∷ []) fuel n t.sender sound room hashes
        (known, (ap (chain_get_balance c) (sym same) ∙ known, tt)) (omega arith, (omega arith, tt))
        enough small' none_before proof bounded' in
    let had : balance ≡ pos have = cc in
    let (debt, owes) =
      moved-negative have t.sender (three H address t u)
        (omega (arith, spent-both H address t u same)) in
    (
      after,
      debt,
      done,
      later
          ∙ ap returns (
              ap (λ b. moved b t.sender (entered H c (λ i. pos have) now address (t ∷ u ∷ []))) had
              ∙ ap (moved (pos have) t.sender) e
              ∙ owes),
    )
