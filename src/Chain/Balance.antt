-- ===== src/Chain/Balance.antt =====
-- `chain_get_balance` (src/chain.c) against the sums of what an address received and spent.
use mathlib.Core.Path.{fun_ext}
use native.Mathlib.Nat.{add-zero, zero-add, add_assoc}
use mini_coin_slovak.Base.{
  ℕ, zero, suc, ◌+◌, ◌^◌, ◌%◌, ◌<◌, ◌≤◌, ◌≡◌, refl, sym, ap, ◌∙◌, List, [], ◌∷◌, ◌++◌, take, length,
  get_elem?, append-nil, append_assoc, inl, inr, Bool-cases, arith, if◌then◌else◌,
}
use mini_coin_slovak.Base.Int.{ℤ, pos, ◌+ℤ◌, ◌-ℤ◌, pos_part, int_laws, signed64}
use mini_coin_slovak.Block.{Block}
use mini_coin_slovak.Block.Text.{IsWellFormed}
use mini_coin_slovak.Chain.{
  Blockchain, int64, credit, debit, apply_tx, balance_of_txs, balance_of_blocks, chain_get_balance,
}
use mini_coin_slovak.Chain.Add.{live, first_blocks}
use mini_coin_slovak.Chain.Sums.{
  used, received, spent, volume, all_txs, received-append, spent-append, volume-append,
  received-le-volume, spent-le-volume, all_txs-append,
}
use mini_coin_slovak.Chain.Valid.{IsStored}
use mini_coin_slovak.CLib.{Bytes, str_eq}
use mini_coin_slovak.Run.{returns, deref, ◌>>=◌}
use mini_coin_slovak.Tx.{Tx}

balance_of_txs-suc :
    (n j : ℕ) (tx : Tx) (txs : List Tx) (addr : Bytes) (balance : ℤ)
    → balance_of_txs n (suc j) (tx ∷ txs) addr balance ≡ balance_of_txs n j txs addr balance
unfolding balance_of_txs
balance_of_txs-suc zero j tx txs addr balance = refl
balance_of_txs-suc (suc n) j tx txs addr balance =
    let rest = fun_ext (balance_of_txs-suc n (suc j) tx txs addr) in
    ap (λ k. deref (get_elem? txs j) >>= λ t. apply_tx addr t balance >>= k) rest

-- The balance is what was received, less what was spent.
abbrev pub net : ℕ → ℕ → ℤ
net p s = pos p -ℤ pos s

int64-net : (p s : ℕ) → p < 2 ^ 63 → s < 2 ^ 63 → int64 (net p s) ≡ returns (net p s)
unfolding int64 ◌-ℤ◌
int64-net p s hp hs = ground arith

net-credit : (p s a : ℕ) → net p s +ℤ pos a ≡ net (p + a) s
net-credit p s a = omega int_laws

net-debit : (p s a : ℕ) → net p s -ℤ pos a ≡ net p (s + a)
net-debit p s a = omega int_laws

signed64-pos : (w : ℕ) → w < 2 ^ 63 → signed64 w ≡ pos w
signed64-pos w h = ground arith

abbrev gain : Bytes → Tx → ℕ
gain addr tx = if str_eq tx.receiver addr then tx.amount else 0

abbrev cost : Bytes → Tx → ℕ
cost addr tx = if str_eq tx.sender addr then tx.amount + tx.fee else 0

module _ (addr : Bytes) (tx : Tx) (p s : ℕ) where
  credit_lem :
      p + tx.amount < 2 ^ 63
      → s < 2 ^ 63
      → credit addr tx (net p s) ≡ returns (net (p + gain addr tx) s)
  unfolding credit
  credit_lem hp hs = elim (Bool-cases (str_eq tx.receiver addr)) [
    | inl yes' ↦ rw yes' (
        rw (signed64-pos tx.amount (omega arith), net-credit p s tx.amount)
          (int64-net (p + tx.amount) s hp hs))
    | inr no' ↦ rw (no', add-zero)
  ]

  debit_lem :
      p < 2 ^ 63
      → s + tx.amount + tx.fee < 2 ^ 63
      → debit addr tx (net p s) ≡ returns (net p (s + cost addr tx))
  unfolding debit
  debit_lem hp hs = elim (Bool-cases (str_eq tx.sender addr)) [
    | inl yes' ↦
        let whole : (tx.amount + tx.fee) % 2 ^ 64 ≡ tx.amount + tx.fee = omega arith in
        rw yes' (
          rw
            (
              whole,
              signed64-pos (tx.amount + tx.fee) (omega arith),
              net-debit p s (tx.amount + tx.fee),
            )
            (int64-net p (s + (tx.amount + tx.fee)) hp (omega arith)))
    | inr no' ↦ rw (no', add-zero)
  ]

-- One transaction, while the sums stay below 2^63.
apply_tx_lem :
    (addr : Bytes) (tx : Tx) (p s : ℕ)
    → p + (tx.amount + tx.fee) < 2 ^ 63
    → s + (tx.amount + tx.fee) < 2 ^ 63
    → apply_tx addr tx (net p s) ≡ returns (net (p + gain addr tx) (s + cost addr tx))
unfolding apply_tx
apply_tx_lem addr tx p s hp hs =
    rw (credit_lem addr tx p s (omega arith) (omega arith))
      (debit_lem addr tx (p + gain addr tx) s (ground arith) (omega arith))

balance_of_txs-cons :
    (n : ℕ) (tx : Tx) (txs : List Tx) (addr : Bytes) (p s : ℕ)
    → p + (tx.amount + tx.fee) < 2 ^ 63
    → s + (tx.amount + tx.fee) < 2 ^ 63
    → balance_of_txs (suc n) 0 (tx ∷ txs) addr (net p s)
      ≡ balance_of_txs n 0 txs addr (net (p + gain addr tx) (s + cost addr tx))
balance_of_txs-cons n tx txs addr p s hp hs =
    rw (← balance_of_txs-suc n 0 tx txs addr (net (p + gain addr tx) (s + cost addr tx)))
      (unfold balance_of_txs in rw (apply_tx_lem addr tx p s hp hs))

balance_of_txs_lem :
    (n : ℕ) (txs : List Tx) (addr : Bytes) (p s : ℕ)
    → n ≤ length txs
    → p + volume (take n txs) < 2 ^ 63
    → s + volume (take n txs) < 2 ^ 63
    → balance_of_txs n 0 txs addr (net p s)
      ≡ returns (net (p + received addr (take n txs)) (s + spent addr (take n txs)))
balance_of_txs_lem zero txs addr p s le hp hs = simp add-zero (unfold balance_of_txs in refl)
balance_of_txs_lem (suc n) [] addr p s le hp hs = absurd (omega arith)
balance_of_txs_lem (suc n) (tx ∷ txs) addr p s le hp hs =
    balance_of_txs-cons n tx txs addr p s (omega arith) (omega arith)
    ∙ balance_of_txs_lem n txs addr (p + gain addr tx) (s + cost addr tx) (omega arith)
        (ground arith) (ground arith)
    ∙ simp add_assoc

txs_from : ℕ → ℕ → (ℕ → Block) → List Tx
txs_from zero i blocks = []
txs_from (suc n) i blocks = used (blocks i) ++ txs_from n (suc i) blocks

balance_of_blocks_lem :
    (n i : ℕ) (blocks : ℕ → Block) (addr : Bytes) (p s : ℕ)
    → ((j : ℕ) → j < i + n → IsWellFormed (blocks j))
    → p + volume (txs_from n i blocks) < 2 ^ 63
    → s + volume (txs_from n i blocks) < 2 ^ 63
    → balance_of_blocks n i blocks addr (net p s)
      ≡ returns
          (net (p + received addr (txs_from n i blocks)) (s + spent addr (txs_from n i blocks)))
unfolding txs_from balance_of_blocks
balance_of_blocks_lem zero i blocks addr p s wf hp hs = simp add-zero refl
balance_of_blocks_lem (suc n) i blocks addr p s wf hp hs =
    let now = used (blocks i) in
    let later = txs_from n (suc i) blocks in
    let w = wf i (omega arith) in
    rw
      (balance_of_txs_lem (pos_part (blocks i).tx_count) (blocks i).transactions addr p s
        (omega (arith, w.slots, w.count)) (omega (arith, volume-append now later))
        (omega (arith, volume-append now later)))
      (rw
        (
          received-append addr now later,
          spent-append addr now later,
          ← add_assoc p (received addr now) (received addr later),
          ← add_assoc s (spent addr now) (spent addr later),
        )
        (balance_of_blocks_lem n (suc i) blocks addr (p + received addr now) (s + spent addr now)
          (λ j h. wf j (omega arith))
          (omega (arith, volume-append now later, received-le-volume addr now))
          (omega (arith, volume-append now later, spent-le-volume addr now))))

txs_from-suc :
    (n i : ℕ) (blocks : ℕ → Block)
    → txs_from (suc n) i blocks ≡ txs_from n i blocks ++ used (blocks (i + n))
unfolding txs_from
txs_from-suc zero i blocks = rw (add-zero, append-nil)
txs_from-suc (suc n) i blocks =
    let e : suc i + n ≡ i + suc n = omega arith in
    rw (← e) (
      ap (λ l. used (blocks i) ++ l) (txs_from-suc n (suc i) blocks)
      ∙ sym
          (append_assoc (used (blocks i)) (txs_from n (suc i) blocks) (used (blocks (suc i + n)))))

all_txs-first_blocks :
    (n : ℕ) (blocks : ℕ → Block) → all_txs (first_blocks n blocks) ≡ txs_from n 0 blocks
all_txs-first_blocks zero blocks = unfold txs_from in refl
all_txs-first_blocks (suc n) blocks = rw (
  all_txs-append (first_blocks n blocks) (blocks n ∷ []),
  all_txs-first_blocks n blocks,
  append-nil,
  txs_from-suc n 0 blocks,
  zero-add,
)

-- While all that ever moved in the chain stays below 2^63, `chain_get_balance` has no overflow, and
-- returns the amounts that the address received less the amounts and fees that it spent, over all
-- transactions in use of all blocks.
pub chain_get_balance-net :
    (c : Blockchain) (addr : Bytes)
    → IsStored c
    → volume (all_txs (live c)) < 2 ^ 63
    → chain_get_balance c addr
      ≡ returns (pos (received addr (all_txs (live c))) -ℤ pos (spent addr (all_txs (live c))))
unfolding chain_get_balance
chain_get_balance-net c addr st h =
    let same = all_txs-first_blocks c.length c.blocks in
    let fits : 0 + volume (txs_from c.length 0 c.blocks) < 2 ^ 63 = rw (zero-add, ← same) h in
    let start : pos 0 ≡ net 0 0 = unfold ◌-ℤ◌ in refl in
    rw (same, start)
      (balance_of_blocks_lem c.length 0 c.blocks addr 0 0 (λ j lt. st.blocks_fit j (omega arith))
          fits fits
        ∙ simp zero-add)
