-- ===== src/Chain/Unchecked.antt =====
-- What `chain_replace` of src/chain.c does not look at: the first block of the other chain, but for its
-- hash.
use mini_coin_slovak.Base.{
  ℕ, zero, suc, ◌+◌, ◌-◌, ◌<◌, ◌≤◌, ◌≡◌, ◌⊎◌, ◌%◌, ◌^◌, not, ◌&&◌, refl, ap, ◌∙◌, false, some, List,
  [], ◌∷◌, arith, length, get_elem?, leb, ltb, ltb_iff, ◌==◌, ==_iff, if◌then◌else◌, Bool-cases,
  Option-cases, inl, inr,
}
use mini_coin_slovak.Base.Int.{ℤ, pos, negsuc, pos_part, ◌+ℤ◌, ◌-ℤ◌, leb_ℤ, ltb_ℤ, signed64}
use mini_coin_slovak.Block.{Block, block_validate}
use mini_coin_slovak.Chain.{
  Blockchain, max_blocks, int64, credit, debit, apply_tx, balance_of_txs, balance_of_blocks,
  chain_get_balance, validate_from, chain_validate, chain_replace,
}
use mini_coin_slovak.Chain.Replace.{replaced, Wins}
use mini_coin_slovak.Chain.Valid.{IsStored, chain_validate-IsValid}
use mini_coin_slovak.CLib.{Bytes, str_eq}
use mini_coin_slovak.Run.{
  Run, returns, undefined, ◌>>=◌, >>=-returns, deref, Status, success, failure,
}
use mini_coin_slovak.Sha256.{Sha256}
use mini_coin_slovak.Tx.{Tx}

-- The chain with another count of transactions in its first block.
abbrev pub recounted : Blockchain → ℤ → Blockchain
recounted c n = record {
  blocks = λ i. if i == 0 then record (c.blocks 0) { tx_count = n } else c.blocks i;
  length = c.length;
}

-- A round of `chain_validate`, in front of the later ones.
abbrev checked : Sha256 → Block → Bytes → Run Status → Run Status
checked H b prev rest =
    if not (str_eq b.prev_hash prev)
    then returns failure
    else do status ← block_validate H b; elim status [ failure ↦ returns failure | success ↦ rest ]

module _ (other : Blockchain) (n : ℤ) where
  later_block : (i : ℕ) → 1 ≤ i → (recounted other n).blocks i ≡ other.blocks i
  later_block i h = let later : (i == 0) ≡ false = ground arith in rw later refl

  same_hash : (i : ℕ) → ((recounted other n).blocks i).hash ≡ (other.blocks i).hash
  same_hash i = elim (Bool-cases (i == 0)) [
    | inl first ↦ rw (first, (==_iff i 0).0 first) refl
    | inr later ↦ rw later refl
  ]

  validate_from-recounted :
      (H : Sha256) (rounds i : ℕ)
      → 1 ≤ i
      → validate_from H rounds i (recounted other n).blocks ≡ validate_from H rounds i other.blocks
  unfolding validate_from
  validate_from-recounted H zero i h = refl
  validate_from-recounted H (suc rounds) i h =
      rw (validate_from, later_block i h, same_hash (i - 1))
        (ap (checked H (other.blocks i) (other.blocks (i - 1)).hash)
          (validate_from-recounted H rounds (suc i) (omega arith)))

  chain_validate-recounted :
      (H : Sha256) → chain_validate H (recounted other n) ≡ chain_validate H other
  unfolding chain_validate
  chain_validate-recounted H = validate_from-recounted H (other.length - 1) 1 (omega arith)

-- The run has a value, or undefined behaviour.
abbrev Settles : Run ℤ → Type 0
Settles run = (run ≡ undefined) ⊎ ((b : ℤ) × (run ≡ returns b))

int64-Settles : (z : ℤ) → Settles (int64 z)
unfolding int64
int64-Settles z = elim (Bool-cases (ltb_ℤ z (pos (2 ^ 63)) && leb_ℤ (negsuc (2 ^ 63 - 1)) z)) [
  | inl fits ↦ inr (z, rw (int64, fits) refl)
  | inr overflows ↦ inl (rw (int64, overflows) refl)
]

credit-Settles : (addr : Bytes) (tx : Tx) (balance : ℤ) → Settles (credit addr tx balance)
unfolding credit
credit-Settles addr tx balance = elim (Bool-cases (str_eq tx.receiver addr)) [
  | inl receives ↦ rw (credit, receives) (int64-Settles (balance +ℤ signed64 tx.amount))
  | inr other ↦ inr (balance, rw (credit, other) refl)
]

debit-Settles : (addr : Bytes) (tx : Tx) (balance : ℤ) → Settles (debit addr tx balance)
unfolding debit
debit-Settles addr tx balance = elim (Bool-cases (str_eq tx.sender addr)) [
  | inl spends ↦
      rw (debit, spends) (int64-Settles (balance -ℤ signed64 ((tx.amount + tx.fee) % 2 ^ 64)))
  | inr other ↦ inr (balance, rw (debit, other) refl)
]

apply_tx-Settles : (addr : Bytes) (tx : Tx) (balance : ℤ) → Settles (apply_tx addr tx balance)
unfolding apply_tx
apply_tx-Settles addr tx balance = elim (credit-Settles addr tx balance) [
  | inl overflows ↦ inl (ap (λ m. m >>= debit addr tx) overflows)
  | inr (b, credited) ↦ elim (debit-Settles addr tx b) [
    | inl overflows ↦ inl (>>=-returns (debit addr tx) credited ∙ overflows)
    | inr (b', debited) ↦ inr (b', >>=-returns (debit addr tx) credited ∙ debited)
  ]
]

get_elem?_lt : (txs : List Tx) (j : ℕ) {tx : Tx} → get_elem? txs j ≡ some tx → j < length txs
get_elem?_lt [] j e = absurd (ground arith)
get_elem?_lt (x ∷ txs) zero e = omega arith
get_elem?_lt (x ∷ txs) (suc j) e = omega (arith, get_elem?_lt txs j e)

-- More rounds than slots read past the end of the array, if the sums have not overflowed before.
balance_of_txs-overruns :
    (rounds j : ℕ) (txs : List Tx) (addr : Bytes) (balance : ℤ)
    → length txs < j + rounds
    → j ≤ length txs
    → balance_of_txs rounds j txs addr balance ≡ undefined
unfolding balance_of_txs
balance_of_txs-overruns zero j txs addr balance over le = absurd (omega arith)
balance_of_txs-overruns (suc rounds) j txs addr balance over le =
    elim (Option-cases (get_elem? txs j)) [
      | inl outside ↦ rw (balance_of_txs, outside) refl
      | inr (tx, found) ↦ >>=-returns _ (ap deref found) ∙ elim (apply_tx-Settles addr tx balance) [
        | inl overflows ↦ ap (λ m. m >>= balance_of_txs rounds (suc j) txs addr) overflows
        | inr (b, applied) ↦
            >>=-returns (balance_of_txs rounds (suc j) txs addr) applied
            ∙ balance_of_txs-overruns rounds (suc j) txs addr b (omega arith)
                (omega (arith, get_elem?_lt txs j found))
      ]
    ]

-- So does a first block that counts more transactions than it has slots.
first_block-overruns :
    (addr : Bytes) (n : ℕ) (blocks : ℕ → Block)
    → 0 < n
    → length (blocks 0).transactions ≡ 10
    → 10 < pos_part (blocks 0).tx_count
    → balance_of_blocks n 0 blocks addr (pos 0) ≡ undefined
unfolding balance_of_blocks
first_block-overruns addr zero blocks there slots many = absurd (omega arith)
first_block-overruns addr (suc n) blocks there slots many =
    ap (λ m. m >>= balance_of_blocks n 1 blocks addr)
      (balance_of_txs-overruns (pos_part (blocks 0).tx_count) 0 (blocks 0).transactions addr (pos 0)
        (omega arith) (omega arith))

-- For a longer, valid chain of the declared sizes, another count of transactions in its first block does
-- not keep `chain_replace` from taking it over; with a count above ten, every later
-- `chain_get_balance`, whatever the address, has undefined behaviour.
pub chain_replace-recounted :
    (H : Sha256) (c other : Blockchain) (n : ℤ) (addr : Bytes)
    → IsStored other
    → Wins H c other
    → 10 < pos_part n
    → (chain_replace H c (recounted other n) ≡ returns (success, replaced c (recounted other n)))
      × (chain_get_balance (replaced c (recounted other n)) addr ≡ undefined)
unfolding chain_replace chain_get_balance
chain_replace-recounted H c other n addr st wins many =
    let passes : chain_validate H (recounted other n) ≡ returns success =
      chain_validate-recounted other n H ∙ elim (chain_validate-IsValid H other st) [
        | inl (ok, _) ↦ ok
        | inr (_, invalid) ↦ absurd (invalid wins.1)
      ] in
    let longer : leb other.length c.length ≡ false = ground (arith, wins.0) in
    let fits : ltb max_blocks other.length ≡ false = ground (arith, st.fits) in
    let there : 0 < other.length = omega (arith, wins.0) in
    let first : (replaced c (recounted other n)).blocks 0
        ≡ record (other.blocks 0) { tx_count = n } =
      rw ((ltb_iff 0 other.length).1 there) refl in
    let slots = (st.blocks_fit 0 there).slots in
    (
      rw (chain_replace, longer, passes, fits) refl,
      first_block-overruns addr other.length (replaced c (recounted other n)).blocks there
          (ap (λ (b : Block). length b.transactions) first ∙ slots) (rw first many),
    )
