-- ===== src/Node/Collect.antt =====
-- Which transactions `do_mine` of src/main.c takes from the mempool.
use mini_coin_slovak.Base.{
  ℕ, suc, ◌+◌, ◌%◌, ◌^◌, ◌<◌, ◌≤◌, ◌≡◌, refl, sym, ap, ◌∙◌, Bool, true, false, List, [], ◌∷◌, ◌++◌,
  arith, length, append_assoc, length-append, set, take, if◌then◌else◌, Bool-cases, All, inl, inr,
  ltb,
}
use mini_coin_slovak.Base.Int.{ℤ, pos, leb_ℤ}
use mini_coin_slovak.Chain.{Blockchain, chain_get_balance}
use mini_coin_slovak.Node.{Collected, is_affordable, collect, include_tx}
use mini_coin_slovak.Run.{Run, returns, ◌>>=◌}
use mini_coin_slovak.Tx.{Tx}

-- The fees of some transactions.
abbrev pub fees : List Tx → ℕ
fees [] = 0
fees (tx ∷ txs) = tx.fee + fees txs

-- The slots with some transactions written over the first of them.
abbrev pub filled : List Tx → List Tx → List Tx
filled [] slots = slots
filled (tx ∷ txs) [] = []
filled (tx ∷ txs) (b ∷ slots) = tx ∷ filled txs slots

-- The balance covers amount and fee.
abbrev pub covers : ℤ → Tx → Bool
covers balance tx = leb_ℤ (pos (tx.amount + tx.fee)) balance

-- Amount and fee add up to less than 2^63.
abbrev pub HaveSmallCosts : List Tx → Type 0
HaveSmallCosts = All (λ (tx : Tx). tx.amount + tx.fee < 2 ^ 63)

-- Below 2^63 the check of `do_mine` has no overflow.
is_affordable-covers :
    (balance : ℤ) (tx : Tx)
    → tx.amount + tx.fee < 2 ^ 63
    → is_affordable balance tx ≡ covers balance tx
unfolding is_affordable
is_affordable-covers balance tx small =
    let whole : (tx.amount + tx.fee) % 2 ^ 64 ≡ tx.amount + tx.fee = omega arith in
    let below : ltb (tx.amount + tx.fee) (2 ^ 63) ≡ true = ground arith in rw (whole, below) refl

-- The transactions whose amount and fee the balances of their senders cover, where `bal i` is the balance
-- of the sender of slot `i`.
abbrev pub affordable : (ℕ → ℤ) → ℕ → List Tx → List Tx
affordable bal i [] = []
affordable bal i (tx ∷ txs) =
    let others = affordable bal (suc i) txs in if covers (bal i) tx then tx ∷ others else others

-- `bal` holds the balances of the senders in the mempool, from the slot `i` on.
abbrev pub AreBalances : (ℕ → Blockchain) → (ℕ → ℤ) → ℕ → List Tx → Type 0
AreBalances chains bal i [] = Unit
AreBalances chains bal i (tx ∷ txs) =
    (chain_get_balance (chains i) tx.sender ≡ returns (bal i)) × AreBalances chains bal (suc i) txs

set-append :
    (before : List Tx) (b v : Tx) (blank : List Tx)
    → set (before ++ (b ∷ blank)) (length before) v ≡ before ++ (v ∷ blank)
set-append [] b v blank = refl
set-append (x ∷ before) b v blank = ap (◌∷◌ x) (set-append before b v blank)

written :
    (before : List Tx) (b v : Tx) (blank : List Tx) {n : ℕ}
    → length before ≡ n
    → set (before ++ (b ∷ blank)) n v ≡ (before ++ (v ∷ [])) ++ blank
written before b v blank e =
    ap (λ j. set (before ++ (b ∷ blank)) j v) (sym e)
    ∙ set-append before b v blank
    ∙ sym (append_assoc before (v ∷ []) blank)

module _ (chains : ℕ → Blockchain) (bal : ℕ → ℤ) where
  collect_full :
      (i : ℕ) (mempool : List Tx) (c : Collected)
      → 10 ≤ c.tx_count
      → collect chains i mempool c ≡ returns c
  unfolding collect
  collect_full i [] c full = refl
  collect_full i (tx ∷ mempool) c full =
      let stop : ltb c.tx_count 10 ≡ false = ground arith in rw (collect, stop) refl

  collect_none : (i : ℕ) (c : Collected) → collect chains i [] c ≡ returns c
  unfolding collect
  collect_none i c = refl

  abbrev decided : ℕ → Tx → List Tx → Collected → Bool → Run Collected
  decided i tx mempool c pays = elim pays [
    | true ↦ collect chains (suc i) mempool (include_tx c tx)
    | false ↦ collect chains (suc i) mempool c
  ]

  one_more :
      (i : ℕ) (tx : Tx) (mempool : List Tx) (c : Collected) {pays : Bool}
      → chain_get_balance (chains i) tx.sender ≡ returns (bal i)
      → is_affordable (bal i) tx ≡ pays
      → (chain_get_balance (chains i) tx.sender >>= λ balance.
          decided i tx mempool c (is_affordable balance tx))
        ≡ decided i tx mempool c pays
  one_more i tx mempool c e pays =
      ap (λ m. m >>= λ balance. decided i tx mempool c (is_affordable balance tx)) e
      ∙ ap (decided i tx mempool c) pays

  collect_take :
      (i : ℕ) (tx : Tx) (mempool : List Tx) (c : Collected)
      → c.tx_count < 10
      → chain_get_balance (chains i) tx.sender ≡ returns (bal i)
      → is_affordable (bal i) tx ≡ true
      → collect chains i (tx ∷ mempool) c ≡ collect chains (suc i) mempool (include_tx c tx)
  unfolding collect
  collect_take i tx mempool c room e pays =
      let go : ltb c.tx_count 10 ≡ true = ground arith in
      rw (collect, go) (one_more i tx mempool c e pays)

  collect_skip :
      (i : ℕ) (tx : Tx) (mempool : List Tx) (c : Collected)
      → c.tx_count < 10
      → chain_get_balance (chains i) tx.sender ≡ returns (bal i)
      → is_affordable (bal i) tx ≡ false
      → collect chains i (tx ∷ mempool) c ≡ collect chains (suc i) mempool c
  unfolding collect
  collect_skip i tx mempool c room e pays =
      let go : ltb c.tx_count 10 ≡ true = ground arith in
      rw (collect, go) (one_more i tx mempool c e pays)

  abbrev pub chosen : ℕ → ℕ → List Tx → List Tx
  chosen room i mempool = take room (affordable bal i mempool)

  abbrev pub collected : List Tx → List Tx → ℕ → ℕ → List Tx → Collected
  collected before blank n f txs = record {
    transactions = before ++ filled txs blank;
    tx_count = n + length txs;
    total_fees = (f + fees txs) % 2 ^ 64;
  }

  abbrev pub so_far : List Tx → List Tx → ℕ → ℕ → Collected
  so_far before blank n f = record { transactions = before ++ blank; tx_count = n; total_fees = f }

  same_collected :
      {s t : List Tx} {m n f g : ℕ} → s ≡ t → m ≡ n → f ≡ g → so_far [] s m f ≡ so_far [] t n g
  same_collected e m f = rw (e, m, f) refl

  pub collect_lem :
      (i n f : ℕ) (mempool before blank : List Tx)
      → AreBalances chains bal i mempool
      → HaveSmallCosts mempool
      → length before ≡ n
      → n + length blank ≡ 10
      → f < 2 ^ 64
      → collect chains i mempool (so_far before blank n f)
        ≡ returns (collected before blank n f (chosen (length blank) i mempool))
  collect_lem i n f mempool before [] known costs e room small =
      collect_full i mempool (so_far before [] n f) (omega arith)
      ∙ ap returns (same_collected refl (omega arith) (omega arith))
  collect_lem i n f [] before (b ∷ blank) known costs e room small =
      collect_none i (so_far before (b ∷ blank) n f)
      ∙ ap returns (same_collected refl (omega arith) (omega arith))
  collect_lem i n f (tx ∷ mempool) before (b ∷ blank) known costs e room small =
      let check = is_affordable-covers (bal i) tx costs.0 in
      elim (Bool-cases (covers (bal i) tx)) [
        | inl pays ↦
            collect_take i tx mempool (so_far before (b ∷ blank) n f) (omega arith) known.0
              (check ∙ pays)
            ∙ ap (collect chains (suc i) mempool)
                (same_collected (written before b tx blank e) refl refl)
            ∙ collect_lem (suc i) (n + 1) ((f + tx.fee) % 2 ^ 64) mempool (before ++ (tx ∷ []))
                blank known.1 costs.1 (omega (arith, length-append before (tx ∷ []))) (omega arith)
                (omega arith)
            ∙ rw (pays) (
                ap returns (
                  same_collected
                    (append_assoc before (tx ∷ [])
                      (filled (chosen (length blank) (suc i) mempool) blank))
                    (omega arith) (omega arith)))
        | inr poor ↦
            collect_skip i tx mempool (so_far before (b ∷ blank) n f) (omega arith) known.0
              (check ∙ poor)
            ∙ collect_lem (suc i) n f mempool before (b ∷ blank) known.1 costs.1 e room small
            ∙ rw (poor) refl
      ]
