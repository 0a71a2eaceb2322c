-- ===== src/Chain/Sums.antt =====
-- What addresses receive and spend in a list of transactions, as plain sums.
use mini_coin_slovak.Base.{
  ℕ, ◌+◌, ◌≤◌, ◌≡◌, refl, List, [], ◌∷◌, ◌++◌, take, append_assoc, arith, if◌then◌else◌,
}
use mini_coin_slovak.Base.Int.{pos_part}
use mini_coin_slovak.Block.{Block}
use mini_coin_slovak.CLib.{Bytes, str_eq}
use mini_coin_slovak.Tx.{Tx}

-- The transactions of a block that are in use.
abbrev pub used : Block → List Tx
used b = take (pos_part b.tx_count) b.transactions

-- The sums over a list of transactions: what `addr` received, what it spent with the fees, and all
-- that moved.
abbrev pub received : Bytes → List Tx → ℕ
received addr [] = 0
received addr (tx ∷ txs) = (if str_eq tx.receiver addr then tx.amount else 0) + received addr txs

abbrev pub spent : Bytes → List Tx → ℕ
spent addr [] = 0
spent addr (tx ∷ txs) = (if str_eq tx.sender addr then tx.amount + tx.fee else 0) + spent addr txs

abbrev pub volume : List Tx → ℕ
volume [] = 0
volume (tx ∷ txs) = tx.amount + tx.fee + volume txs

-- All transactions of a list of blocks, in order.
abbrev pub all_txs : List Block → List Tx
all_txs [] = []
all_txs (b ∷ bs) = used b ++ all_txs bs

module _ (addr : Bytes) where
  pub received-append :
      (xs ys : List Tx) → received addr (xs ++ ys) ≡ received addr xs + received addr ys
  received-append [] ys = omega arith
  received-append (x ∷ xs) ys = omega (arith, received-append xs ys)

  pub spent-append : (xs ys : List Tx) → spent addr (xs ++ ys) ≡ spent addr xs + spent addr ys
  spent-append [] ys = omega arith
  spent-append (x ∷ xs) ys = omega (arith, spent-append xs ys)

pub volume-append : (xs ys : List Tx) → volume (xs ++ ys) ≡ volume xs + volume ys
volume-append [] ys = omega arith
volume-append (x ∷ xs) ys = omega (arith, volume-append xs ys)

pub received-le-volume : (addr : Bytes) (txs : List Tx) → received addr txs ≤ volume txs
received-le-volume addr [] = omega arith
received-le-volume addr (tx ∷ txs) = ground (arith, received-le-volume addr txs)

pub spent-le-volume : (addr : Bytes) (txs : List Tx) → spent addr txs ≤ volume txs
spent-le-volume addr [] = omega arith
spent-le-volume addr (tx ∷ txs) = ground (arith, spent-le-volume addr txs)

pub all_txs-append : (xs ys : List Block) → all_txs (xs ++ ys) ≡ all_txs xs ++ all_txs ys
all_txs-append [] ys = refl
all_txs-append (x ∷ xs) ys = rw (all_txs-append xs ys, append_assoc)
