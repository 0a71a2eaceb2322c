-- ===== src/Chain/Accounts.antt =====
-- What a new block does to the balances that `chain_get_balance` of src/chain.c returns.
use mini_coin_slovak.Base.{
  ℕ, ◌+◌, ◌^◌, ◌<◌, ◌≡◌, refl, ap, ◌∙◌, List, [], ◌∷◌, ◌++◌, append-nil, arith,
}
use mini_coin_slovak.Base.Int.{ℤ, pos, ◌+ℤ◌, ◌-ℤ◌, int_laws}
use mini_coin_slovak.Block.{Block}
use mini_coin_slovak.Chain.{Blockchain, chain_get_balance}
use mini_coin_slovak.Chain.Add.{live, extend, live-extend}
use mini_coin_slovak.Chain.Balance.{chain_get_balance-net}
use mini_coin_slovak.Chain.Sums.{
  used, received, spent, volume, all_txs, received-append, spent-append, volume-append,
  all_txs-append,
}
use mini_coin_slovak.Chain.Valid.{IsStored}
use mini_coin_slovak.CLib.{Bytes}
use mini_coin_slovak.Run.{returns}
use mini_coin_slovak.Tx.{Tx}

all_txs-extend :
    (c : Blockchain) (b : Block) → all_txs (live (extend c b)) ≡ all_txs (live c) ++ used b
all_txs-extend c b = rw (live-extend c b, all_txs-append (live c) (b ∷ []), append-nil) refl

-- The balance of the address after some more transactions.
abbrev pub moved : ℤ → Bytes → List Tx → ℤ
moved balance addr txs = balance +ℤ pos (received addr txs) -ℤ pos (spent addr txs)

net-moved : (p s q t : ℕ) → pos (p + q) -ℤ pos (s + t) ≡ pos p -ℤ pos s +ℤ pos q -ℤ pos t
net-moved p s q t = omega int_laws

-- While all that ever moved stays below 2^63, a block at the end of a stored chain changes the balance
-- of every address by what the address receives and spends in it.
pub chain_get_balance-extend :
    (c : Blockchain) (b : Block) (addr : Bytes)
    → IsStored c
    → IsStored (extend c b)
    → volume (all_txs (live c)) + volume (used b) < 2 ^ 63
    → (balance : ℤ) × (chain_get_balance c addr ≡ returns balance)
      × (chain_get_balance (extend c b) addr ≡ returns (moved balance addr (used b)))
chain_get_balance-extend c b addr st st' small =
    let old = all_txs (live c) in
    let whole = all_txs-extend c b in
    let total : volume (all_txs (live (extend c b))) < 2 ^ 63 =
      rw whole (omega (arith, volume-append old (used b))) in
    (
      pos (received addr old) -ℤ pos (spent addr old),
      chain_get_balance-net c addr st (omega arith),
      chain_get_balance-net (extend c b) addr st' total
          ∙ rw (whole, received-append addr old (used b), spent-append addr old (used b))
              (ap returns (
                net-moved (received addr old) (spent addr old) (received addr (used b))
                  (spent addr (used b)))),
    )
