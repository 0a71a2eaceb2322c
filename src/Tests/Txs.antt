-- ===== src/Tests/Txs.antt =====
-- src/tx.c on a payment of 1 coin with a fee of 23, and of 12 coins with a fee of 3.
use mini_coin_slovak.Base.{◌≡◌, refl, [], ◌∷◌, arith}
use mini_coin_slovak.CLib.{decimal, digits}
use mini_coin_slovak.Tests.Digests.{sum_sha256}
use mini_coin_slovak.Tx.{Tx, zero_tx, tx_text, tx_compute_hash, tx_create}
use mini_coin_slovak.Tx.Hash.{tx_compute_hash-ambiguous, tx_create-IsCreated, IsCreated}

abbrev parties : Tx
parties = record zero_tx { sender = b'a' ∷ []; receiver = b'b' ∷ [] }

text : tx_text (record parties { amount = 12; fee = 3 }) ≡ b'a' ∷ b'b' ∷ b'1' ∷ b'2' ∷ b'3' ∷ []
unfolding tx_text decimal digits
text = refl

tx_create-IsCreated_example :
    IsCreated sum_sha256
      (b'a' ∷ [])
      (b'b' ∷ [])
      12
      3
      (tx_create sum_sha256 (b'a' ∷ []) (b'b' ∷ []) 12 3)
    × ((tx_create sum_sha256 (b'a' ∷ []) (b'b' ∷ []) 12 3).signature ≡ [])
tx_create-IsCreated_example = tx_create-IsCreated sum_sha256 (b'a' ∷ []) (b'b' ∷ []) 12 3

tx_compute_hash-ambiguous_example :
    (tx_compute_hash sum_sha256 (record parties { amount = 12; fee = 3 })).tx_hash
    ≡ (tx_compute_hash sum_sha256 (record parties { amount = 1; fee = 23 })).tx_hash
tx_compute_hash-ambiguous_example =
    tx_compute_hash-ambiguous sum_sha256 parties 1 2 3 (omega arith) (omega arith) (omega arith)
      (omega arith) (omega arith) (omega arith)
