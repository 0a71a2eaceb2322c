-- ===== src/Node/Mempool.antt =====
-- The mempool of src/main.c as a queue of at most 100 transactions.
use mini_coin_slovak.Base.{List, [], ◌∷◌, ◌++◌, length, ltb, if◌then◌else◌}
use mini_coin_slovak.Tx.{Tx}

-- The transaction is behind those that wait, if fewer than 100 do.
abbrev pub queued : List Tx → Tx → List Tx
queued waiting tx = if ltb (length waiting) 100 then waiting ++ (tx ∷ []) else waiting
