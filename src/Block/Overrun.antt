-- ===== src/Block/Overrun.antt =====
-- A block whose `tx_count` is larger than its array: src/protocol.c stores the count of a received
-- block unchecked, and src/block.c goes through as many slots.
use mini_coin_slovak.Base.{
  ℕ, zero, suc, ◌+◌, ◌*◌, ◌≤◌, ◌<◌, ◌≡◌, refl, ◌∙◌, List, [], ◌∷◌, arith, length, length-append,
  All,
}
use mini_coin_slovak.Base.Int.{pos_part}
use mini_coin_slovak.CLib.{Buffer, snprintf_fits}
use mini_coin_slovak.Run.{undefined}
use mini_coin_slovak.Sha256.{Sha256}
use mini_coin_slovak.Tx.{Tx}
use mini_coin_slovak.Block.{
  Block, max_tx_per_block, append_tx_hashes, block_text, block_compute_hash, block_validate,
}
use mini_coin_slovak.Block.Text.{append_tx_hashes_step, header_text, length-header_text-le}

append_tx_hashes-undefined :
    (n : ℕ) (txs : List Tx) (buf : Buffer)
    → length txs < n
    → All (λ (tx : Tx). length tx.tx_hash ≤ 64) txs
    → length buf.text ≡ buf.offset
    → buf.offset + 64 * length txs < 4031
    → append_tx_hashes n 0 txs buf ≡ undefined
append_tx_hashes-undefined zero txs buf lt h e fits = elim lt [ ]
append_tx_hashes-undefined (suc n) [] buf lt h e fits = unfold append_tx_hashes in ground arith
append_tx_hashes-undefined (suc n) (tx ∷ txs) buf lt (h, hs) e fits =
    append_tx_hashes_step n tx txs buf e h (omega arith)
    ∙ append_tx_hashes-undefined n txs _ (omega arith) hs
        (omega (arith, length-append buf.text tx.tx_hash)) (omega arith)

-- Of a block that claims more transactions than its array has slots, the validation reads past
-- the end of the array.
pub block_validate-undefined :
    (H : Sha256) (b : Block)
    → length b.transactions ≡ max_tx_per_block
    → length b.prev_hash ≤ 64
    → All (λ (tx : Tx). length tx.tx_hash ≤ 64) b.transactions
    → max_tx_per_block < pos_part b.tx_count
    → block_validate H b ≡ undefined
unfolding block_validate block_compute_hash block_text
block_validate-undefined H b slots prev_fits hashes_fit over =
    let short = length-header_text-le b prev_fits in
    let start : Buffer = record { text = header_text b; offset = 0 + length (header_text b) } in
    rw (
      snprintf_fits 4096 (record { text = []; offset = 0 }) (header_text b) refl (omega arith),
      append_tx_hashes-undefined (pos_part b.tx_count) b.transactions start (rw slots over)
          hashes_fit (omega arith) (omega arith),
    )
