-- ===== src/Block/Text.antt =====
-- The text that `block_compute_hash` hashes (src/block.c), without its buffer: for a block whose
-- fields have the sizes of `block_t` the 4096 bytes are never too few.
use mini_coin_slovak.Base.{
  ℕ, zero, suc, ◌+◌, ◌*◌, ◌≤◌, ◌<◌, ◌≡◌, refl, List, [], ◌∷◌, ◌++◌, ◌∙◌, arith, length, get_elem?,
  All, append_assoc, append-nil, length-append, inl, inr, Option-cases,
}
use mini_coin_slovak.Base.Int.{pos_part}
use mini_coin_slovak.CLib.{
  Bytes, Buffer, snprintf, decimal, decimal_ℤ, hex, snprintf_fits, length-decimal-le,
  length-decimal_ℤ-le,
}
use mini_coin_slovak.Run.{returns}
use mini_coin_slovak.Sha256.{Sha256}
use mini_coin_slovak.Tx.{Tx}
use mini_coin_slovak.Block.{
  Block, max_tx_per_block, append_tx_hashes, block_text, block_compute_hash,
}

-- The sizes of the arrays in `block_t` and `tx_t`: a text leaves room for its NUL byte, and no
-- more transactions are in use than there are slots.
pub record IsWellFormed (b : Block) : Type 0 where
  pub slots : length b.transactions ≡ max_tx_per_block
  pub count : pos_part b.tx_count ≤ max_tx_per_block
  pub prev_fits : length b.prev_hash ≤ 64
  pub hash_fits : length b.hash ≤ 64
  pub hashes_fit : All (λ (tx : Tx). length tx.tx_hash ≤ 64) b.transactions

-- The hashes of the first `n` transactions, one behind the other.
abbrev pub tx_hashes : ℕ → List Tx → Bytes
tx_hashes zero txs = []
tx_hashes (suc n) [] = []
tx_hashes (suc n) (tx ∷ txs) = tx.tx_hash ++ tx_hashes n txs

abbrev pub header_text : Block → Bytes
header_text b = decimal b.index ++ (decimal_ℤ b.timestamp ++ (b.prev_hash ++ decimal b.nonce))

abbrev pub full_text : Block → Bytes
full_text b = header_text b ++ tx_hashes (pos_part b.tx_count) b.transactions

-- What the hash of a block ought to be.
abbrev pub block_hash : Sha256 → Block → Bytes
block_hash H b = hex (H.digest (full_text b))

append_tx_hashes-suc :
    (n i : ℕ) (tx : Tx) (txs : List Tx) (buf : Buffer)
    → append_tx_hashes n (suc i) (tx ∷ txs) buf ≡ append_tx_hashes n i txs buf
unfolding append_tx_hashes
append_tx_hashes-suc zero i tx txs buf = refl
append_tx_hashes-suc (suc n) i tx txs buf = elim (Option-cases (get_elem? txs i)) [
  | inl e ↦ ground arith
  | inr (t, e) ↦ ground (arith, append_tx_hashes-suc n (suc i) tx txs (snprintf 4096 buf t.tx_hash))
]

length-tx_hashes-le :
    (n : ℕ) (txs : List Tx)
    → All (λ (tx : Tx). length tx.tx_hash ≤ 64) txs
    → length (tx_hashes n txs) ≤ 64 * n
length-tx_hashes-le zero txs h = omega arith
length-tx_hashes-le (suc n) [] h = omega arith
length-tx_hashes-le (suc n) (tx ∷ txs) (h, hs) =
    omega (arith, length-append tx.tx_hash (tx_hashes n txs), length-tx_hashes-le n txs hs)

pub append_tx_hashes_step :
    (n : ℕ) (tx : Tx) (txs : List Tx) (buf : Buffer)
    → length buf.text ≡ buf.offset
    → length tx.tx_hash ≤ 64
    → buf.offset < 4031
    → append_tx_hashes (suc n) 0 (tx ∷ txs) buf
      ≡ append_tx_hashes n 0 txs
          (record { text = buf.text ++ tx.tx_hash; offset = buf.offset + length tx.tx_hash })
unfolding append_tx_hashes
append_tx_hashes_step n tx txs buf e h fits = ground (
  arith,
  append_tx_hashes-suc n 0 tx txs (snprintf 4096 buf tx.tx_hash),
  snprintf_fits 4096 buf tx.tx_hash e,
)

append_tx_hashes_lem :
    (n : ℕ) (txs : List Tx) (buf : Buffer)
    → n ≤ length txs
    → All (λ (tx : Tx). length tx.tx_hash ≤ 64) txs
    → length buf.text ≡ buf.offset
    → buf.offset + 64 * n < 4095
    → append_tx_hashes n 0 txs buf
      ≡ returns (record {
        text = buf.text ++ tx_hashes n txs;
        offset = buf.offset + length (tx_hashes n txs);
      })
append_tx_hashes_lem zero txs buf le h e fits =
    unfold append_tx_hashes in ground (arith, append-nil buf.text)
append_tx_hashes_lem (suc n) [] buf le h e fits = absurd (omega arith)
append_tx_hashes_lem (suc n) (tx ∷ txs) buf le (h, hs) e fits =
    let next : Buffer = record {
      text = buf.text ++ tx.tx_hash;
      offset = buf.offset + length tx.tx_hash;
    } in
    append_tx_hashes_step n tx txs buf e h (omega arith)
    ∙ append_tx_hashes_lem n txs next (omega arith) hs
        (omega (arith, length-append buf.text tx.tx_hash)) (omega arith)
    ∙ ground (
      arith,
      append_assoc buf.text tx.tx_hash (tx_hashes n txs),
      length-append tx.tx_hash (tx_hashes n txs),
    )

pub length-header_text-le : (b : Block) → length b.prev_hash ≤ 64 → length (header_text b) ≤ 125
length-header_text-le b h = omega (
  arith,
  length-append {0},
  length-decimal-le b.index,
  length-decimal_ℤ-le b.timestamp,
  length-decimal-le b.nonce,
)

block_text_lem : (b : Block) → IsWellFormed b → block_text b ≡ returns (full_text b)
unfolding block_text
block_text_lem b wf =
    let short = length-header_text-le b wf.prev_fits in
    let start : Buffer = record { text = header_text b; offset = 0 + length (header_text b) } in
    rw (
      snprintf_fits 4096 (record { text = []; offset = 0 }) (header_text b) refl (omega arith),
      append_tx_hashes_lem (pos_part b.tx_count) b.transactions start (rw wf.slots wf.count)
          wf.hashes_fit (omega arith) (omega (arith, wf.count)),
    )

-- The hash of a block of the declared sizes is defined, and is that of its whole text: the buffer
-- of 4096 bytes cuts nothing off.
pub block_compute_hash-eq-block_hash :
    (H : Sha256) (b : Block) → IsWellFormed b → block_compute_hash H b ≡ returns (block_hash H b)
unfolding block_compute_hash
block_compute_hash-eq-block_hash H b wf = rw (block_text_lem b wf)
