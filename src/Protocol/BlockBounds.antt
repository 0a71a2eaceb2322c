-- ===== src/Protocol/BlockBounds.antt =====
-- Whatever text comes from the network, the blocks that src/protocol.c reads from it fit their arrays,
-- but for their counts.
use mini_coin_slovak.Base.{
  ℕ, zero, suc, ◌%◌, ◌^◌, ◌<◌, ◌≤◌, ◌≡◌, ◌∙◌, Option, none, some, List, [], ◌∷◌, arith, length, set,
  length-set, All, Option-cases, Bool-cases, inl, inr, ◌==◌,
}
use mini_coin_slovak.Base.Int.{ℤ, pos, pos_part, signed64}
use mini_coin_slovak.Block.{Block, zero_block, hash_hex_len}
use mini_coin_slovak.Block.Text.{IsWellFormed}
use mini_coin_slovak.CLib.{Bytes, codes, strchr}
use mini_coin_slovak.Json.{
  json_find_key, json_get_string, json_get_uint64, json_get_int, scan_object,
}
use mini_coin_slovak.Protocol.{
  protocol_deserialize_tx, read_txs, min_count, read_tx_array, read_rest,
  protocol_deserialize_block,
}
use mini_coin_slovak.Tx.{Tx}
use mini_coin_slovak.Protocol.Bounds.{
  HasSizes, text_fits, word_fits, protocol_deserialize_tx-HasSizes,
}

-- All texts and numbers have the declared sizes, and the array has ten slots. The count is not checked
-- against them.
pub record HasBlockSizes (b : Block) : Type 0 where
  pub index_fits : b.index < 2 ^ 32
  pub slots : length b.transactions ≡ 10
  pub txs_fit : All HasSizes b.transactions
  pub prev_fits : length b.prev_hash < hash_hex_len
  pub nonce_fits : b.nonce < 2 ^ 64
  pub hash_fits : length b.hash < hash_hex_len

pub set-HasSizes :
    (slots : List Tx) (i : ℕ) (tx : Tx)
    → All HasSizes slots
    → HasSizes tx
    → All HasSizes (set slots i tx)
set-HasSizes [] i tx h ht = tt
set-HasSizes (x ∷ slots) zero tx h ht = (ht, h.1)
set-HasSizes (x ∷ slots) (suc i) tx h ht = (h.0, set-HasSizes slots i tx h.1 ht)

-- The array keeps its length, and transactions of the declared sizes.
abbrev AreSlots : List Tx → Type 0
AreSlots slots = (length slots ≡ 10) × All HasSizes slots

read_txs-AreSlots :
    (n i : ℕ) (s : Bytes) (slots : List Tx) → AreSlots slots → AreSlots (read_txs n i s slots)
unfolding read_txs
read_txs-AreSlots zero i s slots h = h
read_txs-AreSlots (suc n) i s slots h = elim (Option-cases (strchr s b'{')) [
  | inl absent ↦ rw (read_txs, absent) h
  | inr (p, found) ↦
      rw (read_txs, found)
        (let tx = (protocol_deserialize_tx (scan_object p 0).0).1 in
          read_txs-AreSlots n (suc i) (scan_object p 0).1 (set slots i tx) (
            length-set slots i tx ∙ h.0,
            set-HasSizes slots i tx h.1 (protocol_deserialize_tx-HasSizes (scan_object p 0).0),
          ))
]

read_tx_array-AreSlots :
    (o : Option Bytes) (count : ℤ) (slots : List Tx)
    → AreSlots slots
    → AreSlots (read_tx_array o count slots)
unfolding read_tx_array
read_tx_array-AreSlots none count slots h = h
read_tx_array-AreSlots (some []) count slots h = h
read_tx_array-AreSlots (some (c ∷ s)) count slots h = elim (Bool-cases (c == b'[')) [
  | inl bracket ↦ rw (read_tx_array, bracket) (read_txs-AreSlots (min_count count) 0 s slots h)
  | inr other ↦ rw (read_tx_array, other) h
]

zero_slots : AreSlots zero_block.transactions
zero_slots = omega arith

read_rest-HasBlockSizes :
    (json : Bytes) (b : Block) → HasBlockSizes b → HasBlockSizes (read_rest json b).1
unfolding read_rest
read_rest-HasBlockSizes json b h = elim (Option-cases (json_get_uint64 json (codes "nonce"))) [
  | inl absent ↦ rw (read_rest, absent) h
  | inr (nonce, n) ↦
      let nonce_fits = word_fits json (codes "nonce") n in
      elim (Option-cases (json_get_string json (codes "hash") hash_hex_len)) [
        | inl absent ↦
            rw (read_rest, n, absent)
              (record {
                index_fits = h.index_fits;
                slots = h.slots;
                txs_fit = h.txs_fit;
                prev_fits = h.prev_fits;
                nonce_fits = nonce_fits;
                hash_fits = h.hash_fits;
              })
        | inr (hash, s) ↦
            let hash_fits = text_fits json (codes "hash") (omega arith) s in
            elim (Option-cases (json_get_int json (codes "tx_count"))) [
              | inl absent ↦
                  rw (read_rest, n, s, absent)
                    (record {
                      index_fits = h.index_fits;
                      slots = h.slots;
                      txs_fit = h.txs_fit;
                      prev_fits = h.prev_fits;
                      nonce_fits = nonce_fits;
                      hash_fits = hash_fits;
                    })
              | inr (count, c) ↦
                  let read =
                    read_tx_array-AreSlots (json_find_key json (codes "transactions")) count
                      b.transactions (h.slots, h.txs_fit) in
                  rw (read_rest, n, s, c)
                    (record {
                      index_fits = h.index_fits;
                      slots = read.0;
                      txs_fit = read.1;
                      prev_fits = h.prev_fits;
                      nonce_fits = nonce_fits;
                      hash_fits = hash_fits;
                    })
            ]
      ]
]

-- The block with the fields that are read first.
abbrev head_block : ℕ → ℤ → Bytes → Block
head_block index timestamp prev = record zero_block {
  index = index % 2 ^ 32;
  timestamp = timestamp;
  prev_hash = prev;
}

with_head :
    (index : ℕ) (timestamp : ℤ) (prev : Bytes)
    → length prev < hash_hex_len
    → HasBlockSizes (head_block index timestamp prev)
with_head index timestamp prev h = record {
  index_fits = omega arith;
  slots = zero_slots.0;
  txs_fit = zero_slots.1;
  prev_fits = h;
  nonce_fits = omega arith;
  hash_fits = omega arith;
}

pub zero_block-HasBlockSizes : HasBlockSizes zero_block
zero_block-HasBlockSizes = with_head 0 (pos 0) [] (omega arith)

sizes_hashes : (txs : List Tx) → All HasSizes txs → All (λ (tx : Tx). length tx.tx_hash ≤ 64) txs
sizes_hashes [] h = tt
sizes_hashes (tx ∷ txs) h = (omega (arith, h.0.hash_fits), sizes_hashes txs h.1)

-- Whatever the text is, and also if reading fails, the block has ten slots, and all its texts and
-- numbers but the count have the declared sizes.
pub protocol_deserialize_block-HasBlockSizes :
    (json : Bytes) → HasBlockSizes (protocol_deserialize_block json).1
unfolding protocol_deserialize_block
protocol_deserialize_block-HasBlockSizes json =
    elim (Option-cases (json_get_uint64 json (codes "index"))) [
      | inl absent ↦ rw (protocol_deserialize_block, absent) zero_block-HasBlockSizes
      | inr (index, i) ↦ elim (Option-cases (json_get_uint64 json (codes "timestamp"))) [
        | inl absent ↦
            rw (protocol_deserialize_block, i, absent) (with_head index (pos 0) [] (omega arith))
        | inr (timestamp, t) ↦
            elim (Option-cases (json_get_string json (codes "prev_hash") hash_hex_len)) [
              | inl absent ↦
                  rw (protocol_deserialize_block, i, t, absent)
                    (with_head index (signed64 timestamp) [] (omega arith))
              | inr (prev, p) ↦
                  rw (protocol_deserialize_block, i, t, p)
                    (read_rest-HasBlockSizes json (head_block index (signed64 timestamp) prev) (
                      with_head index (signed64 timestamp) prev
                        (text_fits json (codes "prev_hash") (omega arith) p)))
            ]
      ]
    ]

pub HasBlockSizes-IsWellFormed :
    (b : Block) → HasBlockSizes b → pos_part b.tx_count ≤ 10 → IsWellFormed b
HasBlockSizes-IsWellFormed b sizes h = record {
  slots = sizes.slots;
  count = h;
  prev_fits = omega (arith, sizes.prev_fits);
  hash_fits = omega (arith, sizes.hash_fits);
  hashes_fit = sizes_hashes b.transactions sizes.txs_fit;
}

-- So the count alone decides whether the block that was read has the declared sizes.
pub protocol_deserialize_block-IsWellFormed :
    (json : Bytes)
    → pos_part (protocol_deserialize_block json).1.tx_count ≤ 10
    → IsWellFormed (protocol_deserialize_block json).1
protocol_deserialize_block-IsWellFormed json h =
    HasBlockSizes-IsWellFormed (protocol_deserialize_block json).1
      (protocol_deserialize_block-HasBlockSizes json) h
