-- ===== src/Protocol/Blocks.antt =====
-- Blocks as JSON (`protocol_serialize_block` and `protocol_deserialize_block` of src/protocol.c): what
-- is printed is read back.
use mini_coin_slovak.Base.{
  ℕ, ◌%◌, ◌^◌, ◌<◌, ◌≤◌, ◌≡◌, refl, sym, ap, ◌∙◌, some, List, [], ◌∷◌, arith, length, drop,
}
use mini_coin_slovak.Base.Int.{ℤ, pos, pos_part, signed64}
use mini_coin_slovak.Block.{Block, zero_block, hash_hex_len}
use mini_coin_slovak.CLib.{Bytes, codes}
use mini_coin_slovak.Json.{
  search_text, skip_blanks, json_find_key, json_get_string, json_get_uint64, json_get_int,
}
use mini_coin_slovak.Json.Search.{quoted}
use mini_coin_slovak.Json.Fields.{Value, text, number, IsKey, AreKeys}
use mini_coin_slovak.Json.Fetch.{
  Holds, json_get_string-field, json_get_uint64-field, json_get_int-field, json_find_key-behind,
}
use mini_coin_slovak.Protocol.{
  protocol_serialize_block, read_rest, protocol_deserialize_block, read_tx_array, read_txs,
  min_count,
}
use mini_coin_slovak.Protocol.Array.{AreCarried, elements}
use mini_coin_slovak.Protocol.ReadArray.{over, read_txs_lem}
use mini_coin_slovak.Run.{returns, ◌>>=◌, success}
use mini_coin_slovak.Tx.{Tx}
use mini_coin_slovak.Protocol.PrintedBlocks.{
  IsPortable, received, block_fields, array, tail_of, printed, serialized-printed,
}

module _ (b : Block) (moment count : ℕ) where
  keys : AreKeys (block_fields b moment count)
  keys = search

  get_string :
      (key s : Bytes) (later : List (Bytes × Value))
      → search_text key (b':' ∷ []) ≡ quoted key []
      → IsKey key
      → length s < hash_hex_len
      → Holds key (text s) later (block_fields b moment count) (tail_of b count)
      → json_get_string (printed b moment count) key hash_hex_len ≡ some s
  get_string key s later fits hk room h =
      json_get_string-field key b'{' (block_fields b moment count) later (tail_of b count) fits hk
        refl keys refl s hash_hex_len room h

  get_number :
      (key : Bytes) (n : ℕ) (later : List (Bytes × Value))
      → search_text key (b':' ∷ []) ≡ quoted key []
      → IsKey key
      → n < 2 ^ 64
      → Holds key (number n) later (block_fields b moment count) (tail_of b count)
      → json_get_uint64 (printed b moment count) key ≡ some n
  get_number key n later fits hk small h =
      json_get_uint64-field key b'{' (block_fields b moment count) later (tail_of b count) fits hk
        refl keys refl n small h

  get_count :
      count ≤ 10 → json_get_int (printed b moment count) (codes "tx_count") ≡ some (pos count)
  get_count le =
      json_get_int-field (codes "tx_count") b'{' (block_fields b moment count) [] (tail_of b count)
        refl (search) refl keys refl count (omega arith) refl

  find_array :
      json_find_key (printed b moment count) (codes "transactions")
      ≡ some (array count b.transactions (b'}' ∷ []))
  unfolding skip_blanks
  find_array =
      json_find_key-behind (codes "transactions") b'{' (block_fields b moment count)
        (array count b.transactions (b'}' ∷ [])) refl (search) refl keys refl refl

min_small : (n : ℕ) → n ≤ 10 → min_count (pos n) ≡ n
min_small n h = ground arith

read_array :
    (count : ℕ) (txs : List Tx) (rest : Bytes)
    → AreCarried count txs
    → count ≤ 10
    → read_tx_array (some (array count txs rest)) (pos count) zero_block.transactions
      ≡ over count txs zero_block.transactions
unfolding read_tx_array
read_array count txs rest carried le =
    ap (λ n. read_txs n 0 (elements count 0 txs (b']' ∷ rest)) zero_block.transactions)
      (min_small count le)
    ∙ read_txs_lem count 0 txs [] zero_block.transactions (b']' ∷ rest) carried refl le

deserialized :
    (json : Bytes) (b : Block) (moment count : ℕ) (txs : Bytes)
    → json_get_uint64 json (codes "index") ≡ some b.index
    → json_get_uint64 json (codes "timestamp") ≡ some moment
    → json_get_string json (codes "prev_hash") hash_hex_len ≡ some b.prev_hash
    → json_get_uint64 json (codes "nonce") ≡ some b.nonce
    → json_get_string json (codes "hash") hash_hex_len ≡ some b.hash
    → json_get_int json (codes "tx_count") ≡ some (pos count)
    → json_find_key json (codes "transactions") ≡ some txs
    → protocol_deserialize_block json ≡ (
      success,
      record {
        index = b.index % 2 ^ 32;
        timestamp = signed64 moment;
        transactions = read_tx_array (some txs) (pos count) zero_block.transactions;
        tx_count = pos count;
        prev_hash = b.prev_hash;
        nonce = b.nonce;
        hash = b.hash;
      },
    )
unfolding protocol_deserialize_block read_rest
deserialized json b moment count txs i t p n h c a =
    rw (protocol_deserialize_block, i, t, p, read_rest, n, h, c, a) refl

signed64_small : (n : ℕ) → n < 2 ^ 63 → signed64 n ≡ pos n
signed64_small n h = ground arith

abbrev built : Block → ℕ → ℤ → List Tx → ℤ → Block
built b i t txs n = record b { index = i; timestamp = t; transactions = txs; tx_count = n }

same_block :
    (b : Block) {i : ℕ} {t n : ℤ} {txs txs' : List Tx}
    → i ≡ b.index
    → t ≡ b.timestamp
    → n ≡ b.tx_count
    → txs ≡ txs'
    → built b i t txs n ≡ record b { transactions = txs' }
same_block b hi ht hn hs = rw (hi, ht, hn, hs) refl

pub read_back :
    (b : Block) (h : IsPortable b)
    → protocol_deserialize_block (printed b h.moment h.count) ≡ (success, received b)
read_back b h =
    let m = h.moment in
    let n = h.count in
    let fs = block_fields b m n in
    deserialized (printed b m n) b m n (array n b.transactions (b'}' ∷ []))
      (get_number b m n (codes "index") b.index (drop 1 fs) refl (search)
        (omega (arith, h.index_fits)) refl)
      (get_number b m n (codes "timestamp") m (drop 2 fs) refl (search)
        (omega (arith, h.moment_fits)) refl)
      (get_string b m n (codes "prev_hash") b.prev_hash (drop 3 fs) refl (search) h.prev_fits refl)
      (get_number b m n (codes "nonce") b.nonce (drop 4 fs) refl (search) h.nonce_fits refl)
      (get_string b m n (codes "hash") b.hash (drop 5 fs) refl (search) h.hash_fits refl)
      (get_count b m n h.count_le) (find_array b m n)
    ∙ ap (λ c. (success, c))
        (same_block b (omega (arith, h.index_fits))
          (signed64_small m h.moment_fits ∙ sym h.timestamp_is) (sym h.tx_count_is)
          (read_array n b.transactions (b'}' ∷ []) h.carried h.count_le
            ∙ ap (λ k. over (pos_part k) b.transactions zero_block.transactions)
                (sym h.tx_count_is)))

-- A block of the declared sizes, with a time since 1970, hashes without quotes and backslashes, and
-- at most ten transactions that are read back from their own JSON and have no braces in their texts,
-- is printed and read back with all its fields, and with zeroes in the slots that are not in use.
pub protocol_deserialize_block-protocol_serialize_block :
    (b : Block)
    → IsPortable b
    → (protocol_serialize_block b >>= λ json. returns (protocol_deserialize_block json))
      ≡ returns (success, received b)
protocol_deserialize_block-protocol_serialize_block b h =
    rw (serialized-printed b h) (ap returns (read_back b h))
