-- ===== src/Protocol/PrintedBlocks.antt =====
-- Blocks printed as JSON (`protocol_serialize_block` of src/protocol.c).
use mini_coin_slovak.Base.{
  ℕ, ◌^◌, ◌<◌, ◌≤◌, ◌≡◌, refl, ap, List, [], ◌∷◌, arith, length, length-append, take-all,
}
use mini_coin_slovak.Base.Int.{pos, pos_part}
use mini_coin_slovak.Block.{Block, zero_block, hash_hex_len}
use mini_coin_slovak.CLib.{
  Bytes, Buffer, codes, length-decimal-le, length-decimal_ℤ-le, decimal_ℤ, decimal,
}
use mini_coin_slovak.Json.Search.{quoted}
use mini_coin_slovak.Json.Escape.{escaped-plain}
use mini_coin_slovak.Json.Fields.{Value, text, number, put_fields}
use mini_coin_slovak.Protocol.{block_json, protocol_serialize_block}
use mini_coin_slovak.Protocol.Txs.{IsPlain}
use mini_coin_slovak.Protocol.Array.{
  AreCarried, elements, length-elements-le, elements-append, txs_json_lem, print_at_fits, followed,
}
use mini_coin_slovak.Protocol.ReadArray.{over}
use mini_coin_slovak.Run.{returns}
use mini_coin_slovak.Tx.{Tx}

-- A block of the declared sizes, with a time since 1970, hashes without quotes and backslashes, and
-- at most ten transactions that can stand in a block.
pub record IsPortable (b : Block) : Type 0 where
  pub index_fits : b.index < 2 ^ 32
  pub moment : ℕ
  pub timestamp_is : b.timestamp ≡ pos moment
  pub moment_fits : moment < 2 ^ 63
  pub prev_fits : length b.prev_hash < hash_hex_len
  pub prev_plain : IsPlain b.prev_hash
  pub nonce_fits : b.nonce < 2 ^ 64
  pub hash_fits : length b.hash < hash_hex_len
  pub hash_plain : IsPlain b.hash
  pub count : ℕ
  pub tx_count_is : b.tx_count ≡ pos count
  pub count_le : count ≤ 10
  pub carried : AreCarried count b.transactions

-- The block with zeroes in the slots that are not in use.
abbrev pub received : Block → Block
received b = record b {
  transactions = over (pos_part b.tx_count) b.transactions zero_block.transactions;
}

abbrev pub block_fields : Block → ℕ → ℕ → List (Bytes × Value)
block_fields b moment count =
    (codes "index", number b.index)
    ∷ (codes "timestamp", number moment)
    ∷ (codes "prev_hash", text b.prev_hash)
    ∷ (codes "nonce", number b.nonce)
    ∷ (codes "hash", text b.hash)
    ∷ (codes "tx_count", number count)
    ∷ []

abbrev pub array : ℕ → List Tx → Bytes → Bytes
array count txs rest = b'[' ∷ elements count 0 txs (b']' ∷ rest)

abbrev pub tail_of : Block → ℕ → Bytes
tail_of b count = b',' ∷ quoted (codes "transactions") (array count b.transactions (b'}' ∷ []))

abbrev pub printed : Block → ℕ → ℕ → Bytes
printed b moment count = put_fields b'{' (block_fields b moment count) (tail_of b count)

decimal_pos : (n : ℕ) → decimal_ℤ (pos n) ≡ decimal n
unfolding decimal_ℤ
decimal_pos n = refl

pub block_json-printed :
    (b : Block) (h : IsPortable b)
    → block_json b (array h.count b.transactions []) ≡ printed b h.moment h.count
unfolding block_json
block_json-printed b h =
    rw
      (
        h.timestamp_is,
        h.tx_count_is,
        decimal_pos h.moment,
        decimal_pos h.count,
        escaped-plain b.prev_hash h.prev_plain,
        escaped-plain b.hash h.hash_plain,
        elements-append h.count 0 b.transactions (b']' ∷ []) (b'}' ∷ []),
      )
      refl

pub block_json_fits :
    (b : Block) (h : IsPortable b) → length (block_json b (array h.count b.transactions [])) < 16384
unfolding block_json
block_json_fits b h =
    let whole = length-elements-le h.count 0 b.transactions (b']' ∷ []) h.carried in
    simp length-append (
      omega (
        arith,
        length-decimal-le b.index,
        length-decimal_ℤ-le b.timestamp,
        length-decimal-le b.nonce,
        length-decimal_ℤ-le b.tx_count,
        h.prev_fits,
        h.hash_fits,
        h.count_le,
        whole,
      ))

-- Neither buffer cuts anything off.
pub serialized-printed :
    (b : Block) (h : IsPortable b)
    → protocol_serialize_block b ≡ returns (printed b h.moment h.count)
unfolding protocol_serialize_block
serialized-printed b h =
    let start : Buffer = record { text = codes "["; offset = 1 } in
    let inside = elements h.count 0 b.transactions [] in
    let bound = length-elements-le h.count 0 b.transactions [] h.carried in
    rw
      (
        protocol_serialize_block,
        ap pos_part h.tx_count_is,
        txs_json_lem h.count 0 b.transactions b.transactions start refl h.carried refl
            (omega (arith, h.count_le)),
        print_at_fits 8192 (followed start inside) (b']' ∷ []) (omega arith)
            (omega (arith, h.count_le)),
        elements-append h.count 0 b.transactions [] (b']' ∷ []),
        take-all 16383 (block_json b (array h.count b.transactions []))
            (omega (arith, block_json_fits b h)),
        block_json-printed b h,
      )
      refl
