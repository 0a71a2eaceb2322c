-- ===== src/Protocol.antt =====
-- src/protocol.c: transactions, blocks and chains as JSON. Every `malloc` is taken to succeed.
pub mod Txs
pub mod Array
pub mod ReadArray
pub mod PrintedBlocks
pub mod Blocks
pub mod NestedBlocks
pub mod PrintedChains
pub mod Chains
pub mod Received
pub mod Bounds
pub mod BlockBounds
pub mod ChainBounds
pub mod Total
pub mod Payload
pub mod Messages
pub mod Nesting
pub mod NestedPayloads
pub mod RoundTrip
use mini_coin_slovak.Base.{
  ℕ, zero, suc, ◌+◌, ◌-◌, ◌*◌, ◌%◌, ◌^◌, Bool, true, false, not, ◌&&◌, ◌||◌, Option, none, some,
  List, [], ◌∷◌, ◌++◌, length, get_elem?, set, ltb, leb, ◌==◌, if◌then◌else◌,
}
use mini_coin_slovak.Base.Int.{ℤ, pos, negsuc, pos_part, leb_ℤ, signed64}
use mini_coin_slovak.Block.{Block, zero_block, max_tx_per_block, hash_hex_len}
use mini_coin_slovak.Chain.{Blockchain, write, max_blocks}
use mini_coin_slovak.CLib.{Bytes, Buffer, snprintf, codes, decimal, decimal_ℤ, strchr}
use mini_coin_slovak.Json.{
  json_escape, json_find_key, json_get_string, json_get_uint64, json_get_int, scan_object,
}
use mini_coin_slovak.Run.{Run, returns, undefined, ◌>>=◌, deref, Status, success, failure}
use mini_coin_slovak.Tx.{Tx, zero_tx, addr_len, sig_len}

abbrev pub empty : Buffer
empty = record { text = []; offset = 0 }

-- `offset += snprintf(buf + offset, size - offset, …)` where nothing keeps `offset` within `size`:
-- beyond it the length wraps around, and the write leaves the buffer.
abbrev pub print_at : ℕ → Buffer → Bytes → Run Buffer
print_at size b s = if leb b.offset size then returns (snprintf size b s) else undefined

unfoldable pub tx_json : Tx → Bytes
tx_json tx =
    codes "{\"sender\":\""
    ++ (json_escape tx.sender (addr_len * 2)
        ++ (codes "\",\"receiver\":\""
            ++ (json_escape tx.receiver (addr_len * 2)
                ++ (codes "\",\"amount\":"
                    ++ (decimal tx.amount
                        ++ (codes ",\"fee\":"
                            ++ (decimal tx.fee
                                ++ (codes ",\"signature\":\""
                                    ++ (tx.signature
                                        ++ (codes "\",\"tx_hash\":\""
                                            ++ (tx.tx_hash ++ codes "\"}")))))))))))

unfoldable pub protocol_serialize_tx : Tx → Bytes
protocol_serialize_tx tx = (snprintf 1024 empty (tx_json tx)).text

-- A field that is not there keeps what `memset` left.
abbrev pub or_else {ℓ} : {A : Type ℓ} → Option A → A → A
or_else none a = a
or_else (some b) a = b

-- The transaction comes back also with -1, as far as it was filled.
unfoldable pub protocol_deserialize_tx : Bytes → Status × Tx
protocol_deserialize_tx json = elim (json_get_string json (codes "sender") addr_len) [
  | none ↦ (failure, zero_tx)
  | some sender ↦ elim (json_get_string json (codes "receiver") addr_len) [
    | none ↦ (failure, record zero_tx { sender = sender })
    | some receiver ↦ elim (json_get_uint64 json (codes "amount")) [
      | none ↦ (failure, record zero_tx { sender = sender; receiver = receiver })
      | some amount ↦ (
        success,
        record {
          sender = sender;
          receiver = receiver;
          amount = amount;
          fee = or_else (json_get_uint64 json (codes "fee")) 0;
          signature = or_else (json_get_string json (codes "signature") sig_len) [];
          tx_hash = or_else (json_get_string json (codes "tx_hash") 65) [];
        },
      )
    ]
  ]
]

-- The loop over the transactions of a block, with `rounds` left from the slot `i` on.
unfoldable pub txs_json : ℕ → ℕ → List Tx → Buffer → Run Buffer
txs_json zero i txs buf = returns buf
txs_json (suc rounds) i txs buf = do
  tx ← deref (get_elem? txs i)
  buf' ← if ltb 0 i then print_at 8192 buf (codes ",") else returns buf
  buf'' ← print_at 8192 buf' (protocol_serialize_tx tx)
  txs_json rounds (suc i) txs buf''

unfoldable pub block_json : Block → Bytes → Bytes
block_json block txs =
    codes "{\"index\":"
    ++ (decimal block.index
        ++ (codes ",\"timestamp\":"
            ++ (decimal_ℤ block.timestamp
                ++ (codes ",\"prev_hash\":\""
                    ++ (block.prev_hash
                        ++ (codes "\",\"nonce\":"
                            ++ (decimal block.nonce
                                ++ (codes ",\"hash\":\""
                                    ++ (block.hash
                                        ++ (codes "\",\"tx_count\":"
                                            ++ (decimal_ℤ block.tx_count
                                                ++ (codes ",\"transactions\":"
                                                    ++ (txs ++ codes "}")))))))))))))

unfoldable pub protocol_serialize_block : Block → Run Bytes
protocol_serialize_block block = do
  buf ←
      txs_json (pos_part block.tx_count) 0 block.transactions
        (record { text = codes "["; offset = 1 })
  closed ← print_at 8192 buf (codes "]")
  returns (snprintf 16384 empty (block_json block closed.text)).text

-- The loop over the transactions that are read, with `rounds` left from the slot `i` on.
unfoldable pub read_txs : ℕ → ℕ → Bytes → List Tx → List Tx
read_txs zero i txs_start txs = txs
read_txs (suc rounds) i txs_start txs = elim (strchr txs_start b'{') [
  | none ↦ txs
  | some obj_start ↦
      let (object, p) = scan_object obj_start 0 in
      read_txs rounds (suc i) p (set txs i (protocol_deserialize_tx object).1)
]

abbrev pub min_count : ℤ → ℕ
min_count tx_count =
    if ltb (pos_part tx_count) max_tx_per_block then pos_part tx_count else max_tx_per_block

-- The array behind `"transactions":`, if there is one.
unfoldable pub read_tx_array : Option Bytes → ℤ → List Tx → List Tx
read_tx_array none tx_count txs = txs
read_tx_array (some []) tx_count txs = txs
read_tx_array (some (c ∷ txs_start)) tx_count txs =
    if c == b'[' then read_txs (min_count tx_count) 0 txs_start txs else txs

-- The fields from the nonce on, and the transactions.
unfoldable pub read_rest : Bytes → Block → Status × Block
read_rest json b = elim (json_get_uint64 json (codes "nonce")) [
  | none ↦ (failure, b)
  | some nonce ↦
      let b1 : Block = record b { nonce = nonce } in
      elim (json_get_string json (codes "hash") hash_hex_len) [
        | none ↦ (failure, b1)
        | some hash ↦
            let b2 : Block = record b1 { hash = hash } in
            elim (json_get_int json (codes "tx_count")) [
              | none ↦ (failure, b2)
              | some tx_count ↦ (
                success,
                record b2 {
                  tx_count = tx_count;
                  transactions =
                      read_tx_array (json_find_key json (codes "transactions")) tx_count
                        b2.transactions;
                },
              )
            ]
      ]
]

-- The block comes back also with -1, as far as it was filled.
unfoldable pub protocol_deserialize_block : Bytes → Status × Block
protocol_deserialize_block json = elim (json_get_uint64 json (codes "index")) [
  | none ↦ (failure, zero_block)
  | some index ↦
      let b1 : Block = record zero_block { index = index % 2 ^ 32 } in
      elim (json_get_uint64 json (codes "timestamp")) [
        | none ↦ (failure, b1)
        | some timestamp ↦
            let b2 : Block = record b1 { timestamp = signed64 timestamp } in
            elim (json_get_string json (codes "prev_hash") hash_hex_len) [
              | none ↦ (failure, b2)
              | some prev_hash ↦ read_rest json (record b2 { prev_hash = prev_hash })
            ]
      ]
]

-- The loop over the blocks, with `rounds` left from the block `i` on.
unfoldable pub blocks_json : ℕ → ℕ → ℕ → (ℕ → Block) → Buffer → Run Buffer
blocks_json zero i size blocks buf = returns buf
blocks_json (suc rounds) i size blocks buf = do
  json ← protocol_serialize_block (blocks i)
  buf' ← if ltb 0 i then print_at size buf (codes ",") else returns buf
  buf'' ← print_at size buf' json
  blocks_json rounds (suc i) size blocks buf''

unfoldable pub protocol_serialize_chain : Blockchain → Run Bytes
protocol_serialize_chain chain = do
  let size = chain.length * 16384 + 256
  let start =
      snprintf size empty (codes "{\"length\":" ++ (decimal chain.length ++ codes ",\"blocks\":["))
  buf ← blocks_json chain.length 0 size chain.blocks start
  closed ← print_at size buf (codes "]}")
  returns closed.text

-- The loop over the blocks that are read, into the chain; `length` counts them.
unfoldable pub read_blocks : ℕ → ℕ → Bytes → Blockchain → Status × Blockchain
read_blocks zero i blocks_start chain = (success, chain)
read_blocks (suc rounds) i blocks_start chain = elim (strchr blocks_start b'{') [
  | none ↦ (success, chain)
  | some obj_start ↦
      let (object, p) = scan_object obj_start 0 in
      let (status, block) = protocol_deserialize_block object in
      let blocks = write chain.blocks i block in
      elim status [
        | failure ↦ (failure, record chain { blocks = blocks })
        | success ↦
            read_blocks rounds (suc i) p (record { blocks = blocks; length = chain.length + 1 })
      ]
]

-- The array behind `"blocks":`.
unfoldable pub read_block_array : Option Bytes → ℕ → Blockchain → Status × Blockchain
read_block_array none length chain = (failure, chain)
read_block_array (some []) length chain = (failure, chain)
read_block_array (some (c ∷ blocks_start)) length chain =
    if c == b'['
    then read_blocks length 0 blocks_start (record chain { length = 0 })
    else (failure, chain)

unfoldable pub protocol_deserialize_chain : Bytes → Blockchain → Status × Blockchain
protocol_deserialize_chain json chain = elim (json_get_int json (codes "length")) [
  | none ↦ (failure, chain)
  | some length ↦
      (if leb_ℤ length (pos 0) || not (leb_ℤ length (pos max_blocks))
        then (failure, chain)
        else read_block_array (json_find_key json (codes "blocks")) (pos_part length) chain)
]
