-- ===== src/Protocol/Total.antt =====
-- Printing blocks and chains of the declared sizes (`protocol_serialize_block` and
-- `protocol_serialize_chain` of src/protocol.c) stays inside the buffers, whatever the texts are.
use mini_coin_slovak.Base.{
  ℕ, zero, suc, ◌+◌, ◌*◌, ◌<◌, ◌≤◌, ◌≡◌, refl, ap, ◌∙◌, true, some, subst, List, [], ◌∷◌, ◌++◌,
  arith, length, get_elem?, get_elem?_total, length-append, length-take, ltb, leb, leb_iff,
  if◌then◌else◌, All,
}
use mini_coin_slovak.Base.Int.{pos_part}
use mini_coin_slovak.Block.{Block}
use mini_coin_slovak.Chain.{Blockchain}
use mini_coin_slovak.CLib.{Bytes, Buffer, snprintf, codes, decimal, length-decimal-le}
use mini_coin_slovak.Protocol.{
  empty, print_at, txs_json, block_json, blocks_json, protocol_serialize_tx,
  protocol_serialize_block, protocol_serialize_chain,
}
use mini_coin_slovak.Protocol.Bounds.{HasSizes}
use mini_coin_slovak.Protocol.BlockBounds.{HasBlockSizes}
use mini_coin_slovak.Protocol.ChainBounds.{HasChainSizes}
use mini_coin_slovak.Protocol.Txs.{length-serialize_tx-lt}
use mini_coin_slovak.Run.{Run, returns, deref, >>=-returns}
use mini_coin_slovak.Tx.{Tx}

-- The run returns a buffer whose offset is no more than `limit`.
abbrev Prints : Run Buffer → ℕ → Type 0
Prints run limit = (b : Buffer) × (run ≡ returns b) × (b.offset ≤ limit)

print_at-Prints :
    (size n : ℕ) (b : Buffer) (s : Bytes)
    → b.offset ≤ size
    → length s ≤ n
    → Prints (print_at size b s) (b.offset + n)
print_at-Prints size n b s fits short =
    let inside : leb b.offset size ≡ true = (leb_iff _ _).1 fits in
    (snprintf size b s, rw inside refl, omega arith)

comma-Prints :
    (size i : ℕ) (b : Buffer)
    → b.offset ≤ size
    → Prints (if ltb 0 i then print_at size b (codes ",") else returns b) (b.offset + 1)
comma-Prints size zero b fits = (b, refl, omega arith)
comma-Prints size (suc i) b fits =
    let behind : ltb 0 (suc i) ≡ true = ground arith in
    rw behind (print_at-Prints size 1 b (codes ",") fits (omega arith))

All-get_elem? :
    (P : Tx → Type 0) (txs : List Tx) (i : ℕ) {tx : Tx}
    → All P txs
    → get_elem? txs i ≡ some tx
    → P tx
All-get_elem? P [] i h e = absurd (ground arith)
All-get_elem? P (x ∷ txs) zero {tx} h e = let same : x ≡ tx = cc in subst P same h.0
All-get_elem? P (x ∷ txs) (suc i) h e = All-get_elem? P txs i h.1 e

txs_json-Prints :
    (n i : ℕ) (txs : List Tx) (b : Buffer)
    → i + n ≤ length txs
    → All HasSizes txs
    → b.offset + n * 601 ≤ 8192
    → Prints (txs_json n i txs b) (b.offset + n * 601)
unfolding txs_json
txs_json-Prints zero i txs b slots sizes fits = (b, refl, omega arith)
txs_json-Prints (suc n) i txs b slots sizes fits =
    let (tx, found) = get_elem?_total txs i (omega arith) in
    let short = length-serialize_tx-lt tx (All-get_elem? HasSizes txs i sizes found) in
    let (b1, comma, le1) = comma-Prints 8192 i b (omega arith) in
    let (b2, text, le2) =
      print_at-Prints 8192 600 b1 (protocol_serialize_tx tx) (omega arith) (omega arith) in
    let (b3, rest, le3) = txs_json-Prints n (suc i) txs b2 (omega arith) sizes (omega arith) in
    (
      b3,
      >>=-returns _ (ap deref found) ∙ >>=-returns _ comma ∙ >>=-returns _ text ∙ rest,
      omega arith,
    )

-- A block of the declared sizes, with no more transactions than slots, is printed; the text is cut to its
-- buffer of 16384 bytes.
pub protocol_serialize_block-Prints :
    (b : Block)
    → HasBlockSizes b
    → pos_part b.tx_count ≤ 10
    → (json : Bytes) × (protocol_serialize_block b ≡ returns json) × (length json ≤ 16383)
unfolding protocol_serialize_block
protocol_serialize_block-Prints b sizes count =
    let (buf, txs, le) =
      txs_json-Prints (pos_part b.tx_count) 0 b.transactions
        (record { text = codes "["; offset = 1 }) (omega (arith, sizes.slots)) sizes.txs_fit
        (omega arith) in
    let (closed, bracket, le1) =
      print_at-Prints 8192 1 buf (codes "]") (omega arith) (omega arith) in
    let json = (snprintf 16384 empty (block_json b closed.text)).text in
    (
      json,
      >>=-returns _ txs ∙ >>=-returns _ bracket,
      omega (arith, length-take 16383 (block_json b closed.text)),
    )

blocks_json-Prints :
    (n i size : ℕ) (blocks : ℕ → Block) (b : Buffer)
    → ((j : ℕ) → HasBlockSizes (blocks j))
    → ((j : ℕ) → j < i + n → pos_part (blocks j).tx_count ≤ 10)
    → b.offset + n * 16384 ≤ size
    → Prints (blocks_json n i size blocks b) (b.offset + n * 16384)
unfolding blocks_json
blocks_json-Prints zero i size blocks b sizes counts fits = (b, refl, omega arith)
blocks_json-Prints (suc n) i size blocks b sizes counts fits =
    let (json, block, short) =
      protocol_serialize_block-Prints (blocks i) (sizes i) (counts i (omega arith)) in
    let (b1, comma, le1) = comma-Prints size i b (omega arith) in
    let (b2, text, le2) = print_at-Prints size 16383 b1 json (omega arith) short in
    let (b3, rest, le3) =
      blocks_json-Prints n (suc i) size blocks b2 sizes (λ j lt. counts j (omega arith))
        (omega arith) in
    (b3, >>=-returns _ block ∙ >>=-returns _ comma ∙ >>=-returns _ text ∙ rest, omega arith)

-- A chain of the declared sizes, in whose blocks no more transactions are counted than there are slots,
-- is printed whole: its buffer always has room for the next write.
pub protocol_serialize_chain-Prints :
    (c : Blockchain)
    → HasChainSizes c
    → ((i : ℕ) → i < c.length → pos_part (c.blocks i).tx_count ≤ 10)
    → (json : Bytes) × (protocol_serialize_chain c ≡ returns json)
unfolding protocol_serialize_chain
protocol_serialize_chain-Prints c sizes counts =
    let size = c.length * 16384 + 256 in
    let head = codes "{\"length\":" ++ (decimal c.length ++ codes ",\"blocks\":[") in
    let short : length head ≤ 60 = simp length-append (omega (arith, length-decimal-le c.length)) in
    let (buf, blocks, le) =
      blocks_json-Prints c.length 0 size c.blocks (snprintf size empty head) sizes.blocks_fit
        (λ j lt. counts j (omega arith)) (omega arith) in
    let (closed, bracket, le1) =
      print_at-Prints size 2 buf (codes "]}") (omega arith) (omega arith) in
    (closed.text, >>=-returns _ blocks ∙ >>=-returns _ bracket)
