-- ===== src/Protocol/PrintedChains.antt =====
-- Chains printed as JSON (`protocol_serialize_chain` of src/protocol.c).
use mini_coin_slovak.Base.{
  ℕ, zero, suc, ◌+◌, ◌*◌, ◌<◌, ◌≤◌, ◌≡◌, refl, sym, ap, subst, ◌∙◌, List, [], ◌∷◌, ◌++◌, arith,
  length, length-append, append_assoc, append-nil, drop, some,
}
use mini_coin_slovak.Base.Int.{pos_part}
use mini_coin_slovak.Block.{Block}
use mini_coin_slovak.Chain.{Blockchain}
use mini_coin_slovak.CLib.{
  Bytes, Buffer, codes, strchr, decimal, snprintf, snprintf_fits, length-decimal-le,
}
use mini_coin_slovak.Json.{scan_object}
use mini_coin_slovak.Json.Fields.{Value, number, put_fields}
use mini_coin_slovak.Json.Search.{quoted}
use mini_coin_slovak.Protocol.{
  empty, protocol_serialize_block, protocol_deserialize_block, blocks_json,
  protocol_serialize_chain,
}
use mini_coin_slovak.Protocol.Array.{
  comma, comma_fits, length-comma-le, print_at_fits, followed, followed_twice, buffer, same_buffer,
}
use mini_coin_slovak.Protocol.Blocks.{read_back}
use mini_coin_slovak.Protocol.NestedBlocks.{IsLinkable, scan_object-block}
use mini_coin_slovak.Protocol.PrintedBlocks.{
  received, printed, serialized-printed, block_json-printed, block_json_fits,
}
use mini_coin_slovak.Protocol.ReadArray.{strchr-brace}
use mini_coin_slovak.Run.{returns, >>=-returns, success}

-- The print of a block.
abbrev pub whole : Block → Bytes
whole b = printed b (pos_part b.timestamp) (pos_part b.tx_count)

module _ (b : Block) (h : IsLinkable b) where
  pub same_text : printed b h.portable.moment h.portable.count ≡ whole b
  same_text = rw (h.portable.timestamp_is, h.portable.tx_count_is) refl

  pub serialized_whole : protocol_serialize_block b ≡ returns (whole b)
  serialized_whole = serialized-printed b h.portable ∙ ap returns same_text

  length-whole-lt : length (whole b) < 16384
  length-whole-lt =
      subst (λ s. length s < 16384) (block_json-printed b h.portable ∙ same_text)
        (block_json_fits b h.portable)

  pub deserialized_whole : protocol_deserialize_block (whole b) ≡ (success, received b)
  deserialized_whole = ap protocol_deserialize_block (sym same_text) ∙ read_back b h.portable

  pub scan_object-whole : (r : Bytes) → scan_object (whole b ++ r) 0 ≡ (whole b, r)
  scan_object-whole r =
      ap (λ s. scan_object (s ++ r) 0) (sym same_text)
      ∙ scan_object-block b h.portable.moment h.portable.count r h.portable.carried h.prev_braceless
          h.hash_braceless
      ∙ ap (λ s. (s, r)) same_text

  pub strchr-whole :
      (i : ℕ) (r : Bytes) → strchr (comma i ++ (whole b ++ r)) b'{' ≡ some (whole b ++ r)
  strchr-whole i r = strchr-brace i (drop 1 (whole b) ++ r)

-- The blocks from the index `i` on, in front of `rest`.
abbrev pub chunks : ℕ → ℕ → (ℕ → Block) → Bytes → Bytes
chunks zero i blocks rest = rest
chunks (suc n) i blocks rest = comma i ++ (whole (blocks i) ++ chunks n (suc i) blocks rest)

pub chunks-append :
    (n i : ℕ) (blocks : ℕ → Block) (s t : Bytes)
    → chunks n i blocks s ++ t ≡ chunks n i blocks (s ++ t)
chunks-append zero i blocks s t = refl
chunks-append (suc n) i blocks s t =
    append_assoc (comma i) (whole (blocks i) ++ chunks n (suc i) blocks s) t
    ∙ ap (λ r. comma i ++ r)
        (append_assoc (whole (blocks i)) (chunks n (suc i) blocks s) t
          ∙ ap (λ r. whole (blocks i) ++ r) (chunks-append n (suc i) blocks s t))

-- Every block that is printed has room in the buffer.
blocks_json_lem :
    (n i size : ℕ) (blocks : ℕ → Block) (b : Buffer)
    → ((j : ℕ) → j < i + n → IsLinkable (blocks j))
    → length b.text ≡ b.offset
    → b.offset + n * 16384 < size
    → (blocks_json n i size blocks b ≡ returns (followed b (chunks n i blocks [])))
      × (length (chunks n i blocks []) ≤ n * 16384)
unfolding blocks_json
blocks_json_lem zero i size blocks b ok e fits =
    (ap returns (same_buffer (sym (append-nil b.text)) (omega arith)), omega arith)
blocks_json_lem (suc n) i size blocks b ok e fits =
    let fine = ok i (omega arith) in
    let short = length-whole-lt (blocks i) fine in
    let s = comma i ++ whole (blocks i) in
    let short' : length s ≤ 16384 =
      omega (arith, length-append (comma i) (whole (blocks i)), length-comma-le i) in
    let (later, le) =
      blocks_json_lem n (suc i) size blocks (followed b s) (λ j lt. ok j (omega arith))
        (omega (arith, length-append b.text s)) (omega arith) in
    let joined = append_assoc (comma i) (whole (blocks i)) (chunks n (suc i) blocks []) in
    (
      >>=-returns _ (serialized_whole (blocks i) fine)
          ∙ >>=-returns _ (comma_fits size i b e (omega arith))
          ∙ >>=-returns _ (
              print_at_fits size (followed b (comma i)) (whole (blocks i))
                (omega (arith, length-append b.text (comma i))) (omega (arith, length-comma-le i)))
          ∙ ap (blocks_json n (suc i) size blocks) (followed_twice b (comma i) (whole (blocks i)))
          ∙ later
          ∙ ap returns (followed_twice b s (chunks n (suc i) blocks []))
          ∙ ap (λ t. returns (followed b t)) joined,
      omega (arith, ap length joined, length-append s (chunks n (suc i) blocks [])),
    )

-- The print of a chain: its length, and behind it the array of blocks.
abbrev pub chain_fields : ℕ → List (Bytes × Value)
chain_fields n = (codes "length", number n) ∷ []

abbrev pub block_array : Blockchain → Bytes
block_array c = b'[' ∷ chunks c.length 0 c.blocks (b']' ∷ b'}' ∷ [])

abbrev pub printed_chain : Blockchain → Bytes
printed_chain c =
    put_fields b'{' (chain_fields c.length) (b',' ∷ quoted (codes "blocks") (block_array c))

abbrev head_text : ℕ → Bytes
head_text n = codes "{\"length\":" ++ (decimal n ++ codes ",\"blocks\":[")

joined_text :
    (c : Blockchain)
    → (head_text c.length ++ chunks c.length 0 c.blocks []) ++ codes "]}" ≡ printed_chain c
joined_text c =
    let inner = chunks c.length 0 c.blocks [] in
    append_assoc (head_text c.length) inner (codes "]}")
    ∙ ap (λ s. head_text c.length ++ s) (chunks-append c.length 0 c.blocks [] (codes "]}"))
    ∙ ap (λ s. codes "{\"length\":" ++ s)
        (append_assoc (decimal c.length) (codes ",\"blocks\":[")
          (chunks c.length 0 c.blocks (codes "]}")))

-- The buffer cuts nothing off.
pub serialized_chain :
    (c : Blockchain)
    → ((i : ℕ) → i < c.length → IsLinkable (c.blocks i))
    → protocol_serialize_chain c ≡ returns (printed_chain c)
unfolding protocol_serialize_chain
serialized_chain c ok =
    let size = c.length * 16384 + 256 in
    let head = head_text c.length in
    let short : length head ≤ 60 = simp length-append (omega (arith, length-decimal-le c.length)) in
    let inner = chunks c.length 0 c.blocks [] in
    let begun : snprintf size empty head ≡ buffer head (length head) =
      snprintf_fits size empty head refl (omega arith) ∙ same_buffer refl (omega arith) in
    let (blocks, le) =
      blocks_json_lem c.length 0 size c.blocks (buffer head (length head))
        (λ j lt. ok j (omega arith)) refl (omega arith) in
    >>=-returns _ (ap (blocks_json c.length 0 size c.blocks) begun ∙ blocks)
    ∙ >>=-returns _ (
        print_at_fits size (followed (buffer head (length head)) inner) (codes "]}")
          (omega (arith, length-append head inner)) (omega arith))
    ∙ ap returns (joined_text c)
