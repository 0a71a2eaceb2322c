-- ===== src/Protocol/Chains.antt =====
-- Chains as JSON (`protocol_serialize_chain` and `protocol_deserialize_chain` of src/protocol.c): what
-- is printed is read back.
use mini_coin_slovak.Base.{
  ℕ, zero, suc, ◌+◌, ◌<◌, ◌≤◌, ◌≡◌, refl, sym, ap, ◌∙◌, some, true, false, List, [], ◌∷◌, ◌++◌,
  arith, map, ◌||◌, ◌==◌, not,
}
use mini_coin_slovak.Base.Int.{pos, leb_ℤ}
use mini_coin_slovak.Block.{Block}
use mini_coin_slovak.Chain.{Blockchain, write, max_blocks}
use mini_coin_slovak.Chain.Add.{live, first_blocks, first_blocks-ext}
use mini_coin_slovak.CLib.{Bytes, codes}
use mini_coin_slovak.Json.{scan_object, skip_blanks, json_find_key, json_get_int}
use mini_coin_slovak.Json.Fetch.{json_get_int-field, json_find_key-behind}
use mini_coin_slovak.Json.Fields.{AreKeys}
use mini_coin_slovak.Json.Search.{quoted}
use mini_coin_slovak.Protocol.{
  protocol_deserialize_block, protocol_serialize_chain, protocol_deserialize_chain, read_blocks,
  read_block_array,
}
use mini_coin_slovak.Protocol.Array.{comma}
use mini_coin_slovak.Protocol.NestedBlocks.{IsLinkable}
use mini_coin_slovak.Protocol.PrintedBlocks.{received}
use mini_coin_slovak.Protocol.PrintedChains.{
  whole, chunks, deserialized_whole, scan_object-whole, strchr-whole, chain_fields, block_array,
  printed_chain, serialized_chain,
}
use mini_coin_slovak.Run.{returns, Status, success, failure}

-- The chain that is read into, with one more block.
abbrev pub with_block : ℕ → Block → Blockchain → Blockchain
with_block i b c = record { blocks = write c.blocks i b; length = c.length + 1 }

abbrev pub taken : ℕ → ℕ → (ℕ → Block) → Blockchain → Blockchain
taken zero i blocks c = c
taken (suc n) i blocks c = taken n (suc i) blocks (with_block i (received (blocks i)) c)

pub length-taken :
    (n i : ℕ) (blocks : ℕ → Block) (c : Blockchain) → (taken n i blocks c).length ≡ c.length + n
length-taken zero i blocks c = omega arith
length-taken (suc n) i blocks c =
    omega (arith, length-taken n (suc i) blocks (with_block i (received (blocks i)) c))

before-taken :
    (n i : ℕ) (blocks : ℕ → Block) (c : Blockchain) (j : ℕ)
    → j < i
    → (taken n i blocks c).blocks j ≡ c.blocks j
before-taken zero i blocks c j h = refl
before-taken (suc n) i blocks c j h =
    before-taken n (suc i) blocks (with_block i (received (blocks i)) c) j (omega arith)
    ∙ ground arith

pub blocks-taken :
    (n i : ℕ) (blocks : ℕ → Block) (c : Blockchain) (j k : ℕ)
    → j ≡ i + k
    → k < n
    → (taken n i blocks c).blocks j ≡ received (blocks j)
blocks-taken zero i blocks c j k e h = absurd (omega arith)
blocks-taken (suc n) i blocks c j zero e h =
    let here : j ≡ i = omega arith in
    let now : (j == i) ≡ true = ground arith in
    before-taken n (suc i) blocks (with_block i (received (blocks i)) c) j (omega arith)
    ∙ rw now (ap (λ k. received (blocks k)) (sym here))
blocks-taken (suc n) i blocks c j (suc k) e h =
    blocks-taken n (suc i) blocks (with_block i (received (blocks i)) c) j k (omega arith)
      (omega arith)

-- A round of the loop, behind the scan for the end of the block, and behind the reading of the block.
abbrev after_reading : ℕ → ℕ → Blockchain → Bytes → Status × Block → Status × Blockchain
after_reading n i c p read = elim read.0 [
  | failure ↦ (failure, record c { blocks = write c.blocks i read.1 })
  | success ↦ read_blocks n (suc i) p (with_block i read.1 c)
]

abbrev after_scanning : ℕ → ℕ → Blockchain → Bytes × Bytes → Status × Blockchain
after_scanning n i c scanned = after_reading n i c scanned.1 (protocol_deserialize_block scanned.0)

read_blocks_step :
    (n i : ℕ) (b : Block) (t : Bytes) (c : Blockchain)
    → IsLinkable b
    → read_blocks (suc n) i (comma i ++ (whole b ++ t)) c
      ≡ read_blocks n (suc i) t (with_block i (received b) c)
unfolding read_blocks
read_blocks_step n i b t c ok =
    let found : read_blocks (suc n) i (comma i ++ (whole b ++ t)) c
        ≡ after_scanning n i c (scan_object (whole b ++ t) 0) =
      rw (read_blocks, strchr-whole b ok i t) refl in
    found
    ∙ ap (after_scanning n i c) (scan_object-whole b ok t)
    ∙ ap (after_reading n i c t) (deserialized_whole b ok)

read_blocks_lem :
    (n i : ℕ) (blocks : ℕ → Block) (rest : Bytes) (c : Blockchain)
    → ((j : ℕ) → j < i + n → IsLinkable (blocks j))
    → read_blocks n i (chunks n i blocks rest) c ≡ (success, taken n i blocks c)
unfolding read_blocks
read_blocks_lem zero i blocks rest c ok = refl
read_blocks_lem (suc n) i blocks rest c ok =
    read_blocks_step n i (blocks i) (chunks n (suc i) blocks rest) c (ok i (omega arith))
    ∙ read_blocks_lem n (suc i) blocks rest (with_block i (received (blocks i)) c)
        (λ j lt. ok j (omega arith))

read_array :
    (c into : Blockchain)
    → ((j : ℕ) → j < c.length → IsLinkable (c.blocks j))
    → read_block_array (some (block_array c)) c.length into
      ≡ (success, taken c.length 0 c.blocks (record into { length = 0 }))
unfolding read_block_array
read_array c into ok =
    read_blocks_lem c.length 0 c.blocks (codes "]}") (record into { length = 0 })
      (λ j lt. ok j (omega arith))

module _ (c : Blockchain) where
  keys : AreKeys (chain_fields c.length)
  keys = search

  get_length :
      c.length ≤ 10000 → json_get_int (printed_chain c) (codes "length") ≡ some (pos c.length)
  get_length le =
      json_get_int-field (codes "length") b'{' (chain_fields c.length) []
        (b',' ∷ quoted (codes "blocks") (block_array c)) refl (search) refl keys refl c.length
        (omega arith) refl

  find_array : json_find_key (printed_chain c) (codes "blocks") ≡ some (block_array c)
  unfolding skip_blanks
  find_array =
      json_find_key-behind (codes "blocks") b'{' (chain_fields c.length) (block_array c) refl
        (search) refl keys refl refl

  -- The copy that is read from the print of the chain.
  abbrev pub copied : Blockchain → Blockchain
  copied into = taken c.length 0 c.blocks (record into { length = 0 })

  pub deserialized_chain :
      (into : Blockchain)
      → ((j : ℕ) → j < c.length → IsLinkable (c.blocks j))
      → 1 ≤ c.length
      → c.length ≤ 10000
      → protocol_deserialize_chain (printed_chain c) into ≡ (success, copied into)
  unfolding protocol_deserialize_chain
  deserialized_chain into ok some' le =
      let fine : (leb_ℤ (pos c.length) (pos 0) || not (leb_ℤ (pos c.length) (pos max_blocks)))
          ≡ false =
        unfold max_blocks in ground arith in
      rw (protocol_deserialize_chain, get_length le, fine, find_array) (read_array c into ok)

map-append :
    (f : Block → Block) (bs : List Block) (b : Block)
    → map f (bs ++ (b ∷ [])) ≡ map f bs ++ (f b ∷ [])
map-append f [] b = refl
map-append f (x ∷ bs) b = ap (◌∷◌ (f x)) (map-append f bs b)

map-first_blocks :
    (n : ℕ) (f : Block → Block) (blocks : ℕ → Block)
    → first_blocks n (λ i. f (blocks i)) ≡ map f (first_blocks n blocks)
map-first_blocks zero f blocks = refl
map-first_blocks (suc n) f blocks =
    ap (λ bs. bs ++ (f (blocks n) ∷ [])) (map-first_blocks n f blocks)
    ∙ sym (map-append f (first_blocks n blocks) (blocks n))

pub live-copied : (c into : Blockchain) → live (copied c into) ≡ map received (live c)
live-copied c into =
    let empty : Blockchain = record into { length = 0 } in
    let same_length : (copied c into).length ≡ c.length =
      length-taken c.length 0 c.blocks empty ∙ omega arith in
    ap (λ n. first_blocks n (copied c into).blocks) same_length
    ∙ first_blocks-ext c.length (copied c into).blocks (λ i. received (c.blocks i))
        (λ i lt. blocks-taken c.length 0 c.blocks empty i i (omega arith) lt)
    ∙ map-first_blocks c.length received c.blocks

-- A chain of 1 to 10000 blocks, each of which is read back from its own JSON and has no braces in its
-- hashes, is printed, and read back with a 0 as the same list of blocks, but for zeroes in the slots that
-- are not in use; whatever was in the chain that it is read into.
pub protocol_deserialize_chain-protocol_serialize_chain :
    (c into : Blockchain)
    → ((j : ℕ) → j < c.length → IsLinkable (c.blocks j))
    → 1 ≤ c.length
    → c.length ≤ 10000
    → (json : Bytes) × (copy : Blockchain) × (protocol_serialize_chain c ≡ returns json)
      × (protocol_deserialize_chain json into ≡ (success, copy))
      × (live copy ≡ map received (live c))
protocol_deserialize_chain-protocol_serialize_chain c into ok some' le = (
  printed_chain c,
  copied c into,
  serialized_chain c ok,
  deserialized_chain c into ok some' le,
  live-copied c into,
)
