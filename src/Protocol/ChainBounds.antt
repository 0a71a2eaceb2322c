-- ===== src/Protocol/ChainBounds.antt =====
-- Whatever text comes from the network, the blocks that `protocol_deserialize_chain` of src/protocol.c
-- reads from it fit the arrays of a chain.
use mini_coin_slovak.Base.{
  ℕ, zero, suc, ◌+◌, ◌≤◌, not, ◌||◌, Option, none, some, [], ◌∷◌, arith, Option-cases, Bool-cases,
  inl, inr, ◌==◌,
}
use mini_coin_slovak.Base.Int.{pos, pos_part, leb_ℤ}
use mini_coin_slovak.Block.{Block}
use mini_coin_slovak.Chain.{Blockchain, write, max_blocks}
use mini_coin_slovak.CLib.{Bytes, codes, strchr}
use mini_coin_slovak.Json.{json_find_key, json_get_int, scan_object}
use mini_coin_slovak.Protocol.{
  protocol_deserialize_block, read_blocks, read_block_array, protocol_deserialize_chain,
}
use mini_coin_slovak.Protocol.BlockBounds.{HasBlockSizes, protocol_deserialize_block-HasBlockSizes}
use mini_coin_slovak.Run.{Status, success, failure}

-- All blocks have the declared sizes, and there are at most 10000.
pub record HasChainSizes (c : Blockchain) : Type 0 where
  pub blocks_fit : (i : ℕ) → HasBlockSizes (c.blocks i)
  pub length_fits : c.length ≤ 10000

pub write-HasBlockSizes :
    (blocks : ℕ → Block) (i : ℕ) (b : Block)
    → ((j : ℕ) → HasBlockSizes (blocks j))
    → HasBlockSizes b
    → (j : ℕ) → HasBlockSizes (write blocks i b j)
write-HasBlockSizes blocks i b h hb j = elim (Bool-cases (j == i)) [
  | inl at ↦ rw at hb
  | inr other ↦ rw other (h j)
]

-- What the loop does with a block that was read, or was not.
abbrev go_on : ℕ → ℕ → Bytes → Blockchain → Status × Block → Status × Blockchain
go_on rounds i p chain (status, block) =
    let blocks = write chain.blocks i block in
    elim status [
      | failure ↦ (failure, record chain { blocks = blocks })
      | success ↦
          read_blocks rounds (suc i) p (record { blocks = blocks; length = chain.length + 1 })
    ]

go_on-HasChainSizes :
    (n i : ℕ) (s : Bytes) (c : Blockchain) (r : Status × Block)
    → HasChainSizes c
    → c.length + suc n ≤ 10000
    → HasBlockSizes r.1
    → ((c' : Blockchain)
        → HasChainSizes c'
        → c'.length + n ≤ 10000
        → HasChainSizes (read_blocks n (suc i) s c').1)
    → HasChainSizes (go_on n i s c r).1
go_on-HasChainSizes n i s c (failure, b) h le hb next = record {
  blocks_fit = write-HasBlockSizes c.blocks i b h.blocks_fit hb;
  length_fits = h.length_fits;
}
go_on-HasChainSizes n i s c (success, b) h le hb next =
    next (record { blocks = write c.blocks i b; length = c.length + 1 })
      (record {
        blocks_fit = write-HasBlockSizes c.blocks i b h.blocks_fit hb;
        length_fits = omega arith;
      })
      (omega arith)

read_blocks-HasChainSizes :
    (n i : ℕ) (s : Bytes) (c : Blockchain)
    → HasChainSizes c
    → c.length + n ≤ 10000
    → HasChainSizes (read_blocks n i s c).1
unfolding read_blocks
read_blocks-HasChainSizes zero i s c h le = h
read_blocks-HasChainSizes (suc n) i s c h le = elim (Option-cases (strchr s b'{')) [
  | inl absent ↦ rw (read_blocks, absent) h
  | inr (p, found) ↦
      rw (read_blocks, found)
        (go_on-HasChainSizes n i (scan_object p 0).1 c
          (protocol_deserialize_block (scan_object p 0).0) h le
          (protocol_deserialize_block-HasBlockSizes (scan_object p 0).0)
          (λ c' h' le'. read_blocks-HasChainSizes n (suc i) (scan_object p 0).1 c' h' le'))
]

read_block_array-HasChainSizes :
    (o : Option Bytes) (n : ℕ) (c : Blockchain)
    → HasChainSizes c
    → n ≤ 10000
    → HasChainSizes (read_block_array o n c).1
unfolding read_block_array
read_block_array-HasChainSizes none n c h le = h
read_block_array-HasChainSizes (some []) n c h le = h
read_block_array-HasChainSizes (some (d ∷ s)) n c h le = elim (Bool-cases (d == b'[')) [
  | inl bracket ↦
      rw (read_block_array, bracket)
        (read_blocks-HasChainSizes n 0 s (record c { length = 0 })
          (record { blocks_fit = h.blocks_fit; length_fits = omega arith }) (omega arith))
  | inr other ↦ rw (read_block_array, other) h
]

-- Whatever the text is, and also if reading fails, a chain of the declared sizes stays one: no more
-- than 10000 blocks are counted, and all their texts and numbers but the counts have the declared
-- sizes.
pub protocol_deserialize_chain-HasChainSizes :
    (json : Bytes) (c : Blockchain)
    → HasChainSizes c
    → HasChainSizes (protocol_deserialize_chain json c).1
unfolding protocol_deserialize_chain max_blocks
protocol_deserialize_chain-HasChainSizes json c h =
    elim (Option-cases (json_get_int json (codes "length"))) [
      | inl absent ↦ rw (protocol_deserialize_chain, absent) h
      | inr (n, e) ↦ elim (Bool-cases (leb_ℤ n (pos 0) || not (leb_ℤ n (pos max_blocks)))) [
        | inl bad ↦ rw (protocol_deserialize_chain, e, bad) h
        | inr good ↦
            rw (protocol_deserialize_chain, e, good)
              (read_block_array-HasChainSizes (json_find_key json (codes "blocks")) (pos_part n) c h
                (ground arith))
      ]
    ]
