-- ===== src/Chain/Add.antt =====
-- `chain_add_block` (src/chain.c): when it accepts a block, and what it does to the chain.
use native.Mathlib.Numerals.{add-one}
use mini_coin_slovak.Base.{
  ℕ, zero, suc, ◌+◌, ◌-◌, ◌%◌, ◌^◌, ◌<◌, ◌≤◌, ◌≡◌, refl, ◌⊎◌, inl, inr, some, List, [], ◌∷◌, ◌++◌,
  arith, Bool-cases, ==_iff, leb_iff, ◌==◌, leb,
}
use mini_coin_slovak.Block.{Block}
use mini_coin_slovak.Block.Text.{IsWellFormed}
use mini_coin_slovak.Block.Validate.{IsMined, block_validate-IsMined}
use mini_coin_slovak.Chain.{Blockchain, write, max_blocks, chain_last_block, chain_add_block}
use mini_coin_slovak.Chain.Valid.{IsStored}
use mini_coin_slovak.CLib.{str_eq, str_eq_iff}
use mini_coin_slovak.Run.{returns, success, failure}
use mini_coin_slovak.Sha256.{Sha256}

-- The chain as a list, the genesis block first.
abbrev pub first_blocks : ℕ → (ℕ → Block) → List Block
first_blocks zero blocks = []
first_blocks (suc n) blocks = first_blocks n blocks ++ (blocks n ∷ [])

abbrev pub live : Blockchain → List Block
live c = first_blocks c.length c.blocks

abbrev pub last_block : Blockchain → Block
last_block c = c.blocks (c.length - 1)

-- There is room, and the block has the next index, names the hash of the last block, and is mined.
pub record Accepts (H : Sha256) (c : Blockchain) (b : Block) : Type 0 where
  pub room : c.length < max_blocks
  pub next_index : b.index ≡ ((last_block c).index + 1) % 2 ^ 32
  pub linked : b.prev_hash ≡ (last_block c).hash
  pub is_mined : IsMined H b

-- The chain with one more block, at the index of its length.
abbrev pub extend : Blockchain → Block → Blockchain
extend c b = record { blocks = write c.blocks c.length b; length = c.length + 1 }

pub first_blocks-ext :
    (n : ℕ) (f g : ℕ → Block) → ((i : ℕ) → i < n → f i ≡ g i) → first_blocks n f ≡ first_blocks n g
first_blocks-ext zero f g h = refl
first_blocks-ext (suc n) f g h =
    rw (first_blocks-ext n f g (λ i lt. h i (omega arith)), h n (omega arith))

pub live-extend : (c : Blockchain) (b : Block) → live (extend c b) ≡ live c ++ (b ∷ [])
live-extend c b = rw add-one (
    rw (first_blocks-ext c.length (write c.blocks c.length b) c.blocks (λ i lt. ground arith))
      (ground arith))

pub chain_last_block_lem :
    (c : Blockchain) → 1 ≤ c.length → chain_last_block c ≡ some (last_block c)
unfolding chain_last_block
chain_last_block_lem c h = ground arith

module _ (H : Sha256) (c : Blockchain) (b : Block) (st : IsStored c) (wf : IsWellFormed b) where
  -- On a stored chain and a block of the declared sizes `chain_add_block` returns 0 exactly if the
  -- block is acceptable, and then the chain as a list has the block at its end; otherwise it returns
  -- -1 and leaves the chain as it was.
  pub chain_add_block-Accepts :
      (Accepts H c b
        × (chain_add_block H c b ≡ returns (success, extend c b))
        × (live (extend c b) ≡ live c ++ (b ∷ [])))
      ⊎ ((¬ Accepts H c b) × (chain_add_block H c b ≡ returns (failure, c)))
  unfolding chain_add_block
  chain_add_block-Accepts = elim (Bool-cases (leb max_blocks c.length)) [
    | inl full ↦
        inr (λ a. absurd (omega (arith, (leb_iff max_blocks c.length).0 full, a.room)), rw full)
    | inr room ↦
        rw (room, chain_last_block_lem c st.ne_empty)
          (elim (Bool-cases (b.index == ((last_block c).index + 1) % 2 ^ 32)) [
            | inr other_index ↦
                inr (λ a. cc (other_index, (==_iff _ _).1 a.next_index), rw other_index)
            | inl next ↦ rw next (elim (Bool-cases (str_eq b.prev_hash (last_block c).hash)) [
              | inr unlinked ↦ inr (λ a. cc (unlinked, (str_eq_iff _ _).1 a.linked), rw unlinked)
              | inl linked ↦ rw linked (elim (block_validate-IsMined H b wf) [
                | inr (fails, not_mined) ↦ inr (λ a. not_mined a.is_mined, rw fails)
                | inl (passes, m) ↦ inl (
                  record {
                    room = ground (arith, room);
                    next_index = (==_iff _ _).0 next;
                    linked = (str_eq_iff _ _).0 linked;
                    is_mined = m;
                  },
                  rw passes,
                  live-extend c b,
                )
              ])
            ])
          ])
  ]
