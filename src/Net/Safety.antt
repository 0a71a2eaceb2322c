-- ===== src/Net/Safety.antt =====
-- What a message (`handle_message` of src/net.c) can do to the chain.
use mini_coin_slovak.Base.{ℕ, zero, suc, ◌≤◌, ◌≡◌, ◌⊎◌, refl, arith, inl, inr}
use mini_coin_slovak.Chain.{Blockchain, max_blocks, chain_replace}
use mini_coin_slovak.Chain.Invariant.{
  IsSound, chain_replace-refuses, chain_add_block-IsSound, chain_replace-IsSound,
}
use mini_coin_slovak.Chain.Valid.{IsStored}
use mini_coin_slovak.CLib.{Bytes}
use mini_coin_slovak.Net.{NodeState, Sends, handle_message}
use mini_coin_slovak.Net.Outcome.{
  Outcome, nothing, transaction, block, chain, HaveCounts, IsCounted, handle_message-Outcome,
}
use mini_coin_slovak.Protocol.BlockBounds.{HasBlockSizes-IsWellFormed}
use mini_coin_slovak.Protocol.ChainBounds.{HasChainSizes}
use mini_coin_slovak.Run.{returns, Status}
use mini_coin_slovak.Sha256.{Sha256}

pub ℕ-cases : (n : ℕ) → (n ≡ 0) ⊎ (1 ≤ n)
ℕ-cases zero = inl refl
ℕ-cases (suc n) = inr (omega arith)

pub received-IsStored :
    (other : Blockchain)
    → HasChainSizes other
    → HaveCounts other
    → 1 ≤ other.length
    → IsStored other
unfolding max_blocks
received-IsStored other sizes counts some_block = record {
  ne_empty = some_block;
  fits = sizes.length_fits;
  blocks_fit = λ i h. HasBlockSizes-IsWellFormed (other.blocks i) (sizes.blocks_fit i) (counts i h);
}

-- A chain without blocks is refused, and any other received chain is stored.
pub received-IsSound :
    (H : Sha256) (c other : Blockchain) {s : Status} {c' : Blockchain}
    → IsSound H c
    → HasChainSizes other
    → HaveCounts other
    → chain_replace H c other ≡ returns (s, c')
    → IsSound H c' × (c.length ≤ c'.length)
received-IsSound H c other {s} {c'} sound sizes counts e = elim (ℕ-cases other.length) [
  | inl empty ↦
      let same : c ≡ c' = cc (e, chain_replace-refuses H c other (omega arith)) in
      rw (← same) (sound, omega arith)
  | inr some_block ↦
      chain_replace-IsSound H c other sound (received-IsStored other sizes counts some_block) e
]

module _ (H : Sha256) (node : NodeState) where
  -- The chain is sound, and at least as long as it was.
  abbrev pub IsKept : NodeState → Type 0
  IsKept node' = IsSound H node'.chain × (node.chain.length ≤ node'.chain.length)

  pub Outcome-IsKept :
      {node' : NodeState} → IsSound H node.chain → Outcome H node node' → IsKept node'
  Outcome-IsKept sound nothing = (sound, omega arith)
  Outcome-IsKept sound (transaction tx sizes) = (sound, omega arith)
  Outcome-IsKept sound (block b sizes count e) =
      chain_add_block-IsSound H node.chain b sound (HasBlockSizes-IsWellFormed b sizes count) e
  Outcome-IsKept sound (chain other sizes counts e) =
      received-IsSound H node.chain other sound sizes counts e

  -- Whatever bytes a peer sends, if no block among them claims more than ten transactions,
  -- `handle_message` leaves a sound chain sound, and at least as long as it was, when it returns.
  pub handle_message-IsKept :
      (fd : ℕ) (raw : Bytes) {node' : NodeState} {sends : Sends}
      → IsSound H node.chain
      → IsCounted raw
      → handle_message H node fd raw ≡ returns (node', sends)
      → IsKept node'
  handle_message-IsKept fd raw sound counts e =
      Outcome-IsKept sound (handle_message-Outcome H node fd raw counts e)
