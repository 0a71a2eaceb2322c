-- ===== src/Chain/Replace.antt =====
-- `chain_replace` (src/chain.c): the longest valid chain wins.
use mini_coin_slovak.Base.{◌<◌, ◌≡◌, ◌⊎◌, inl, inr, false, arith, Bool-cases, leb_iff, leb, ltb}
use mini_coin_slovak.Chain.{Blockchain, copy, max_blocks, chain_replace}
use mini_coin_slovak.Chain.Add.{live, first_blocks-ext}
use mini_coin_slovak.Chain.Valid.{IsStored, IsValid, chain_validate-IsValid}
use mini_coin_slovak.Run.{returns, success, failure}
use mini_coin_slovak.Sha256.{Sha256}

-- The chain that takes over the blocks of `other`.
abbrev pub replaced : Blockchain → Blockchain → Blockchain
replaced c other = record {
  blocks = copy other.length other.blocks c.blocks;
  length = other.length;
}

live-replaced : (c other : Blockchain) → live (replaced c other) ≡ live other
live-replaced c other =
    first_blocks-ext other.length (copy other.length other.blocks c.blocks) other.blocks
      (λ i lt. ground arith)

-- `other` is longer, and valid.
abbrev pub Wins : Sha256 → Blockchain → Blockchain → Type 0
Wins H c other = (c.length < other.length) × IsValid H other

module _ (H : Sha256) (c other : Blockchain) (st : IsStored other) where
  -- `chain_replace` returns 0 exactly if the other chain is longer and valid, and then the chain is
  -- the same list of blocks as the other; otherwise, for a shorter, an equally long or an invalid
  -- chain, it returns -1 and leaves the chain as it was.
  pub chain_replace-Wins :
      (Wins H c other
        × (chain_replace H c other ≡ returns (success, replaced c other))
        × (live (replaced c other) ≡ live other))
      ⊎ ((¬ Wins H c other) × (chain_replace H c other ≡ returns (failure, c)))
  unfolding chain_replace
  chain_replace-Wins = elim (Bool-cases (leb other.length c.length)) [
    | inl shorter ↦
        inr
          (λ w. absurd (omega (arith, (leb_iff other.length c.length).0 shorter, w.0)), rw shorter)
    | inr longer ↦
        let fits : ltb max_blocks other.length ≡ false = ground (arith, st.fits) in
        rw longer (elim (chain_validate-IsValid H other st) [
          | inr (fails, not_valid) ↦ inr (λ w. not_valid w.1, rw fails)
          | inl (passes, valid) ↦
              inl ((ground arith, valid), rw passes (rw fits), live-replaced c other)
        ])
  ]
