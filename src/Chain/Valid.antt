-- ===== src/Chain/Valid.antt =====
-- What it means for a stored chain to be valid, and that `chain_validate` decides it.
use mini_coin_slovak.Base.{
  ℕ, zero, suc, ◌+◌, ◌-◌, ◌<◌, ◌≤◌, ◌≡◌, refl, ◌⊎◌, inl, inr, arith, Bool-cases, ==_iff, ◌==◌,
  subst,
}
use mini_coin_slovak.Block.{Block}
use mini_coin_slovak.Block.Text.{IsWellFormed}
use mini_coin_slovak.Block.Validate.{IsMined, block_validate-IsMined}
use mini_coin_slovak.Chain.{Blockchain, max_blocks, validate_from, chain_validate}
use mini_coin_slovak.CLib.{str_eq, str_eq_iff}
use mini_coin_slovak.Run.{returns, success, failure}
use mini_coin_slovak.Sha256.{Sha256}

-- The blocks in use have the declared sizes; there is at least the genesis block, and no more
-- blocks than the array holds.
pub record IsStored (c : Blockchain) : Type 0 where
  pub ne_empty : 1 ≤ c.length
  pub fits : c.length ≤ max_blocks
  pub blocks_fit : (i : ℕ) → i < c.length → IsWellFormed (c.blocks i)

-- The block `i` names the hash of the block before it, and is mined.
abbrev pub Follows : Sha256 → (ℕ → Block) → ℕ → Type 0
Follows H blocks i = ((blocks i).prev_hash ≡ (blocks (i - 1)).hash) × IsMined H (blocks i)

-- All blocks but the first follow the block before them.
abbrev pub IsValid : Sha256 → Blockchain → Type 0
IsValid H c = (i : ℕ) → 1 ≤ i → i < c.length → Follows H c.blocks i

module _ (H : Sha256) (blocks : ℕ → Block) where
  abbrev FollowAll : ℕ → ℕ → Type 0
  FollowAll i end = (j : ℕ) → i ≤ j → j < end → Follows H blocks j

  FollowAll-suc : (i end : ℕ) → Follows H blocks i → FollowAll (suc i) end → FollowAll i end
  FollowAll-suc i end first rest j h k = elim (Bool-cases (i == j)) [
    | inl same ↦ subst (λ n. Follows H blocks n) ((==_iff i j).0 same) first
    | inr later ↦ rest j (ground arith) k
  ]

  validate_from-step :
      (rounds i : ℕ)
      → IsWellFormed (blocks i)
      → (Follows H blocks i
          × (validate_from H (suc rounds) i blocks ≡ validate_from H rounds (suc i) blocks))
        ⊎ ((¬ Follows H blocks i) × (validate_from H (suc rounds) i blocks ≡ returns failure))
  unfolding validate_from
  validate_from-step rounds i wf =
      elim (Bool-cases (str_eq (blocks i).prev_hash (blocks (i - 1)).hash)) [
        | inr differs ↦ inr (λ f. cc (differs, (str_eq_iff _ _).1 f.0), rw differs)
        | inl same ↦ elim (block_validate-IsMined H (blocks i) wf) [
          | inl (passes, m) ↦ inl (((str_eq_iff _ _).0 same, m), rw same (rw passes))
          | inr (fails, not_mined) ↦ inr (λ f. not_mined f.1, rw same (rw fails))
        ]
      ]

  validate_from_lem :
      (rounds i end : ℕ)
      → i + rounds ≡ end
      → ((j : ℕ) → j < end → IsWellFormed (blocks j))
      → ((validate_from H rounds i blocks ≡ returns success) × FollowAll i end)
        ⊎ ((validate_from H rounds i blocks ≡ returns failure) × (¬ FollowAll i end))
  validate_from_lem zero i end e wf =
      inl (unfold validate_from in refl, λ j h k. absurd (omega arith))
  validate_from_lem (suc rounds) i end e wf =
      elim (validate_from-step rounds i (wf i (omega arith))) [
        | inr (breaks, stops) ↦ inr (stops, λ all. breaks (all i (omega arith) (omega arith)))
        | inl (follows, goes_on) ↦ elim (validate_from_lem rounds (suc i) end (omega arith) wf) [
          | inl (e', rest) ↦ inl (rw goes_on e', FollowAll-suc i end follows rest)
          | inr (e', breaks) ↦ inr (rw goes_on e', λ all. breaks (λ j h. all j (omega arith)))
        ]
      ]

-- `chain_validate` decides whether a stored chain is valid: it returns 0 exactly if every block but
-- the first names the hash of the block before it and is mined, and -1 if not.
pub chain_validate-IsValid :
    (H : Sha256) (c : Blockchain)
    → IsStored c
    → ((chain_validate H c ≡ returns success) × IsValid H c)
      ⊎ ((chain_validate H c ≡ returns failure) × (¬ IsValid H c))
unfolding chain_validate
chain_validate-IsValid H c st =
    validate_from_lem H c.blocks (c.length - 1) 1 c.length (omega (arith, st.ne_empty))
      st.blocks_fit
