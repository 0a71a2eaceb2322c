-- ===== src/Chain/Invariant.antt =====
-- Every operation of src/chain.c keeps a stored, valid chain stored and valid.
use mini_coin_slovak.Base.{
  ℕ, zero, suc, ◌-◌, ◌<◌, ◌≤◌, ◌≡◌, refl, [], ◌∷◌, true, inl, inr, arith, Bool-cases, ==_iff, leb,
  leb_iff, ◌==◌,
}
use mini_coin_slovak.Block.{Block, zero_block, genesis_start}
use mini_coin_slovak.Block.Genesis.{
  genesis, genesis_start-IsWellFormed, IsGenesisNonce, block_create_genesis_lem,
}
use mini_coin_slovak.Block.Mine.{mined-IsWellFormed}
use mini_coin_slovak.Block.Text.{IsWellFormed}
use mini_coin_slovak.Chain.{
  Blockchain, max_blocks, write, copy, chain_init, chain_add_block, chain_replace,
}
use mini_coin_slovak.Chain.Add.{live, extend, Accepts, chain_add_block-Accepts}
use mini_coin_slovak.Chain.Replace.{replaced, chain_replace-Wins}
use mini_coin_slovak.Chain.Valid.{IsStored, IsValid}
use mini_coin_slovak.Run.{returns, Status, failure}
use mini_coin_slovak.Sha256.{Sha256}

pub record IsSound (H : Sha256) (c : Blockchain) : Type 0 where
  pub stored : IsStored c
  pub valid : IsValid H c

-- A write at `n` is not seen below `n`.
write_below : (blocks : ℕ → Block) (n i : ℕ) (b : Block) → i < n → write blocks n b i ≡ blocks i
write_below blocks n i b h = ground arith

write_at : (blocks : ℕ → Block) (n : ℕ) (b : Block) → write blocks n b n ≡ b
write_at blocks n b = ground arith

copy_below : (n i : ℕ) (from to : ℕ → Block) → i < n → copy n from to i ≡ from i
copy_below n i from to h = ground arith

module _ (H : Sha256) (c : Blockchain) where
  extend-IsStored :
      (b : Block) → IsStored c → IsWellFormed b → c.length < max_blocks → IsStored (extend c b)
  extend-IsStored b st wf room = record {
    ne_empty = omega arith;
    fits = omega arith;
    blocks_fit = λ i h. elim (Bool-cases (i == c.length)) [
      | inl at ↦ rw at wf
      | inr below ↦ rw below (st.blocks_fit i (ground arith))
    ];
  }

  extend-IsValid : (b : Block) → IsStored c → IsValid H c → Accepts H c b → IsValid H (extend c b)
  extend-IsValid b st v a i lo h = elim (Bool-cases (i == c.length)) [
    | inl at ↦
        let e : i ≡ c.length = (==_iff _ _).0 at in
        rw (at, e, write_below c.blocks c.length (c.length - 1) b (omega (arith, st.ne_empty)))
          (a.linked, a.is_mined)
    | inr below ↦
        let lt : i < c.length = ground arith in
        rw
          (
            write_below c.blocks c.length i b lt,
            write_below c.blocks c.length (i - 1) b (omega arith),
          )
          (v i lo lt)
  ]

  -- Whatever `chain_add_block` returns, a sound chain stays sound and does not get shorter.
  pub chain_add_block-IsSound :
      (b : Block) {s : Status} {c' : Blockchain}
      → IsSound H c
      → IsWellFormed b
      → chain_add_block H c b ≡ returns (s, c')
      → IsSound H c' × (c.length ≤ c'.length)
  chain_add_block-IsSound b {s} {c'} sound wf e =
      elim (chain_add_block-Accepts H c b sound.stored wf) [
        | inl (accepts, added, _) ↦
            let grown : extend c b ≡ c' = cc (e, added) in
            rw (← grown) (
              record {
                stored = extend-IsStored b sound.stored wf accepts.room;
                valid = extend-IsValid b sound.stored sound.valid accepts;
              },
              omega arith,
            )
        | inr (_, refused) ↦ let same : c ≡ c' = cc (e, refused) in rw (← same) (sound, omega arith)
      ]

  replaced-IsStored : (other : Blockchain) → IsStored other → IsStored (replaced c other)
  replaced-IsStored other st = record {
    ne_empty = st.ne_empty;
    fits = st.fits;
    blocks_fit = λ i h. rw (copy_below other.length i other.blocks c.blocks h) (st.blocks_fit i h);
  }

  replaced-IsValid : (other : Blockchain) → IsValid H other → IsValid H (replaced c other)
  replaced-IsValid other v i lo h =
      rw
        (
          copy_below other.length i other.blocks c.blocks h,
          copy_below other.length (i - 1) other.blocks c.blocks (omega arith),
        )
        (v i lo h)

  -- Whatever `chain_replace` returns, a sound chain stays sound and does not get shorter; of the
  -- other chain only the sizes are assumed.
  -- A chain that is not longer changes nothing.
  pub chain_replace-refuses :
      (other : Blockchain)
      → other.length ≤ c.length
      → chain_replace H c other ≡ returns (failure, c)
  unfolding chain_replace
  chain_replace-refuses other h =
      let shorter : leb other.length c.length ≡ true = (leb_iff _ _).1 h in
      rw (chain_replace, shorter) refl

  pub chain_replace-IsSound :
      (other : Blockchain) {s : Status} {c' : Blockchain}
      → IsSound H c
      → IsStored other
      → chain_replace H c other ≡ returns (s, c')
      → IsSound H c' × (c.length ≤ c'.length)
  chain_replace-IsSound other {s} {c'} sound st e = elim (chain_replace-Wins H c other st) [
    | inl (wins, copied, _) ↦
        let taken : replaced c other ≡ c' = cc (e, copied) in
        rw (← taken) (
          record { stored = replaced-IsStored other st; valid = replaced-IsValid other wins.1 },
          omega (arith, wins.0),
        )
    | inr (_, refused) ↦ let same : c ≡ c' = cc (e, refused) in rw (← same) (sound, omega arith)
  ]

first-IsWellFormed :
    (b : Block) → IsWellFormed b → (i : ℕ) → i < 1 → IsWellFormed (write (λ j. zero_block) 0 b i)
first-IsWellFormed b wf zero h = wf
first-IsWellFormed b wf (suc i) h = absurd (omega arith)

-- Given more rounds than the genesis nonce, `chain_init` returns the chain of one block, the genesis
-- block, and it is sound.
pub chain_init-IsSound :
    (H : Sha256) (fuel n : ℕ)
    → n < fuel
    → IsGenesisNonce H n
    → (c : Blockchain) × (chain_init H fuel ≡ returns c) × (live c ≡ genesis H n ∷ []) × IsSound H c
unfolding chain_init max_blocks
chain_init-IsSound H fuel n enough g = (
  record { blocks = write (λ i. zero_block) 0 (genesis H n); length = 1 },
  rw (block_create_genesis_lem H fuel n enough g),
  refl,
  record {
    stored = record {
      ne_empty = omega arith;
      fits = omega arith;
      blocks_fit =
          first-IsWellFormed (genesis H n)
            (mined-IsWellFormed H genesis_start genesis_start-IsWellFormed n);
    };
    valid = λ i lo h. absurd (omega arith);
  },
)
