-- ===== src/Block/Validate.antt =====
-- What `block_validate` (src/block.c) accepts, and what it does not look at.
use mini_coin_slovak.Base.{
  ℕ, zero, suc, ◌≡◌, refl, ◌⊎◌, inl, inr, true, false, List, [], ◌∷◌, none, some, arith, get_elem?,
  Bool-cases, sym,
}
use mini_coin_slovak.Base.Int.{pos_part}
use mini_coin_slovak.CLib.{Bytes, str_eq, str_eq_iff, strncmp_eq, snprintf, Buffer}
use mini_coin_slovak.Run.{returns, success, failure}
use mini_coin_slovak.Sha256.{Sha256}
use mini_coin_slovak.Tx.{Tx}
use mini_coin_slovak.Block.{
  Block, mining_difficulty, target, append_tx_hashes, block_text, block_compute_hash,
  block_validate,
}
use mini_coin_slovak.Block.Text.{IsWellFormed, block_hash, block_compute_hash-eq-block_hash}

-- The hash begins with two zeroes.
abbrev pub MeetsTarget : Bytes → Type 0
MeetsTarget h = (rest : Bytes) × (h ≡ b'0' ∷ b'0' ∷ rest)

pub MeetsTarget-strncmp_eq :
    (h : Bytes) → strncmp_eq mining_difficulty h target ≡ true → MeetsTarget h
MeetsTarget-strncmp_eq [] e = cc
MeetsTarget-strncmp_eq (x ∷ []) e = ground arith
MeetsTarget-strncmp_eq (x ∷ y ∷ rest) e = (rest, ground arith)

pub strncmp_eq-MeetsTarget :
    (h : Bytes) → MeetsTarget h → strncmp_eq mining_difficulty h target ≡ true
strncmp_eq-MeetsTarget h (rest, e) = rw e refl

pub not-MeetsTarget : (h : Bytes) → strncmp_eq mining_difficulty h target ≡ false → ¬ MeetsTarget h
not-MeetsTarget h e m = cc (e, strncmp_eq-MeetsTarget h m)

-- The stored hash is that of the block, and meets the difficulty.
pub record IsMined (H : Sha256) (b : Block) : Type 0 where
  pub hash_is : b.hash ≡ block_hash H b
  pub meets : MeetsTarget b.hash

-- Of a block of the declared sizes `block_validate` decides whether it is mined: it returns 0
-- exactly if the stored hash is that of the block's text and begins with two zeroes, and -1 if not.
pub block_validate-IsMined :
    (H : Sha256) (b : Block)
    → IsWellFormed b
    → ((block_validate H b ≡ returns success) × IsMined H b)
      ⊎ ((block_validate H b ≡ returns failure) × (¬ IsMined H b))
unfolding block_validate
block_validate-IsMined H b wf =
    rw (block_compute_hash-eq-block_hash H b wf)
      (elim (Bool-cases (str_eq (block_hash H b) b.hash)) [
        | inl same ↦ elim (Bool-cases (strncmp_eq mining_difficulty b.hash target)) [
          | inl meets ↦ inl (
            rw (same, meets),
            record {
              hash_is = sym ((str_eq_iff _ _).0 same);
              meets = MeetsTarget-strncmp_eq b.hash meets;
            },
          )
          | inr misses ↦
              inr (rw (same, misses), λ m. cc (misses, strncmp_eq-MeetsTarget b.hash m.meets))
        ]
        | inr differs ↦
            inr (
              rw differs,
              λ m. cc (differs, (str_eq_iff (block_hash H b) b.hash).1 (sym m.hash_is)),
            )
      ])

pub IsMined-block_validate :
    (H : Sha256) (b : Block) → IsWellFormed b → IsMined H b → block_validate H b ≡ returns success
IsMined-block_validate H b wf m = elim (block_validate-IsMined H b wf) [
  | inl (passes, _) ↦ passes
  | inr (_, not_mined) ↦ absurd (not_mined m)
]

pub block_validate-success :
    (H : Sha256) (b : Block) → IsWellFormed b → block_validate H b ≡ returns success → IsMined H b
block_validate-success H b wf e = elim (block_validate-IsMined H b wf) [
  | inl (_, m) ↦ m
  | inr (fails, _) ↦ cc (e, fails)
]

-- Two arrays of transactions that differ in no `tx_hash`.
abbrev pub SameHashes : List Tx → List Tx → Type 0
SameHashes [] [] = Unit
SameHashes [] (u ∷ us) = ⊥
SameHashes (t ∷ ts) [] = ⊥
SameHashes (t ∷ ts) (u ∷ us) = (t.tx_hash ≡ u.tx_hash) × SameHashes ts us

SameHashes-get_elem? :
    (ts us : List Tx) (i : ℕ)
    → SameHashes ts us
    → ((get_elem? ts i ≡ none) × (get_elem? us i ≡ none))
      ⊎ ((t u : Tx) × (get_elem? ts i ≡ some t)
          × (get_elem? us i ≡ some u)
          × (t.tx_hash ≡ u.tx_hash))
SameHashes-get_elem? [] [] i h = inl (refl, refl)
SameHashes-get_elem? [] (u ∷ us) i h = absurd h
SameHashes-get_elem? (t ∷ ts) [] i h = absurd h
SameHashes-get_elem? (t ∷ ts) (u ∷ us) zero h = inr (t, u, refl, refl, h.0)
SameHashes-get_elem? (t ∷ ts) (u ∷ us) (suc i) h = SameHashes-get_elem? ts us i h.1

append_tx_hashes-SameHashes :
    (n i : ℕ) (ts us : List Tx) (buf : Buffer)
    → SameHashes ts us
    → append_tx_hashes n i ts buf ≡ append_tx_hashes n i us buf
unfolding append_tx_hashes
append_tx_hashes-SameHashes zero i ts us buf h = refl
append_tx_hashes-SameHashes (suc n) i ts us buf h = elim (SameHashes-get_elem? ts us i h) [
  | inl (e, e') ↦ ground arith
  | inr (t, u, e, e', same) ↦
      ground (arith, append_tx_hashes-SameHashes n (suc i) ts us (snprintf 4096 buf t.tx_hash) h)
]

-- `block_validate` sees of a transaction only its stored `tx_hash`: senders, receivers, amounts,
-- fees and signatures may be changed in a block, and it returns what it returned before.
pub block_validate-SameHashes :
    (H : Sha256) (b : Block) (txs : List Tx)
    → SameHashes b.transactions txs
    → block_validate H (record b { transactions = txs }) ≡ block_validate H b
unfolding block_validate block_compute_hash block_text
block_validate-SameHashes H b txs h =
    rw (append_tx_hashes-SameHashes (pos_part b.tx_count) 0 b.transactions txs _ h)
