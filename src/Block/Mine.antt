-- ===== src/Block/Mine.antt =====
-- The search of `block_mine` (src/block.c).
use mini_coin_slovak.Base.{
  ℕ, zero, suc, ◌+◌, ◌%◌, ◌^◌, ◌<◌, ◌≤◌, ◌≡◌, refl, ◌∙◌, inl, inr, true, false, arith, ==_iff, ◌==◌,
  Bool-cases, length, take-all,
}
use mini_coin_slovak.CLib.{Bytes, strncmp_eq, length-hex, strncpy}
use mini_coin_slovak.Run.{returns, out_of_fuel, success, WhenReturns}
use mini_coin_slovak.Sha256.{Sha256}
use mini_coin_slovak.Block.{
  Block, hash_hex_len, mining_difficulty, target, block_compute_hash, mine_loop, block_mine,
  block_validate,
}
use mini_coin_slovak.Block.Text.{
  IsWellFormed, full_text, block_hash, block_compute_hash-eq-block_hash,
}
use mini_coin_slovak.Block.Validate.{
  MeetsTarget, MeetsTarget-strncmp_eq, strncmp_eq-MeetsTarget, not-MeetsTarget, IsMined,
  IsMined-block_validate,
}

module _ (H : Sha256) (c : Block) (h : Bytes) (e : block_compute_hash H c ≡ returns h) where
  round_hit :
      (fuel attempts : ℕ)
      → strncmp_eq mining_difficulty h target ≡ true
      → mine_loop H (suc fuel) c attempts
        ≡ returns ((attempts + 1) % 2 ^ 64, record c { hash = strncpy h hash_hex_len })
  unfolding mine_loop
  round_hit fuel attempts hit = ground arith

  round_miss :
      (fuel attempts : ℕ)
      → strncmp_eq mining_difficulty h target ≡ false
      → mine_loop H (suc fuel) c attempts
        ≡ mine_loop H fuel (record c { nonce = (c.nonce + 1) % 2 ^ 64 }) ((attempts + 1) % 2 ^ 64)
  unfolding mine_loop
  round_miss fuel attempts miss = ground arith

abbrev pub with_nonce : Block → ℕ → Block
with_nonce b n = record b { nonce = n }

-- With the nonce `n` the hash of the block meets the difficulty.
abbrev pub IsProof : Sha256 → Block → ℕ → Type 0
IsProof H b n = MeetsTarget (block_hash H (with_nonce b n))

-- The block that is found with the nonce `n`.
abbrev pub mined : Sha256 → Block → ℕ → Block
mined H b n = record b { nonce = n; hash = block_hash H (with_nonce b n) }

module _ (H : Sha256) (b : Block) (wf : IsWellFormed b) where
  length-block_hash : (c : Block) → length (block_hash H c) ≤ 64
  length-block_hash c =
      omega (arith, length-hex (H.digest (full_text c)), H.length-digest (full_text c))

  with_nonce-IsWellFormed : (n : ℕ) → IsWellFormed (with_nonce b n)
  with_nonce-IsWellFormed n = record {
    slots = wf.slots;
    count = wf.count;
    prev_fits = wf.prev_fits;
    hash_fits = wf.hash_fits;
    hashes_fit = wf.hashes_fit;
  }

  pub mined-IsWellFormed : (n : ℕ) → IsWellFormed (mined H b n)
  mined-IsWellFormed n = record {
    slots = wf.slots;
    count = wf.count;
    prev_fits = wf.prev_fits;
    hash_fits = length-block_hash (with_nonce b n);
    hashes_fit = wf.hashes_fit;
  }

  pub mined-IsMined : (n : ℕ) → IsProof H b n → IsMined H (mined H b n)
  mined-IsMined n p = record { hash_is = refl; meets = p }

  compute :
      (n : ℕ) → block_compute_hash H (with_nonce b n) ≡ returns (block_hash H (with_nonce b n))
  compute n = block_compute_hash-eq-block_hash H (with_nonce b n) (with_nonce-IsWellFormed n)

  mine_loop_hit :
      (fuel n attempts : ℕ)
      → IsProof H b n
      → mine_loop H (suc fuel) (with_nonce b n) attempts
        ≡ returns ((attempts + 1) % 2 ^ 64, mined H b n)
  mine_loop_hit fuel n attempts p =
      rw
        (← take-all 65 (block_hash H (with_nonce b n))
          (omega (arith, length-block_hash (with_nonce b n))))
        (round_hit H (with_nonce b n) _ (compute n) fuel attempts (strncmp_eq-MeetsTarget _ p))

  mine_loop_miss :
      (fuel n attempts : ℕ)
      → ¬ IsProof H b n
      → mine_loop H (suc fuel) (with_nonce b n) attempts
        ≡ mine_loop H fuel (with_nonce b ((n + 1) % 2 ^ 64)) ((attempts + 1) % 2 ^ 64)
  mine_loop_miss fuel n attempts p =
      elim (Bool-cases (strncmp_eq mining_difficulty (block_hash H (with_nonce b n)) target)) [
        | inl hit ↦ absurd (p (MeetsTarget-strncmp_eq _ hit))
        | inr miss ↦ round_miss H (with_nonce b n) _ (compute n) fuel attempts miss
      ]

  -- Whenever the search ends, it ends with a block that has such a nonce.
  pub mine_loop-mined :
      (fuel n attempts : ℕ)
      → WhenReturns
          (λ (r : ℕ × Block). (k : ℕ) × IsProof H b k × (r.1 ≡ mined H b k))
          (mine_loop H fuel (with_nonce b n) attempts)
  mine_loop-mined zero n attempts = unfold mine_loop in tt
  mine_loop-mined (suc fuel) n attempts =
      elim (Bool-cases (strncmp_eq mining_difficulty (block_hash H (with_nonce b n)) target)) [
        | inl hit ↦
            let proof = MeetsTarget-strncmp_eq (block_hash H (with_nonce b n)) hit in
            rw (mine_loop_hit fuel n attempts proof) (n, proof, refl)
        | inr miss ↦
            rw (mine_loop_miss fuel n attempts (not-MeetsTarget _ miss))
              (mine_loop-mined fuel ((n + 1) % 2 ^ 64) ((attempts + 1) % 2 ^ 64))
      ]

  -- From the nonce `n`, after `n` attempts, the first proof `t` is found.
  mine_loop_finds :
      (fuel n t : ℕ)
      → n ≤ t
      → t < n + fuel
      → t < 2 ^ 64
      → ((k : ℕ) → n ≤ k → k < t → ¬ IsProof H b k)
      → IsProof H b t
      → mine_loop H fuel (with_nonce b n) n ≡ returns ((t + 1) % 2 ^ 64, mined H b t)
  mine_loop_finds zero n t le enough small none_before proof = absurd (omega arith)
  mine_loop_finds (suc fuel) n t le enough small none_before proof = elim (Bool-cases (n == t)) [
    | inl same ↦ rw ((==_iff n t).0 same) (mine_loop_hit fuel t t proof)
    | inr differs ↦
        let lt : n < t = ground arith in
        let next : (n + 1) % 2 ^ 64 ≡ n + 1 = omega arith in
        mine_loop_miss fuel n n (none_before n (omega arith) lt)
        ∙ rw next (
            mine_loop_finds fuel (n + 1) t (omega arith) (omega arith) small
              (λ k h. none_before k (omega arith)) proof)
  ]

  mine_loop_diverges :
      ((k : ℕ) → k < 2 ^ 64 → ¬ IsProof H b k)
      → (fuel n attempts : ℕ) → n < 2 ^ 64
      → mine_loop H fuel (with_nonce b n) attempts ≡ out_of_fuel
  mine_loop_diverges no_proof zero n attempts small = unfold mine_loop in refl
  mine_loop_diverges no_proof (suc fuel) n attempts small =
      mine_loop_miss fuel n attempts (no_proof n small)
      ∙ mine_loop_diverges no_proof fuel ((n + 1) % 2 ^ 64) ((attempts + 1) % 2 ^ 64) (omega arith)

  -- If `n` is the least nonce at which the hash meets the difficulty, then `block_mine` stops at it,
  -- whatever nonce and hash the block had, given more than `n` rounds: it returns the number of
  -- attempts, stores the nonce and the hash of that block, changes no other field, and the block
  -- that it leaves passes `block_validate`.
  pub block_mine-least :
      (fuel n : ℕ)
      → n < fuel
      → n < 2 ^ 64
      → ((k : ℕ) → k < n → ¬ IsProof H b k)
      → IsProof H b n
      → (block_mine H fuel b ≡ returns ((n + 1) % 2 ^ 64, mined H b n))
        × (block_validate H (mined H b n) ≡ returns success)
  unfolding block_mine
  block_mine-least fuel n enough small none_before proof = (
    mine_loop_finds fuel 0 n (omega arith) (omega arith) small (λ k h. none_before k) proof,
    IsMined-block_validate H (mined H b n) (mined-IsWellFormed n) (mined-IsMined n proof),
  )

  -- If no nonce of 64 bits meets the difficulty, then `block_mine` never returns: the nonce wraps
  -- around, and the search goes on however many rounds are given.
  pub block_mine-diverges :
      ((k : ℕ) → k < 2 ^ 64 → ¬ IsProof H b k) → (fuel : ℕ) → block_mine H fuel b ≡ out_of_fuel
  unfolding block_mine
  block_mine-diverges no_proof fuel = mine_loop_diverges no_proof fuel 0 0 (omega arith)
