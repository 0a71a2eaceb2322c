-- ===== src/Tests/Digests.antt =====
-- Two digests that meet the laws of `Sha256` and are easy to run.
use mini_coin_slovak.Base.{ℕ, ◌+◌, ◌%◌, ◌<◌, refl, [], ◌∷◌, arith, replicate, All}
use mini_coin_slovak.CLib.{Bytes}
use mini_coin_slovak.Sha256.{Sha256}

abbrev checksum : ℕ → Bytes → ℕ
checksum acc [] = acc % 256
checksum acc (c ∷ s) = checksum (acc + c) s

-- The sum of the text, from 168 on, and 31 zeroes: with it the genesis nonce is 1.
abbrev sum_digest : Bytes → Bytes
sum_digest s = checksum 168 s ∷ replicate 31 0

checksum-lt : (acc : ℕ) (s : Bytes) → checksum acc s < 256
checksum-lt acc [] = omega arith
checksum-lt acc (c ∷ s) = checksum-lt (acc + c) s

pub sum_digest-bytes : (s : Bytes) → All (λ b. b < 256) (sum_digest s)
sum_digest-bytes s = omega (arith, checksum-lt 168 s)

abbrev pub sum_sha256 : Sha256
sum_sha256 = record {
  digest = sum_digest;
  length-digest = λ s. refl;
  digest-bytes = sum_digest-bytes;
}

-- Every text has the same digest, which never meets the difficulty.
abbrev pub constant_sha256 : Sha256
constant_sha256 = record {
  digest = λ s. replicate 32 1;
  length-digest = λ s. refl;
  digest-bytes = λ s. omega arith;
}
