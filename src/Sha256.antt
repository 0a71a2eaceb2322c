-- ===== src/Sha256.antt =====
-- OpenSSL's SHA-256, which the program calls through EVP (`EVP_DigestInit_ex`, `EVP_DigestUpdate`
-- and `EVP_DigestFinal_ex` in src/tx.c and src/block.c). It is a parameter: `digest` is the
-- digest of a text, and the laws are its documented length and that its items are bytes.
-- The program checks none of the calls; they are taken to succeed.
use mini_coin_slovak.Base.{◌<◌, ◌≡◌, length, All}
use mini_coin_slovak.CLib.{Bytes}

pub record Sha256 : Type 0 where
  pub digest : Bytes → Bytes
  pub length-digest : (s : Bytes) → length (digest s) ≡ 32
  pub digest-bytes : (s : Bytes) → All (λ b. b < 256) (digest s)
