-- ===== src/Ed25519.antt =====
-- OpenSSL's Ed25519 keys, which src/wallet.c uses through EVP and PEM. They are a parameter; `none`
-- and `false` stand for a call that fails.
--   public_key: EVP_PKEY_get_raw_public_key      new_raw_public_key: EVP_PKEY_new_raw_public_key
--   sign: EVP_DigestSignInit, EVP_DigestSign     verify: EVP_DigestVerifyInit, EVP_DigestVerify
--   write_pem: PEM_write_PrivateKey              read_pem: PEM_read_PrivateKey
-- The laws are the documented lengths, that raw keys and signatures are bytes, that a signature is
-- verified with the public key of the key that made it, and that a key is read back from its PEM.
use mini_coin_slovak.Base.{◌<◌, ◌≡◌, Bool, true, Option, some, length, All}
use mini_coin_slovak.CLib.{Bytes}

pub record Ed25519 : Type 1 where
  pub Key : Type 0
  pub PublicKey : Type 0
  pub public_key : Key → Option Bytes
  pub length-public_key : (k : Key) (p : Bytes) → public_key k ≡ some p → length p ≡ 32
  pub public_key-bytes : (k : Key) (p : Bytes) → public_key k ≡ some p → All (λ b. b < 256) p
  pub new_raw_public_key : Bytes → Option PublicKey
  pub sign : Key → Bytes → Option Bytes
  pub length-sign : (k : Key) (s p : Bytes) → sign k s ≡ some p → length p ≡ 64
  pub sign-bytes : (k : Key) (s p : Bytes) → sign k s ≡ some p → All (λ b. b < 256) p
  pub verify : PublicKey → Bytes → Bytes → Bool
  pub verify-sign :
      (k : Key) (p s sig : Bytes)
      → public_key k ≡ some p
      → sign k s ≡ some sig
      → (q : PublicKey) × (new_raw_public_key p ≡ some q) × (verify q sig s ≡ true)
  pub write_pem : Key → Option Bytes
  pub read_pem : Bytes → Option Key
  pub read_pem-write_pem :
      (k : Key) (text : Bytes) → write_pem k ≡ some text → read_pem text ≡ some k
