-- ===== src/Tests/Keys.antt =====
-- Keys for tests: every key has the same public key and makes the same signature, which is the only one
-- that is verified.
use mini_coin_slovak.Base.{◌<◌, ◌≡◌, refl, some, true, arith, length, replicate, subst, All}
use mini_coin_slovak.CLib.{Bytes, codes, str_eq}
use mini_coin_slovak.Ed25519.{Ed25519}

pub length-of_some : (a p : Bytes) → some a ≡ some p → length p ≡ length a
length-of_some a p e = cc

pub bytes-of_some : (a p : Bytes) → All (λ b. b < 256) a → some a ≡ some p → All (λ b. b < 256) p
bytes-of_some a p h e = let same : a ≡ p = ground arith in subst (All (λ b. b < 256)) same h

abbrev toy_public_key : Bytes
toy_public_key = replicate 32 1

abbrev pub toy_signature : Bytes
toy_signature = replicate 64 2

pub toy_verified : (sig : Bytes) → some toy_signature ≡ some sig → str_eq sig toy_signature ≡ true
toy_verified sig e =
    let same : toy_signature ≡ sig = ground arith in
    subst (λ s. str_eq s toy_signature ≡ true) same refl

abbrev pub toy_keys : Ed25519
toy_keys = record {
  Key = Unit {0};
  PublicKey = Unit {0};
  public_key = λ k. some toy_public_key;
  length-public_key = λ k p e. length-of_some toy_public_key p e;
  public_key-bytes = λ k p e. bytes-of_some toy_public_key p (omega arith) e;
  new_raw_public_key = λ p. some tt;
  sign = λ k s. some toy_signature;
  length-sign = λ k s p e. length-of_some toy_signature p e;
  sign-bytes = λ k s p e. bytes-of_some toy_signature p (omega arith) e;
  verify = λ q sig s. str_eq sig toy_signature;
  verify-sign = λ k p s sig e e'. (tt, refl, toy_verified sig e');
  write_pem = λ k. some (codes "PRIVATE KEY");
  read_pem = λ text. some tt;
  read_pem-write_pem = λ k text e. refl;
}
