-- ===== src/Wallet/Keeping.antt =====
-- The file of the key: what a node starts with when it is started again (`wallet_save` and
-- `wallet_load` of src/wallet.c, and their use in `main` of src/main.c).
use mini_coin_slovak.Base.{
  ◌≡◌, refl, sym, ap, ◌∙◌, subst, Bool, true, false, Option, none, some, arith, Option-cases, inl,
  inr, ◌⊎◌,
}
use mini_coin_slovak.CLib.{Bytes}
use mini_coin_slovak.Ed25519.{Ed25519}
use mini_coin_slovak.Run.{Status, success, failure}
use mini_coin_slovak.Wallet.{
  Wallet, File, with_address, with_key, extract_address, wallet_create, wallet_save, wallet_load,
  open_wallet,
}
use mini_coin_slovak.Wallet.Signing.{HasAddress}

Status-cases : (s : Status) → (s ≡ success) ⊎ (s ≡ failure)
Status-cases success = inl refl
Status-cases failure = inr refl

module _ (E : Ed25519) where
  address_of_some :
      (k : E.Key) (o : Option Bytes) {w : Wallet E}
      → with_address E k o ≡ some w
      → (k ≡ w.keypair) × (o ≡ some w.address)
  address_of_some k none e = absurd (ground arith)
  address_of_some k (some address) e = (ground arith, ground arith)

  with_address-HasAddress :
      (k : E.Key) {w : Wallet E} → with_address E k (extract_address E k) ≡ some w → HasAddress E w
  with_address-HasAddress k {w} e =
      let (same, found) = address_of_some k (extract_address E k) e in
      ap (extract_address E) (sym same) ∙ found

  with_key-HasAddress : (o : Option E.Key) {w : Wallet E} → with_key E o ≡ some w → HasAddress E w
  with_key-HasAddress none e = absurd (ground arith)
  with_key-HasAddress (some k) e = with_address-HasAddress k e

  wallet_load-HasAddress :
      (file : File E) {w : Wallet E} → wallet_load E file ≡ some w → HasAddress E w
  unfolding wallet_load
  wallet_load-HasAddress none e = absurd (ground arith)
  wallet_load-HasAddress (some text) e = with_key-HasAddress (E.read_pem text) e

  wallet_create-HasAddress :
      (generated : Option E.Key) {w : Wallet E}
      → wallet_create E generated ≡ some w
      → HasAddress E w
  unfolding wallet_create
  wallet_create-HasAddress none e = absurd (ground arith)
  wallet_create-HasAddress (some k) e = with_address-HasAddress k e

  -- What was saved is loaded.
  wallet_load-wallet_save :
      (opens : Bool) (w : Wallet E) (file : File E)
      → HasAddress E w
      → (wallet_save E opens w file).0 ≡ success
      → wallet_load E (wallet_save E opens w file).1 ≡ some w
  unfolding wallet_save wallet_load
  wallet_load-wallet_save false w file h e = absurd (ground arith)
  wallet_load-wallet_save true w file h e = elim (Option-cases (E.write_pem w.keypair)) [
    | inl fails ↦ absurd (ground (arith, fails))
    | inr (text, written) ↦
        rw (written, wallet_load, E.read_pem-write_pem w.keypair text written, h) refl
  ]

  -- A wallet with which the program has started has the public key of its key for an address. Either the
  -- next start, whatever key would be generated then, has the same wallet and leaves the file as it is;
  -- or there was no wallet in the file, and saving the new one has failed.
  pub open_wallet-again :
      (opens opens' : Bool) (generated generated' : Option E.Key) (file file' : File E)
      (w : Wallet E)
      → open_wallet E opens generated file ≡ (some w, file')
      → HasAddress E w
        × ((open_wallet E opens' generated' file' ≡ (some w, file'))
            ⊎ ((wallet_load E file ≡ none) × ((wallet_save E opens w file).0 ≡ failure)))
  unfolding open_wallet
  open_wallet-again opens opens' generated generated' file file' w e =
      elim (Option-cases (wallet_load E file)) [
        | inr (w0, loads) ↦
            let same : w0 ≡ w = ground (arith, loads) in
            let left : file ≡ file' = ground (arith, loads) in
            let again : wallet_load E file' ≡ some w = rw (← left, ← same) loads in
            (wallet_load-HasAddress file' again, inl (rw (open_wallet, again) refl))
        | inl absent ↦ elim (Option-cases (wallet_create E generated)) [
          | inl fails ↦ absurd (ground (arith, absent, fails))
          | inr (w0, made) ↦
              let same : w0 ≡ w = ground (arith, absent, made) in
              let written : (wallet_save E opens w0 file).1 ≡ file' =
                ground (arith, absent, made) in
              let has : HasAddress E w =
                subst (HasAddress E) same (wallet_create-HasAddress generated made) in
              elim (Status-cases (wallet_save E opens w file).0) [
                | inr fails ↦ (has, inr (absent, fails))
                | inl saves ↦
                    let again : wallet_load E file' ≡ some w =
                      rw (← written, same) (wallet_load-wallet_save opens w file has saves) in
                    (has, inl (rw (open_wallet, again) refl))
              ]
        ]
      ]
