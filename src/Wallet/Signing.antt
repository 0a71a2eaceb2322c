-- ===== src/Wallet/Signing.antt =====
-- Signing and verifying (src/wallet.c): what one wallet signs, every node can verify.
use mini_coin_slovak.Base.{
  ◌/◌, ◌%◌, ◌<◌, ◌≡◌, refl, some, [], ◌∷◌, arith, All, length, Bool-cases, Option-cases, inl, inr,
}
use mini_coin_slovak.CLib.{Bytes, hex, length-hex, str_eq, sscanf_hex-byte}
use mini_coin_slovak.Ed25519.{Ed25519}
use mini_coin_slovak.Run.{success}
use mini_coin_slovak.Tx.{Tx, coinbase_addr}
use mini_coin_slovak.Wallet.{
  Wallet, decode_hex, extract_address, wallet_sign_tx, verify_signature, wallet_verify_tx,
}

-- The bytes of a text in base sixteen are read back.
pub decode_hex-hex : (s : Bytes) → All (λ b. b < 256) s → decode_hex (length s) (hex s) ≡ some s
unfolding decode_hex hex
decode_hex-hex [] h = refl
decode_hex-hex (b ∷ s) h =
    let small : b % 256 ≡ b = omega (arith, h.0) in
    rw (decode_hex, sscanf_hex-byte b (hex s) h.0, decode_hex-hex s h.1, small) refl

module _ (E : Ed25519) (wallet : Wallet E) where
  -- The address is the public key of the wallet's key, in base sixteen: so it is in every wallet that
  -- was created or loaded.
  abbrev pub HasAddress : Type 0
  HasAddress = extract_address E wallet.keypair ≡ some wallet.address

  pub address_of_key :
      HasAddress → (p : Bytes) × (E.public_key wallet.keypair ≡ some p) × (wallet.address ≡ hex p)
  unfolding extract_address
  address_of_key h = elim (Option-cases (E.public_key wallet.keypair)) [
    | inl fails ↦ absurd (ground (arith, fails))
    | inr (p, found) ↦ (p, found, ground (arith, found))
  ]

  -- A text that was signed is verified with the address, when it is not that of a coinbase.
  verify_signature-lem :
      (tx : Tx) (p sig : Bytes)
      → E.public_key wallet.keypair ≡ some p
      → E.sign wallet.keypair tx.tx_hash ≡ some sig
      → verify_signature E (record tx { signature = hex sig }) (E.new_raw_public_key p) ≡ success
  unfolding verify_signature
  verify_signature-lem tx p sig found signs =
      let (q, raw, ok) = E.verify-sign wallet.keypair p tx.tx_hash sig found signs in
      let long = E.length-sign wallet.keypair tx.tx_hash sig signs in
      let half : length (hex sig) / 2 ≡ 64 = omega (arith, length-hex sig) in
      let whole : decode_hex 64 (hex sig) ≡ some sig =
        rw (← long) (decode_hex-hex sig (E.sign-bytes wallet.keypair tx.tx_hash sig signs)) in
      rw (raw, verify_signature, half, whole, ok) refl

  pub verify-signed :
      (tx : Tx) (sig : Bytes)
      → HasAddress
      → tx.sender ≡ wallet.address
      → E.sign wallet.keypair tx.tx_hash ≡ some sig
      → wallet_verify_tx E (record tx { signature = hex sig }) ≡ success
  unfolding wallet_verify_tx
  verify-signed tx sig h from signs =
      let (p, found, is_hex) = address_of_key h in
      let long = E.length-public_key wallet.keypair p found in
      let whole : decode_hex 32 tx.sender ≡ some p =
        rw (from, is_hex, ← long) (decode_hex-hex p (E.public_key-bytes wallet.keypair p found)) in
      elim (Bool-cases (str_eq tx.sender coinbase_addr)) [
        | inl coinbase ↦ rw (wallet_verify_tx, coinbase) refl
        | inr other ↦
            rw (wallet_verify_tx, other, whole) (verify_signature-lem tx p sig found signs)
      ]

  -- If `wallet_sign_tx` returns 0 for a transaction that is sent from the wallet's address, then
  -- `wallet_verify_tx` returns 0 for the signed transaction, which differs from the unsigned one in its
  -- signature alone.
  pub wallet_verify_tx-wallet_sign_tx :
      (tx tx' : Tx)
      → HasAddress
      → tx.sender ≡ wallet.address
      → wallet_sign_tx E wallet tx ≡ (success, tx')
      → (wallet_verify_tx E tx' ≡ success) × (tx' ≡ record tx { signature = tx'.signature })
  unfolding wallet_sign_tx
  wallet_verify_tx-wallet_sign_tx tx tx' h from e =
      elim (Option-cases (E.sign wallet.keypair tx.tx_hash)) [
        | inl fails ↦ absurd (ground (arith, fails))
        | inr (sig, signs) ↦
            let same : record tx { signature = hex sig } ≡ tx' = ground (arith, signs) in
            rw (← same) (verify-signed tx sig h from signs, refl)
      ]
