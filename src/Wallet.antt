-- ===== src/Wallet.antt =====
-- src/wallet.c and include/wallet.h: a key, its address, signing, verifying, and the file of the key.
-- The calls of OpenSSL are those of the parameter `E`. A wallet here is one that has been set up;
-- after an error the program does not use it. Freeing memory is left out.
pub mod Signing
pub mod Keeping
use mini_coin_slovak.Base.{
  ℕ, zero, suc, ◌*◌, ◌/◌, ◌%◌, Bool, true, false, Option, none, some, List, [], ◌∷◌, length, drop,
  ltb, if◌then◌else◌,
}
use mini_coin_slovak.CLib.{Bytes, hex, str_eq, sscanf_hex}
use mini_coin_slovak.Ed25519.{Ed25519}
use mini_coin_slovak.Run.{Status, success, failure}
use mini_coin_slovak.Tx.{Tx, coinbase_addr}

abbrev pub cons_byte : ℕ → Option Bytes → Option Bytes
cons_byte byte none = none
cons_byte byte (some bytes) = some (byte % 256 ∷ bytes)

-- The two loops over `sscanf` in `wallet_verify_tx`, with `rounds` bytes left, on the text from the
-- offset `i * 2` on. The arrays are zero behind their text, as `memset` leaves them.
unfoldable pub decode_hex : ℕ → Bytes → Option Bytes
unfolding sscanf_hex
decode_hex zero s = some []
decode_hex (suc rounds) s = elim (sscanf_hex s) [
  | none ↦ none
  | some byte ↦ cons_byte byte (decode_hex rounds (drop 2 s))
]

-- How many bytes of a signature are decoded: `strlen(tx->signature) / 2`, but no more than `sig` has.
abbrev pub signature_len : Bytes → ℕ
signature_len signature =
    let sig_len = length signature / 2 in if ltb 64 sig_len then 64 else sig_len

abbrev pub status_of : Bool → Status
status_of ok = if ok then success else failure

module _ (E : Ed25519) where
  -- `wallet_t`
  pub record Wallet : Type 0 where
    pub keypair : E.Key
    pub address : Bytes

  -- `none` is the result -1.
  unfoldable pub extract_address : E.Key → Option Bytes
  extract_address key = elim (E.public_key key) [ none ↦ none | some pubkey ↦ some (hex pubkey) ]

  abbrev pub with_address : E.Key → Option Bytes → Option Wallet
  with_address key none = none
  with_address key (some address) = some (record { keypair = key; address = address })

  -- `generated` is the key that `EVP_PKEY_keygen` makes; `none` if any of the calls up to it fails.
  unfoldable pub wallet_create : Option E.Key → Option Wallet
  wallet_create none = none
  wallet_create (some pkey) = with_address pkey (extract_address pkey)

  unfoldable pub wallet_sign_tx : Wallet → Tx → Status × Tx
  wallet_sign_tx wallet tx = elim (E.sign wallet.keypair tx.tx_hash) [
    | none ↦ (failure, tx)
    | some sig ↦ (success, record tx { signature = hex sig })
  ]

  -- From `EVP_PKEY_new_raw_public_key` on.
  unfoldable pub verify_signature : Tx → Option E.PublicKey → Status
  verify_signature tx none = failure
  verify_signature tx (some pkey) = elim (decode_hex (signature_len tx.signature) tx.signature) [
    | none ↦ failure
    | some sig ↦ status_of (E.verify pkey sig tx.tx_hash)
  ]

  unfoldable pub wallet_verify_tx : Tx → Status
  unfolding decode_hex
  wallet_verify_tx tx = elim (str_eq tx.sender coinbase_addr) [
    | true ↦ success
    | false ↦ elim (decode_hex 32 tx.sender) [
      | none ↦ failure
      | some pubkey ↦ verify_signature tx (E.new_raw_public_key pubkey)
    ]
  ]

  -- What the file at `path` holds; `none` if it cannot be opened for reading.
  abbrev pub File : Type 0
  File = Option Bytes

  -- `opens` says whether the file can be opened for writing, which empties it. A text that has been
  -- made is written whole.
  unfoldable pub wallet_save : Bool → Wallet → File → Status × File
  wallet_save false wallet file = (failure, file)
  wallet_save true wallet file = elim (E.write_pem wallet.keypair) [
    | none ↦ (failure, some [])
    | some text ↦ (success, some text)
  ]

  abbrev pub with_key : Option E.Key → Option Wallet
  with_key none = none
  with_key (some key) = with_address key (extract_address key)

  -- `none` is the result -1.
  unfoldable pub wallet_load : File → Option Wallet
  wallet_load none = none
  wallet_load (some text) = with_key (E.read_pem text)

  -- A new wallet, and the file after an attempt to save it.
  abbrev pub saved : Bool → File → Option Wallet → Option Wallet × File
  saved opens file none = (none, file)
  saved opens file (some wallet) = (some wallet, (wallet_save opens wallet file).1)

  -- The beginning of `main` in src/main.c: the wallet in the file or, if there is none, a new one,
  -- which is saved. With no wallet the program ends.
  unfoldable pub open_wallet : Bool → Option E.Key → File → Option Wallet × File
  open_wallet opens generated file = elim (wallet_load file) [
    | none ↦ saved opens file (wallet_create generated)
    | some wallet ↦ (some wallet, file)
  ]
