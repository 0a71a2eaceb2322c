-- ===== src/Tx/Hash.antt =====
-- The hash of a transaction (src/tx.c): what it covers, and what it leaves open.
use mini_coin_slovak.Base.{
  ℕ, ◌+◌, ◌*◌, ◌^◌, ◌<◌, ◌≤◌, ◌≡◌, refl, sym, ◌∙◌, ap, [], ◌∷◌, ◌++◌, append_assoc, arith, length,
  length-append, length-take, take,
}
use mini_coin_slovak.CLib.{
  Bytes, Buffer, decimal, hex, snprintf_fits, decimal_digit, decimal_last, length-decimal-le,
  length-hex,
}
use mini_coin_slovak.Sha256.{Sha256}
use mini_coin_slovak.Tx.{
  Tx, tx_text, tx_compute_hash, tx_create, tx_create_coinbase, coinbase_addr, mining_reward,
  zero_tx,
}

-- The addresses fit their arrays.
pub record HasAddresses (tx : Tx) : Type 0 where
  pub sender_fits : length tx.sender ≤ 64
  pub receiver_fits : length tx.receiver ≤ 64

-- sender || receiver || amount || fee
abbrev pub whole_text : Tx → Bytes
whole_text tx = tx.sender ++ (tx.receiver ++ (decimal tx.amount ++ decimal tx.fee))

tx_text_lem : (tx : Tx) → HasAddresses tx → tx_text tx ≡ whole_text tx
unfolding tx_text
tx_text_lem tx fits =
    ap (λ (b : Buffer). b.text)
      (snprintf_fits 512 (record { text = []; offset = 0 }) (whole_text tx) refl
        (omega (
          arith,
          length-append {0},
          length-decimal-le tx.amount,
          length-decimal-le tx.fee,
          fits.sender_fits,
          fits.receiver_fits,
        )))

-- The stored hash is that of all four fields.
abbrev pub IsHashed : Sha256 → Tx → Type 0
IsHashed H tx = tx.tx_hash ≡ hex (H.digest (whole_text tx))

pub tx_compute_hash-IsHashed :
    (H : Sha256) (tx : Tx) → HasAddresses tx → IsHashed H (tx_compute_hash H tx)
unfolding tx_compute_hash
tx_compute_hash-IsHashed H tx fits = ap (λ s. hex (H.digest s)) (tx_text_lem tx fits)

pub length-tx_hash : (H : Sha256) (tx : Tx) → length (tx_compute_hash H tx).tx_hash ≡ 64
unfolding tx_compute_hash
length-tx_hash H tx =
    omega (arith, length-hex (H.digest (tx_text tx)), H.length-digest (tx_text tx))

-- A transaction as `tx_create` ought to make it: addresses cut to 64 bytes, the amount and the fee as
-- given, no signature, and a hash of 64 digits that covers these fields.
pub record IsCreated (H : Sha256) (sender receiver : Bytes) (amount fee : ℕ) (tx : Tx)
    : Type 0 where
  pub sender_is : tx.sender ≡ take 64 sender
  pub receiver_is : tx.receiver ≡ take 64 receiver
  pub amount_is : tx.amount ≡ amount
  pub fee_is : tx.fee ≡ fee
  pub is_hashed : IsHashed H tx
  pub hash_length : length tx.tx_hash ≡ 64

length-take-le : (n : ℕ) (s : Bytes) → length (take n s) ≤ n
length-take-le n s = omega (arith, length-take n s)

-- Whatever the arguments, `tx_create` returns an unsigned transaction of these parties, amount and fee
-- (an address longer than 64 bytes is cut), whose hash has 64 digits and covers sender, receiver,
-- amount and fee: the buffer of 512 bytes cuts nothing off.
pub tx_create-IsCreated :
    (H : Sha256) (sender receiver : Bytes) (amount fee : ℕ)
    → IsCreated H sender receiver amount fee (tx_create H sender receiver amount fee)
      × ((tx_create H sender receiver amount fee).signature ≡ [])
unfolding tx_create tx_compute_hash
tx_create-IsCreated H sender receiver amount fee =
    let fits : HasAddresses (record zero_tx {
      sender = take 64 sender;
      receiver = take 64 receiver;
      amount = amount;
      fee = fee;
    }) =
      record {
        sender_fits = length-take-le 64 sender;
        receiver_fits = length-take-le 64 receiver;
      } in
    (
      record {
        sender_is = refl;
        receiver_is = refl;
        amount_is = refl;
        fee_is = refl;
        is_hashed = tx_compute_hash-IsHashed H _ fits;
        hash_length = length-tx_hash H _;
      },
      refl,
    )

-- `tx_create_coinbase` returns the reward of 50 coins to the miner, from "COINBASE", with no fee and
-- "COINBASE" for a signature; its hash covers all of it.
pub tx_create_coinbase-IsCreated :
    (H : Sha256) (miner : Bytes)
    → IsCreated H coinbase_addr miner mining_reward 0 (tx_create_coinbase H miner)
      × ((tx_create_coinbase H miner).signature ≡ coinbase_addr)
unfolding tx_create_coinbase tx_compute_hash
tx_create_coinbase-IsCreated H miner =
    let fits : HasAddresses (record zero_tx {
      sender = coinbase_addr;
      receiver = take 64 miner;
      amount = mining_reward;
      signature = coinbase_addr;
    }) =
      record { sender_fits = omega arith; receiver_fits = length-take-le 64 miner } in
    (
      record {
        sender_is = refl;
        receiver_is = refl;
        amount_is = refl;
        fee_is = refl;
        is_hashed = tx_compute_hash-IsHashed H _ fits;
        hash_length = length-tx_hash H _;
      },
      refl,
    )

-- The fields are joined with nothing between them, so a digit may be read as the last of the amount or
-- as the first of the fee: whenever `amount` and `fee` are positive and below the bounds of the words,
-- paying `10 * amount + d` with a fee `e` has the same hash as paying `amount` with the fee `10 * d + e`.
pub tx_compute_hash-ambiguous :
    (H : Sha256) (tx : Tx) (amount d e : ℕ)
    → HasAddresses tx
    → 0 < amount
    → amount < 10 ^ 19
    → 0 < d
    → d < 10
    → e < 10
    → (tx_compute_hash H (record tx { amount = 10 * amount + d; fee = e })).tx_hash
      ≡ (tx_compute_hash H (record tx { amount = amount; fee = 10 * d + e })).tx_hash
unfolding tx_compute_hash
tx_compute_hash-ambiguous H tx amount d e fits pa ba pd bd be =
    ap (λ s. hex (H.digest s))
      (tx_text_lem (record tx { amount = 10 * amount + d; fee = e })
          (record { sender_fits = fits.sender_fits; receiver_fits = fits.receiver_fits })
        ∙ rw
            (
              decimal_last amount d pa ba bd,
              decimal_digit e be,
              decimal_last d e pd (omega arith) be,
              decimal_digit d bd,
            )
            (rw (append_assoc (decimal amount) ((b'0' + d) ∷ []) ((b'0' + e) ∷ [])))
        ∙ sym (
            tx_text_lem (record tx { amount = amount; fee = 10 * d + e })
              (record { sender_fits = fits.sender_fits; receiver_fits = fits.receiver_fits })))
