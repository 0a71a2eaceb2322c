-- ===== src/Node/Sending.antt =====
-- What `do_send` of src/main.c does with the inputs that it has read.
use mini_coin_slovak.Base.{
  ℕ, ◌+◌, ◌%◌, ◌^◌, ◌<◌, ◌≤◌, ◌≡◌, refl, ap, ◌∙◌, ◌⊎◌, Bool, true, false, none, some, List, arith,
  length, ltb, ltb_iff, Bool-cases, Option-cases, inl, inr,
}
use mini_coin_slovak.Base.Int.{ℤ, pos, signed64, ◌≤ℤ◌, ltb_ℤ}
use mini_coin_slovak.Chain.{Blockchain, chain_get_balance}
use mini_coin_slovak.CLib.{Bytes, hex, length-hex}
use mini_coin_slovak.Ed25519.{Ed25519}
use mini_coin_slovak.Node.{Sent, do_send, submit, on_new_tx, total_cost}
use mini_coin_slovak.Node.Mempool.{queued}
use mini_coin_slovak.Run.{Run, returns, ◌>>=◌}
use mini_coin_slovak.Sha256.{Sha256}
use mini_coin_slovak.Tx.{Tx, tx_create, min_tx_fee}
use mini_coin_slovak.Tx.Hash.{IsCreated, tx_create-IsCreated}
use mini_coin_slovak.Wallet.{Wallet, wallet_sign_tx}

-- The checks of `do_send`: the fee, and the balance against amount and fee, which are added modulo
-- 2^64 and then taken for a signed number.
pub record CanPay (balance : ℤ) (amount fee : ℕ) : Type 0 where
  pub fee_enough : 1 ≤ fee
  pub covered : signed64 ((amount + fee) % 2 ^ 64) ≤ℤ balance

module _ (H : Sha256) (E : Ed25519) (wallet : Wallet E) (chain : Blockchain) (mempool : List Tx)
    (receiver : Bytes) (amount fee : ℕ) where
  abbrev pub unsigned : Tx
  unsigned = tx_create H wallet.address receiver amount fee

  abbrev pub signed : Bytes → Tx
  signed sig = record unsigned { signature = hex sig }

  -- Nothing is sent, and the mempool stays as it was.
  abbrev pub nothing : Sent
  nothing = record { mempool = mempool; broadcast = none }

  abbrev pub sent : Bytes → Sent
  sent sig = record { mempool = queued mempool (signed sig); broadcast = some (signed sig) }

  signed-IsCreated : (sig : Bytes) → IsCreated H wallet.address receiver amount fee (signed sig)
  signed-IsCreated sig =
      let made = (tx_create-IsCreated H wallet.address receiver amount fee).0 in
      record {
        sender_is = made.sender_is;
        receiver_is = made.receiver_is;
        amount_is = made.amount_is;
        fee_is = made.fee_is;
        is_hashed = made.is_hashed;
        hash_length = made.hash_length;
      }

  submit-signed :
      (sig : Bytes)
      → E.sign wallet.keypair unsigned.tx_hash ≡ some sig
      → submit H mempool (wallet_sign_tx E wallet unsigned) ≡ sent sig
  unfolding submit wallet_sign_tx on_new_tx
  submit-signed sig e = rw (wallet_sign_tx, e) refl

  submit-unsigned :
      E.sign wallet.keypair unsigned.tx_hash ≡ none
      → submit H mempool (wallet_sign_tx E wallet unsigned) ≡ nothing
  unfolding submit wallet_sign_tx
  submit-unsigned e = rw (wallet_sign_tx, e) refl

  cheap : fee < 1 → do_send H E wallet chain mempool receiver amount fee ≡ returns nothing
  unfolding do_send
  cheap h = let less : ltb fee min_tx_fee ≡ true = ground arith in rw (do_send, less) refl

  module _ (balance : ℤ) (known : chain_get_balance chain wallet.address ≡ returns balance)
      (enough : 1 ≤ fee) where
    abbrev rest : Bool → Run (Sent)
    rest poor = elim poor [
      | true ↦ returns nothing
      | false ↦ returns (submit H mempool (wallet_sign_tx E wallet unsigned))
    ]

    checked :
        {poor : Bool}
        → ltb_ℤ balance (signed64 (total_cost amount fee)) ≡ poor
        → do_send H E wallet chain mempool receiver amount fee ≡ rest poor
    unfolding do_send
    checked h =
        let fine : ltb fee min_tx_fee ≡ false = ground arith in
        rw (do_send, fine)
          (ap (λ m. m >>= λ b. rest (ltb_ℤ b (signed64 (total_cost amount fee)))) known ∙ ap rest h)

  -- Given the balance of the wallet, `do_send` either broadcasts a transaction of these parties, amount
  -- and fee, whose hash covers them and is signed, and puts it behind the transactions of the mempool if
  -- these are fewer than 100; or it changes nothing, and then the fee is too low, the check of the balance
  -- fails, or signing does.
  pub do_send-CanPay :
      (balance : ℤ)
      → chain_get_balance chain wallet.address ≡ returns balance
      → (CanPay balance amount fee
          × ((sig : Bytes) × (E.sign wallet.keypair unsigned.tx_hash ≡ some sig)
              × (do_send H E wallet chain mempool receiver amount fee ≡ returns (sent sig))
              × IsCreated H wallet.address receiver amount fee (signed sig)
              × (length (signed sig).signature ≡ 128)))
        ⊎ (((¬ CanPay balance amount fee) ⊎ (E.sign wallet.keypair unsigned.tx_hash ≡ none))
            × (do_send H E wallet chain mempool receiver amount fee ≡ returns nothing))
  do_send-CanPay balance known = elim (Bool-cases (ltb fee 1)) [
    | inl less ↦ inr (
      inl (λ c. absurd (omega (arith, c.fee_enough, (ltb_iff fee 1).0 less))),
      cheap ((ltb_iff fee 1).0 less),
    )
    | inr fine ↦
        let enough : 1 ≤ fee = ground arith in
        elim (Bool-cases (ltb_ℤ balance (signed64 (total_cost amount fee)))) [
          | inl poor ↦
              inr (inl (λ c. absurd (ground (arith, c.covered))), checked balance known enough poor)
          | inr rich ↦ elim (Option-cases (E.sign wallet.keypair unsigned.tx_hash)) [
            | inl fails ↦
                inr (
                  inr fails,
                  checked balance known enough rich ∙ ap returns (submit-unsigned fails),
                )
            | inr (sig, signs) ↦ inl (
              record { fee_enough = enough; covered = ground arith },
              (
                sig,
                signs,
                checked balance known enough rich ∙ ap returns (submit-signed sig signs),
                signed-IsCreated sig,
                omega (
                  arith,
                  length-hex sig,
                  E.length-sign wallet.keypair unsigned.tx_hash sig signs,
                ),
              ),
            )
          ]
        ]
  ]

  -- With any balance that is not negative, an amount and a positive fee that add up to 2^64 pass the
  -- check, as their sum wraps around to zero; if signing succeeds, what is broadcast still has that
  -- amount.
  pub do_send-overspends :
      (have : ℕ) (sig : Bytes)
      → chain_get_balance chain wallet.address ≡ returns (pos have)
      → 1 ≤ fee
      → amount + fee ≡ 2 ^ 64
      → E.sign wallet.keypair unsigned.tx_hash ≡ some sig
      → (do_send H E wallet chain mempool receiver amount fee ≡ returns (sent sig))
        × ((signed sig).amount ≡ amount)
  do_send-overspends have sig known enough wraps signs =
      let zero_cost : total_cost amount fee ≡ 0 = omega arith in
      let rich : ltb_ℤ (pos have) (signed64 (total_cost amount fee)) ≡ false =
        rw zero_cost (ground arith) in
      (
        checked (pos have) known enough rich ∙ ap returns (submit-signed sig signs),
        (signed-IsCreated sig).amount_is,
      )
