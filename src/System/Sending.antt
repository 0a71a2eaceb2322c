-- ===== src/System/Sending.antt =====
-- Sending (`do_send` of src/main.c) keeps the mempool within its array, whatever the user types.
use mini_coin_slovak.Base.{
  ℕ, ◌^◌, ◌<◌, ◌≤◌, List, arith, length, length-take, ltb, All, Bool-cases, Option-cases, inl, inr,
}
use mini_coin_slovak.Base.Int.{ltb_ℤ, signed64}
use mini_coin_slovak.Chain.{Blockchain, chain_get_balance}
use mini_coin_slovak.CLib.{Bytes, hex, length-hex}
use mini_coin_slovak.Ed25519.{Ed25519}
use mini_coin_slovak.Node.{Sent, mempool_size, do_send, submit, total_cost}
use mini_coin_slovak.Protocol.Bounds.{HasSizes}
use mini_coin_slovak.Run.{Status, success, failure, WhenReturns, >>=-WhenReturns}
use mini_coin_slovak.Sha256.{Sha256}
use mini_coin_slovak.System.Health.{on_new_tx-fits}
use mini_coin_slovak.Tx.{Tx, tx_create, min_tx_fee}
use mini_coin_slovak.Tx.Hash.{tx_create-IsCreated}
use mini_coin_slovak.Wallet.{Wallet, wallet_sign_tx}

-- The mempool of the result is within its array, and of the declared sizes.
abbrev pub KeepsMempool : Sent → Type 0
KeepsMempool s = (length s.mempool ≤ mempool_size) × All HasSizes s.mempool

module _ (H : Sha256) (E : Ed25519) (wallet : Wallet E) (mempool : List Tx)
    (room : length mempool ≤ mempool_size) (fits : All HasSizes mempool) where
  submit-KeepsMempool : (r : Status × Tx) → HasSizes r.1 → KeepsMempool (submit H mempool r)
  unfolding submit
  submit-KeepsMempool (failure, tx) sizes = (room, fits)
  submit-KeepsMempool (success, tx) sizes = on_new_tx-fits mempool tx room fits sizes

  signed-HasSizes :
      (receiver : Bytes) (amount fee : ℕ)
      → amount < 2 ^ 64
      → fee < 2 ^ 64
      → HasSizes (wallet_sign_tx E wallet (tx_create H wallet.address receiver amount fee)).1
  unfolding wallet_sign_tx
  signed-HasSizes receiver amount fee amount_fits fee_fits =
      let tx = tx_create H wallet.address receiver amount fee in
      let (made, unsigned) = tx_create-IsCreated H wallet.address receiver amount fee in
      let sized : (s : Bytes) → length s < 129 → HasSizes (record tx { signature = s }) = λ s short.
        record {
          sender_fits = rw made.sender_is (omega (arith, length-take 64 wallet.address));
          receiver_fits = rw made.receiver_is (omega (arith, length-take 64 receiver));
          amount_fits = rw made.amount_is amount_fits;
          fee_fits = rw made.fee_is fee_fits;
          signature_fits = short;
          hash_fits = omega (arith, made.hash_length);
        } in
      elim (Option-cases (E.sign wallet.keypair tx.tx_hash)) [
        | inl fails ↦ rw (wallet_sign_tx, fails) (sized tx.signature (rw unsigned (omega arith)))
        | inr (sig, signs) ↦
            rw (wallet_sign_tx, signs)
              (sized (hex sig)
                (omega (arith, length-hex sig, E.length-sign wallet.keypair tx.tx_hash sig signs)))
      ]

  pub do_send-KeepsMempool :
      (chain : Blockchain) (receiver : Bytes) (amount fee : ℕ)
      → amount < 2 ^ 64
      → fee < 2 ^ 64
      → WhenReturns KeepsMempool (do_send H E wallet chain mempool receiver amount fee)
  unfolding do_send
  do_send-KeepsMempool chain receiver amount fee amount_fits fee_fits =
      elim (Bool-cases (ltb fee min_tx_fee)) [
        | inl low ↦ rw (do_send, low) (room, fits)
        | inr fine ↦
            rw (do_send, fine)
              (>>=-WhenReturns KeepsMempool (chain_get_balance chain wallet.address) _
                (λ balance known.
                  elim (Bool-cases (ltb_ℤ balance (signed64 (total_cost amount fee)))) [
                    | inl poor ↦ rw poor (room, fits)
                    | inr rich ↦ rw rich (
                        submit-KeepsMempool
                          (wallet_sign_tx E wallet (tx_create H wallet.address receiver amount fee))
                          (signed-HasSizes receiver amount fee amount_fits fee_fits))
                  ]))
      ]
