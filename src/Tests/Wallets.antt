-- ===== src/Tests/Wallets.antt =====
-- A wallet that pays from the address of its key, and the file of the key.
use mini_coin_slovak.Base.{
  ◌⊎◌, ℕ, ◌≡◌, refl, ◌∙◌, true, false, some, none, List, [], ◌∷◌, arith, map, set, All,
}
use mini_coin_slovak.Base.Int.{pos, ◌-ℤ◌}
use mini_coin_slovak.Block.{zero_block}
use mini_coin_slovak.Chain.{Blockchain, chain_get_balance, max_blocks}
use mini_coin_slovak.Chain.Balance.{chain_get_balance-net}
use mini_coin_slovak.Chain.Valid.{IsStored}
use mini_coin_slovak.CLib.{Bytes, codes, hex, sscanf_hex, scan_hex_digits}
use mini_coin_slovak.Net.{Peer, node_broadcast_tx}
use mini_coin_slovak.Net.Payment.{Arrives, IsPayment, do_send-Arrives}
use mini_coin_slovak.Node.{do_send, submit}
use mini_coin_slovak.Node.Sending.{signed, sent}
use mini_coin_slovak.Run.{returns, >>=-returns, success, failure}
use mini_coin_slovak.Tests.Digests.{sum_sha256}
use mini_coin_slovak.Tests.Keys.{toy_keys, toy_signature}
use mini_coin_slovak.Tx.{Tx, zero_tx}
use mini_coin_slovak.Wallet.{
  Wallet, verify_signature, extract_address, wallet_create, wallet_sign_tx, wallet_verify_tx,
  wallet_save, wallet_load, open_wallet,
}
use mini_coin_slovak.Wallet.Signing.{HasAddress, wallet_verify_tx-wallet_sign_tx}
use mini_coin_slovak.Wallet.Keeping.{open_wallet-again}

abbrev pub address : Bytes
address = b'0' ∷ b'1' ∷ codes "01010101010101010101010101010101010101010101010101010101010101"

abbrev wallet : Wallet toy_keys
wallet = record { keypair = tt; address = address }

wallet-HasAddress : HasAddress toy_keys wallet
unfolding extract_address hex
wallet-HasAddress = refl

abbrev unsigned_tx : Tx
unsigned_tx = record zero_tx {
  sender = address;
  receiver = codes "c";
  amount = 3;
  fee = 1;
  tx_hash = codes "ab";
}

wallet_verify_tx-wallet_sign_tx_example :
    (wallet_verify_tx toy_keys (record unsigned_tx { signature = hex toy_signature }) ≡ success)
    × (record unsigned_tx { signature = hex toy_signature }
        ≡ record unsigned_tx { signature = hex toy_signature })
unfolding wallet_sign_tx
wallet_verify_tx-wallet_sign_tx_example =
    wallet_verify_tx-wallet_sign_tx toy_keys wallet unsigned_tx
      (record unsigned_tx { signature = hex toy_signature }) wallet-HasAddress refl refl

-- Another signature is not verified.
forged : wallet_verify_tx toy_keys (record unsigned_tx { signature = codes "0202" }) ≡ failure
unfolding wallet_verify_tx verify_signature scan_hex_digits
forged = refl

-- The first start makes a key and saves it; the second loads it.
open_wallet-again_example :
    HasAddress toy_keys wallet
    × ((open_wallet toy_keys false none (some (codes "PRIVATE KEY"))
          ≡ (some wallet, some (codes "PRIVATE KEY")))
        ⊎ ((wallet_load toy_keys none ≡ none)
            × ((wallet_save toy_keys true wallet none).0 ≡ failure)))
unfolding open_wallet wallet_load wallet_create wallet_save extract_address hex
open_wallet-again_example =
    open_wallet-again toy_keys true false (some tt) none none (some (codes "PRIVATE KEY")) wallet
      refl

-- A chain with a reward of 50 coins for the wallet.
abbrev rich_chain : Blockchain
rich_chain = record {
  blocks = λ i. record zero_block {
    transactions =
        set zero_block.transactions 0 (record zero_tx { receiver = address; amount = 50 });
    tx_count = pos 1;
  };
  length = 1;
}

rich_chain-IsStored : IsStored rich_chain
unfolding max_blocks
rich_chain-IsStored = record {
  ne_empty = omega arith;
  fits = omega arith;
  blocks_fit = λ i h. omega arith;
}

rich : chain_get_balance rich_chain address ≡ returns (pos 50)
rich =
    chain_get_balance-net rich_chain address rich_chain-IsStored (omega arith)
    ∙ (unfold ◌-ℤ◌ in refl)

paying :
    do_send sum_sha256 toy_keys wallet rich_chain [] (codes "c") 3 1
    ≡ returns (sent sum_sha256 toy_keys wallet rich_chain [] (codes "c") 3 1 toy_signature)
unfolding do_send submit wallet_sign_tx
paying = >>=-returns _ rich

abbrev peers : List Peer
peers =
    record { fd = 7; host = codes "a"; port = 9333; active = true }
    ∷ record { fd = 8; host = codes "b"; port = 9333; active = false }
    ∷ []

abbrev paid : Tx
paid = signed sum_sha256 toy_keys wallet rich_chain [] (codes "c") 3 1 toy_signature

do_send-Arrives_example :
    IsPayment toy_keys wallet (codes "c") 3 1 paid
    × All (λ (s : ℕ × Bytes). Arrives sum_sha256 paid s.1) (node_broadcast_tx peers paid)
    × (map (λ (s : ℕ × Bytes). s.0) (node_broadcast_tx peers paid) ≡ 7 ∷ [])
do_send-Arrives_example =
    do_send-Arrives sum_sha256 toy_keys wallet rich_chain [] (codes "c") 3 1 peers (pos 50)
      wallet-HasAddress
      (record {
        receiver_fits = omega arith;
        receiver_plain = search;
        receiver_line = search;
        amount_fits = omega arith;
        fee_fits = omega arith;
      })
      rich paying refl

-- White space and a sign are taken, and a letter that is no digit ends the number.
sscanf_hex_cases :
    (sscanf_hex (codes " -5") ≡ some 4294967291)
    × (sscanf_hex (codes "aG") ≡ some 10)
    × (sscanf_hex (codes "FFF") ≡ some 255)
    × (sscanf_hex (codes "0x1") ≡ none)
    × (sscanf_hex (codes "g") ≡ none)
unfolding sscanf_hex scan_hex_digits
sscanf_hex_cases = (refl, refl, refl, refl, refl)
