-- ===== src/Net/Payment.antt =====
-- A payment on its way: from `do_send` (src/main.c) through the signature (src/wallet.c), the message
-- (src/protocol.c) and the socket (src/net.c) into the mempool of a peer.
use mini_coin_slovak.Base.{
  ℕ, ◌^◌, ◌<◌, ◌≤◌, ◌≡◌, sym, ap, ◌∙◌, some, List, [], ◌++◌, arith, All, length, take-all, inl, inr,
  map,
}
use mini_coin_slovak.Base.Int.{ℤ}
use mini_coin_slovak.Chain.{Blockchain, chain_get_balance}
use mini_coin_slovak.CLib.{Bytes, codes, hex, hex-chars, length-hex}
use mini_coin_slovak.Ed25519.{Ed25519}
use mini_coin_slovak.Json.Search.{is_special}
use mini_coin_slovak.Net.{NodeState, Peer, read_message, node_broadcast_tx, handle_message}
use mini_coin_slovak.Net.Delivery.{handled, active_fds, send_to_peers-All}
use mini_coin_slovak.Net.Lines.{IsLine}
use mini_coin_slovak.Net.OneLine.{is_break, IsOneLine, serialized-IsLine, read_message-message}
use mini_coin_slovak.Node.{Sent, do_send}
use mini_coin_slovak.Node.Mempool.{queued}
use mini_coin_slovak.Node.Sending.{unsigned, signed, sent, nothing, do_send-CanPay}
use mini_coin_slovak.Message.{msg_new_tx, protocol_serialize_msg}
use mini_coin_slovak.Protocol.{protocol_serialize_tx}
use mini_coin_slovak.Protocol.Messages.{message, IsClean}
use mini_coin_slovak.Protocol.Txs.{IsPlain, length-serialized-lt}
use mini_coin_slovak.Run.{returns, success}
use mini_coin_slovak.Sha256.{Sha256}
use mini_coin_slovak.Tx.{Tx}
use mini_coin_slovak.Tx.Hash.{IsCreated}
use mini_coin_slovak.Wallet.{Wallet, wallet_verify_tx}
use mini_coin_slovak.Wallet.Signing.{HasAddress, address_of_key, verify-signed}

hex-IsPlain : (s : Bytes) → All (λ b. b < 256) s → IsPlain (hex s)
hex-IsPlain = hex-chars is_special (λ c h. ground arith)

hex-IsLine : (s : Bytes) → All (λ b. b < 256) s → IsLine (hex s)
hex-IsLine = hex-chars is_break (λ c h. ground arith)

-- A receiver that `scanf` can have read, without quotes and backslashes, and 64-bit numbers.
pub record IsOrder (receiver : Bytes) (amount fee : ℕ) : Type 0 where
  pub receiver_fits : length receiver ≤ 64
  pub receiver_plain : IsPlain receiver
  pub receiver_line : IsLine receiver
  pub amount_fits : amount < 2 ^ 64
  pub fee_fits : fee < 2 ^ 64

module _ (H : Sha256) (E : Ed25519) (wallet : Wallet E) (has : HasAddress E wallet)
    (receiver : Bytes) (amount fee : ℕ) where
  length-address : length wallet.address ≡ 64
  length-address =
      let (p, found, is_hex) = address_of_key E wallet has in
      rw is_hex (omega (arith, length-hex p, E.length-public_key wallet.keypair p found))

  address-IsPlain : IsPlain wallet.address
  address-IsPlain =
      let (p, found, is_hex) = address_of_key E wallet has in
      rw is_hex (hex-IsPlain p (E.public_key-bytes wallet.keypair p found))

  address-IsLine : IsLine wallet.address
  address-IsLine =
      let (p, found, is_hex) = address_of_key E wallet has in
      rw is_hex (hex-IsLine p (E.public_key-bytes wallet.keypair p found))

  module _ (tx : Tx) (sig : Bytes) (order : IsOrder receiver amount fee)
      (made : IsCreated H wallet.address receiver amount fee tx) (carries : tx.signature ≡ hex sig)
      (long : length sig ≡ 64) (bytes : All (λ b. b < 256) sig) where
    sender_is : tx.sender ≡ wallet.address
    sender_is = made.sender_is ∙ take-all 64 wallet.address (omega (arith, length-address))

    receiver_is : tx.receiver ≡ receiver
    receiver_is = made.receiver_is ∙ take-all 64 receiver order.receiver_fits

    created-IsClean : IsClean tx
    created-IsClean = record {
      sendable = record {
        sender_fits = rw sender_is (omega (arith, length-address));
        receiver_fits = rw receiver_is (omega (arith, order.receiver_fits));
        amount_fits = rw made.amount_is order.amount_fits;
        fee_fits = rw made.fee_is order.fee_fits;
        signature_fits = rw carries (omega (arith, length-hex sig, long));
        hash_fits = omega (arith, made.hash_length);
        signature_plain = rw carries (hex-IsPlain sig bytes);
        hash_plain = rw made.is_hashed (hex-IsPlain _ (H.digest-bytes _));
      };
      sender_plain = rw sender_is address-IsPlain;
      receiver_plain = rw receiver_is order.receiver_plain;
    }

    created-IsOneLine : IsOneLine tx
    created-IsOneLine = record {
      sender_line = rw sender_is address-IsLine;
      receiver_line = rw receiver_is order.receiver_line;
      signature_line = rw carries (hex-IsLine sig bytes);
      hash_line = rw made.is_hashed (hex-IsLine _ (H.digest-bytes _));
    }

    created_lem :
        (tx.sender ≡ wallet.address) × (tx.receiver ≡ receiver) × IsClean tx × IsOneLine tx
    created_lem = (sender_is, receiver_is, created-IsClean, created-IsOneLine)

-- Whatever comes behind the message on the socket, the peer reads the message to its end, and then has
-- the transaction at the end of its mempool, if fewer than 100 wait there, and answers nothing.
abbrev pub Arrives : Sha256 → Tx → Bytes → Type 0
Arrives H tx msg =
    (node : NodeState) (fd : ℕ) (rest : Bytes)
    → (line : Bytes) × (read_message (msg ++ rest) ≡ some (line, rest))
      × (handle_message H node fd line
          ≡ returns (record node { mempool = queued node.mempool tx }, []))

message-Arrives :
    (H : Sha256) (tx : Tx)
    → IsClean tx
    → IsOneLine tx
    → Arrives H tx (protocol_serialize_msg msg_new_tx (some (protocol_serialize_tx tx)))
message-Arrives H tx clean lines node fd rest = (
  message msg_new_tx (protocol_serialize_tx tx) (codes "}"),
  read_message-message msg_new_tx (protocol_serialize_tx tx) rest (serialized-IsLine tx clean lines)
      (omega (arith, length-serialized-lt tx clean.sendable)),
  handled H tx clean node fd,
)

-- The transaction is signed by the wallet's key, and says what the user asked for.
pub record IsPayment (E : Ed25519) (wallet : Wallet E) (receiver : Bytes) (amount fee : ℕ) (tx : Tx)
    : Type 0 where
  pub sig : Bytes
  pub signs : E.sign wallet.keypair tx.tx_hash ≡ some sig
  pub signature_is : tx.signature ≡ hex sig
  pub verified : wallet_verify_tx E tx ≡ success
  pub sender_is : tx.sender ≡ wallet.address
  pub receiver_is : tx.receiver ≡ receiver
  pub amount_is : tx.amount ≡ amount
  pub fee_is : tx.fee ≡ fee

module _ (H : Sha256) (E : Ed25519) (wallet : Wallet E) (chain : Blockchain) (mempool : List Tx)
    (receiver : Bytes) (amount fee : ℕ) where
  broadcast-signed :
      (balance : ℤ) {s : Sent} {tx : Tx}
      → chain_get_balance chain wallet.address ≡ returns balance
      → do_send H E wallet chain mempool receiver amount fee ≡ returns s
      → s.broadcast ≡ some tx
      → (sig : Bytes) × (E.sign wallet.keypair
            (unsigned H E wallet chain mempool receiver amount fee).tx_hash
          ≡ some sig)
        × (tx ≡ signed H E wallet chain mempool receiver amount fee sig)
        × IsCreated H wallet.address receiver amount fee tx
  broadcast-signed balance {s} {tx} known runs found =
      elim (do_send-CanPay H E wallet chain mempool receiver amount fee balance known) [
        | inl (_, (sig, signs, done, made, _)) ↦
            let same : s ≡ sent H E wallet chain mempool receiver amount fee sig =
              cc (runs, done) in
            let tx_is : tx ≡ signed H E wallet chain mempool receiver amount fee sig =
              cc (found, same) in
            (sig, signs, tx_is, rw tx_is made)
        | inr (_, done) ↦
            let same : s ≡ nothing H E wallet chain mempool receiver amount fee = cc (runs, done) in
            absurd (cc (found, same))
      ]

  -- When `do_send` broadcasts a transaction, from a wallet whose address is that of its key and for an
  -- order of the declared sizes without quotes, backslashes and newlines: `wallet_verify_tx` accepts it, it
  -- carries the signature of its hash by the wallet's key, it says what the user asked for, and it is sent
  -- to exactly the connected peers, in their order; whatever follows on the socket, a peer reads the
  -- message to its end, and then has the transaction at the end of its mempool, if fewer than 100 wait
  -- there, and answers nothing.
  pub do_send-Arrives :
      (peers : List Peer) (balance : ℤ) {s : Sent} {tx : Tx}
      → (has : HasAddress E wallet) → IsOrder receiver amount fee
      → chain_get_balance chain wallet.address ≡ returns balance
      → do_send H E wallet chain mempool receiver amount fee ≡ returns s
      → s.broadcast ≡ some tx
      → IsPayment E wallet receiver amount fee tx
        × All (λ (s : ℕ × Bytes). Arrives H tx s.1) (node_broadcast_tx peers tx)
        × (map (λ (s : ℕ × Bytes). s.0) (node_broadcast_tx peers tx) ≡ active_fds peers)
  unfolding node_broadcast_tx
  do_send-Arrives peers balance {s} {tx} has order known runs found =
      let (sig, signs, tx_is, made) = broadcast-signed balance known runs found in
      let start = unsigned H E wallet chain mempool receiver amount fee in
      let carries : tx.signature ≡ hex sig = ap (λ (t : Tx). t.signature) tx_is in
      let long = E.length-sign wallet.keypair start.tx_hash sig signs in
      let bytes = E.sign-bytes wallet.keypair start.tx_hash sig signs in
      let (from, to, clean, lines) =
        created_lem H E wallet has receiver amount fee tx sig order made carries long bytes in
      let (all, fds) =
        send_to_peers-All (Arrives H tx) peers _ (message-Arrives H tx clean lines) in
      (
        record {
          sig = sig;
          signs = ap (λ (t : Tx). E.sign wallet.keypair t.tx_hash) tx_is ∙ signs;
          signature_is = carries;
          verified = rw tx_is (
              verify-signed E wallet start sig has (ap (λ (t : Tx). t.sender) (sym tx_is) ∙ from)
                signs);
          sender_is = from;
          receiver_is = to;
          amount_is = made.amount_is;
          fee_is = made.fee_is;
        },
        all,
        fds,
      )
