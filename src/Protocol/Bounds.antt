-- ===== src/Protocol/Bounds.antt =====
-- Whatever text comes from the network, what src/protocol.c reads from it fits its arrays.
use mini_coin_slovak.Base.{
  ℕ, ◌+◌, ◌^◌, ◌<◌, ◌≡◌, Option, none, some, [], ◌∷◌, arith, length, subst, Option-cases, inl, inr,
}
use mini_coin_slovak.CLib.{Bytes, codes, strtoull}
use mini_coin_slovak.Json.{json_find_key, json_get_string, json_get_uint64, string_at, read_string}
use mini_coin_slovak.Protocol.{or_else, protocol_deserialize_tx}
use mini_coin_slovak.Tx.{Tx, addr_len, sig_len}

length-read_string-le :
    (s : Bytes) (i size : ℕ) → i < size → i + length (read_string s i size) < size
unfolding read_string
length-read_string-le [] i size h = omega arith
length-read_string-le (c ∷ []) i size h = ground arith
length-read_string-le (c ∷ d ∷ p) i size h =
    ground (arith, length-read_string-le p (i + 1) size, length-read_string-le (d ∷ p) (i + 1) size)

-- A string that is there leaves room for its NUL byte.
abbrev Fits : ℕ → Option Bytes → Type 0
Fits size none = Unit
Fits size (some s) = length s < size

string_at-Fits : (o : Option Bytes) (size : ℕ) → 0 < size → Fits size (string_at o size)
unfolding string_at
string_at-Fits none size h = tt
string_at-Fits (some []) size h = tt
string_at-Fits (some (c ∷ p)) size h = ground (arith, length-read_string-le p 0 size h)

json_get_string-Fits :
    (json key : Bytes) (size : ℕ) → 0 < size → Fits size (json_get_string json key size)
unfolding json_get_string
json_get_string-Fits json key size h = string_at-Fits (json_find_key json key) size h

or_else-Fits : (o : Option Bytes) (size : ℕ) → 0 < size → Fits size o → length (or_else o []) < size
or_else-Fits none size h f = h
or_else-Fits (some s) size h f = f

-- The texts leave room for their NUL bytes, and the numbers have 64 bits.
pub record HasSizes (tx : Tx) : Type 0 where
  pub sender_fits : length tx.sender < addr_len
  pub receiver_fits : length tx.receiver < addr_len
  pub amount_fits : tx.amount < 2 ^ 64
  pub fee_fits : tx.fee < 2 ^ 64
  pub signature_fits : length tx.signature < sig_len
  pub hash_fits : length tx.tx_hash < 65

strtoull-lt : (s : Bytes) → strtoull s < 2 ^ 64
unfolding strtoull
strtoull-lt s = ground arith

-- A number that is there has 64 bits.
abbrev IsWord : Option ℕ → Type 0
IsWord none = Unit
IsWord (some n) = n < 2 ^ 64

json_get_uint64-IsWord : (json key : Bytes) → IsWord (json_get_uint64 json key)
unfolding json_get_uint64
json_get_uint64-IsWord json key = elim (Option-cases (json_find_key json key)) [
  | inl absent ↦ rw (json_get_uint64, absent) tt
  | inr (p, found) ↦ rw (json_get_uint64, found) (strtoull-lt p)
]

or_else-IsWord : (o : Option ℕ) → IsWord o → or_else o 0 < 2 ^ 64
or_else-IsWord none h = omega arith
or_else-IsWord (some n) h = h

module _ (json : Bytes) where
  pub text_fits :
      (key : Bytes) {s : Bytes} {size : ℕ}
      → 0 < size
      → json_get_string json key size ≡ some s
      → length s < size
  text_fits key {s} {size} h e = subst (Fits size) e (json_get_string-Fits json key size h)

  -- Whatever the text is, and also if reading fails, the transaction has the declared sizes.
  pub protocol_deserialize_tx-HasSizes : HasSizes (protocol_deserialize_tx json).1
  unfolding protocol_deserialize_tx
  protocol_deserialize_tx-HasSizes =
      elim (Option-cases (json_get_string json (codes "sender") addr_len)) [
        | inl absent ↦ rw (protocol_deserialize_tx, absent) (omega arith)
        | inr (sender, s) ↦ elim (Option-cases (json_get_string json (codes "receiver") addr_len)) [
          | inl absent ↦
              rw (protocol_deserialize_tx, s, absent)
                (omega (arith, text_fits (codes "sender") (omega arith) s))
          | inr (receiver, r) ↦ elim (Option-cases (json_get_uint64 json (codes "amount"))) [
            | inl absent ↦
                rw (protocol_deserialize_tx, s, r, absent)
                  (omega (
                    arith,
                    text_fits (codes "sender") (omega arith) s,
                    text_fits (codes "receiver") (omega arith) r,
                  ))
            | inr (amount, a) ↦
                rw (protocol_deserialize_tx, s, r, a)
                  (record {
                    sender_fits = text_fits (codes "sender") (omega arith) s;
                    receiver_fits = text_fits (codes "receiver") (omega arith) r;
                    amount_fits = subst IsWord a (json_get_uint64-IsWord json (codes "amount"));
                    fee_fits =
                        or_else-IsWord (json_get_uint64 json (codes "fee"))
                          (json_get_uint64-IsWord json (codes "fee"));
                    signature_fits =
                        or_else-Fits (json_get_string json (codes "signature") sig_len) sig_len
                          (omega arith)
                          (json_get_string-Fits json (codes "signature") sig_len (omega arith));
                    hash_fits =
                        or_else-Fits (json_get_string json (codes "tx_hash") 65) 65 (omega arith)
                          (json_get_string-Fits json (codes "tx_hash") 65 (omega arith));
                  })
          ]
        ]
      ]

pub word_fits : (json key : Bytes) {n : ℕ} → json_get_uint64 json key ≡ some n → n < 2 ^ 64
word_fits json key e = subst IsWord e (json_get_uint64-IsWord json key)
