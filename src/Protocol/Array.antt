-- ===== src/Protocol/Array.antt =====
-- The transactions of a block, printed as a JSON array (the loop of `protocol_serialize_block` of
-- src/protocol.c).
use mini_coin_slovak.Base.{
  ℕ, zero, suc, ◌+◌, ◌*◌, ◌<◌, ◌≤◌, ◌≡◌, refl, sym, ap, ◌∙◌, some, List, [], ◌∷◌, ◌++◌, arith,
  length, append_assoc, append-nil, length-append, get_elem?, drop, ltb, if◌then◌else◌,
}
use mini_coin_slovak.CLib.{Bytes, Buffer, snprintf_fits, codes}
use mini_coin_slovak.Json.Braces.{HasNoBraces}
use mini_coin_slovak.Protocol.{protocol_serialize_tx, txs_json, print_at}
use mini_coin_slovak.Protocol.Txs.{IsSendable, length-serialized-lt}
use mini_coin_slovak.Run.{returns}
use mini_coin_slovak.Tx.{Tx}

-- A transaction that can stand in a block: no text of it has braces.
pub record IsCarried (tx : Tx) : Type 0 where
  pub sendable : IsSendable tx
  pub sender_braceless : HasNoBraces tx.sender
  pub receiver_braceless : HasNoBraces tx.receiver
  pub signature_braceless : HasNoBraces tx.signature
  pub hash_braceless : HasNoBraces tx.tx_hash

-- The first `n` slots are there and can be carried.
abbrev pub AreCarried : ℕ → List Tx → Type 0
AreCarried zero txs = Unit
AreCarried (suc n) [] = ⊥
AreCarried (suc n) (tx ∷ txs) = IsCarried tx × AreCarried n txs

abbrev pub comma : ℕ → Bytes
comma i = if ltb 0 i then b',' ∷ [] else []

-- The elements from the slot `i` on, in front of `rest`.
abbrev pub elements : ℕ → ℕ → List Tx → Bytes → Bytes
elements zero i txs rest = rest
elements (suc n) i [] rest = rest
elements (suc n) i (tx ∷ txs) rest =
    comma i ++ (protocol_serialize_tx tx ++ elements n (suc i) txs rest)

pub print_at_fits :
    (size : ℕ) (b : Buffer) (s : Bytes)
    → length b.text ≡ b.offset
    → b.offset + length s < size
    → print_at size b s ≡ returns (record { text = b.text ++ s; offset = b.offset + length s })
print_at_fits size b s e fits = ground (arith, snprintf_fits size b s e fits)

drop_elem :
    (all : List Tx) (i : ℕ) (tx : Tx) (txs : List Tx)
    → drop i all ≡ tx ∷ txs
    → (get_elem? all i ≡ some tx) × (drop (suc i) all ≡ txs)
drop_elem [] zero tx txs h = cc
drop_elem [] (suc i) tx txs h = cc
drop_elem (x ∷ all) zero tx txs h = (cc, cc)
drop_elem (x ∷ all) (suc i) tx txs h = drop_elem all i tx txs h

-- The buffer with a text behind what stands in it.
abbrev pub followed : Buffer → Bytes → Buffer
followed b s = record { text = b.text ++ s; offset = b.offset + length s }

pub comma_fits :
    (size i : ℕ) (b : Buffer)
    → length b.text ≡ b.offset
    → b.offset + 1 < size
    → (if ltb 0 i then print_at size b (codes ",") else returns b) ≡ returns (followed b (comma i))
comma_fits size zero b e fits = ground (arith, append-nil b.text)
comma_fits size (suc i) b e fits = ground (arith, print_at_fits size b (b',' ∷ []) e fits)

pub length-comma-le : (i : ℕ) → length (comma i) ≤ 1
length-comma-le zero = omega arith
length-comma-le (suc i) = ground arith

abbrev pub buffer : Bytes → ℕ → Buffer
buffer s i = record { text = s; offset = i }

pub same_buffer : {s t : Bytes} {i j : ℕ} → s ≡ t → i ≡ j → buffer s i ≡ buffer t j
same_buffer e f = cc

pub followed_twice : (b : Buffer) (s t : Bytes) → followed (followed b s) t ≡ followed b (s ++ t)
followed_twice b s t = same_buffer (append_assoc b.text s t) (omega (arith, length-append s t))

txs_json_step :
    (n i : ℕ) (all : List Tx) (tx : Tx) (b : Buffer)
    → get_elem? all i ≡ some tx
    → IsSendable tx
    → length b.text ≡ b.offset
    → b.offset + 601 < 8192
    → txs_json (suc n) i all b
      ≡ txs_json n (suc i) all (followed b (comma i ++ protocol_serialize_tx tx))
unfolding txs_json
txs_json_step n i all tx b found h e fits =
    let short = length-serialized-lt tx h in
    rw
      (
        txs_json,
        found,
        comma_fits 8192 i b e (omega arith),
        print_at_fits 8192 (followed b (comma i)) (protocol_serialize_tx tx)
            (omega (arith, length-append b.text (comma i))) (omega (arith, length-comma-le i)),
        followed_twice b (comma i) (protocol_serialize_tx tx),
      )
      refl

txs_json_zero : (i : ℕ) (all : List Tx) (b : Buffer) → txs_json 0 i all b ≡ returns b
unfolding txs_json
txs_json_zero i all b = refl

pub txs_json_lem :
    (n i : ℕ) (all txs : List Tx) (b : Buffer)
    → drop i all ≡ txs
    → AreCarried n txs
    → length b.text ≡ b.offset
    → b.offset + 601 * n < 8192
    → txs_json n i all b ≡ returns (followed b (elements n i txs []))
txs_json_lem zero i all txs b h carried e fits =
    txs_json_zero i all b ∙ ap returns (same_buffer (sym (append-nil b.text)) (omega arith))
txs_json_lem (suc n) i all [] b h carried e fits = absurd carried
txs_json_lem (suc n) i all (tx ∷ txs) b h (ok, carried) e fits =
    let (found, h') = drop_elem all i tx txs h in
    let s = comma i ++ protocol_serialize_tx tx in
    let short = length-serialized-lt tx ok.sendable in
    txs_json_step n i all tx b found ok.sendable e (omega arith)
    ∙ txs_json_lem n (suc i) all txs (followed b s) h' carried
        (omega (arith, length-append b.text s))
        (omega (arith, length-append (comma i) (protocol_serialize_tx tx), length-comma-le i))
    ∙ ap returns (followed_twice b s (elements n (suc i) txs []))
    ∙ ap (λ t. returns (followed b t))
        (append_assoc (comma i) (protocol_serialize_tx tx) (elements n (suc i) txs []))

pub elements-append :
    (n i : ℕ) (txs : List Tx) (s t : Bytes) → elements n i txs s ++ t ≡ elements n i txs (s ++ t)
elements-append zero i txs s t = refl
elements-append (suc n) i [] s t = refl
elements-append (suc n) i (tx ∷ txs) s t =
    append_assoc (comma i) (protocol_serialize_tx tx ++ elements n (suc i) txs s) t
    ∙ ap (λ r. comma i ++ r)
        (append_assoc (protocol_serialize_tx tx) (elements n (suc i) txs s) t
          ∙ ap (λ r. protocol_serialize_tx tx ++ r) (elements-append n (suc i) txs s t))

pub length-elements-le :
    (n i : ℕ) (txs : List Tx) (s : Bytes)
    → AreCarried n txs
    → length (elements n i txs s) ≤ 601 * n + length s
length-elements-le zero i txs s h = omega arith
length-elements-le (suc n) i [] s h = absurd h
length-elements-le (suc n) i (tx ∷ txs) s (ok, h) = omega (
  arith,
  length-append (comma i) (protocol_serialize_tx tx ++ elements n (suc i) txs s),
  length-append (protocol_serialize_tx tx) (elements n (suc i) txs s),
  length-comma-le i,
  length-serialized-lt tx ok.sendable,
  length-elements-le n (suc i) txs s h,
)
