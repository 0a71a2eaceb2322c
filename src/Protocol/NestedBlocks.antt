-- ===== src/Protocol/NestedBlocks.antt =====
-- Printed blocks inside of a printed chain: where each of them ends (the loop over the blocks in
-- `protocol_deserialize_chain` of src/protocol.c).
use mini_coin_slovak.Base.{
  ℕ, zero, suc, ◌≡◌, refl, sym, ap, subst, ◌∙◌, List, [], ◌∷◌, ◌++◌, arith, All, drop, append_assoc,
}
use mini_coin_slovak.Block.{Block}
use mini_coin_slovak.CLib.{Bytes, codes}
use mini_coin_slovak.Json.{scan_object}
use mini_coin_slovak.Json.Avoid.{fields-Avoids}
use mini_coin_slovak.Json.Braces.{
  is_brace, is_brace-IsHarmless, HasNoBraces, IsBraceless, inside, put_fields-append,
}
use mini_coin_slovak.Json.Fields.{Value, text, number}
use mini_coin_slovak.Json.Nested.{
  Passes, HasNoBraces-Passes, Passes-append, braced, braced-Passes, scan_object-braced,
}
use mini_coin_slovak.Protocol.{protocol_serialize_tx}
use mini_coin_slovak.Protocol.Array.{IsCarried, AreCarried, comma, elements, elements-append}
use mini_coin_slovak.Protocol.PrintedBlocks.{IsPortable, block_fields, printed, tail_of}
use mini_coin_slovak.Protocol.ReadArray.{tx_fields-IsBraceless}
use mini_coin_slovak.Protocol.Txs.{tx_fields, serialized-fields}
use mini_coin_slovak.Tx.{Tx}

-- The fields of an object, behind its opening brace.
inside-Passes :
    (k : Bytes) (v : Value) (fs : List (Bytes × Value))
    → All IsBraceless ((k, v) ∷ fs)
    → Passes (inside k v fs)
inside-Passes k v fs h =
    HasNoBraces-Passes (inside k v fs)
      (fields-Avoids is_brace is_brace-IsHarmless b',' ((k, v) ∷ fs) [] refl h tt).1

serialized-Passes : (tx : Tx) → IsCarried tx → Passes (protocol_serialize_tx tx)
serialized-Passes tx h =
    let object = inside (codes "sender") (text tx.sender) (drop 1 (tx_fields tx)) in
    subst Passes
      (sym (serialized-fields tx h.sendable ∙ put_fields-append b'{' (tx_fields tx) (b'}' ∷ [])))
      (braced-Passes object (
        inside-Passes (codes "sender") (text tx.sender) (drop 1 (tx_fields tx))
          (tx_fields-IsBraceless tx h)))

comma-Passes : (i : ℕ) → Passes (comma i)
comma-Passes zero = HasNoBraces-Passes [] tt
comma-Passes (suc i) = HasNoBraces-Passes (comma (suc i)) (ground arith)

elements-Passes : (n i : ℕ) (txs : List Tx) → AreCarried n txs → Passes (elements n i txs [])
elements-Passes zero i txs h = HasNoBraces-Passes [] tt
elements-Passes (suc n) i [] h = absurd h
elements-Passes (suc n) i (tx ∷ txs) (ok, h) =
    let later = elements n (suc i) txs [] in
    Passes-append (comma i) (protocol_serialize_tx tx ++ later) (comma-Passes i) (
      Passes-append (protocol_serialize_tx tx) later (serialized-Passes tx ok)
        (elements-Passes n (suc i) txs h))

-- A block that can stand in a chain: no hash of it has braces.
pub record IsLinkable (b : Block) : Type 0 where
  pub portable : IsPortable b
  pub prev_braceless : HasNoBraces b.prev_hash
  pub hash_braceless : HasNoBraces b.hash

module _ (b : Block) (moment count : ℕ) where
  abbrev pub fields_text : Bytes
  fields_text = inside (codes "index") (number b.index) (drop 1 (block_fields b moment count))

  abbrev pub array_text : Bytes
  array_text = codes ",\"transactions\":[" ++ (elements count 0 b.transactions [] ++ (b']' ∷ []))

  abbrev pub inner_text : Bytes
  inner_text = fields_text ++ array_text

  tail-array : tail_of b count ≡ array_text ++ (b'}' ∷ [])
  tail-array =
      ap (λ s. codes ",\"transactions\":[" ++ s)
        (sym (elements-append count 0 b.transactions (b']' ∷ []) (b'}' ∷ [])))
      ∙ ap (λ s. codes ",\"transactions\":[" ++ (s ++ (b'}' ∷ [])))
          (sym (elements-append count 0 b.transactions [] (b']' ∷ [])))

  pub printed-braced : printed b moment count ≡ braced inner_text
  printed-braced =
      put_fields-append b'{' (block_fields b moment count) (tail_of b count)
      ∙ ap (λ s. (b'{' ∷ fields_text) ++ s) tail-array
      ∙ ap (◌∷◌ b'{') (sym (append_assoc fields_text array_text (b'}' ∷ [])))

  inner-Passes :
      AreCarried count b.transactions
      → HasNoBraces b.prev_hash
      → HasNoBraces b.hash
      → Passes inner_text
  inner-Passes carried prev hash =
      Passes-append fields_text array_text
        (inside-Passes (codes "index") (number b.index) (drop 1 (block_fields b moment count))
          (search, (search, ((search, prev), (search, ((search, hash), (search, tt)))))))
        (Passes-append (codes ",\"transactions\":[")
          (elements count 0 b.transactions [] ++ (b']' ∷ []))
          (HasNoBraces-Passes (codes ",\"transactions\":[") search)
          (Passes-append (elements count 0 b.transactions []) (b']' ∷ [])
            (elements-Passes count 0 b.transactions carried)
            (HasNoBraces-Passes (b']' ∷ []) (refl, tt))))

  -- The scan for the end of the block finds it.
  pub scan_object-block :
      (r : Bytes)
      → AreCarried count b.transactions
      → HasNoBraces b.prev_hash
      → HasNoBraces b.hash
      → scan_object (printed b moment count ++ r) 0 ≡ (printed b moment count, r)
  scan_object-block r carried prev hash =
      ap (λ s. scan_object (s ++ r) 0) printed-braced
      ∙ scan_object-braced inner_text (inner-Passes carried prev hash) r
      ∙ ap (λ s. (s, r)) (sym printed-braced)
