-- ===== src/Protocol/NestedPayloads.antt =====
-- Blocks and chains as payloads of messages (`protocol_parse_msg` of src/protocol.c): where they end.
use mini_coin_slovak.Base.{
  ℕ, zero, suc, ◌+◌, ◌<◌, ◌≡◌, refl, sym, ap, subst, ◌∙◌, List, [], ◌∷◌, ◌++◌, arith, drop,
  append_assoc,
}
use mini_coin_slovak.Base.Int.{pos_part}
use mini_coin_slovak.Block.{Block}
use mini_coin_slovak.Chain.{Blockchain}
use mini_coin_slovak.CLib.{Bytes, codes, decimal}
use mini_coin_slovak.Json.{skip_blanks}
use mini_coin_slovak.Json.Braces.{put_fields-append, inside}
use mini_coin_slovak.Json.Fields.{text, number}
use mini_coin_slovak.Json.Nested.{braced}
use mini_coin_slovak.Json.Search.{quoted}
use mini_coin_slovak.Protocol.{protocol_serialize_tx}
use mini_coin_slovak.Protocol.Array.{comma, elements}
use mini_coin_slovak.Protocol.Messages.{IsPayload, IsClean, tx_fields-IsPlainField}
use mini_coin_slovak.Protocol.NestedBlocks.{
  IsLinkable, fields_text, array_text, inner_text, printed-braced,
}
use mini_coin_slovak.Protocol.Nesting.{
  Glides, Glides-nil, Glides-append, quiet-Glides, enclosed-Glides, quoted-Glides, fields-Glides,
  scan_payload-braced,
}
use mini_coin_slovak.Protocol.Payload.{IsPlainText}
use mini_coin_slovak.Protocol.PrintedBlocks.{block_fields}
use mini_coin_slovak.Protocol.PrintedChains.{whole, same_text, chunks, chunks-append, printed_chain}
use mini_coin_slovak.Protocol.Txs.{tx_fields, serialized-fields}
use mini_coin_slovak.Tx.{Tx}

serialized-Glides : (tx : Tx) → IsClean tx → Glides (protocol_serialize_tx tx)
serialized-Glides tx h =
    let later = drop 1 (tx_fields tx) in
    subst Glides
      (sym (serialized-fields tx h.sendable ∙ put_fields-append b'{' (tx_fields tx) (b'}' ∷ [])))
      (enclosed-Glides b'{' b'}' (inside (codes "sender") (text tx.sender) later) refl refl (
        fields-Glides (codes "sender") (text tx.sender) later [] (tx_fields-IsPlainField tx h)
          Glides-nil))

comma-Glides : (i : ℕ) → Glides (comma i)
comma-Glides zero = Glides-nil
comma-Glides (suc i) = quiet-Glides (comma (suc i)) (ground arith)

-- The first `n` transactions have neither quotes nor backslashes.
abbrev pub AreClean : ℕ → List Tx → Type 0
AreClean zero txs = Unit
AreClean (suc n) [] = ⊥
AreClean (suc n) (tx ∷ txs) = IsClean tx × AreClean n txs

elements-Glides : (n i : ℕ) (txs : List Tx) → AreClean n txs → Glides (elements n i txs [])
elements-Glides zero i txs h = Glides-nil
elements-Glides (suc n) i [] h = absurd h
elements-Glides (suc n) i (tx ∷ txs) (clean, h) =
    let later = elements n (suc i) txs [] in
    Glides-append (comma i) (protocol_serialize_tx tx ++ later) (comma-Glides i) (
      Glides-append (protocol_serialize_tx tx) later (serialized-Glides tx clean)
        (elements-Glides n (suc i) txs h))

-- An array behind a key and other fields.
array-Glides :
    (key s : Bytes)
    → IsPlainText key
    → Glides s
    → Glides (b',' ∷ quoted key (b'[' ∷ (s ++ (b']' ∷ []))))
array-Glides key s hk h =
    let array = b'[' ∷ (s ++ (b']' ∷ [])) in
    Glides-append (b',' ∷ []) (quoted key array) (quiet-Glides (b',' ∷ []) (refl, tt))
      (quoted-Glides key array hk (enclosed-Glides b'[' b']' s refl refl h))

-- A block that can be sent: it can stand in a chain, and no text of its transactions has quotes or
-- backslashes.
pub record IsBroadcastable (b : Block) : Type 0 where
  pub linkable : IsLinkable b
  pub clean : AreClean (pos_part b.tx_count) b.transactions

module _ (b : Block) (h : IsBroadcastable b) where
  abbrev moment : ℕ
  moment = h.linkable.portable.moment

  abbrev count : ℕ
  count = h.linkable.portable.count

  inner-Glides : Glides (inner_text b moment count)
  inner-Glides =
      let later = drop 1 (block_fields b moment count) in
      Glides-append (fields_text b moment count) (array_text b moment count)
        (fields-Glides (codes "index") (number b.index) later []
          (
            (search, tt),
            (
              (search, tt),
              (
                (search, h.linkable.portable.prev_plain),
                ((search, tt), ((search, h.linkable.portable.hash_plain), ((search, tt), tt))),
              ),
            ),
          )
          Glides-nil)
        (array-Glides (codes "transactions") (elements count 0 b.transactions []) (search) (
          elements-Glides count 0 b.transactions (
            subst (λ n. AreClean n b.transactions) (ap pos_part h.linkable.portable.tx_count_is)
              h.clean)))

  whole-braced : whole b ≡ braced (inner_text b moment count)
  whole-braced = sym (same_text b h.linkable) ∙ printed-braced b moment count

  whole-Glides : Glides (whole b)
  whole-Glides =
      subst Glides (sym whole-braced)
        (enclosed-Glides b'{' b'}' (inner_text b moment count) refl refl inner-Glides)

-- Text between braces begins with no blank, and ends where the scan does.
pub braced-IsPayload : (s : Bytes) → Glides s → IsPayload (braced s)
unfolding skip_blanks
braced-IsPayload s h = record { solid = λ r. refl; ends = λ r. scan_payload-braced s r h }

pub block-IsPayload : (b : Block) → IsBroadcastable b → IsPayload (whole b)
block-IsPayload b h =
    subst IsPayload (sym (whole-braced b h))
      (braced-IsPayload (inner_text b (moment b h) (count b h)) (inner-Glides b h))

chunks-Glides :
    (n i : ℕ) (blocks : ℕ → Block)
    → ((j : ℕ) → j < i + n → IsBroadcastable (blocks j))
    → Glides (chunks n i blocks [])
chunks-Glides zero i blocks h = Glides-nil
chunks-Glides (suc n) i blocks h =
    let later = chunks n (suc i) blocks [] in
    Glides-append (comma i) (whole (blocks i) ++ later) (comma-Glides i) (
      Glides-append (whole (blocks i)) later (whole-Glides (blocks i) (h i (omega arith)))
        (chunks-Glides n (suc i) blocks (λ j lt. h j (omega arith))))

module _ (c : Blockchain) where
  abbrev array : Bytes
  array = b',' ∷ quoted (codes "blocks") (b'[' ∷ (chunks c.length 0 c.blocks [] ++ (b']' ∷ [])))

  abbrev chain_text : Bytes
  chain_text = quoted (codes "length") (decimal c.length ++ array)

  printed_chain-braced : printed_chain c ≡ braced chain_text
  printed_chain-braced =
      ap
        (λ s.
          b'{'
          ∷ quoted (codes "length")
              (decimal c.length ++ (b',' ∷ quoted (codes "blocks") (b'[' ∷ s))))
        (sym (chunks-append c.length 0 c.blocks [] (codes "]}"))
          ∙ sym (append_assoc (chunks c.length 0 c.blocks []) (b']' ∷ []) (b'}' ∷ [])))
      ∙ ap (λ s. b'{' ∷ quoted (codes "length") s)
          (sym (append_assoc (decimal c.length) array (b'}' ∷ [])))

  pub chain-IsPayload :
      ((j : ℕ) → j < c.length → IsBroadcastable (c.blocks j)) → IsPayload (printed_chain c)
  chain-IsPayload h = subst IsPayload (sym printed_chain-braced) (
      braced-IsPayload chain_text (
        fields-Glides (codes "length") (number c.length) [] array ((search, tt), tt)
          (array-Glides (codes "blocks") (chunks c.length 0 c.blocks []) (search)
            (chunks-Glides c.length 0 c.blocks (λ j lt. h j (omega arith))))))
