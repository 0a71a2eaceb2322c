-- ===== src/Protocol/Received.antt =====
-- A block that was printed and read back (src/protocol.c): what it has in common with the block itself.
use mini_coin_slovak.Base.{
  ℕ, zero, suc, ◌≤◌, ◌≡◌, refl, sym, ap, ◌∙◌, subst, List, [], ◌∷◌, ◌++◌, arith, length,
}
use mini_coin_slovak.Base.Int.{pos, pos_part}
use mini_coin_slovak.Block.{Block, zero_block}
use mini_coin_slovak.Block.Text.{IsWellFormed, tx_hashes, header_text, block_hash}
use mini_coin_slovak.Block.Validate.{IsMined}
use mini_coin_slovak.CLib.{Bytes, codes, hex}
use mini_coin_slovak.Json.Fields.{put_fields}
use mini_coin_slovak.Json.Search.{quoted}
use mini_coin_slovak.Protocol.{protocol_serialize_tx}
use mini_coin_slovak.Protocol.Array.{AreCarried, comma, elements}
use mini_coin_slovak.Protocol.BlockBounds.{
  HasBlockSizes, protocol_deserialize_block-HasBlockSizes, HasBlockSizes-IsWellFormed,
}
use mini_coin_slovak.Protocol.NestedBlocks.{IsLinkable}
use mini_coin_slovak.Protocol.PrintedBlocks.{IsPortable, received, block_fields}
use mini_coin_slovak.Protocol.PrintedChains.{whole, deserialized_whole}
use mini_coin_slovak.Protocol.ReadArray.{over}
use mini_coin_slovak.Sha256.{Sha256}
use mini_coin_slovak.Tx.{Tx}

tx_hashes-over :
    (n : ℕ) (txs slots : List Tx)
    → AreCarried n txs
    → n ≤ length slots
    → tx_hashes n (over n txs slots) ≡ tx_hashes n txs
tx_hashes-over zero txs slots h le = refl
tx_hashes-over (suc n) [] slots h le = absurd h
tx_hashes-over (suc n) (tx ∷ txs) [] h le = absurd (omega arith)
tx_hashes-over (suc n) (tx ∷ txs) (b ∷ slots) h le =
    ap (λ s. tx.tx_hash ++ s) (tx_hashes-over n txs slots h.1 (omega arith))

-- A block that is read back has the same hash.
block_hash-received :
    (H : Sha256) (b : Block) → IsPortable b → block_hash H (received b) ≡ block_hash H b
block_hash-received H b h =
    let same : pos_part b.tx_count ≡ h.count = ap pos_part h.tx_count_is in
    ap (λ s. hex (H.digest (header_text b ++ s)))
      (tx_hashes-over (pos_part b.tx_count) b.transactions zero_block.transactions
        (subst (λ n. AreCarried n b.transactions) (sym same) h.carried) (omega (arith, h.count_le)))

pub received-IsMined :
    (H : Sha256) (b : Block) → IsPortable b → IsMined H b → IsMined H (received b)
received-IsMined H b h m = record {
  hash_is = m.hash_is ∙ sym (block_hash-received H b h);
  meets = m.meets;
}

elements-over :
    (n i : ℕ) (txs slots : List Tx) (rest : Bytes)
    → AreCarried n txs
    → n ≤ length slots
    → elements n i (over n txs slots) rest ≡ elements n i txs rest
elements-over zero i txs slots rest h le = refl
elements-over (suc n) i [] slots rest h le = absurd h
elements-over (suc n) i (tx ∷ txs) [] rest h le = absurd (omega arith)
elements-over (suc n) i (tx ∷ txs) (b ∷ slots) rest h le =
    ap (λ s. comma i ++ (protocol_serialize_tx tx ++ s))
      (elements-over n (suc i) txs slots rest h.1 (omega arith))

over-AreCarried :
    (n : ℕ) (txs slots : List Tx)
    → AreCarried n txs
    → n ≤ length slots
    → AreCarried n (over n txs slots)
over-AreCarried zero txs slots h le = tt
over-AreCarried (suc n) [] slots h le = absurd h
over-AreCarried (suc n) (tx ∷ txs) [] h le = absurd (omega arith)
over-AreCarried (suc n) (tx ∷ txs) (b ∷ slots) h le =
    (h.0, over-AreCarried n txs slots h.1 (omega arith))

module _ (b : Block) (h : IsLinkable b) where
  in_use : pos_part b.tx_count ≡ h.portable.count
  in_use = ap pos_part h.portable.tx_count_is

  carried : AreCarried (pos_part b.tx_count) b.transactions
  carried = subst (λ n. AreCarried n b.transactions) (sym in_use) h.portable.carried

  -- It is printed as the same text.
  pub whole-received : whole (received b) ≡ whole b
  whole-received =
      ap
        (λ s.
          put_fields b'{' (block_fields b (pos_part b.timestamp) (pos_part b.tx_count))
            (b',' ∷ quoted (codes "transactions") (b'[' ∷ s)))
        (elements-over (pos_part b.tx_count) 0 b.transactions zero_block.transactions
          (b']' ∷ b'}' ∷ []) carried (omega (arith, in_use, h.portable.count_le)))

  pub received-IsLinkable : IsLinkable (received b)
  received-IsLinkable = record {
    portable = record {
      index_fits = h.portable.index_fits;
      moment = h.portable.moment;
      timestamp_is = h.portable.timestamp_is;
      moment_fits = h.portable.moment_fits;
      prev_fits = h.portable.prev_fits;
      prev_plain = h.portable.prev_plain;
      nonce_fits = h.portable.nonce_fits;
      hash_fits = h.portable.hash_fits;
      hash_plain = h.portable.hash_plain;
      count = pos_part b.tx_count;
      tx_count_is = h.portable.tx_count_is ∙ ap pos (sym in_use);
      count_le = omega (arith, in_use, h.portable.count_le);
      carried =
          over-AreCarried (pos_part b.tx_count) b.transactions zero_block.transactions carried
            (omega (arith, in_use, h.portable.count_le));
    };
    prev_braceless = h.prev_braceless;
    hash_braceless = h.hash_braceless;
  }

  pub received-IsWellFormed : IsWellFormed (received b)
  received-IsWellFormed =
      HasBlockSizes-IsWellFormed (received b)
        (subst (λ r. HasBlockSizes r.1) (deserialized_whole b h)
          (protocol_deserialize_block-HasBlockSizes (whole b)))
        (omega (arith, in_use, h.portable.count_le))
