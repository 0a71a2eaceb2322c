-- ===== src/System/Health.antt =====
-- A healthy node: what every operation of src/net.c and src/main.c keeps.
use mini_coin_slovak.Base.{
  ℕ, ◌≤◌, ◌≡◌, refl, List, [], ◌∷◌, ◌++◌, arith, length, length-append, ltb, ltb_iff, All,
  Bool-cases, inl, inr,
}
use mini_coin_slovak.Block.{Block}
use mini_coin_slovak.Chain.{Blockchain, max_blocks, copy, chain_add_block, chain_replace}
use mini_coin_slovak.Chain.Add.{extend, chain_add_block-Accepts}
use mini_coin_slovak.Chain.Invariant.{IsSound, chain_replace-refuses}
use mini_coin_slovak.Chain.Replace.{replaced, chain_replace-Wins}
use mini_coin_slovak.CLib.{Bytes}
use mini_coin_slovak.Net.{Peer, NodeState, Sends, max_peers, handle_message}
use mini_coin_slovak.Net.Outcome.{
  Outcome, nothing, transaction, block, chain, HasCount, HaveCounts, IsCounted,
  handle_message-Outcome,
}
use mini_coin_slovak.Net.Safety.{ℕ-cases, received-IsStored, Outcome-IsKept}
use mini_coin_slovak.Net.Total.{handle_message-Returns}
use mini_coin_slovak.Node.{mempool_size, on_new_tx}
use mini_coin_slovak.Protocol.Bounds.{HasSizes}
use mini_coin_slovak.Protocol.BlockBounds.{HasBlockSizes, HasBlockSizes-IsWellFormed}
use mini_coin_slovak.Protocol.ChainBounds.{HasChainSizes, write-HasBlockSizes}
use mini_coin_slovak.Run.{returns, Status}
use mini_coin_slovak.Sha256.{Sha256}
use mini_coin_slovak.Tx.{Tx}

-- The chain is sound, the mempool and the table of peers are within their arrays, and all texts and
-- numbers have the declared sizes.
pub record IsHealthy (H : Sha256) (node : NodeState) : Type 0 where
  pub sound : IsSound H node.chain
  pub sizes : HasChainSizes node.chain
  pub mempool_room : length node.mempool ≤ mempool_size
  pub mempool_fits : All HasSizes node.mempool
  pub peers_room : length node.peers ≤ max_peers

All-last {ℓ κ} :
    {A : Type ℓ} (P : A → Type κ) (xs : List A) (a : A) → All P xs → P a → All P (xs ++ (a ∷ []))
All-last P [] a h p = (p, tt)
All-last P (x ∷ xs) a h p = (h.0, All-last P xs a h.1 p)

-- The mempool after `on_new_tx`.
pub on_new_tx-fits :
    (mempool : List Tx) (tx : Tx)
    → length mempool ≤ mempool_size
    → All HasSizes mempool
    → HasSizes tx
    → (length (on_new_tx mempool tx) ≤ mempool_size) × All HasSizes (on_new_tx mempool tx)
unfolding on_new_tx
on_new_tx-fits mempool tx room fits sizes = elim (Bool-cases (ltb (length mempool) mempool_size)) [
  | inl free ↦
      rw (on_new_tx, free)
        (
          omega (
            arith,
            length-append mempool (tx ∷ []),
            (ltb_iff (length mempool) mempool_size).0 free,
          ),
          All-last HasSizes mempool tx fits sizes,
        )
  | inr full ↦ rw (on_new_tx, full) (room, fits)
]

module _ (H : Sha256) (c : Blockchain) (sound : IsSound H c) (sizes : HasChainSizes c) where
  pub chain_add_block-HasChainSizes :
      (b : Block) {s : Status} {c' : Blockchain}
      → HasBlockSizes b
      → HasCount b
      → chain_add_block H c b ≡ returns (s, c')
      → HasChainSizes c'
  unfolding max_blocks
  chain_add_block-HasChainSizes b {s} {c'} fits count e =
      elim (chain_add_block-Accepts H c b sound.stored (HasBlockSizes-IsWellFormed b fits count)) [
        | inl (accepts, added, _) ↦
            let grown : extend c b ≡ c' = cc (e, added) in
            rw (← grown) (record {
              blocks_fit = write-HasBlockSizes c.blocks c.length b sizes.blocks_fit fits;
              length_fits = omega (arith, accepts.room);
            })
        | inr (_, refused) ↦ let same : c ≡ c' = cc (e, refused) in rw (← same) sizes
      ]

  copy-HasBlockSizes :
      (other : Blockchain)
      → HasChainSizes other
      → (i : ℕ) → HasBlockSizes (copy other.length other.blocks c.blocks i)
  copy-HasBlockSizes other fits i = elim (Bool-cases (ltb i other.length)) [
    | inl below ↦ rw below (fits.blocks_fit i)
    | inr above ↦ rw above (sizes.blocks_fit i)
  ]

  pub chain_replace-HasChainSizes :
      (other : Blockchain) {s : Status} {c' : Blockchain}
      → HasChainSizes other
      → HaveCounts other
      → chain_replace H c other ≡ returns (s, c')
      → HasChainSizes c'
  chain_replace-HasChainSizes other {s} {c'} fits counts e = elim (ℕ-cases other.length) [
    | inl empty ↦
        let same : c ≡ c' =
          cc (e, chain_replace-refuses H c other (omega (arith, sound.stored.ne_empty))) in
        rw (← same) sizes
    | inr some_block ↦
        elim (chain_replace-Wins H c other (received-IsStored other fits counts some_block)) [
          | inl (_, taken, _) ↦
              let won : replaced c other ≡ c' = cc (e, taken) in
              rw (← won) (record {
                blocks_fit = copy-HasBlockSizes other fits;
                length_fits = fits.length_fits;
              })
          | inr (_, refused) ↦ let same : c ≡ c' = cc (e, refused) in rw (← same) sizes
        ]
  ]

same_peers : {H : Sha256} {node node' : NodeState} → Outcome H node node' → node'.peers ≡ node.peers
same_peers nothing = refl
same_peers (transaction tx sizes) = refl
same_peers (block b fits count e) = refl
same_peers (chain other fits counts e) = refl

module _ (H : Sha256) (node : NodeState) (healthy : IsHealthy H node) where
  -- With another chain that is sound and has the declared sizes.
  with_chain :
      (c : Blockchain) → IsSound H c → HasChainSizes c → IsHealthy H (record node { chain = c })
  with_chain c sound sizes = record {
    sound = sound;
    sizes = sizes;
    mempool_room = healthy.mempool_room;
    mempool_fits = healthy.mempool_fits;
    peers_room = healthy.peers_room;
  }

  pub with_mempool :
      (mempool : List Tx)
      → length mempool ≤ mempool_size
      → All HasSizes mempool
      → IsHealthy H (record node { mempool = mempool })
  with_mempool mempool room fits = record {
    sound = healthy.sound;
    sizes = healthy.sizes;
    mempool_room = room;
    mempool_fits = fits;
    peers_room = healthy.peers_room;
  }

  pub with_peers :
      (peers : List Peer) → length peers ≤ max_peers → IsHealthy H (record node { peers = peers })
  with_peers peers room = record {
    sound = healthy.sound;
    sizes = healthy.sizes;
    mempool_room = healthy.mempool_room;
    mempool_fits = healthy.mempool_fits;
    peers_room = room;
  }

  pub add_block-IsHealthy :
      (b : Block) {s : Status} {c : Blockchain}
      → HasBlockSizes b
      → HasCount b
      → chain_add_block H node.chain b ≡ returns (s, c)
      → IsHealthy H (record node { chain = c })
  add_block-IsHealthy b {s} {c} fits count e =
      with_chain c (Outcome-IsKept H node healthy.sound (block b fits count e)).0
        (chain_add_block-HasChainSizes H node.chain healthy.sound healthy.sizes b fits count e)

  pub Outcome-IsHealthy : {node' : NodeState} → Outcome H node node' → IsHealthy H node'
  Outcome-IsHealthy nothing = healthy
  Outcome-IsHealthy (transaction tx sizes) =
      let (room, fits) =
        on_new_tx-fits node.mempool tx healthy.mempool_room healthy.mempool_fits sizes in
      with_mempool (on_new_tx node.mempool tx) room fits
  Outcome-IsHealthy (block b fits count e) = add_block-IsHealthy b fits count e
  Outcome-IsHealthy (chain other {s} {c} fits counts e) =
      with_chain c (Outcome-IsKept H node healthy.sound (chain other fits counts e)).0
        (chain_replace-HasChainSizes H node.chain healthy.sound healthy.sizes other fits counts e)

  -- Whatever bytes a peer sends to a healthy node, if no block among them claims more than ten
  -- transactions, `handle_message` returns, without undefined behaviour; the node is healthy again, its
  -- chain is not shorter, and its table of peers is the same.
  pub handle_message-IsHealthy :
      (fd : ℕ) (raw : Bytes)
      → IsCounted raw
      → (node' : NodeState) × (sends : Sends) × (handle_message H node fd raw
          ≡ returns (node', sends))
        × IsHealthy H node'
        × (node.chain.length ≤ node'.chain.length)
        × (node'.peers ≡ node.peers)
  handle_message-IsHealthy fd raw counts =
      let ((node', sends), e) =
        handle_message-Returns H node healthy.sound healthy.sizes fd raw counts in
      let out = handle_message-Outcome H node fd raw counts e in
      (
        node',
        sends,
        e,
        Outcome-IsHealthy out,
        (Outcome-IsKept H node healthy.sound out).1,
        same_peers out,
      )
