-- ===== src/System/Start.antt =====
-- The state in which `main` of src/main.c starts its threads, and all that can come of it.
use mini_coin_slovak.Base.{ℕ, ◌≡◌, refl, sym, ap, ◌∙◌, subst, [], ◌∷◌, arith}
use mini_coin_slovak.Block.{Block, zero_block, genesis_start, block_mine, block_create_genesis}
use mini_coin_slovak.Block.Genesis.{genesis, genesis_start-IsWellFormed}
use mini_coin_slovak.Block.Mine.{IsProof, mine_loop-mined}
use mini_coin_slovak.Chain.Add.{live}
use mini_coin_slovak.Chain.{Blockchain, write, chain_init}
use mini_coin_slovak.Ed25519.{Ed25519}
use mini_coin_slovak.Net.Safety.{received-IsStored}
use mini_coin_slovak.Protocol.BlockBounds.{zero_block-HasBlockSizes}
use mini_coin_slovak.Protocol.ChainBounds.{HasChainSizes, write-HasBlockSizes}
use mini_coin_slovak.Run.{returns, >>=-eq-returns, when_returns}
use mini_coin_slovak.Sha256.{Sha256}
use mini_coin_slovak.System.{System, started, Reach}
use mini_coin_slovak.System.Health.{IsHealthy}
use mini_coin_slovak.System.History.{IsRunning, Reach-IsRunning}
use mini_coin_slovak.System.Mining.{IsDraft, block_mine-IsDraft}

genesis_start-IsDraft : IsDraft genesis_start
genesis_start-IsDraft = record {
  sizes = record {
    index_fits = omega arith;
    slots = refl;
    txs_fit = zero_block-HasBlockSizes.txs_fit;
    prev_fits = omega arith;
    nonce_fits = omega arith;
    hash_fits = omega arith;
  };
  count = omega arith;
}

-- The chain of one block.
abbrev first : Block → Blockchain
first b = record { blocks = write (λ i. zero_block) 0 b; length = 1 }

module _ (H : Sha256) where
  genesis-IsDraft : (fuel : ℕ) {b : Block} → block_create_genesis H fuel ≡ returns b → IsDraft b
  unfolding block_create_genesis
  genesis-IsDraft fuel e =
      let ((attempts, b), found, rest) = >>=-eq-returns (block_mine H fuel genesis_start) _ e in
      subst IsDraft (ground arith) (
        when_returns (λ (r : ℕ × Block). IsDraft r.1)
          (block_mine-IsDraft H fuel genesis_start genesis_start-IsDraft) found)

  first-IsHealthy :
      (b : Block) → IsDraft b → IsHealthy H (record { chain = first b; peers = []; mempool = [] })
  first-IsHealthy b d =
      let sizes : HasChainSizes (first b) = record {
        blocks_fit =
            write-HasBlockSizes (λ i. zero_block) 0 b (λ i. zero_block-HasBlockSizes) d.sizes;
        length_fits = omega arith;
      } in
      record {
        sound = record {
          stored = received-IsStored (first b) sizes (λ i h. ground arith) (omega arith);
          valid = λ i lo h. absurd (omega arith);
        };
        sizes = sizes;
        mempool_room = omega arith;
        mempool_fits = tt;
        peers_room = omega arith;
      }

  -- Whenever the program gets to its start, the chain is the mined genesis block alone.
  pub chain_init-genesis :
      (fuel : ℕ) {c : Blockchain}
      → chain_init H fuel ≡ returns c
      → (n : ℕ) × IsProof H genesis_start n × (live c ≡ genesis H n ∷ [])
  unfolding chain_init block_create_genesis block_mine
  chain_init-genesis fuel {c} e =
      let (b, made, rest) = >>=-eq-returns (block_create_genesis H fuel) _ e in
      let same : first b ≡ c = cc in
      let ((attempts, b'), found, done) = >>=-eq-returns (block_mine H fuel genesis_start) _ made in
      let (n, proof, is_mined) =
        when_returns (λ (r : ℕ × Block). (k : ℕ) × IsProof H genesis_start k × (r.1 ≡ genesis H k))
          (mine_loop-mined H genesis_start genesis_start-IsWellFormed fuel 0 0) found in
      let it : b ≡ genesis H n = cc (done, is_mined) in
      (n, proof, ap live (sym same) ∙ ap (λ x. x ∷ []) it)

  pub started-IsRunning :
      (fuel : ℕ) {c : Blockchain} → chain_init H fuel ≡ returns c → IsRunning H (started c)
  unfolding chain_init
  started-IsRunning fuel {c} e =
      let (b, made, rest) = >>=-eq-returns (block_create_genesis H fuel) _ e in
      let same : first b ≡ c = cc in
      subst (λ c. IsRunning H (started c)) same
        (record { healthy = first-IsHealthy b (genesis-IsDraft fuel made); pending = tt })

  -- From the start of the program, after any sequence of messages, connections, payments, mined blocks and
  -- closed connections, in which no block from the network claims more than ten transactions, the node is
  -- healthy: its chain is stored and valid, the mempool and the table of peers are within their arrays,
  -- all texts and numbers have the declared sizes, and so has the block that is being mined.
  pub Reach-started :
      (E : Ed25519) (fuel : ℕ) {c : Blockchain} {s : System}
      → chain_init H fuel ≡ returns c
      → Reach H E (started c) s
      → IsRunning H s
  Reach-started E fuel e r = (Reach-IsRunning H E (started-IsRunning fuel e) r).0
