-- ===== src/Chain/History.antt =====
-- All that can happen to the chain of a node: blocks arrive or are mined, chains arrive from peers,
-- in any order and number, each under the mutex of src/chain.c.
use mini_coin_slovak.Base.{◌≤◌, ◌≡◌, arith}
use mini_coin_slovak.Block.{Block}
use mini_coin_slovak.Block.Text.{IsWellFormed}
use mini_coin_slovak.Chain.{Blockchain, chain_add_block, chain_replace}
use mini_coin_slovak.Chain.Invariant.{IsSound, chain_add_block-IsSound, chain_replace-IsSound}
use mini_coin_slovak.Chain.Valid.{IsStored}
use mini_coin_slovak.Run.{Status, returns}
use mini_coin_slovak.Sha256.{Sha256}

-- One call, whatever it returns.
pub data Step (H : Sha256) : Blockchain → Blockchain → Type 0 where
  adds :
      {c c' : Blockchain} {s : Status} (b : Block)
      → IsWellFormed b
      → chain_add_block H c b ≡ returns (s, c')
      → Step H c c'
  replaces :
      {c c' : Blockchain} {s : Status} (other : Blockchain)
      → IsStored other
      → chain_replace H c other ≡ returns (s, c')
      → Step H c c'

pub data Reach (H : Sha256) (start : Blockchain) : Blockchain → Type 0 where
  here : Reach H start start
  next : {c c' : Blockchain} → Reach H start c → Step H c c' → Reach H start c'

Step-IsSound :
    {H : Sha256} {c c' : Blockchain}
    → Step H c c'
    → IsSound H c
    → IsSound H c' × (c.length ≤ c'.length)
Step-IsSound {H} {c} (adds b wf e) sound = chain_add_block-IsSound H c b sound wf e
Step-IsSound {H} {c} (replaces other st e) sound = chain_replace-IsSound H c other sound st e

-- After any sequence of added blocks and received chains of the declared sizes, accepted or not, a
-- chain that was sound is sound, and is at least as long as it was.
pub Reach-IsSound :
    {H : Sha256} {start c : Blockchain}
    → IsSound H start
    → Reach H start c
    → IsSound H c × (start.length ≤ c.length)
Reach-IsSound sound here = (sound, omega arith)
Reach-IsSound sound (next r step) =
    let (before, longer) = Reach-IsSound sound r in
    let (after, longer') = Step-IsSound step before in (after, omega arith)
