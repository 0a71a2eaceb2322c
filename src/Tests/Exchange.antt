-- ===== src/Tests/Exchange.antt =====
-- Two nodes, with chains of one and of two blocks, exchange the longer one.
use mini_coin_slovak.Base.{ℕ, zero, suc, ◌<◌, ◌≡◌, refl, none, [], ◌∷◌, ◌++◌, arith, map, All}
use mini_coin_slovak.Chain.{Blockchain, max_blocks}
use mini_coin_slovak.Chain.Add.{live, Accepts}
use mini_coin_slovak.Chain.Invariant.{IsSound}
use mini_coin_slovak.CLib.{Bytes, decimal, decimal_ℤ, digits, hex}
use mini_coin_slovak.Net.{NodeState, Sends, handle_message, node_broadcast_block}
use mini_coin_slovak.Net.Blocks.{Spreads, node_broadcast_block-Spreads}
use mini_coin_slovak.Net.Exchange.{handle_message-exchanges}
use mini_coin_slovak.Message.{msg_request_chain, protocol_serialize_msg}
use mini_coin_slovak.Protocol.Array.{IsCarried}
use mini_coin_slovak.Protocol.Messages.{IsClean}
use mini_coin_slovak.Protocol.NestedPayloads.{IsBroadcastable}
use mini_coin_slovak.Protocol.PrintedBlocks.{IsPortable, received}
use mini_coin_slovak.Run.{returns}
use mini_coin_slovak.Tests.Blocks.{payment, second}
use mini_coin_slovak.Tests.Chains.{
  first_chain, second_chain, first_chain-IsSound, second_chain-IsSound,
}
use mini_coin_slovak.Tests.Peers.{peers}
use mini_coin_slovak.Tests.Digests.{sum_sha256}

abbrev asked : NodeState
asked = record { chain = second_chain; peers = []; mempool = [] }

abbrev asking : NodeState
asking = record { chain = first_chain; peers = []; mempool = [] }

genesis-IsPortable : IsPortable (second_chain.blocks 0)
unfolding hex decimal decimal_ℤ digits
genesis-IsPortable = record {
  index_fits = omega arith;
  moment = 1231006505;
  timestamp_is = refl;
  moment_fits = omega arith;
  prev_fits = omega arith;
  prev_plain = search;
  nonce_fits = omega arith;
  hash_fits = omega arith;
  hash_plain = search;
  count = 0;
  tx_count_is = refl;
  count_le = omega arith;
  carried = tt;
}

paid-IsClean : IsClean (payment 5)
paid-IsClean = record {
  sendable = record {
    sender_fits = omega arith;
    receiver_fits = omega arith;
    amount_fits = omega arith;
    fee_fits = omega arith;
    signature_fits = omega arith;
    hash_fits = omega arith;
    signature_plain = search;
    hash_plain = search;
  };
  sender_plain = search;
  receiver_plain = search;
}

paid-IsCarried : IsCarried (payment 5)
paid-IsCarried = record {
  sendable = paid-IsClean.sendable;
  sender_braceless = search;
  receiver_braceless = search;
  signature_braceless = search;
  hash_braceless = search;
}

second-IsPortable : IsPortable (second_chain.blocks 1)
unfolding hex decimal decimal_ℤ digits
second-IsPortable = record {
  index_fits = omega arith;
  moment = 170000006;
  timestamp_is = refl;
  moment_fits = omega arith;
  prev_fits = omega arith;
  prev_plain = search;
  nonce_fits = omega arith;
  hash_fits = omega arith;
  hash_plain = search;
  count = 1;
  tx_count_is = refl;
  count_le = omega arith;
  carried = (paid-IsCarried, tt);
}

blocks-IsBroadcastable : (j : ℕ) → j < 2 → IsBroadcastable (second_chain.blocks j)
unfolding hex decimal decimal_ℤ digits
blocks-IsBroadcastable zero lt = record {
  linkable = record {
    portable = genesis-IsPortable;
    prev_braceless = search;
    hash_braceless = search;
  };
  clean = tt;
}
blocks-IsBroadcastable (suc zero) lt = record {
  linkable = record {
    portable = second-IsPortable;
    prev_braceless = search;
    hash_braceless = search;
  };
  clean = (paid-IsClean, tt);
}
blocks-IsBroadcastable (suc (suc j)) lt = absurd (omega arith)

handle_message-exchanges_example :
    (request reply : Bytes) × (chain : Blockchain) × (protocol_serialize_msg msg_request_chain none
      ≡ request ++ (b'\n' ∷ []))
    × (handle_message sum_sha256 asked 3 request ≡ returns (asked, (3, reply ++ (b'\n' ∷ [])) ∷ []))
    × (handle_message sum_sha256 asking 4 reply ≡ returns (record asking { chain = chain }, []))
    × (live chain ≡ map received (live second_chain))
    × IsSound sum_sha256 chain
handle_message-exchanges_example =
    handle_message-exchanges sum_sha256 asked asking 3 4 second_chain-IsSound first_chain-IsSound
      (omega arith) blocks-IsBroadcastable

second-Accepts : Accepts sum_sha256 first_chain second
second-Accepts = record {
  room = unfold max_blocks in omega arith;
  next_index = refl;
  linked = (second_chain-IsSound.valid 1 (omega arith) (omega arith)).0;
  is_mined = (second_chain-IsSound.valid 1 (omega arith) (omega arith)).1;
}

node_broadcast_block-Spreads_example :
    (sends : Sends) × (node_broadcast_block peers second ≡ returns sends)
    × All (λ (s : ℕ × Bytes). Spreads sum_sha256 second asking 4 s.1) sends
    × (map (λ (s : ℕ × Bytes). s.0) sends ≡ 7 ∷ 9 ∷ [])
node_broadcast_block-Spreads_example =
    node_broadcast_block-Spreads sum_sha256 second (blocks-IsBroadcastable 1 (omega arith)) peers
      asking 4 first_chain-IsSound.stored second-Accepts
