-- ===== src/Tests/Messages.antt =====
-- src/protocol.c on texts that can be followed by hand.
use mini_coin_slovak.Base.{arith, ◌≡◌, refl, set, [], ◌∷◌}
use mini_coin_slovak.Base.Int.{pos}
use mini_coin_slovak.Block.{Block, zero_block}
use mini_coin_slovak.Chain.{Blockchain}
use mini_coin_slovak.Chain.Add.{live}
use mini_coin_slovak.CLib.{
  Bytes, codes, decimal, decimal_ℤ, digits, strstr, strchr, strtoull, strtol,
}
use mini_coin_slovak.Json.{
  json_escape, escape_from, json_find_key, after_colon, json_get_string, json_get_uint64,
  json_get_int, string_at, read_string, scan_object,
}
use mini_coin_slovak.Net.{empty_chain}
use mini_coin_slovak.Protocol.{
  tx_json, protocol_serialize_tx, protocol_deserialize_tx, txs_json, block_json,
  protocol_serialize_block, read_txs, read_tx_array, read_rest, protocol_deserialize_block,
  protocol_serialize_chain, protocol_deserialize_chain,
}
use mini_coin_slovak.Protocol.Txs.{IsSendable, protocol_deserialize_tx-protocol_serialize_tx}
use mini_coin_slovak.Protocol.Array.{IsCarried}
use mini_coin_slovak.Protocol.PrintedBlocks.{IsPortable, received}
use mini_coin_slovak.Protocol.NestedBlocks.{IsLinkable}
use mini_coin_slovak.Protocol.Chains.{protocol_deserialize_chain-protocol_serialize_chain}
use mini_coin_slovak.Protocol.Blocks.{protocol_deserialize_block-protocol_serialize_block}
use mini_coin_slovak.Run.{returns, failure, success, ◌>>=◌}
use mini_coin_slovak.Tx.{Tx, zero_tx}

abbrev payment : Tx
payment = record {
  sender = codes "a\"amount\":7\\";
  receiver = codes "bb";
  amount = 18446744073709551615;
  fee = 1;
  signature = codes "c0ffee";
  tx_hash = codes "00ab";
}

printed :
    protocol_serialize_tx (record payment { sender = codes "\"" })
    ≡ codes
        "{\"sender\":\"\\\"\",\"receiver\":\"bb\",\"amount\":18446744073709551615,\"fee\":1,\"signature\":\"c0ffee\",\"tx_hash\":\"00ab\"}"
unfolding protocol_serialize_tx tx_json decimal digits json_escape escape_from
printed = refl

read_back : protocol_deserialize_tx (protocol_serialize_tx payment) ≡ (success, payment)
unfolding protocol_serialize_tx tx_json decimal digits json_escape escape_from
    protocol_deserialize_tx json_get_string json_get_uint64 json_find_key after_colon string_at
    read_string strstr strchr strtoull
read_back = refl

payment-IsSendable : IsSendable payment
payment-IsSendable = record {
  sender_fits = omega arith;
  receiver_fits = omega arith;
  amount_fits = omega arith;
  fee_fits = omega arith;
  signature_fits = omega arith;
  hash_fits = omega arith;
  signature_plain = search;
  hash_plain = search;
}

protocol_deserialize_tx-protocol_serialize_tx_example :
    protocol_deserialize_tx (protocol_serialize_tx payment) ≡ (success, payment)
protocol_deserialize_tx-protocol_serialize_tx_example =
    protocol_deserialize_tx-protocol_serialize_tx payment payment-IsSendable

abbrev carried : Block
carried = record zero_block {
  index = 3;
  timestamp = pos 99;
  transactions = set (set zero_block.transactions 0 payment) 1 payment;
  tx_count = pos 2;
  prev_hash = codes "0011";
  nonce = 12;
  hash = codes "0022";
}

block_read_back :
    (protocol_serialize_block carried >>= λ json. returns (protocol_deserialize_block json))
    ≡ returns (success, carried)
unfolding protocol_serialize_block txs_json block_json protocol_serialize_tx tx_json decimal
    decimal_ℤ digits json_escape escape_from protocol_deserialize_tx protocol_deserialize_block
    read_rest read_tx_array read_txs scan_object json_get_string json_get_uint64 json_get_int
    json_find_key after_colon string_at read_string strstr strchr strtoull strtol
block_read_back = refl

-- The second slot is in use as well, and the others are zero.
payment-IsCarried : IsCarried payment
payment-IsCarried = record {
  sendable = payment-IsSendable;
  sender_braceless = search;
  receiver_braceless = search;
  signature_braceless = search;
  hash_braceless = search;
}

carried-IsPortable : IsPortable carried
carried-IsPortable = record {
  index_fits = omega arith;
  moment = 99;
  timestamp_is = refl;
  moment_fits = omega arith;
  prev_fits = omega arith;
  prev_plain = search;
  nonce_fits = omega arith;
  hash_fits = omega arith;
  hash_plain = search;
  count = 2;
  tx_count_is = refl;
  count_le = omega arith;
  carried = (payment-IsCarried, (payment-IsCarried, tt));
}

protocol_deserialize_block-protocol_serialize_block_example :
    (protocol_serialize_block carried >>= λ json. returns (protocol_deserialize_block json))
    ≡ returns (success, received carried)
protocol_deserialize_block-protocol_serialize_block_example =
    protocol_deserialize_block-protocol_serialize_block carried carried-IsPortable

carried-IsLinkable : IsLinkable carried
carried-IsLinkable = record {
  portable = carried-IsPortable;
  prev_braceless = search;
  hash_braceless = search;
}

abbrev two_blocks : Blockchain
two_blocks = record { blocks = λ i. carried; length = 2 }

protocol_deserialize_chain-protocol_serialize_chain_example :
    (json : Bytes) × (copy : Blockchain) × (protocol_serialize_chain two_blocks ≡ returns json)
    × (protocol_deserialize_chain json empty_chain ≡ (success, copy))
    × (live copy ≡ received carried ∷ received carried ∷ [])
protocol_deserialize_chain-protocol_serialize_chain_example =
    protocol_deserialize_chain-protocol_serialize_chain two_blocks empty_chain
      (λ j lt. carried-IsLinkable) (omega arith) (omega arith)

-- A brace in an address cuts the transaction short for whoever reads the block.
brace_cuts :
    protocol_deserialize_tx
      (scan_object (protocol_serialize_tx (record payment { receiver = codes "}" })) 0).0
    ≡ (failure, record zero_tx { sender = payment.sender; receiver = codes "}" })
unfolding protocol_serialize_tx tx_json decimal digits json_escape escape_from scan_object
    protocol_deserialize_tx json_get_string json_get_uint64 json_find_key after_colon string_at
    read_string strstr strchr strtoull
brace_cuts = refl
