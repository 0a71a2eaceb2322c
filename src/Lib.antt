-- ===== src/Lib.antt =====
-- MiniCoin, a demonstration of a blockchain node in C: what its core does, and that it is right.
--
-- The program. A node keeps a chain of blocks (src/chain.c). A block (src/block.c) holds up to ten
-- transactions (src/tx.c) and the hash of the block before it, and is mined: its nonce is searched
-- until its SHA-256 begins with two zeroes. Blocks come from the node's own mining (src/main.c) and
-- from peers (src/net.c), as JSON messages that src/protocol.c prints and reads; a longer valid chain
-- from a peer replaces the local one. Both go through chain_add_block and chain_replace of src/chain.c,
-- which take the mutex of the chain. Transactions that the user sends, signed by src/wallet.c, and those
-- of peers wait in the mempool until a block is mined.
--
-- The files.
--   Base (with Lists, Tests, Int): shared notation and lemmas on lists, tests and integers.
--   Run: the outcome of C code: a value, undefined behaviour, or a loop out of fuel.
--   CLib: strings (strcmp, strncmp, strncpy, snprintf into a buffer, strstr, strchr), printed
--     numbers, and reading them (strtoull, strtol, and sscanf with "%02x").
--   Sha256: OpenSSL's SHA-256 through EVP, a parameter with its documented laws.
--   Tx: src/tx.c and include/tx.h, one definition for each function under its name.
--   Block: src/block.c and include/block.h. append_tx_hashes and mine_loop are the loops of
--     block_compute_hash and block_mine.
--   Chain: src/chain.c and include/chain.h. validate_from, balance_of_blocks and balance_of_txs are the
--     loops of chain_validate and chain_get_balance. Its child Sums has the sums that Balance and Accounts
--     compare balances with, before and after a new block; Unchecked is about the first block of a
--     received chain.
--   Json: the helpers of src/protocol.c that print and search JSON, under their names. Its children
--     describe printed objects as lists of fields: Search (no value can be taken for a key), Escape,
--     Fields and Fetch (a field is found and read), Avoid (which bytes are in an object), Braces (the
--     end of an object) and Nested (also where there are objects in it).
--   Protocol: the functions of src/protocol.c on transactions, blocks and chains. Message: those on
--     messages, with include/protocol.h. The children of Protocol are about both. What is printed is read
--     back: Txs for transactions, Array and ReadArray for the array of them in a block, PrintedBlocks and
--     Blocks for blocks, NestedBlocks, PrintedChains and Chains for chains, Payload, Nesting,
--     NestedPayloads, Messages and RoundTrip for messages; Received is about a block that was read back.
--     Bounds, BlockBounds and ChainBounds are about any text, Total about the buffers that are printed into.
--   Ed25519: OpenSSL's Ed25519 keys, a parameter.
--   Wallet: src/wallet.c and include/wallet.h, and the start of main in src/main.c. Signing is about
--     signatures, Keeping about the file of the key.
--   Node: the mempool, do_mine and do_send of src/main.c. collect is the loop of do_mine over the
--     mempool. Its children: Mempool (the queue), Collect (which transactions are taken), Mining,
--     Accounts (the balances after mining), Reward and Sending.
--   Net: the table of peers and handle_message of src/net.c; what is sent is a result. Outcome lists what
--     a message can do, Safety is about the chain, Total shows that handle_message returns. Delivery and
--     Payment are about transactions on their way from node to node, Blocks about blocks, Exchange about
--     whole chains; Lines and OneLine about read_message.
--   Session: peer_handler, accept_thread, node_init, node_connect_peer and node_stop of src/net.c.
--     Connect and Accept are about connections, Handler about the thread of a peer.
--   System: the threads of the node, whose steps on the chain, the mempool and the table of peers come in
--     any order. Health is what every step keeps, Mining and Sending are about the menu, History and Start
--     about sequences of steps.
--   Menu: main of src/main.c: the choices of its loop, and what each does to the node. Choices says which
--     text is which choice, Conduct what the rounds of the loop do; Steps and Loop relate them to the steps
--     of the node as a whole.
--   Tests: runs on concrete blocks, and instances of the theorems.
--
-- How the code is read. A char array is the text before its NUL byte, as a list of byte values. A
-- uint64_t, uint32_t or unsigned sum is a natural number with its wrap-around written out; int and
-- int64_t values that may be negative are integers, and an overflow of the balance is undefined
-- behaviour. An int result is a Status: success for 0, failure for -1. The array of ten transactions
-- of a block is a list, and a read past its end is undefined behaviour; the array of blocks is a
-- function on indices with the length beside it. Memory is passed explicitly: a function that writes
-- through a pointer returns the new value.
--
-- Bounds and fuel. block_mine loops until a nonce fits and so takes a number of rounds, as does
-- do_mine; more rounds than the least fitting nonce are enough. peer_handler takes a number of rounds,
-- of which more than there are bytes on the socket are enough. All other loops recur on the rounds
-- left, or on the text that is left.
-- A block has the declared sizes (IsWellFormed) if its texts leave room for their NUL bytes, its
-- array has ten slots and no more than ten are in use; a chain is stored (IsStored) if it has from 1 to
-- 10000 blocks of the declared sizes.
--
-- Not modelled: the printing functions and the animations; the mutexes themselves: the answer to a
-- REQUEST_CHAIN and each call of chain_get_balance read the chain of one moment, although neither takes the
-- mutex, and protocol_serialize_chain reads the length twice; the loop of send_message, which can fail
-- after a part of a message: a send is a socket and a whole text in a result; failing calls of OpenSSL
-- in the hash functions, which the program does not check either; a malloc that fails; the port of the
-- server. The threads are not modelled themselves: System lists the steps that they can take.
pub mod Base
pub mod Run
pub mod CLib
pub mod Sha256
pub mod Tx
pub mod Block
pub mod Chain
pub mod Json
pub mod Protocol
pub mod Message
pub mod Ed25519
pub mod Wallet
pub mod Node
pub mod Net
pub mod Session
pub mod System
pub mod Menu
mod Tests
