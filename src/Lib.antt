-- ===== src/Lib.antt =====
-- Speedex: a decentralised exchange that settles each block as a batch. Accounts hold amounts of
-- assets; transactions pay, and offer one asset for another; at the end of a block every offer whose
-- limit price is met by the block's prices is cleared at those prices, less a tax. The order of the
-- transactions in a block does not matter, so that many threads process them at once, on shared
-- accounts, with atomic operations only, and a block that fails is rolled back.
--
-- The parts of the program and the files that model them:
--   Types                                  xdr/*.x: transactions, operations, offers, commitments
--   MemoryDatabase/RevertableAsset         memory_database/revertable_asset.h: one amount, as it is
--                                          and as last committed (`available`, `committed_available`)
--   MemoryDatabase/RevertableAsset/Concurrent   its compare-and-swap loop under interleavings
--   MemoryDatabase/SequenceTracker         memory_database/sequence_tracker.cc, .h: the tracker of 64
--                                          numbers; its child Bounded has the one for more
--   MemoryDatabase/UserAccount             memory_database/user_account.cc, .h: an account, which has
--                                          a list of assets and a tracker and calls their methods
--   MemoryDatabase/AccountVector           memory_database/account_vector.cc, .h: the vector of
--                                          accounts, in rows; as a list in Append, Erase and Resize
--   MemoryDatabase/MemoryDatabase          memory_database/memory_database.cc, .h: accounts by id,
--                                          their creation, commit and rollback
--   MemoryDatabase/UserAccountView         memory_database/memory_database_view.cc, .h: what a
--                                          transaction buffers of one account
--   MemoryDatabase/MemoryDatabaseView      the same files: the views of the whole database
--   BlockProcessing/SerialTransactionHandler, SerialTransactionProcessor, SerialTransactionValidator
--                                          block_processing/serial_transaction_processor.cc, .h: each
--                                          operation, production's and validation's transactions
--   BlockProcessing/Interfaces             what these use of the views, the offers, the log and the
--                                          signatures; Outcomes has what becomes of a transaction
--   HeaderHash/BlockHeaderHashMap          header_hash/block_header_hash_map.cc, .h: the hashes of
--                                          the blocks, in memory and on disk
--   Price, FixedPoint                      utils/price.h, utils/fixed_point_value.h
--   Orderbook/Categories                   orderbook/utils.h: the index of a pair of assets
--   Orderbook/Clearing                     orderbook/offer_clearing_logic.h: what an offer is paid
--   Orderbook/CommitmentChecker            orderbook/commitment_checker.cc, .h: the check of a
--                                          block's clearing data
--   Orderbook/Demand                       orderbook/orderbook.cc, orderbook/helpers.h: the supply
--                                          and the demand of an orderbook at given prices
--   Orderbook/ClearOffers                  orderbook/orderbook.cc, orderbook/thunk.h: the clearing of
--                                          an orderbook, in production and in validation; Interfaces
--                                          has what it uses of the trie, the database and the log
--   Orderbook/Rounds                       orderbook/orderbook.cc, orderbook/thunk.h, orderbook/lmdb.h
--                                          and lmdb.cc: the commit of a block to an orderbook, and its
--                                          rollback; RoundTrie has what these use of the trie
--   Mempool                                mempool/mempool.cc, .h: the chunks of pending transactions
--   Filtering                              filtering/: what the transactions of an account require
--                                          before a block, and which accounts a block may create
--   ModLog/AccountModificationEntry        modlog/account_modification_entry.cc, .h: the log entry
--                                          of one account
-- Prelude has Boolean tests, lists, signed integers, bits and maps. Modules named for what they
-- prove stand below the module that they are about, and runs at concrete inputs in modules Tests.
--
-- A method that changes its object is a function from the old state to the new one and the result;
-- a thrown error is `none`. Functions and fields keep the names of the code in lower case
-- (`reserve_sequence_number`), types keep theirs (`UInt64SequenceTracker`). Integers of the code are
-- natural numbers or `ℤ` with the wrap-around of their width written out. Atomic operations of one
-- method run as one step, but for the compare-and-swap loop of `RevertableAsset`, whose loads and
-- stores are steps of their own.
--
-- The loops over an account's assets have an 8-bit counter, and run on fuel: 256 rounds are enough
-- where the account has fewer assets than 256. The loop that grows the vector of accounts runs on
-- fuel too: one turn for each account that is added is enough. So do the search of an orderbook's
-- index and the loops of the pool, with one turn for each entry, and one more. All other loops are
-- over lists or count down.
--
-- Transaction processing is over an interface, a record of the operations that it calls, with no
-- laws: the two handlers use different views and managers of it. The runs in BlockProcessing/Tests
-- fill it with the views of MemoryDatabase/MemoryDatabaseView, the buffered one for production and
-- the unbuffered one for validation, where an overdrawn payment is refused by the first and
-- accepted by the second. The tries of commitments and of block hashes are of a submodule and are
-- parameters with the laws of a map, the trie of offers is one with the laws of a list of entries
-- by increasing key and of marks for deletion, and the index of an orderbook, which that trie
-- generates, is taken with the totals that it stands for. The clearing of an orderbook relies on
-- transfers and log entries that can be made in any order. LMDB is taken as enabled and open.
--
-- Not modelled: floating-point conversions, serialisation, printing, locks, and the parts of the
-- repository that use the modelled ones: the calls of the database that only log transfers and its
-- commitments to the state, the views that replay blocks from disk, the rollback of a failed
-- validation of an orderbook and the manager of all orderbooks, the logs of all accounts (their
-- trie is a submodule), block production and validation as a whole, the threads of the pool,
-- persistence, consensus and the price search.
pub mod Prelude
pub mod Types
pub mod MemoryDatabase
pub mod Price
pub mod FixedPoint
pub mod Orderbook
pub mod Filtering
pub mod ModLog
pub mod BlockProcessing
pub mod HeaderHash
pub mod Mempool
