-- ===== src/Lib.antt =====
-- BitXHub, a relay chain for messages between application chains: models of the parts that take a
-- cross-chain message (an IBTP) through a transaction and that govern the chain, and what holds of
-- them.
--
-- How the parts interact. A message reaches HandleIBTP of the interchain contract, which checks its
-- index and its services, calls the transaction contract to begin a transaction or to report a
-- receipt, notes the chains to notify and counts the message. The executor applies the transactions of
-- a block one after the other: it moves the amount of a transfer or runs a machine, reverts to a
-- snapshot of the state ledger on a failure, and shares the fee among the administrators. At the end
-- of a block it moves the ids of the block's transactions into and out of the timeout lists, lists what
-- times out at the height for the chains, and rolls it back. The contract and the executor share the store of the transaction contract.
-- The governance contract takes the proposals of the other contracts, counts the votes of the
-- administrators, and calls the contract that a proposal is about back with the result.
-- The state ledger keeps the accounts below; a transaction that fails is reverted to a snapshot, and
-- a block is written with a journal by which it can be rolled back. The router sends every chain
-- what the block has for it. The pool keeps the transactions that wait for the ordering; the leader
-- makes batches of them, and a block that was executed takes its transactions out.
-- A node that is behind asks its peers for the blocks it lacks.
--
-- The modules:
--   Protocol       the messages, and what the code calls of the protocol's library (bitxhub-model)
--   TimeoutList    the lists of ids that both sides keep as texts (removeFromTimeoutList of
--                  internal/executor/contracts/transaction_manager.go, removeFromStr of
--                  internal/executor/handle.go)
--   Transactions   internal/executor/contracts/transaction_manager.go: Status and State hold the data,
--                  Fsm is setFSM, Begin holds Begin, BeginInterBitXHub and BeginMultiTXs, Report holds
--                  Report, changeMultiTxStatus and GetStatus; the other files prove
--   Interchain     internal/executor/contracts/interchain.go: ServiceId, State, Check (checkIBTP),
--                  Process (ProcessIBTP, notifySrcDst), Handle (HandleIBTP, beginTransaction); the
--                  other files prove
--   Executor       internal/executor/handle.go: Timeouts holds setTimeoutRollback and the texts of
--                  the lists, Listing holds setTimeoutList, Histories is the sequences of calls and
--                  ends of blocks, Notices is getTimeoutIBTPsMap; World is what the execution
--                  of a transaction asks of the state ledger, Data the transactions, receipts and machines, Fees holds transfer and
--                  payGasFee, Bxh is applyBxhTransaction, Apply is applyTransaction with
--                  applyEthTransaction and evmInterchain, OnLedger fills World with Ledger; the other
--                  files prove
--   Router         internal/router/interchain.go: classify and what a pier is sent; Wrappers proves
--   Governance     internal/executor/contracts/governance.go: State is the data, Strategy is
--                  MakeStrategyDecision of internal/repo/repo.go with getCurThresholdApproveNum,
--                  Indices is addProposal and changeProposalStatus with the queries over the ids,
--                  Voting is setVote and countVote, Priorities has the locks between proposals,
--                  Handlers and Ballots are the handlers, Queries reads one proposal, Requests is a
--                  call as one step; the other files prove
--   Ledger         internal/ledger: State is the data, Accounts is account.go, Operations and Snapshots
--                  are state_accessor.go with state_changer.go, Performed has the sequences of
--                  operations between a snapshot and its revert, Journals is block_journal.go with
--                  what account.go and Commit do for one account, Blocks is FlushDirtyData, Commit,
--                  RollbackState and simple_ledger.go; the other files prove
--   Mempool        pkg/order/mempool: State is the data, Nonces and Times are nonceCache and the maps of
--                  times of tx_store.go, Indices is btree_index.go, Accounts is filterReady and forward,
--                  Insert is ProcessTransactions with processDirtyAccount and insertTxs, Batches is
--                  generateBlock, Commits is processCommitTransactions, Timeouts is
--                  GetTimeoutTransactions, shardTxList and RemoveAliveTimeoutTxs, Pool is what is left
--                  of mempool_impl.go and mempool.go, and tx_cache.go, Runs is a sequence of calls; the
--                  other files prove
--   Syncer         pkg/order/syncer/state_syncer.go: Ranges is calcRangeHeight, Headers is
--                  verifyBlockHeaders and syncQuorumRangeBlockHeaders, Blocks is syncRangeBlocks and
--                  SyncBFTBlocks; the other files prove
--   Scenarios      runs at concrete inputs
--   Base           what the others share: Boolean tests, maps, slices, texts, words of 64 bits
--
-- How code becomes a definition. A handler is a function from the store to the store and its answer; a
-- panic is an answer of its own. A map that the code iterates over is an association list, whose order
-- stands for an order of iteration; another map is a function. A uint64 is a natural number whose sums
-- are reduced by 2 ^ 64 where the code adds. Loops are recursions on the list that they walk over, or
-- on the number of rounds that a range takes; the loop of generateBlock that takes skipped
-- transactions has one round more than there are such transactions, which is enough; that of
-- calcRangeHeight has a round more than there are heights and one to stop. In the pool, times are
-- natural numbers and the time of a call is an argument. The changers of the state ledger are numbers:
-- the ledger has the number and the changes of the one that it keeps now, an account the number of the
-- one that it was made with, and what is told to another changer than the ledger's is not kept. A nil
-- recipient of a transaction is none, and so is the nil that the router has for an Ethereum
-- transaction. The decimal digits of an index have twenty
-- rounds, which is enough for every uint64.
--
-- Parameters. Code of other repositories: the state machine package with its rule of transition, the
-- protocol's library with the categories of messages and the text of an id, the evaluation of the
-- expressions of strategies, the copies of inner accounts and the test whether they have changed, the
-- virtual machines and the Ethereum machine with the logs that are the broker's, the decoding of
-- payloads and of the numbers in texts, the values of NotifyChain, the trees of google/btree, whose
-- state is the list of keys that Ascend visits, the Keccak hash and the SHA-256 sum, and what a block
-- journal is once it was written as JSON and read again. Values that come from outside a part: the answers of the other contracts and what their
-- Manage does with the proposals, the hash that names a group, the nonces of accounts that the pool
-- asks the ledger for, the hash of a block's header, what the peers answer, and the database and the
-- caches that lie under the ledger while a block is executed.
--
-- Not modelled: the parallel executor and the pipeline of a block, the events of a transaction, the
-- cache of accounts that the end of a block fills, the access list of accounts, the feeds and channels of
-- the pool and of the syncer, the sync from one peer that is retried without end (SyncCFTBlocks),
-- logging, the texts of errors, encodings of what a contract has stored itself, Merkle roots, and
-- the parts of the repository outside the files above.
pub mod Base
pub mod TimeoutList
pub mod Transactions
pub mod Protocol
pub mod Router
pub mod Mempool
pub mod Syncer
pub mod Interchain
pub mod Executor
pub mod Governance
pub mod Ledger
pub mod Scenarios
