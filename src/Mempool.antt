-- ===== src/Mempool.antt =====
-- The pool of transactions that the ordering keeps: pkg/order/mempool.
pub mod State
pub mod Nonces
pub mod Times
pub mod Batches
pub mod Order
pub mod Skipped
pub mod Chosen
pub mod Indices
pub mod Accounts
pub mod Ready
pub mod Insert
pub mod Commits
pub mod Timeouts
pub mod Pool
pub mod Shards
pub mod Progress
pub mod Committed
pub mod Raise
pub mod WellFormed
pub mod Removals
pub mod Aging
pub mod Arrivals
pub mod Runs
pub mod Screening
pub mod Keys
pub mod Hashes
