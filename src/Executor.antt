-- ===== src/Executor.antt =====
-- internal/executor/handle.go, the execution of a block: the part that keeps the timeouts of
-- cross-chain transactions.
pub mod World
pub mod Fees
pub mod Data
pub mod Totals
pub mod Paths
pub mod Conserved
pub mod Conservation
pub mod Solvent
pub mod Amounts
pub mod Chains
pub mod Shown
pub mod OnLedger
pub mod Bxh
pub mod Apply
pub mod Timeouts
pub mod Listing
pub mod Rollback
pub mod Notices
pub mod Told
pub mod Lists
pub mod Histories
