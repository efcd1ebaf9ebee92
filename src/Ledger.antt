-- ===== src/Ledger.antt =====
-- The state ledger of internal/ledger: accounts, the journal of changes, and snapshots.
pub mod State
pub mod Accounts
pub mod Operations
pub mod Snapshots
pub mod Views
pub mod Undo
pub mod Steps
pub mod Created
pub mod Writes
pub mod Undone
pub mod Performed
pub mod Reverts
pub mod Leaks
pub mod Journals
pub mod Rows
pub mod Blocks
pub mod Pasts
pub mod Commits
pub mod Durable
