-- ===== src/Transactions.antt =====
-- internal/executor/contracts/transaction_manager.go, the contract that keeps the status of
-- cross-chain transactions.
pub mod Status
pub mod Fsm
pub mod State
pub mod Begin
pub mod Report
pub mod Outcomes
pub mod Groups
pub mod Consistency
pub mod Receipts
