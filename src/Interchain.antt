-- ===== src/Interchain.antt =====
-- internal/executor/contracts/interchain.go, the contract that takes the messages between services,
-- counts them, and drives the transaction contract.
pub mod ServiceId
pub mod State
pub mod Check
pub mod Process
pub mod Handle
pub mod Order
pub mod Counters
pub mod Replay
pub mod Failures
pub mod Notices
