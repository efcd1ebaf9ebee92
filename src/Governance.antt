-- ===== src/Governance.antt =====
-- internal/executor/contracts/governance.go, the contract that keeps the proposals and counts the votes
-- of the administrators.
pub mod State
pub mod Strategy
pub mod Indices
pub mod Voting
pub mod Priorities
pub mod Handlers
pub mod Ballots
pub mod Tally
pub mod Counting
pub mod Tallies
pub mod Requests
pub mod Thresholds
pub mod Endings
pub mod Queries
pub mod StatusIndex
pub mod Bounds
pub mod Kept
pub mod Effects
pub mod Invariant
