-- ===== src/Scenarios.antt =====
-- Concrete runs of the models: a bitxhub "1356" with two chains and a service on each, a state machine
-- package, a protocol library and the other contracts, each one function that does what is asked of it.
mod Data
mod Contract
mod Messages
mod Timeouts
mod Reverting
mod Paying
mod Voting
mod Committing
mod Routing
mod Trees
mod Pooling
mod Syncing
