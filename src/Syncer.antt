-- ===== src/Syncer.antt =====
-- The blocks that a node fetches from its peers: pkg/order/syncer/state_syncer.go.
pub mod Ranges
pub mod Headers
pub mod Covers
pub mod Quorum
pub mod Blocks
pub mod Delivered
