-- ===== src/Storage.antt =====
-- `NetworkStorage` of src/indexer/mod.rs: its trees (State), the chain tips, nonces and block
-- metadata (Tips), the address and token indexes (Indexes), and its snapshots (Snapshots).
pub mod State
pub mod Tips
pub mod Indexes
pub mod Snapshots
pub mod Open
