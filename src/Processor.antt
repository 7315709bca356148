-- ===== src/Processor.antt =====
-- The block processor (src/indexer/block_processor.rs).
pub mod State
pub mod Entry
pub mod Transaction
pub mod Block
pub mod Rollback
pub mod Ledger
pub mod Undo
