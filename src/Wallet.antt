-- ===== src/Wallet.antt =====
-- The wallet: building transactions (src/wallet/unified_tx/builder.rs).
pub mod Selection
pub mod Transaction
pub mod Fees
