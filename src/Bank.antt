-- ===== src/Bank.antt =====
-- The banking API of apps/api.
pub mod Ledger
pub mod Store
mod Tests
