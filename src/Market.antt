-- ===== src/Market.antt =====
-- The private FX market, packages/fx-market.
pub mod Validation
pub mod Orders
pub mod Book
pub mod Reserving
pub mod Closing
pub mod Withdrawing
pub mod Soundness
mod Tests
