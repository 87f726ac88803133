-- ===== src/Market/Soundness.antt =====
-- What is kept by every call of `SqliteFxMarket` of packages/fx-market/src/sqlite-market.js: what the rows of
-- the tables `orders` and `reservations` are to one another.
pub mod Invariant
pub mod Ending
pub mod Closings
pub mod Confirming
pub mod Candidates
pub mod Placing
pub mod Rounds
pub mod Reserving
pub mod Rows
pub mod Admitting
pub mod Withdrawals
pub mod History
