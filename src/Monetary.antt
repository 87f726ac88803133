-- ===== src/Monetary.antt =====
-- Reserve-backed money of packages/fx-monetary.
pub mod Tables
pub mod Inputs
pub mod Deposits
pub mod Engine
mod Tests
