-- ===== src/Liquidity.antt =====
-- Cross-source liquidity of packages/fx-liquidity.
pub mod Optimizer
pub mod Coordinator
mod Tests
