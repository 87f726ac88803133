-- ===== src/Pricing.antt =====
-- Principal pricing of packages/fx-pricing.
pub mod Principal
pub mod Rational
pub mod RiskBook
mod Tests
