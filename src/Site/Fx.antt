-- ===== src/Site/Fx.antt =====
-- The FX laboratory of src/fx: a configuration, and what the page derives from it.
pub mod Definitions
pub mod Sources
pub mod Journeys
pub mod Finality
pub mod Scenarios
pub mod Setup
pub mod Demo
mod Tests
