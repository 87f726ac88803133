-- ===== src/Site.antt =====
-- The website of src/: its FX laboratory, its provider directory and its blueprints.
pub mod Fx
pub mod Ecosystem
pub mod Navigation
pub mod Blueprint
mod Tests
