-- ===== src/Site/Ecosystem.antt =====
-- The provider directory of src/ecosystem.
pub mod Providers
pub mod Matching
pub mod Shortlist
