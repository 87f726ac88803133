-- ===== src/Site/Blueprint.antt =====
-- The blueprints of src/blueprint.
pub mod Share
