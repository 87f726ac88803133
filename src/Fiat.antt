-- ===== src/Fiat.antt =====
-- Settlement over fiat rails, packages/fx-fiat.
pub mod Intents
pub mod Store
pub mod Transitions
pub mod Attesting
pub mod Soundness
mod Tests
pub mod Graph
