-- ===== src/Fiat/Soundness.antt =====
-- What the calls of `FiatSettlementStore` of packages/fx-fiat/src/settlement-store.js keep.
pub mod Proofs
pub mod Calls
pub mod Acceptance
pub mod Finality
pub mod Lasting
pub mod Keeping
pub mod History
