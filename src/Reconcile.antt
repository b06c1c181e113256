-- ===== src/Reconcile.antt =====
-- Reconciliation (src/reconcile/).
pub mod Types
pub mod Messages
pub mod Notes
pub mod Builder
pub mod Collisions
pub mod Execute
pub mod Observe
pub mod Plan
pub mod Pass
pub mod Tests
