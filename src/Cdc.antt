-- ===== src/Cdc.antt =====
-- The customer CDC path (cdc/).
pub mod Event
pub mod Source
pub mod Bronze
pub mod Silver
pub mod Offsets
pub mod Batch
pub mod Service
pub mod Reconcile
pub mod Smoke
pub mod Verify
mod Tests
