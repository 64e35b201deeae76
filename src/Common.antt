-- ===== src/Common.antt =====
-- Code that several services repeat word for word.
pub mod Naming
pub mod ImportId
pub mod Paths
pub mod Metadata
pub mod Drift
pub mod Selectors
pub mod Reconcile
