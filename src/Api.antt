-- ===== src/Api.antt =====
-- The custom resources of api/v1alpha1, one module for each kind.
pub mod Meta
pub mod Definition
pub mod Initiative
pub mod Assignment
pub mod Exemption
