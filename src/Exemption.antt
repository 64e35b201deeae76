-- ===== src/Exemption.antt =====
-- The AzurePolicyExemption controller and its Azure service.
pub mod Object
pub mod Service
pub mod Controller
pub mod Laws
pub mod Once
pub mod Lifecycle
