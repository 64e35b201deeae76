-- ===== src/Definition.antt =====
-- The AzurePolicyDefinition controller and its Azure service.
pub mod Object
pub mod Service
pub mod ImportIds
pub mod Deletion
pub mod Apply
pub mod Import
pub mod Controller
pub mod Wiring
pub mod Observing
pub mod Cleanup
pub mod Adoption
pub mod Settling
pub mod Guards
pub mod InSync
pub mod Lifecycle
pub mod Progress
pub mod Once
pub mod Recording
pub mod Returning
pub mod Total
