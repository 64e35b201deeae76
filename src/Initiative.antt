-- ===== src/Initiative.antt =====
-- The AzurePolicyInitiative controller and its Azure service.
pub mod Object
pub mod Payload
pub mod Service
pub mod ImportIds
pub mod Agreement
pub mod InSync
pub mod Wiring
pub mod Writes
pub mod Resolving
pub mod Cleanup
pub mod Once
pub mod Deletion
pub mod Resolve
pub mod Apply
pub mod Import
pub mod Controller
pub mod Lifecycle
