-- ===== src/Assignment.antt =====
-- The AzurePolicyAssignment controller and its Azure service.
pub mod Object
pub mod Payload
pub mod Drift
pub mod Roles
pub mod Exemptions
pub mod Service
pub mod Deletion
pub mod Resolve
pub mod Apply
pub mod Import
pub mod Controller
pub mod Wiring
pub mod Writes
pub mod Cleanup
pub mod Once
pub mod Lifecycle
pub mod Forgetting
pub mod Waking
pub mod NeverOnce
