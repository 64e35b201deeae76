-- ===== src/Tests.antt =====
-- The theorems at concrete inputs, against a small server.
mod Server
mod Lifecycle
mod Definition
mod Initiative
mod Assignment
mod Exemption
mod Common
mod InitiativeLife
mod AssignmentLife
mod ExemptionLife
mod Startup
mod DefinitionRuns
mod Waking
