-- ===== src/Startup.antt =====
-- Starting the operator: cmd/main.go, internal/client, and SetupWithManager of the controllers.
pub mod Boot
pub mod Options
pub mod Client
pub mod Controllers
pub mod Main
pub mod Plan
pub mod Exit
