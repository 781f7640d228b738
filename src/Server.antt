-- ===== src/Server.antt =====
-- The parts of the Go server that the web client's behaviour depends on.
pub mod Revision
pub mod Lifecycle
pub mod Go
pub mod Validation
pub mod Review
pub mod Domain
pub mod Access
pub mod Changes
pub mod Handlers
pub mod Ensures
pub mod Runner
pub mod Stranded
pub mod World
