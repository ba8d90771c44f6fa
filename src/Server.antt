-- ===== src/Server.antt =====
-- The build server, crates/rbs-server.
pub mod Scheduler
pub mod Slots
pub mod Runner
pub mod Connection
