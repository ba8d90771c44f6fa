-- ===== src/Client.antt =====
-- The client, crates/rbs-client.
pub mod Transport
pub mod Backend
pub mod Submit
pub mod Shim
