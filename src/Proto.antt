-- ===== src/Proto.antt =====
-- The wire protocol, crates/rbs-proto: the messages here, their parts in the modules below.
pub mod Toolchain
pub mod Status
pub mod Job
pub mod Base64
pub mod Frame
pub mod Message
