-- ===== src/Setup.antt =====
-- The setup tool, crates/rbs-setup, as far as it brings two hosts to one toolchain.
pub mod Commands
pub mod Shell
pub mod Release
pub mod Pin
pub mod Sync
mod Examples
