-- ===== src/Store.antt =====
-- The shared store, crates/rbs-store.
pub mod Planner
pub mod Touch
pub mod Collect
