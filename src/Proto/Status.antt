-- ===== src/Proto/Status.antt =====
-- crates/rbs-proto/src/status.rs: what a server says about itself. The load average, an `f32` that
-- nothing computes with, is kept in hundredths.
use rust_build_server.Prelude.{ℕ, Bool, Bytes}

pub record ServerIdentity : Type 0 where
  pub hostname : Bytes
  pub version : Bytes

pub record Capacity : Type 0 where
  pub tokens_total : ℕ
  pub tokens_free : ℕ
  pub mem_available_bytes : ℕ
  pub load1 : ℕ
  pub accepting : Bool

pub record ServerStatus : Type 0 where
  pub identity : ServerIdentity
  pub capacity : Capacity
  pub queued : ℕ
  pub running : ℕ
  pub uptime_secs : ℕ
