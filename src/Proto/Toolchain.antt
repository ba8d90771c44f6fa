-- ===== src/Proto/Toolchain.antt =====
-- crates/rbs-proto/src/toolchain.rs: the identity of a Rust toolchain.
use rust_build_server.Prelude.{◌≡◌, ◌↔◌, Bool, true, ◌&&◌, arith, Bytes, bytes_eq, bytes_eq_iff}

pub record ToolchainFingerprint : Type 0 where
  pub rustc_commit : Bytes
  pub rustc_version : Bytes
  pub host : Bytes
  pub cargo_version : Bytes
  pub toolchain_name : Bytes

unfoldable pub compatible_with : ToolchainFingerprint → ToolchainFingerprint → Bool
compatible_with self other =
    bytes_eq self.rustc_commit other.rustc_commit && bytes_eq self.host other.host

pub compatible_with_iff :
    (a b : ToolchainFingerprint)
    → (compatible_with a b ≡ true) ↔ ((a.rustc_commit ≡ b.rustc_commit) × (a.host ≡ b.host))
unfolding compatible_with
compatible_with_iff a b =
    ground (arith, bytes_eq_iff a.rustc_commit b.rustc_commit, bytes_eq_iff a.host b.host)
