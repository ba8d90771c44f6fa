-- ===== src/Proto/Job.antt =====
-- crates/rbs-proto/src/job.rs: job identifiers, priorities, requests, exit statuses and events.
-- Paths and texts are lists of bytes, and the environment of a request is its list of pairs.
use rust_build_server.Prelude.{
  ℕ, Bool, true, false, List, Option, none, some, Bytes, bytes_eq, codes, ℤ, pos, negsuc, ◌==◌,
  ◌+ℤ◌, wrap_i32, if◌then◌else◌,
}
use rust_build_server.Proto.Toolchain.{ToolchainFingerprint}

-- `JobId(u64)`
abbrev pub JobId : Type 0
JobId = ℕ

pub data Priority : Type 0 where
  interactive agent background : Priority

unfoldable pub rank : Priority → ℕ
rank Priority.interactive = 2
rank Priority.agent = 1
rank Priority.background = 0

unfoldable pub cpu_weight : Priority → ℕ
cpu_weight Priority.interactive = 200
cpu_weight Priority.agent = 100
cpu_weight Priority.background = 50

-- `Priority::from_str`; the message of an error is left out.
unfoldable pub parse_priority : Bytes → Option Priority
parse_priority s =
    if bytes_eq s (codes "interactive")
    then some Priority.interactive
    else if bytes_eq s (codes "agent")
    then some Priority.agent
    else if bytes_eq s (codes "background")
    then some Priority.background
    else none

pub record ClientIdentity : Type 0 where
  pub hostname : Bytes
  pub pid : ℕ
  pub label : Option Bytes

pub record JobRequest : Type 0 where
  pub cwd : Bytes
  pub argv : List Bytes
  pub env : List (Bytes × Bytes)
  pub toolchain : ToolchainFingerprint
  pub toolchain_override : Option Bytes
  pub priority : Priority
  pub client : ClientIdentity
  pub tty : Bool

-- The payloads are `i32`.
pub data ExitStatus : Type 0 where
  exit_code : ℤ → ExitStatus
  exit_signal : ℤ → ExitStatus

unfoldable pub as_process_exit_code : ExitStatus → ℤ
as_process_exit_code (exit_code c) = c
as_process_exit_code (exit_signal s) = wrap_i32 (pos 128 +ℤ s)

unfoldable pub success : ExitStatus → Bool
success (exit_code (pos n)) = n == 0
success (exit_code (negsuc n)) = false
success (exit_signal s) = false

pub data RejectReason : Type 0 where
  toolchain_mismatch : (server client : ToolchainFingerprint) → RejectReason
  saturated : RejectReason
  version_mismatch : RejectReason
  internal : Bytes → RejectReason

pub data JobEvent : Type 0 where
  queued : (id : JobId) (position : ℕ) → JobEvent
  started : (id : JobId) → JobEvent
  stdout : (id : JobId) (bytes : Bytes) → JobEvent
  stderr : (id : JobId) (bytes : Bytes) → JobEvent
  exited : (id : JobId) (status : ExitStatus) → JobEvent
  rejected : (id : JobId) (reason : RejectReason) → JobEvent

unfoldable pub event_id : JobEvent → JobId
event_id (queued i _) = i
event_id (started i) = i
event_id (stdout i _) = i
event_id (stderr i _) = i
event_id (exited i _) = i
event_id (rejected i _) = i

unfoldable pub is_terminal : JobEvent → Bool
is_terminal (exited _ _) = true
is_terminal (rejected _ _) = true
is_terminal _ = false
