-- ===== src/Server/Runner.antt =====
-- crates/rbs-server/src/runner.rs: the checks of a request, the command of a job, and its supervision. A
-- process is what its pipes give to read and how it ends. Two pumps send what they read; the order in which
-- their sends reach the job's channel is a schedule, first of those before the exit is sent, then of those of
-- a pump that outlives the drain. Pids, logs and the texts of most errors are left out.
pub mod Command
pub mod Outputs
mod Examples
use rust_build_server.Prelude.{
  ℕ, ◌+◌, ◌*◌, ◌/◌, ◌%◌, Bool, true, false, ◌&&◌, not, List, [], ◌∷◌, ◌++◌, Option, none, some, ltb,
  leb, ◌==◌, if◌then◌else◌, Bytes, codes, Result, ok, err, pos, negsuc, map,
}
use rust_build_server.Proto.Toolchain.{ToolchainFingerprint}
use rust_build_server.Toolchain.{check}
use rust_build_server.Proto.Job.{
  JobId, JobRequest, JobEvent, started, stdout, stderr, exited, ExitStatus, exit_code, exit_signal,
  RejectReason, internal, toolchain_mismatch,
}

-- `validate_cwd`, with what the file system says of the path.
unfoldable pub validate_cwd : (is_absolute is_dir : Bytes → Bool) → Bytes → Result RejectReason Unit
validate_cwd is_absolute is_dir cwd =
    if not (is_absolute cwd)
    then err (internal (codes "cwd " ++ cwd ++ codes " is not absolute"))
    else if not (is_dir cwd)
    then err (internal (codes "cwd " ++ cwd ++ codes " does not exist on the server"))
    else ok tt

-- `check_toolchain`, with what the fingerprint of the request's directory gives on this host, or the text
-- of its error.
unfoldable pub check_toolchain :
    (hostname : Bytes) → JobRequest → Result Bytes ToolchainFingerprint → Result RejectReason Unit
unfolding check
check_toolchain hostname req (err e) = err (internal (codes "toolchain fingerprint failed: " ++ e))
check_toolchain hostname req (ok server) =
    elim (check req.client.hostname req.toolchain hostname server) [
      | ok u ↦ ok tt
      | err m ↦ err (toolchain_mismatch m.server m.client)
    ]

-- The status word of `wait`: a normal exit has 0 in its low seven bits and its code above them, a death by
-- a signal has the signal there. The other words are of processes that are stopped, or go on.
abbrev pub RawStatus : Type 0
RawStatus = ℕ

-- `ExitStatusExt`
unfoldable pub raw_code : RawStatus → Option ℕ
raw_code w = if w % 128 == 0 then some (w / 256 % 256) else none

unfoldable pub raw_signal : RawStatus → Option ℕ
raw_signal w = if not (w % 128 == 0) && not (w % 128 == 127) then some (w % 128) else none

unfoldable pub status_of : RawStatus → ExitStatus
status_of w = elim (raw_code w) [
  | some c ↦ exit_code (pos c)
  | none ↦ elim (raw_signal w) [ some s ↦ exit_signal (pos s) | none ↦ exit_code (negsuc 0) ]
]

pub data Signal : Type 0 where
  sigterm sigkill : Signal

-- What the waits of `terminate` give: the first has a deadline, and `none` is that it has passed. An error
-- of a wait is `none` in the result.
pub record Termination : Type 0 where
  pub term_wait : Option (Option RawStatus)
  pub kill_wait : Option RawStatus

unfoldable pub killed : Option RawStatus → RawStatus
killed (some w) = w
killed none = 9

unfoldable pub terminate : Termination → RawStatus × List Signal
unfolding killed
terminate t = elim t.term_wait [
  | none ↦ (killed t.kill_wait, sigterm ∷ sigkill ∷ [])
  | some wait ↦ elim wait [
    | some w ↦ (w, sigterm ∷ [])
    | none ↦ (killed t.kill_wait, sigterm ∷ sigkill ∷ [])
  ]
]

-- The branch that `select!` takes: the process has ended, the job is cancelled, or its time is over.
pub data Ended : Type 0 where
  process_ended : Option RawStatus → Ended
  cancelled timed_out : Termination → Ended

-- The status and the signals; the group is killed in each case, so that nothing of it is left.
unfoldable pub end_of : Ended → RawStatus × List Signal
unfolding terminate
end_of (process_ended (some w)) = (w, sigkill ∷ [])
end_of (process_ended none) = (1 * 256, sigkill ∷ [])
end_of (cancelled t) = let r = terminate t in (r.0, r.1 ++ sigkill ∷ [])
end_of (timed_out t) = let r = terminate t in (r.0, r.1 ++ sigkill ∷ [])

pub data Pipe : Type 0 where
  out_pipe err_pipe : Pipe

-- What one read gives: bytes, of which none are the end of the pipe, or an error.
pub data Read : Type 0 where
  read : Bytes → Read
  read_failed : Read

-- `pump`: what it sends.
unfoldable pub pump : List Read → List Bytes
pump [] = []
pump (read_failed ∷ reads) = []
pump (read [] ∷ reads) = []
pump (read (b ∷ bs) ∷ reads) = (b ∷ bs) ∷ pump reads

pub record Sends : Type 0 where
  pub sent : List (Pipe × Bytes)
  pub out_rest : List Bytes
  pub err_rest : List Bytes

-- The sends of the two pumps in the order of the schedule; a pump that is done sends nothing.
unfoldable pub interleave : List Pipe → List Bytes → List Bytes → Sends
interleave [] outs errs = record { sent = []; out_rest = outs; err_rest = errs }
interleave (out_pipe ∷ schedule) [] errs = interleave schedule [] errs
interleave (out_pipe ∷ schedule) (bytes ∷ outs) errs =
    let later = interleave schedule outs errs in
    record later { sent = (out_pipe, bytes) ∷ later.sent }
interleave (err_pipe ∷ schedule) outs [] = interleave schedule outs []
interleave (err_pipe ∷ schedule) outs (bytes ∷ errs) =
    let later = interleave schedule outs errs in
    record later { sent = (err_pipe, bytes) ∷ later.sent }

pub record Process : Type 0 where
  pub stdout_reads : List Read
  pub stderr_reads : List Read
  pub schedule : List Pipe
  pub late_schedule : List Pipe
  pub ended : Ended

-- `make` of the two pumps.
unfoldable pub output_event : JobId → Pipe × Bytes → JobEvent
output_event id (out_pipe, bytes) = stdout id bytes
output_event id (err_pipe, bytes) = stderr id bytes

unfoldable pub sends_before_exit : Process → Sends
unfolding interleave pump
sends_before_exit p = interleave p.schedule (pump p.stdout_reads) (pump p.stderr_reads)

unfoldable pub exit_of : Process → ExitStatus
unfolding end_of status_of
exit_of p = status_of (end_of p.ended).0

-- `supervise`: the events that it and the pumps send, in the order of the channel.
unfoldable pub supervise : JobId → Process → List JobEvent
unfolding sends_before_exit output_event exit_of
supervise id p =
    let s = sends_before_exit p in
    let late = interleave p.late_schedule s.out_rest s.err_rest in
    started id ∷ map (output_event id) s.sent
    ++ exited id (exit_of p) ∷ map (output_event id) late.sent
