-- ===== src/Client/Submit.antt =====
-- `submit` of crates/rbs-client/src/shim.rs: a job is submitted on a connection and its events are
-- followed to the last. What the loop's `select!` gives is the list of turns; when it ends, the peer has
-- closed the connection. Errors of the connection are texts.
pub mod Events
use rust_build_server.Prelude.{
  Bool, true, false, List, [], ◌∷◌, ◌++◌, Option, none, some, Bytes, codes, pos, Result, ok, err,
}
use rust_build_server.Proto.Toolchain.{ToolchainFingerprint}
use rust_build_server.Proto.Job.{
  JobId, JobRequest, ExitStatus, exit_signal, RejectReason, toolchain_mismatch, saturated,
  version_mismatch, internal, JobEvent, queued, started, stdout, stderr, exited, rejected, event_id,
}
use rust_build_server.Proto.Message.{
  ClientMessage, submit, cancel, ServerMessage, hello, status, event, error,
}
use rust_build_server.Toolchain.{Mismatch}
use rust_build_server.Client.Transport.{TransportError, closed, protocol, unexpected}

-- What a run does to the outside. `finished`, `no_fingerprint`, `no_backend` and `gave_up` are its log lines
-- on the end of a job, on a toolchain that is not known, on an empty chain and on the end of the chain, and
-- `reported` writes a toolchain mismatch to stderr, as an error if the flag is set.
pub data Effect : Type 0 where
  sent : ClientMessage → Effect
  wrote_stdout wrote_stderr : Bytes → Effect
  pushed : (root host : Bytes) → Effect
  pulled : (root : Bytes) → Effect
  spawned_touch : (dir : Bytes) → Effect
  finished : ExitStatus → Effect
  reported : Bool → Mismatch → Effect
  no_fingerprint : Bytes → Effect
  no_backend gave_up : Effect
  exec_local : (argv : List Bytes) → Effect

pub data Outcome : Type 0 where
  job_exited : ExitStatus → Outcome
  mismatch : (server_host : Bytes) (server client : ToolchainFingerprint) → Outcome
  busy : Outcome
  refused : Bytes → Outcome
  transport : TransportError Bytes → Outcome

-- A turn of the loop: what `recv` gave, or an interrupt by the user with what the sending of `Cancel`,
-- if there is one, gives.
pub data Turn : Type 0 where
  received : Result (TransportError Bytes) (Option ServerMessage) → Turn
  interrupted : Result (TransportError Bytes) Unit → Turn

unfoldable pub outcome_of : (server_host : Bytes) → RejectReason → Outcome
outcome_of server_host (toolchain_mismatch server client) = mismatch server_host server client
outcome_of server_host saturated = busy
outcome_of server_host version_mismatch = refused (codes "protocol version mismatch")
outcome_of server_host (internal m) = refused (codes "internal: " ++ m)

abbrev pub after : {R : Type 0} → Effect → R × List Effect → R × List Effect
after e (r, es) = (r, e ∷ es)

-- What an event does: the loop goes on with `next`, or ends.
unfoldable pub on_event :
    (server_host : Bytes) → JobEvent → Outcome × List Effect → Outcome × List Effect
unfolding outcome_of
on_event host (queued id position) next = next
on_event host (started id) next = next
on_event host (stdout id bytes) next = after (wrote_stdout bytes) next
on_event host (stderr id bytes) next = after (wrote_stderr bytes) next
on_event host (exited id code) next = (job_exited code, [])
on_event host (rejected id reason) next = (outcome_of host reason, [])

-- `if id.is_none() { id = Some(ev.id()) }`
unfoldable pub first_id : Option JobId → JobEvent → Option JobId
first_id none ev = some (event_id ev)
first_id (some id) ev = some id

-- The loop, with its `id` and `cancelled`. Once the signal has been taken, the guard of `select!` lets no
-- other through.
unfoldable pub submit_loop :
    (server_host : Bytes) → Option JobId → Bool → List Turn → Outcome × List Effect
submit_loop host id cancelled [] = (transport closed, [])
submit_loop host id true (interrupted r ∷ turns) = submit_loop host id true turns
submit_loop host none false (interrupted r ∷ turns) = (job_exited (exit_signal (pos 2)), [])
submit_loop host (some id) false (interrupted (err e) ∷ turns) = (transport e, [])
submit_loop host (some id) false (interrupted (ok u) ∷ turns) =
    after (sent (cancel id)) (submit_loop host (some id) true turns)
submit_loop host id cancelled (received (err e) ∷ turns) = (transport e, [])
submit_loop host id cancelled (received (ok none) ∷ turns) = (transport closed, [])
submit_loop host id cancelled (received (ok (some (event ev))) ∷ turns) =
    on_event host ev (submit_loop host (first_id id ev) cancelled turns)
submit_loop host id cancelled (received (ok (some (error e))) ∷ turns) =
    (transport (protocol e.message), [])
submit_loop host id cancelled (received (ok (some (hello v s))) ∷ turns) =
    (transport (unexpected (hello v s)), [])
submit_loop host id cancelled (received (ok (some (status s))) ∷ turns) =
    (transport (unexpected (status s)), [])

-- A connection that is open for a submission: what the sending of `Submit` gives, and the turns after it.
pub record Session : Type 0 where
  pub send_result : Result (TransportError Bytes) Unit
  pub turns : List Turn

unfoldable pub submit_job_to : Session → JobRequest → (server_host : Bytes) → Outcome × List Effect
submit_job_to s request host = elim s.send_result [
  | err e ↦ (transport e, [])
  | ok u ↦ after (sent (submit request)) (submit_loop host none false s.turns)
]
