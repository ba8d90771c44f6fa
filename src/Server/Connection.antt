-- ===== src/Server/Connection.antt =====
-- crates/rbs-server/src/socket.rs, `Connection` and `handle_connection`: the protocol of one client. What
-- the loop's `select!` takes up is a turn, with what the shared parts answer in it and whether the socket
-- can be written; a turn writes one message at most. The effects are kept in their order: the messages
-- written, and what the connection asks of the scheduler, of the runner and of the waiters. The runner's
-- events wait in `Active` until a turn takes them; the channel closes after the last.
pub mod View
pub mod Conforms
pub mod Ledger
pub mod Examples
use rust_build_server.Prelude.{
  ℕ, ◌≡◌, arith, Bool, true, false, List, [], ◌∷◌, ◌++◌, Option, none, some, ◌==◌, if◌then◌else◌,
  Bytes, codes, decimal, Result, ok, err, negsuc, pos,
}
use rust_build_server.Proto.Job.{
  JobId, JobRequest, JobEvent, queued, exited, rejected, exit_signal, RejectReason, is_terminal,
}
use rust_build_server.Proto.Job
use rust_build_server.Proto.Status.{ServerStatus, ServerIdentity}
use rust_build_server.Proto.Message
use rust_build_server.Proto.Message.{
  ClientMessage, ServerMessage, event, ProtoErrorCode, unexpected_message,
}
use rust_build_server.Server.Runner.{Process, supervise}
use rust_build_server.Server.Scheduler.{Decision, accept, queue, reject_saturated}

abbrev pub protocol_version : ℕ
protocol_version = 1

pub data Active : Type 0 where
  no_job : Active
  waiting : (id : JobId) → JobRequest → Active
  running : (id : JobId) → (events : List JobEvent) → Active

-- What the shared parts answer to what a turn asks of them.
pub record Answers : Type 0 where
  pub next_id : JobId
  pub cwd_check : Result RejectReason Unit
  pub toolchain_check : Result RejectReason Unit
  pub decision : Decision
  pub spawned : Result RejectReason Process
  pub server_status : ServerStatus
  pub writable : Bool

-- What a turn takes up: a message or the end of the stream, an error of the stream, the one-shot channel
-- of a queued job, with whether its sender has sent, or the next event of a running job.
pub data Taken : Type 0 where
  received : Option ClientMessage → Taken
  read_error : Taken
  released : Bool → Taken
  job_event : Taken

pub record Turn : Type 0 where
  pub taken : Taken
  pub answers : Answers

pub data Effect : Type 0 where
  wrote : ServerMessage → Effect
  admitted launched launch_failed scheduler_dropped dequeued : JobId → Effect
  cancelled cancel_dropped : JobId → Effect

-- Whether the loop of `run` goes on; it returns `Ok`, or an error of the stream.
pub data Flow : Type 0 where
  goes_on returns fails : Flow

pub record Stepped : Type 0 where
  pub active : Active
  pub effects : List Effect
  pub flow : Flow

-- `write_msg(...).await`, in a step that has set `active`, after the effects that it has had.
unfoldable pub write : Answers → Active → List Effect → ServerMessage → Stepped
write w active effects m =
    if w.writable
    then record { active = active; effects = effects ++ wrote m ∷ []; flow = goes_on }
    else record { active = active; effects = effects; flow = fails }

unfoldable pub write_error : Answers → Active → (message : Bytes) → Stepped
unfolding write
write_error w active message =
    write w active [] (Message.error (record { code = unexpected_message; message = message }))

unfoldable pub send_event : Answers → Active → List Effect → JobEvent → Stepped
unfolding write
send_event w active effects ev = write w active effects (event ev)

-- `start`, with `launch`: where the runner refuses, `launch` has given the slot back.
unfoldable pub start_job : Answers → JobId → List Effect → Stepped
unfolding send_event
start_job w id effects = elim w.spawned [
  | ok process ↦ record {
    active = running id (supervise id process);
    effects = effects ++ launched id ∷ [];
    flow = goes_on;
  }
  | err reason ↦ send_event w no_job (effects ++ launch_failed id ∷ []) (rejected id reason)
]

-- `handle_submit` from the scheduler's decision on.
unfoldable pub decided : Answers → JobRequest → JobId → Decision → Stepped
unfolding start_job send_event
decided w req id accept = start_job w id (admitted id ∷ [])
decided w req id (queue position) =
    send_event w (waiting id req) (admitted id ∷ []) (queued id position)
decided w req id reject_saturated = send_event w no_job [] (rejected id Job.saturated)

-- With no job active.
unfoldable pub submit_idle : Answers → JobRequest → Stepped
unfolding send_event decided
submit_idle w req = elim w.cwd_check [
  | err reason ↦ send_event w no_job [] (rejected w.next_id reason)
  | ok u ↦ elim w.toolchain_check [
    | err reason ↦ send_event w no_job [] (rejected w.next_id reason)
    | ok u ↦ decided w req w.next_id w.decision
  ]
]

unfoldable pub handle_submit : Answers → Active → JobRequest → Stepped
unfolding submit_idle write_error
handle_submit w no_job req = submit_idle w req
handle_submit w (waiting id r) req =
    write_error w (waiting id r) (codes "a job is already active on this connection")
handle_submit w (running id events) req =
    write_error w (running id events) (codes "a job is already active on this connection")

unfoldable pub not_active : Answers → Active → JobId → Stepped
unfolding write_error
not_active w active id =
    write_error w active (codes "job " ++ decimal id ++ codes " is not active on this connection")

unfoldable pub handle_cancel : Answers → Active → JobId → Stepped
unfolding not_active send_event
handle_cancel w no_job id = not_active w no_job id
handle_cancel w (waiting active req) id =
    if active == id
    then send_event w no_job (dequeued id ∷ []) (exited id (exit_signal (pos 15)))
    else not_active w (waiting active req) id
handle_cancel w (running active events) id =
    if active == id
    then record { active = running id events; effects = cancelled id ∷ []; flow = goes_on }
    else not_active w (running active events) id

unfoldable pub handle_msg : Answers → Active → ClientMessage → Stepped
unfolding handle_submit handle_cancel write_error write
handle_msg w active (Message.hello version) = write_error w active (codes "duplicate hello")
handle_msg w active Message.status = write w active [] (Message.status w.server_status)
handle_msg w active (Message.submit req) = handle_submit w active req
handle_msg w active (Message.cancel id) = handle_cancel w active id

-- An event of the running job, or the end of its channel.
unfoldable pub forward : Answers → JobId → List JobEvent → Stepped
forward w id [] = record { active = no_job; effects = []; flow = goes_on }
forward w id (ev ∷ events) =
    if w.writable
    then record {
      active = if is_terminal ev then no_job else running id events;
      effects = wrote (event ev) ∷ [];
      flow = goes_on;
    }
    else record { active = running id events; effects = []; flow = fails }

-- One round of the loop of `run`; `none` where the round's `select!` does not offer what the turn takes.
unfoldable pub take_up : Answers → Active → Taken → Option Stepped
unfolding handle_msg start_job send_event forward
take_up w active (received none) = some (record { active = active; effects = []; flow = returns })
take_up w active (received (some m)) = some (handle_msg w active m)
take_up w active read_error = some (record { active = active; effects = []; flow = fails })
take_up w (waiting id req) (released true) = some (start_job w id [])
take_up w (waiting id req) (released false) = some (
    send_event w no_job (scheduler_dropped id ∷ [])
      (rejected id (Job.internal (codes "scheduler dropped job"))))
take_up w (running id events) job_event = some (forward w id events)
take_up w active taken = none

unfoldable pub cleanup : Active → List Effect
cleanup no_job = []
cleanup (waiting id req) = dequeued id ∷ []
cleanup (running id events) = cancel_dropped id ∷ []

-- The rounds of the loop, as far as the turns go: what is active after them, the effects, and whether the
-- loop has ended. A turn that is not offered is passed over.
pub record Rounds : Type 0 where
  pub active : Active
  pub effects : List Effect
  pub flow : Flow

-- A round's step, and what the loop does after it, where it goes on.
unfoldable pub go_on : Stepped → Rounds → Rounds
go_on s rest = elim s.flow [
  | goes_on ↦ record rest { effects = s.effects ++ rest.effects }
  | returns ↦ record { active = s.active; effects = s.effects; flow = returns }
  | fails ↦ record { active = s.active; effects = s.effects; flow = fails }
]

unfoldable pub rounds : Active → List Turn → Rounds
unfolding take_up go_on
rounds active [] = record { active = active; effects = []; flow = goes_on }
rounds active (t ∷ turns) = elim (take_up t.answers active t.taken) [
  | none ↦ rounds active turns
  | some s ↦ go_on s (rounds s.active turns)
]

pub rounds-none :
    (active : Active) (t : Turn) (turns : List Turn)
    → take_up t.answers active t.taken ≡ none
    → rounds active (t ∷ turns) ≡ rounds active turns
unfolding rounds
rounds-none active t turns e = ground (arith, e)

pub rounds-some :
    (active : Active) (t : Turn) (turns : List Turn) (s : Stepped)
    → take_up t.answers active t.taken ≡ some s
    → rounds active (t ∷ turns) ≡ go_on s (rounds s.active turns)
unfolding rounds
rounds-some active t turns s e = ground (arith, e)

-- The first message, with the identity of the server: the message that is written, and whether the loop
-- is entered.
unfoldable pub handshake : ServerIdentity → Option ClientMessage → Option ServerMessage × Bool
handshake identity none = (none, false)
handshake identity (some (Message.hello version)) =
    if version == protocol_version
    then (some (Message.hello protocol_version identity), true)
    else (
      some (
          Message.error (record {
            code = Message.version_mismatch;
            message =
                codes "server speaks protocol "
                ++ decimal protocol_version
                ++ codes ", client sent "
                ++ decimal version;
          })),
      false,
    )
handshake identity (some _) = (
  some (
      Message.error
        (record { code = unexpected_message; message = codes "first message must be hello" })),
  false,
)

-- `handle_connection` after a handshake that has succeeded, once the loop has ended.
unfoldable pub serve : List Turn → Rounds
unfolding rounds cleanup
serve turns =
    let r = rounds no_job turns in
    record r { active = no_job; effects = r.effects ++ cleanup r.active }
