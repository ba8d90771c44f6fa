-- ===== src/Server/Connection/Conforms.antt =====
-- The messages that a connection writes follow the protocol, as the automaton of View reads it.
use rust_build_server.Prelude.{
  ◌≡◌, refl, sym, ◌∙◌, Bool, true, false, List, [], ◌∷◌, ◌++◌, Option, none, some, ◌==◌, ==_iff,
  if◌then◌else◌, ◌⊎◌, inl, inr, Bool-cases, Option-cases, Result-cases, arith, Bytes, pos,
}
use mathlib.Core.Path.{subst}
use rust_build_server.Proto.Job.{
  JobId, JobRequest, JobEvent, queued, started, stdout, stderr, exited, rejected, RejectReason,
  exit_signal, is_terminal,
}
use rust_build_server.Proto.Job
use rust_build_server.Proto.Message.{ClientMessage, ServerMessage, event}
use rust_build_server.Proto.Message
use rust_build_server.Server.Runner.Outputs.{
  Runs, exits, prints, Spawned, starts, supervise-Spawned,
}
use rust_build_server.Server.Scheduler.{Decision, accept, queue, reject_saturated}
use rust_build_server.Server.Connection.View.{
  Seen, nothing, in_queue, started_job, see, see_effect, see_all, see_all-append,
}
use rust_build_server.Server.Connection.{
  Active, no_job, waiting, running, Answers, Taken, received, read_error, released, job_event, Turn,
  Effect, wrote, admitted, launched, launch_failed, scheduler_dropped, dequeued, Flow, goes_on,
  returns, fails, Stepped, write, write_error, send_event, start_job, decided, submit_idle,
  handle_submit, not_active, handle_cancel, handle_msg, forward, take_up, cleanup, Rounds, go_on,
  rounds, rounds-none, rounds-some, serve,
}

-- What the client has seen is what the connection holds, and the runner's events that wait go on from it.
abbrev Agrees : Active → Seen → Type 0
Agrees no_job nothing = Unit
Agrees (waiting id req) (in_queue j) = j ≡ id
Agrees (running id events) nothing = Spawned id events
Agrees (running id events) (in_queue j) = (j ≡ id) × Spawned id events
Agrees (running id events) (started_job j) = (j ≡ id) × Runs id events
Agrees active seen = ⊥

-- The effects of a step are seen without a breach, and agree with what it leaves if it does not fail.
abbrev Holds : Seen → Stepped → Type 0
Holds seen s =
    (after : Seen) × (see_all seen s.effects ≡ some after)
    × ((s.flow ≡ fails) ⊎ Agrees s.active after)

write-Holds :
    (w : Answers) (active : Active) (effects : List Effect) (m : ServerMessage)
    (seen mid after : Seen)
    → see_all seen effects ≡ some mid
    → see_effect mid (wrote m) ≡ some after
    → Agrees active after
    → Holds seen (write w active effects m)
unfolding write see_all
write-Holds w active effects m seen mid after h one agrees = elim (Bool-cases w.writable) [
  | inl can ↦
      rw can
        (after, see_all-append seen mid effects (wrote m ∷ []) h ∙ ground (arith, one), inr agrees)
  | inr cannot ↦ rw cannot (mid, h, inl refl)
]

-- With no effect before it, and a message that is no event.
reply-Holds :
    (w : Answers) (active : Active) (m : ServerMessage) (seen : Seen)
    → see_effect seen (wrote m) ≡ some seen
    → Agrees active seen
    → Holds seen (write w active [] m)
unfolding see_all
reply-Holds w active m seen one agrees = write-Holds w active [] m seen seen seen refl one agrees

-- A job that is about to start: the client has seen it in the queue, or has seen nothing.
abbrev Waits : JobId → Seen → Type 0
Waits id nothing = Unit
Waits id (in_queue j) = j ≡ id
Waits id (started_job j) = ⊥

see-rejected :
    (id : JobId) (reason : RejectReason) (seen : Seen)
    → Waits id seen
    → see_effect seen (wrote (event (rejected id reason))) ≡ some nothing
unfolding see_effect see
see-rejected id reason nothing h = refl
see-rejected id reason (in_queue j) h = ground (arith, h)
see-rejected id reason (started_job j) h = absurd h

running-Agrees :
    (id : JobId) (events : List JobEvent) (seen : Seen)
    → Waits id seen
    → Spawned id events
    → Agrees (running id events) seen
running-Agrees id events nothing h s = s
running-Agrees id events (in_queue j) h s = (h, s)
running-Agrees id events (started_job j) h s = absurd h

start_job-Holds :
    (w : Answers) (id : JobId) (effects : List Effect) (seen : Seen)
    → see_all seen effects ≡ some seen
    → Waits id seen
    → Holds seen (start_job w id effects)
unfolding start_job send_event see_all see_effect
start_job-Holds w id effects seen h waits = elim (Result-cases w.spawned) [
  | inl (process, spawned) ↦ rw spawned (
    seen,
    see_all-append seen seen effects (launched id ∷ []) h,
    inr (running-Agrees id _ seen waits (supervise-Spawned id process)),
  )
  | inr (reason, refused) ↦ rw refused (
      write-Holds w no_job (effects ++ launch_failed id ∷ []) (event (rejected id reason)) seen seen
        nothing (see_all-append seen seen effects (launch_failed id ∷ []) h)
        (see-rejected id reason seen waits) tt)
]

decided-Holds :
    (w : Answers) (req : JobRequest) (id : JobId) (d : Decision)
    → Holds nothing (decided w req id d)
unfolding decided send_event see_all see_effect see
decided-Holds w req id accept = start_job-Holds w id (admitted id ∷ []) nothing refl tt
decided-Holds w req id (queue position) =
    write-Holds w (waiting id req) (admitted id ∷ []) (event (queued id position)) nothing nothing
      (in_queue id) refl refl refl
decided-Holds w req id reject_saturated =
    write-Holds w no_job [] (event (rejected id Job.saturated)) nothing nothing nothing refl refl tt

-- With no job active, nothing is left to see.
submit_idle-Holds : (w : Answers) (req : JobRequest) → Holds nothing (submit_idle w req)
unfolding submit_idle send_event see_all see_effect see
submit_idle-Holds w req = elim (Result-cases w.cwd_check) [
  | inr (reason, refused) ↦ rw refused (
      write-Holds w no_job [] (event (rejected w.next_id reason)) nothing nothing nothing refl refl
        tt)
  | inl (_, found) ↦ elim (Result-cases w.toolchain_check) [
    | inr (reason, refused) ↦
        rw (found, refused)
          (write-Holds w no_job [] (event (rejected w.next_id reason)) nothing nothing nothing refl
            refl tt)
    | inl (_, same) ↦ rw (found, same) (decided-Holds w req w.next_id w.decision)
  ]
]

write_error-Holds :
    (w : Answers) (active : Active) (message : Bytes) (seen : Seen)
    → Agrees active seen
    → Holds seen (write_error w active message)
unfolding write_error see_effect
write_error-Holds w active message seen agrees = reply-Holds w active _ seen refl agrees

handle_submit-Holds :
    (w : Answers) (active : Active) (req : JobRequest) (seen : Seen)
    → Agrees active seen
    → Holds seen (handle_submit w active req)
unfolding handle_submit
handle_submit-Holds w no_job req nothing agrees = submit_idle-Holds w req
handle_submit-Holds w no_job req (in_queue j) agrees = absurd agrees
handle_submit-Holds w no_job req (started_job j) agrees = absurd agrees
handle_submit-Holds w (waiting id r) req seen agrees =
    write_error-Holds w (waiting id r) _ seen agrees
handle_submit-Holds w (running id events) req seen agrees =
    write_error-Holds w (running id events) _ seen agrees

not_active-Holds :
    (w : Answers) (active : Active) (id : JobId) (seen : Seen)
    → Agrees active seen
    → Holds seen (not_active w active id)
unfolding not_active
not_active-Holds w active id seen agrees = write_error-Holds w active _ seen agrees

dequeue-Holds :
    (w : Answers) (j id : JobId)
    → j ≡ id
    → Holds (in_queue j) (send_event w no_job (dequeued id ∷ []) (exited id (exit_signal (pos 15))))
unfolding send_event see_all see_effect see
dequeue-Holds w j id same =
    write-Holds w no_job (dequeued id ∷ []) (event (exited id (exit_signal (pos 15)))) (in_queue j)
      (in_queue j) nothing refl (ground (arith, same)) tt

-- That the identifier of the running job is written anew changes nothing.
same_job :
    (active id : JobId) (events : List JobEvent) (seen : Seen)
    → active ≡ id
    → Agrees (running active events) seen
    → Agrees (running id events) seen
same_job active id events seen same agrees = subst (λ t. Agrees (running t events) seen) same agrees

handle_cancel-Holds :
    (w : Answers) (active : Active) (id : JobId) (seen : Seen)
    → Agrees active seen
    → Holds seen (handle_cancel w active id)
unfolding handle_cancel see_all see_effect
handle_cancel-Holds w no_job id seen agrees = not_active-Holds w no_job id seen agrees
handle_cancel-Holds w (waiting active req) id nothing agrees = absurd agrees
handle_cancel-Holds w (waiting active req) id (started_job j) agrees = absurd agrees
handle_cancel-Holds w (waiting active req) id (in_queue j) agrees =
    elim (Bool-cases (active == id)) [
      | inl same ↦ rw same (dequeue-Holds w j id (agrees ∙ (==_iff active id).0 same))
      | inr other ↦ rw other (not_active-Holds w (waiting active req) id (in_queue j) agrees)
    ]
handle_cancel-Holds w (running active events) id seen agrees = elim (Bool-cases (active == id)) [
  | inl same ↦
      rw same (seen, refl, inr (same_job active id events seen ((==_iff active id).0 same) agrees))
  | inr other ↦ rw other (not_active-Holds w (running active events) id seen agrees)
]

handle_msg-Holds :
    (w : Answers) (active : Active) (m : ClientMessage) (seen : Seen)
    → Agrees active seen
    → Holds seen (handle_msg w active m)
unfolding handle_msg see_effect
handle_msg-Holds w active (Message.hello version) seen agrees =
    write_error-Holds w active _ seen agrees
handle_msg-Holds w active Message.status seen agrees = reply-Holds w active _ seen refl agrees
handle_msg-Holds w active (Message.submit req) seen agrees =
    handle_submit-Holds w active req seen agrees
handle_msg-Holds w active (Message.cancel id) seen agrees =
    handle_cancel-Holds w active id seen agrees

-- An event that is seen as the automaton goes on.
forward-Holds :
    (w : Answers) (id : JobId) (ev : JobEvent) (events : List JobEvent) (seen after : Seen)
    → Agrees (running id (ev ∷ events)) seen
    → see seen ev ≡ some after
    → Agrees (if is_terminal ev then no_job else running id events) after
    → Holds seen (forward w id (ev ∷ events))
unfolding forward see_all see_effect
forward-Holds w id ev events seen after before sees agrees = elim (Bool-cases w.writable) [
  | inl can ↦ rw can (after, ground (arith, sees), inr agrees)
  | inr cannot ↦ rw cannot (seen, refl, inl refl)
]

Spawned-Holds :
    (w : Answers) (id : JobId) {events : List JobEvent} (seen : Seen)
    → Waits id seen
    → Spawned id events
    → Holds seen (forward w id events)
unfolding see is_terminal
Spawned-Holds w id nothing waits (starts h) =
    forward-Holds w id (started id) _ nothing (started_job id) (starts h) refl (refl, h)
Spawned-Holds w id (in_queue j) waits (starts h) =
    forward-Holds w id (started id) _ (in_queue j) (started_job id) (waits, starts h)
      (ground (arith, waits)) (refl, h)
Spawned-Holds w id (started_job j) waits (starts h) = absurd waits

Runs-Holds :
    (w : Answers) (id : JobId) {events : List JobEvent} (j : JobId)
    → j ≡ id
    → Runs id events
    → Holds (started_job j) (forward w id events)
unfolding see is_terminal
Runs-Holds w id j same (exits status late) =
    forward-Holds w id (exited id status) late (started_job j) nothing (same, exits status late)
      (ground (arith, same)) tt
Runs-Holds w id j same (prints {ev = stdout i bytes} out h) =
    forward-Holds w id (stdout i bytes) _ (started_job j) (started_job j) (same, prints out h)
      (ground (arith, same, out)) (same, h)
Runs-Holds w id j same (prints {ev = stderr i bytes} out h) =
    forward-Holds w id (stderr i bytes) _ (started_job j) (started_job j) (same, prints out h)
      (ground (arith, same, out)) (same, h)
Runs-Holds w id j same (prints {ev = queued i position} out h) = absurd out
Runs-Holds w id j same (prints {ev = started i} out h) = absurd out
Runs-Holds w id j same (prints {ev = exited i status} out h) = absurd out
Runs-Holds w id j same (prints {ev = rejected i reason} out h) = absurd out

events-Holds :
    (w : Answers) (id : JobId) (events : List JobEvent) (seen : Seen)
    → Agrees (running id events) seen
    → Holds seen (forward w id events)
events-Holds w id events nothing agrees = Spawned-Holds w id nothing tt agrees
events-Holds w id events (in_queue j) agrees = Spawned-Holds w id (in_queue j) agrees.0 agrees.1
events-Holds w id events (started_job j) agrees = Runs-Holds w id j agrees.0 agrees.1

-- What a turn does where the loop offers it.
abbrev Offered : Seen → Option Stepped → Type 0
Offered seen none = Unit
Offered seen (some s) = Holds seen s

released-Holds :
    (w : Answers) (id : JobId) (req : JobRequest) (sent : Bool) (seen : Seen)
    → Agrees (waiting id req) seen
    → Offered seen (take_up w (waiting id req) (released sent))
unfolding take_up see_all see_effect send_event
released-Holds w id req sent nothing agrees = absurd agrees
released-Holds w id req sent (started_job j) agrees = absurd agrees
released-Holds w id req true (in_queue j) agrees = start_job-Holds w id [] (in_queue j) refl agrees
released-Holds w id req false (in_queue j) agrees =
    write-Holds w no_job (scheduler_dropped id ∷ []) _ (in_queue j) (in_queue j) nothing refl
      (see-rejected id _ (in_queue j) agrees) tt

take_up-Holds :
    (w : Answers) (active : Active) (taken : Taken) (seen : Seen)
    → Agrees active seen
    → Offered seen (take_up w active taken)
unfolding take_up see_all
take_up-Holds w active (received none) seen agrees = (seen, refl, inr agrees)
take_up-Holds w active (received (some m)) seen agrees = handle_msg-Holds w active m seen agrees
take_up-Holds w active read_error seen agrees = (seen, refl, inl refl)
take_up-Holds w (waiting id req) (released sent) seen agrees =
    released-Holds w id req sent seen agrees
take_up-Holds w (running id events) job_event seen agrees = events-Holds w id events seen agrees
take_up-Holds w no_job (released sent) seen agrees = tt
take_up-Holds w no_job job_event seen agrees = tt
take_up-Holds w (waiting id req) job_event seen agrees = tt
take_up-Holds w (running id events) (released sent) seen agrees = tt

cleanup-unseen : (active : Active) (seen : Seen) → see_all seen (cleanup active) ≡ some seen
unfolding cleanup see_all see_effect
cleanup-unseen no_job seen = refl
cleanup-unseen (waiting id req) seen = refl
cleanup-unseen (running id events) seen = refl

-- What a loop leaves, from what the client has seen before it.
abbrev pub Kept : Seen → Rounds → Type 0
Kept seen r =
    (after : Seen) × (see_all seen r.effects ≡ some after)
    × ((r.flow ≡ fails) ⊎ Agrees r.active after)

go_on-Kept :
    (active : Active) (effects : List Effect) (flow : Flow) (rest : Rounds) (seen : Seen)
    → Holds seen (record { active = active; effects = effects; flow = flow })
    → ((after : Seen) → Agrees active after → Kept after rest)
    → Kept seen (go_on (record { active = active; effects = effects; flow = flow }) rest)
unfolding go_on
go_on-Kept active effects returns rest seen h later = h
go_on-Kept active effects fails rest seen h later = (h.0, h.1, inl refl)
go_on-Kept active effects goes_on rest seen (mid, sees, inl bad) later =
    absurd (ground (arith, bad))
go_on-Kept active effects goes_on rest seen (mid, sees, inr agrees) later =
    let k = later mid agrees in (k.0, see_all-append seen mid effects rest.effects sees ∙ k.1, k.2)

rounds-Kept :
    (active : Active) (turns : List Turn) (seen : Seen)
    → Agrees active seen
    → Kept seen (rounds active turns)
unfolding rounds see_all
rounds-Kept active [] seen agrees = (seen, refl, inr agrees)
rounds-Kept active (t ∷ turns) seen agrees =
    elim (Option-cases (take_up t.answers active t.taken)) [
      | inl passed ↦
          subst (λ r. Kept seen r) (sym (rounds-none active t turns passed))
            (rounds-Kept active turns seen agrees)
      | inr (s, e) ↦
          let held =
            subst (λ o. Offered seen o) e (take_up-Holds t.answers active t.taken seen agrees) in
          subst (λ r. Kept seen r) (sym (rounds-some active t turns s e))
            (go_on-Kept s.active s.effects s.flow (rounds s.active turns) seen held
              (rounds-Kept s.active turns))
    ]

-- Whatever a client sends and whatever the shared parts answer, in any order of the turns and wherever the
-- connection breaks, the events that it writes follow the protocol of one job at a time: `queued`, then
-- `started`, `exited` or `rejected` with the same identifier; or `started`, then outputs of this job, then
-- its `exited`; or `rejected`; and no other event.
pub serve-Conforms :
    (turns : List Turn) → (after : Seen) × (see_all nothing (serve turns).effects ≡ some after)
unfolding serve
serve-Conforms turns =
    let k = rounds-Kept no_job turns nothing tt in
    let r = rounds no_job turns in
    (k.0, see_all-append nothing k.0 r.effects (cleanup r.active) k.1 ∙ cleanup-unseen r.active k.0)
