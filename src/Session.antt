-- ===== src/Session.antt =====
-- A connection of crates/rbs-server/src/socket.rs and a submission of crates/rbs-client/src/shim.rs put
-- together: what the server writes is what the client receives.
mod Examples
use rust_build_server.Prelude.{
  ℕ, suc, ◌≡◌, refl, ap, sym, ◌∙◌, arith, Bool, true, false, List, [], ◌∷◌, ◌++◌, map, length,
  replicate, Option, none, some, if◌then◌else◌, Bytes, Result, ok, All,
}
use mathlib.Core.List.{append_assoc, append-nil}
use rust_build_server.Proto.Job.{
  JobId, JobRequest, JobEvent, queued, started, stdout, stderr, exited, rejected, is_terminal,
}
use rust_build_server.Proto.Message.{ClientMessage, submit, event}
use rust_build_server.Client.Submit.{
  Turn, received, Outcome, job_exited, submit_job_to, sent, wrote_stdout, wrote_stderr,
}
use rust_build_server.Client.Submit
use rust_build_server.Client.Submit.Events.{IsRunning, got, outputs, submit_job_to-events}
use rust_build_server.Server.Scheduler.{Decision, accept, queue}
use rust_build_server.Server.Runner.{
  Pipe, out_pipe, err_pipe, Process, Sends, supervise, exit_of, output_event, sends_before_exit,
  interleave,
}
use rust_build_server.Server.Runner.Outputs.{
  printed, until_exit, until_exit-outputs, joined, rest_of, reads_of, readable, supervise-bytes,
}
use rust_build_server.Server.Connection.{
  Active, no_job, running, Answers, Taken, job_event, goes_on, Stepped, take_up, Rounds, Effect,
  wrote, rounds, serve, cleanup, released, dequeued, cancel_dropped, forward, go_on, rounds-some,
}
use rust_build_server.Server.Connection

-- The messages among the effects of a connection, as its peer receives them.
unfoldable pub arrivals : List Effect → List Turn
arrivals [] = []
arrivals (wrote m ∷ effects) = received (ok (some m)) ∷ arrivals effects
arrivals (_ ∷ effects) = arrivals effects

-- A submission that reads them.
unfoldable pub reading : List Effect → Submit.Session
unfolding arrivals
reading effects = record { send_result = ok tt; turns = arrivals effects }

abbrev pub turn : Answers → Taken → Connection.Turn
turn w taken = record { taken = taken; answers = w }

-- The events that a client reads of a process.
unfoldable pub events_of : JobId → Process → List JobEvent
unfolding sends_before_exit output_event
events_of id p = started id ∷ map (output_event id) (sends_before_exit p).sent

-- What a turn that takes an event and can write does.
abbrev forwarded : Active → JobEvent → Stepped
forwarded active ev = record { active = active; effects = wrote (event ev) ∷ []; flow = goes_on }

forward-forwarded :
    (w : Answers) (id : JobId) (ev : JobEvent) (events : List JobEvent) (active : Active)
    → w.writable ≡ true
    → (if is_terminal ev then no_job else running id events) ≡ active
    → forward w id (ev ∷ events) ≡ forwarded active ev
unfolding forward
forward-forwarded w id ev events active can next = ground (arith, can, next)

rounds-job_event :
    (w : Answers) (id : JobId) (ev : JobEvent) (events : List JobEvent) (active : Active)
    (ts : List Connection.Turn)
    → w.writable ≡ true
    → (if is_terminal ev then no_job else running id events) ≡ active
    → (rounds (running id (ev ∷ events)) (turn w job_event ∷ ts)).effects
      ≡ wrote (event ev) ∷ (rounds active ts).effects
unfolding go_on take_up
rounds-job_event w id ev events active ts can next =
    ap (λ r. r.effects)
      (rounds-some (running id (ev ∷ events)) (turn w job_event) ts (forwarded active ev)
        (ap (λ s. some s) (forward-forwarded w id ev events active can next)))

rounds-events :
    (w : Answers) (id : JobId) (evs : List JobEvent) (final : JobEvent) (late : List JobEvent)
    → w.writable ≡ true
    → All IsRunning evs
    → is_terminal final ≡ true
    → arrivals
        (rounds
          (running id (evs ++ final ∷ late))
          (replicate (suc (length evs)) (turn w job_event))).effects
      ≡ map got evs ++ got final ∷ []
unfolding arrivals rounds
rounds-events w id [] final late can h last =
    ap arrivals (rounds-job_event w id final late no_job [] can (ground (arith, last)))
rounds-events w id (ev ∷ evs) final late can h last =
    ap arrivals (
      rounds-job_event w id ev (evs ++ final ∷ late) (running id (evs ++ final ∷ late))
        (replicate (suc (length evs)) (turn w job_event)) can (ground (arith, h.0)))
    ∙ ap (λ t. got ev ∷ t) (rounds-events w id evs final late can h.1 last)

arrivals-append : (a b : List Effect) → arrivals (a ++ b) ≡ arrivals a ++ arrivals b
unfolding arrivals
arrivals-append [] b = refl
arrivals-append (wrote m ∷ a) b = ap (λ t. received (ok (some m)) ∷ t) (arrivals-append a b)
arrivals-append (Connection.admitted i ∷ a) b = arrivals-append a b
arrivals-append (Connection.launched i ∷ a) b = arrivals-append a b
arrivals-append (Connection.launch_failed i ∷ a) b = arrivals-append a b
arrivals-append (Connection.scheduler_dropped i ∷ a) b = arrivals-append a b
arrivals-append (Connection.dequeued i ∷ a) b = arrivals-append a b
arrivals-append (Connection.cancelled i ∷ a) b = arrivals-append a b
arrivals-append (Connection.cancel_dropped i ∷ a) b = arrivals-append a b

arrivals-cleanup :
    (effects : List Effect) (active : Active)
    → arrivals (effects ++ cleanup active) ≡ arrivals effects
unfolding arrivals cleanup
arrivals-cleanup effects no_job = arrivals-append effects [] ∙ append-nil (arrivals effects)
arrivals-cleanup effects (Connection.waiting id req) =
    arrivals-append effects (dequeued id ∷ []) ∙ append-nil (arrivals effects)
arrivals-cleanup effects (running id events) =
    arrivals-append effects (cancel_dropped id ∷ []) ∙ append-nil (arrivals effects)

-- The answers to a job that the server takes, at once or from a place in the queue, and runs.
abbrev pub granting : Answers → (position : Option ℕ) → Process → Answers
granting w position p = record w {
  cwd_check = ok tt;
  toolchain_check = ok tt;
  decision = elim position [ none ↦ accept | some n ↦ queue n ];
  spawned = ok p;
  writable = true;
}

-- The turns until the job runs, and the events that they write.
abbrev pub opening : Answers → JobRequest → (position : Option ℕ) → List Connection.Turn
opening w req none = turn w (Connection.received (some (submit req))) ∷ []
opening w req (some n) =
    turn w (Connection.received (some (submit req))) ∷ turn w (released true) ∷ []

abbrev pub first_events : JobId → (position : Option ℕ) → List JobEvent
first_events id none = []
first_events id (some n) = queued id n ∷ []

-- The turns of a job to its end.
unfoldable pub whole : Answers → JobRequest → (position : Option ℕ) → Process → List Connection.Turn
unfolding events_of
whole w req position p =
    let g = granting w position p in
    opening g req position ++ replicate (suc (length (events_of w.next_id p))) (turn g job_event)

opening-arrivals :
    (w : Answers) (req : JobRequest) (position : Option ℕ) (p : Process) (ts : List Connection.Turn)
    → let g = granting w position p in
      arrivals (serve (opening g req position ++ ts)).effects
      ≡ map got (first_events w.next_id position)
        ++ arrivals (rounds (running w.next_id (supervise w.next_id p)) ts).effects
unfolding serve rounds arrivals
opening-arrivals w req none p ts =
    let r = rounds (running w.next_id (supervise w.next_id p)) ts in
    arrivals-cleanup r.effects r.active
opening-arrivals w req (some n) p ts =
    let r = rounds (running w.next_id (supervise w.next_id p)) ts in
    ap (λ t. got (queued w.next_id n) ∷ t) (arrivals-cleanup r.effects r.active)

output-IsRunning :
    (id : JobId) (chunks : List (Pipe × Bytes)) → All IsRunning (map (output_event id) chunks)
unfolding output_event is_terminal
output-IsRunning id [] = tt
output-IsRunning id ((out_pipe, bytes) ∷ chunks) = (refl, output-IsRunning id chunks)
output-IsRunning id ((err_pipe, bytes) ∷ chunks) = (refl, output-IsRunning id chunks)

events_of-IsRunning : (id : JobId) (p : Process) → All IsRunning (events_of id p)
unfolding events_of is_terminal
events_of-IsRunning id p = (refl, output-IsRunning id (sends_before_exit p).sent)

whole-arrivals :
    (w : Answers) (req : JobRequest) (position : Option ℕ) (p : Process)
    → arrivals (serve (whole w req position p)).effects
      ≡ map got (first_events w.next_id position)
        ++ (map got (events_of w.next_id p) ++ got (exited w.next_id (exit_of p)) ∷ [])
unfolding whole supervise events_of is_terminal
whole-arrivals w req position p =
    let id = w.next_id in
    opening-arrivals w req position p _
    ∙ ap (λ t. map got (first_events id position) ++ t)
        (rounds-events (granting w position p) id (events_of id p) (exited id (exit_of p)) _ refl
          (events_of-IsRunning id p) refl)

-- What a submission writes on its own stdout or stderr.
unfoldable pub written : Pipe → List Submit.Effect → Bytes
written pipe [] = []
written out_pipe (wrote_stdout bytes ∷ effects) = bytes ++ written out_pipe effects
written err_pipe (wrote_stderr bytes ∷ effects) = bytes ++ written err_pipe effects
written pipe (e ∷ effects) = written pipe effects

written-outputs :
    (pipe : Pipe) (evs : List JobEvent) → written pipe (outputs evs ++ []) ≡ printed pipe evs
unfolding written printed
written-outputs out_pipe [] = refl
written-outputs out_pipe (queued i n ∷ evs) = written-outputs out_pipe evs
written-outputs out_pipe (started i ∷ evs) = written-outputs out_pipe evs
written-outputs out_pipe (stdout i bytes ∷ evs) =
    ap (λ t. bytes ++ t) (written-outputs out_pipe evs)
written-outputs out_pipe (stderr i bytes ∷ evs) = written-outputs out_pipe evs
written-outputs out_pipe (exited i status ∷ evs) = written-outputs out_pipe evs
written-outputs out_pipe (rejected i reason ∷ evs) = written-outputs out_pipe evs
written-outputs err_pipe [] = refl
written-outputs err_pipe (queued i n ∷ evs) = written-outputs err_pipe evs
written-outputs err_pipe (started i ∷ evs) = written-outputs err_pipe evs
written-outputs err_pipe (stdout i bytes ∷ evs) = written-outputs err_pipe evs
written-outputs err_pipe (stderr i bytes ∷ evs) =
    ap (λ t. bytes ++ t) (written-outputs err_pipe evs)
written-outputs err_pipe (exited i status ∷ evs) = written-outputs err_pipe evs
written-outputs err_pipe (rejected i reason ∷ evs) = written-outputs err_pipe evs

written-sent :
    (pipe : Pipe) (m : ClientMessage) (effects : List Submit.Effect)
    → written pipe (sent m ∷ effects) ≡ written pipe effects
unfolding written
written-sent out_pipe m effects = refl
written-sent err_pipe m effects = refl

printed-first_events :
    (pipe : Pipe) (id : JobId) (position : Option ℕ) (evs : List JobEvent)
    → printed pipe (first_events id position ++ evs) ≡ printed pipe evs
unfolding printed
printed-first_events pipe id none evs = refl
printed-first_events out_pipe id (some n) evs = refl
printed-first_events err_pipe id (some n) evs = refl

submitted :
    (w : Answers) (req : JobRequest) (position : Option ℕ) (p : Process) (host : Bytes)
    → submit_job_to (reading (serve (whole w req position p)).effects) req host ≡ (
      job_exited (exit_of p),
      sent (submit req) ∷ outputs (first_events w.next_id position ++ events_of w.next_id p) ++ [],
    )
unfolding events_of is_terminal reading
submitted w req none p host =
    let id = w.next_id in
    ap (λ ts. submit_job_to (record { send_result = ok tt; turns = ts }) req host)
      (whole-arrivals w req none p)
    ∙ submit_job_to-events host req (started id) (map (output_event id) (sends_before_exit p).sent)
        (exited id (exit_of p)) (job_exited (exit_of p)) [] (events_of-IsRunning id p) refl
submitted w req (some n) p host =
    let id = w.next_id in
    ap (λ ts. submit_job_to (record { send_result = ok tt; turns = ts }) req host)
      (whole-arrivals w req (some n) p)
    ∙ submit_job_to-events host req (queued id n) (events_of id p) (exited id (exit_of p))
        (job_exited (exit_of p)) [] (refl, events_of-IsRunning id p) refl

until_exit-supervise : (id : JobId) (p : Process) → until_exit (supervise id p) ≡ events_of id p
unfolding supervise until_exit events_of
until_exit-supervise id p =
    ap (λ t. started id ∷ t) (until_exit-outputs id (sends_before_exit p).sent (exit_of p) _)

-- Where the server takes a job, at once or after a wait in its queue, and the connection holds, the client
-- that reads what the connection writes ends with the exit status of the process; and on each pipe it
-- writes, in their order, the bytes that the process's pipe gave, but for the reads that the runner had not
-- sent when it sent the exit.
pub submit_job_to-serve :
    (w : Answers) (req : JobRequest) (position : Option ℕ) (p : Process) (host : Bytes)
    (pipe : Pipe)
    → let r = submit_job_to (reading (serve (whole w req position p)).effects) req host in
      (r.0 ≡ job_exited (exit_of p))
      × (written pipe r.1 ++ joined (rest_of pipe (sends_before_exit p))
          ≡ readable (reads_of pipe p))
submit_job_to-serve w req position p host pipe =
    let id = w.next_id in
    let done = submitted w req position p host in
    let evs = first_events id position ++ events_of id p in
    (
      ap (λ r. r.0) done,
      ap (λ t. t ++ joined (rest_of pipe (sends_before_exit p)))
            (ap (λ r. written pipe r.1) done
              ∙ written-sent pipe (submit req) (outputs evs ++ [])
              ∙ written-outputs pipe evs
              ∙ printed-first_events pipe id position (events_of id p)
              ∙ ap (printed pipe) (sym (until_exit-supervise id p)))
          ∙ supervise-bytes id p pipe,
    )
