-- ===== src/Client/Submit/Events.antt =====
-- Which events a submission forwards, how it ends, and what an interrupt changes.
use rust_build_server.Prelude.{
  ◌≡◌, refl, ap, sym, ◌∙◌, Bool, true, false, List, [], ◌∷◌, ◌++◌, map, Option, none, some, Bytes,
  ok, All,
}
use mathlib.Core.List.{append_assoc}
use rust_build_server.Proto.Job.{
  JobId, JobRequest, JobEvent, queued, started, stdout, stderr, exited, rejected, event_id,
  is_terminal,
}
use rust_build_server.Proto.Message.{submit, cancel, event}
use rust_build_server.Client.Submit.{
  Effect, sent, wrote_stdout, wrote_stderr, Outcome, job_exited, Turn, received, interrupted,
  outcome_of, after, on_event, first_id, submit_loop, submit_job_to,
}

abbrev pub got : JobEvent → Turn
got ev = received (ok (some (event ev)))

-- What an event that is not the last writes.
abbrev pub output : JobEvent → List Effect
output (stdout id bytes) = wrote_stdout bytes ∷ []
output (stderr id bytes) = wrote_stderr bytes ∷ []
output _ = []

abbrev pub outputs : List JobEvent → List Effect
outputs [] = []
outputs (ev ∷ evs) = output ev ++ outputs evs

-- How a last event ends the submission; the others do not.
abbrev pub EndsWith : Bytes → JobEvent → Outcome → Type 0
EndsWith host (exited id code) o = o ≡ job_exited code
EndsWith host (rejected id reason) o = o ≡ outcome_of host reason
EndsWith host _ o = ⊥

abbrev pub IsRunning : JobEvent → Type 0
IsRunning ev = is_terminal ev ≡ false

abbrev pub prefixed : List Effect → Outcome × List Effect → Outcome × List Effect
prefixed es (o, later) = (o, es ++ later)

abbrev pub last_id : Option JobId → List JobEvent → Option JobId
last_id id [] = id
last_id id (ev ∷ evs) = first_id id ev

on_event-IsRunning :
    (host : Bytes) (ev : JobEvent) (r : Outcome × List Effect)
    → IsRunning ev
    → on_event host ev r ≡ prefixed (output ev) r
unfolding on_event is_terminal
on_event-IsRunning host (queued id position) r h = refl
on_event-IsRunning host (started id) r h = refl
on_event-IsRunning host (stdout id bytes) r h = refl
on_event-IsRunning host (stderr id bytes) r h = refl
on_event-IsRunning host (exited id code) r h = cc
on_event-IsRunning host (rejected id reason) r h = cc

prefixed-prefixed :
    (a b : List Effect) (r : Outcome × List Effect)
    → prefixed a (prefixed b r) ≡ prefixed (a ++ b) r
prefixed-prefixed a b (o, es) = ap (λ x. (o, x)) (sym (append_assoc a b es))

-- With the job's number known.
running_known :
    (host : Bytes) (i : JobId) (c : Bool) (evs : List JobEvent) (turns : List Turn)
    → All IsRunning evs
    → submit_loop host (some i) c (map got evs ++ turns)
      ≡ prefixed (outputs evs) (submit_loop host (some i) c turns)
unfolding submit_loop first_id
running_known host i c [] turns h = refl
running_known host i c (ev ∷ evs) turns h =
    on_event-IsRunning host ev _ h.0
    ∙ ap (prefixed (output ev)) (running_known host i c evs turns h.1)
    ∙ prefixed-prefixed (output ev) (outputs evs) (submit_loop host (some i) c turns)

running_first :
    (host : Bytes) (c : Bool) (ev : JobEvent) (evs : List JobEvent) (turns : List Turn)
    → All IsRunning (ev ∷ evs)
    → submit_loop host none c (map got (ev ∷ evs) ++ turns)
      ≡ prefixed (outputs (ev ∷ evs)) (submit_loop host (some (event_id ev)) c turns)
unfolding submit_loop first_id
running_first host c ev evs turns h =
    on_event-IsRunning host ev _ h.0
    ∙ ap (prefixed (output ev)) (running_known host (event_id ev) c evs turns h.1)
    ∙ prefixed-prefixed (output ev) (outputs evs) (submit_loop host (some (event_id ev)) c turns)

ended :
    (host : Bytes) (id : Option JobId) (c : Bool) (ev : JobEvent) (o : Outcome) (turns : List Turn)
    → EndsWith host ev o
    → submit_loop host id c (got ev ∷ turns) ≡ (o, [])
unfolding submit_loop on_event
ended host id c (queued i position) o turns h = absurd h
ended host id c (started i) o turns h = absurd h
ended host id c (stdout i bytes) o turns h = absurd h
ended host id c (stderr i bytes) o turns h = absurd h
ended host id c (exited i code) o turns h = ap (λ x. (x, [])) (sym h)
ended host id c (rejected i reason) o turns h = ap (λ x. (x, [])) (sym h)

-- Without an interrupt, a submission whose first events are not the last writes what they carry, in order,
-- and ends with the outcome of the first event that is the last; what follows is not read.
pub submit_job_to-events :
    (host : Bytes) (request : JobRequest) (ev : JobEvent) (evs : List JobEvent) (final : JobEvent)
    (o : Outcome) (rest : List Turn)
    → All IsRunning (ev ∷ evs)
    → EndsWith host final o
    → submit_job_to
        (record { send_result = ok tt; turns = map got (ev ∷ evs) ++ got final ∷ rest })
        request
        host
      ≡ (o, sent (submit request) ∷ outputs (ev ∷ evs) ++ [])
unfolding submit_job_to
submit_job_to-events host request ev evs final o rest h last = ap (after (sent (submit request))) (
    running_first host false ev evs (got final ∷ rest) h
    ∙ ap (prefixed (outputs (ev ∷ evs))) (ended host (some (event_id ev)) false final o rest last))

-- An interrupt after the first event sends a `Cancel` for the job that this event names; the events after
-- it are still forwarded, and the outcome is that of the last event.
pub submit_job_to-interrupted :
    (host : Bytes) (request : JobRequest) (ev : JobEvent) (evs later : List JobEvent)
    (final : JobEvent) (o : Outcome) (rest : List Turn)
    → All IsRunning (ev ∷ evs)
    → All IsRunning later
    → EndsWith host final o
    → submit_job_to
        (record {
          send_result = ok tt;
          turns = map got (ev ∷ evs) ++ interrupted (ok tt) ∷ (map got later ++ got final ∷ rest);
        })
        request
        host
      ≡ (
        o,
        sent (submit request) ∷ outputs (ev ∷ evs)
            ++ sent (cancel (event_id ev)) ∷ (outputs later ++ []),
      )
unfolding submit_job_to submit_loop
submit_job_to-interrupted host request ev evs later final o rest h hl last =
    ap (after (sent (submit request))) (
      running_first host false ev evs (interrupted (ok tt) ∷ (map got later ++ got final ∷ rest)) h
      ∙ ap (λ r. prefixed (outputs (ev ∷ evs)) (after (sent (cancel (event_id ev))) r))
          (running_known host (event_id ev) true later (got final ∷ rest) hl
            ∙ ap (prefixed (outputs later))
                (ended host (some (event_id ev)) true final o rest last)))
