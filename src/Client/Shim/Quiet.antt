-- ===== src/Client/Shim/Quiet.antt =====
-- The effects of a run of the shim that do not end it.
use rust_build_server.Prelude.{
  ◌≡◌, refl, Bool, true, false, ◌||◌, List, [], ◌∷◌, Option, none, some, All, Bytes, ok, err,
  if◌then◌else◌,
}
use rust_build_server.Proto.Job.{
  JobId, JobEvent, queued, started, stdout, stderr, exited, rejected, JobRequest,
}
use rust_build_server.Proto.Message.{hello, status, event, error}
use rust_build_server.Client.Backend.{Backend, plain_backend}
use rust_build_server.Client.Submit.{
  Effect, spawned_touch, finished, reported, no_fingerprint, no_backend, gave_up, exec_local,
  Outcome, Turn, received, interrupted, Session, submit_loop, first_id, on_event, submit_job_to,
}
use rust_build_server.Client.Shim.{ShimInput, touch_if_wanted, subcommand, wants_touch}

-- The effects with which a run can end. Where a mismatch is an error (`hard`), no report of one is
-- followed by anything.
abbrev pub is_final : (hard : Bool) → Effect → Bool
is_final hard (finished st) = true
is_final hard (reported b m) = hard || b
is_final hard (no_fingerprint e) = true
is_final hard no_backend = true
is_final hard gave_up = true
is_final hard (exec_local argv) = true
is_final hard _ = false

abbrev pub is_plain : Backend → Bool
is_plain plain_backend = true
is_plain _ = false

abbrev pub Quiet : (hard : Bool) → List Effect → Type 0
Quiet hard es = All (λ e. is_final hard e ≡ false) es

pub on_event-Quiet :
    (hard : Bool) (host : Bytes) (ev : JobEvent) (r : Outcome × List Effect)
    → Quiet hard r.1
    → Quiet hard (on_event host ev r).1
unfolding on_event
on_event-Quiet hard host (queued id position) r q = q
on_event-Quiet hard host (started id) r q = q
on_event-Quiet hard host (stdout id bytes) r q = (refl, q)
on_event-Quiet hard host (stderr id bytes) r q = (refl, q)
on_event-Quiet hard host (exited id code) r q = tt
on_event-Quiet hard host (rejected id reason) r q = tt

pub submit_loop-Quiet :
    (hard : Bool) (host : Bytes) (id : Option JobId) (c : Bool) (turns : List Turn)
    → Quiet hard (submit_loop host id c turns).1
unfolding submit_loop
submit_loop-Quiet hard host id c [] = tt
submit_loop-Quiet hard host id true (interrupted r ∷ turns) =
    submit_loop-Quiet hard host id true turns
submit_loop-Quiet hard host none false (interrupted r ∷ turns) = tt
submit_loop-Quiet hard host (some id) false (interrupted (err e) ∷ turns) = tt
submit_loop-Quiet hard host (some id) false (interrupted (ok u) ∷ turns) =
    (refl, submit_loop-Quiet hard host (some id) true turns)
submit_loop-Quiet hard host id c (received (err e) ∷ turns) = tt
submit_loop-Quiet hard host id c (received (ok none) ∷ turns) = tt
submit_loop-Quiet hard host id c (received (ok (some (event ev))) ∷ turns) =
    on_event-Quiet hard host ev _ (submit_loop-Quiet hard host (first_id id ev) c turns)
submit_loop-Quiet hard host id c (received (ok (some (error e))) ∷ turns) = tt
submit_loop-Quiet hard host id c (received (ok (some (hello v s))) ∷ turns) = tt
submit_loop-Quiet hard host id c (received (ok (some (status s))) ∷ turns) = tt

pub submit_job_to-Quiet :
    (hard : Bool) (s : Session) (request : JobRequest) (host : Bytes)
    → Quiet hard (submit_job_to s request host).1
unfolding submit_job_to
submit_job_to-Quiet hard s request host =
    elim s.send_result
      as (λ r. Quiet hard (submit_job_to (record s { send_result = r }) request host).1) [
        | err e ↦ tt
        | ok u ↦ (refl, submit_loop-Quiet hard host none false s.turns)
      ]

pub touch_if_wanted-Quiet :
    (hard : Bool) (input : ShimInput) (dir : Bytes) → Quiet hard (touch_if_wanted input dir)
unfolding touch_if_wanted
touch_if_wanted-Quiet hard input dir =
    elim (wants_touch input (subcommand input))
      as (λ b. Quiet hard (if b then spawned_touch dir ∷ [] else [])) [
        | true ↦ (refl, tt)
        | false ↦ tt
      ]
