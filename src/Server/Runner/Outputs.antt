-- ===== src/Server/Runner/Outputs.antt =====
-- The events that a supervised process sends, in their order, and the bytes in them.
use rust_build_server.Prelude.{◌≡◌, refl, ap, ◌∙◌, List, [], ◌∷◌, ◌++◌, map, Bytes}
use mathlib.Core.List.{append_assoc}
use rust_build_server.Proto.Job.{JobId, JobEvent, started, stdout, stderr, exited, ExitStatus}
use rust_build_server.Server.Runner.{
  Pipe, out_pipe, err_pipe, Read, read, read_failed, pump, Sends, interleave, Process, output_event,
  sends_before_exit, exit_of, supervise,
}

-- An output of the job.
abbrev pub IsOutput : JobId → JobEvent → Type 0
IsOutput id (stdout j bytes) = j ≡ id
IsOutput id (stderr j bytes) = j ≡ id
IsOutput id ev = ⊥

-- The events of a started job: outputs, and its exit; what a pump that outlives the job sends after that
-- is not read.
pub data Runs (id : JobId) : List JobEvent → Type 0 where
  exits : (status : ExitStatus) (late : List JobEvent) → Runs id (exited id status ∷ late)
  prints :
      {ev : JobEvent} {events : List JobEvent}
      → IsOutput id ev
      → Runs id events
      → Runs id (ev ∷ events)

-- The events of a job that the runner has spawned.
pub data Spawned (id : JobId) : List JobEvent → Type 0 where
  starts : {events : List JobEvent} → Runs id events → Spawned id (started id ∷ events)

output_event-IsOutput : (id : JobId) (e : Pipe × Bytes) → IsOutput id (output_event id e)
unfolding output_event
output_event-IsOutput id (out_pipe, bytes) = refl
output_event-IsOutput id (err_pipe, bytes) = refl

outputs-Runs :
    (id : JobId) (sent : List (Pipe × Bytes)) (events : List JobEvent)
    → Runs id events
    → Runs id (map (output_event id) sent ++ events)
outputs-Runs id [] events h = h
outputs-Runs id (e ∷ sent) events h =
    prints (output_event-IsOutput id e) (outputs-Runs id sent events h)

-- For every process and every schedule of its pumps, the runner sends that the job has started, then
-- outputs of this job alone, then its exit.
pub supervise-Spawned : (id : JobId) (p : Process) → Spawned id (supervise id p)
unfolding supervise
supervise-Spawned id p = starts (outputs-Runs id (sends_before_exit p).sent _ (exits (exit_of p) _))

-- The events before the exit, which are those that a client is sent.
unfoldable pub until_exit : List JobEvent → List JobEvent
until_exit [] = []
until_exit (exited id status ∷ events) = []
until_exit (ev ∷ events) = ev ∷ until_exit events

-- What a job prints on a pipe, in the order of the events.
unfoldable pub printed : Pipe → List JobEvent → Bytes
printed pipe [] = []
printed out_pipe (stdout id bytes ∷ events) = bytes ++ printed out_pipe events
printed err_pipe (stderr id bytes ∷ events) = bytes ++ printed err_pipe events
printed pipe (ev ∷ events) = printed pipe events

abbrev pub joined : List Bytes → Bytes
joined [] = []
joined (b ∷ bs) = b ++ joined bs

-- All that a pipe gives before its end or its first error.
unfoldable pub readable : List Read → Bytes
readable [] = []
readable (read_failed ∷ reads) = []
readable (read [] ∷ reads) = []
readable (read (b ∷ bs) ∷ reads) = (b ∷ bs) ++ readable reads

abbrev pub reads_of : Pipe → Process → List Read
reads_of out_pipe p = p.stdout_reads
reads_of err_pipe p = p.stderr_reads

-- The reads of a pipe that were not sent when the exit was.
abbrev pub rest_of : Pipe → Sends → List Bytes
rest_of out_pipe s = s.out_rest
rest_of err_pipe s = s.err_rest

abbrev either : Pipe → List Bytes → List Bytes → List Bytes
either out_pipe outs errs = outs
either err_pipe outs errs = errs

joined-pump : (reads : List Read) → joined (pump reads) ≡ readable reads
unfolding pump readable
joined-pump [] = refl
joined-pump (read_failed ∷ reads) = refl
joined-pump (read [] ∷ reads) = refl
joined-pump (read (b ∷ bs) ∷ reads) = ap (λ t. (b ∷ bs) ++ t) (joined-pump reads)

after_one : (a b c d : Bytes) → b ++ c ≡ d → (a ++ b) ++ c ≡ a ++ d
after_one a b c d h = append_assoc a b c ∙ ap (λ t. a ++ t) h

interleave-bytes :
    (id : JobId) (pipe : Pipe) (schedule : List Pipe) (outs errs : List Bytes)
    → printed pipe (map (output_event id) (interleave schedule outs errs).sent)
        ++ joined (rest_of pipe (interleave schedule outs errs))
      ≡ joined (either pipe outs errs)
unfolding interleave printed output_event
interleave-bytes id out_pipe [] outs errs = refl
interleave-bytes id err_pipe [] outs errs = refl
interleave-bytes id pipe (out_pipe ∷ schedule) [] errs = interleave-bytes id pipe schedule [] errs
interleave-bytes id out_pipe (out_pipe ∷ schedule) (bytes ∷ outs) errs =
    after_one bytes _ _ _ (interleave-bytes id out_pipe schedule outs errs)
interleave-bytes id err_pipe (out_pipe ∷ schedule) (bytes ∷ outs) errs =
    interleave-bytes id err_pipe schedule outs errs
interleave-bytes id pipe (err_pipe ∷ schedule) outs [] = interleave-bytes id pipe schedule outs []
interleave-bytes id out_pipe (err_pipe ∷ schedule) outs (bytes ∷ errs) =
    interleave-bytes id out_pipe schedule outs errs
interleave-bytes id err_pipe (err_pipe ∷ schedule) outs (bytes ∷ errs) =
    after_one bytes _ _ _ (interleave-bytes id err_pipe schedule outs errs)

pub until_exit-outputs :
    (id : JobId) (sent : List (Pipe × Bytes)) (status : ExitStatus) (late : List JobEvent)
    → until_exit (map (output_event id) sent ++ exited id status ∷ late)
      ≡ map (output_event id) sent
unfolding until_exit output_event
until_exit-outputs id [] status late = refl
until_exit-outputs id ((out_pipe, bytes) ∷ sent) status late =
    ap (λ t. stdout id bytes ∷ t) (until_exit-outputs id sent status late)
until_exit-outputs id ((err_pipe, bytes) ∷ sent) status late =
    ap (λ t. stderr id bytes ∷ t) (until_exit-outputs id sent status late)

printed-started :
    (id : JobId) (pipe : Pipe) (events : List JobEvent)
    → printed pipe (started id ∷ events) ≡ printed pipe events
unfolding printed
printed-started id out_pipe events = refl
printed-started id err_pipe events = refl

pumped :
    (pipe : Pipe) (p : Process)
    → joined (either pipe (pump p.stdout_reads) (pump p.stderr_reads)) ≡ readable (reads_of pipe p)
pumped out_pipe p = joined-pump p.stdout_reads
pumped err_pipe p = joined-pump p.stderr_reads

-- For each of the two pipes, the bytes in the events before the exit, in their order, and then the reads
-- that were not sent by then, are all that the pipe gave: nothing is lost, doubled or put in another order.
pub supervise-bytes :
    (id : JobId) (p : Process) (pipe : Pipe)
    → printed pipe (until_exit (supervise id p)) ++ joined (rest_of pipe (sends_before_exit p))
      ≡ readable (reads_of pipe p)
unfolding supervise sends_before_exit until_exit
supervise-bytes id p pipe =
    let s = interleave p.schedule (pump p.stdout_reads) (pump p.stderr_reads) in
    ap (λ t. t ++ joined (rest_of pipe s))
      (printed-started id pipe _ ∙ ap (printed pipe) (until_exit-outputs id s.sent (exit_of p) _))
    ∙ interleave-bytes id pipe p.schedule (pump p.stdout_reads) (pump p.stderr_reads)
    ∙ pumped pipe p
