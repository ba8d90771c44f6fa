-- ===== src/Server/Connection/View.antt =====
-- What a client sees of its jobs on one connection, as an automaton on the messages.
use rust_build_server.Prelude.{
  ◌≡◌, List, [], ◌∷◌, ◌++◌, Option, none, some, ◌==◌, if◌then◌else◌, inl, inr, Option-cases, arith,
}
use rust_build_server.Proto.Job.{JobId, JobEvent, queued, started, stdout, stderr, exited, rejected}
use rust_build_server.Proto.Message.{event}
use rust_build_server.Server.Connection.{Effect, wrote}

-- The client's job: none, in the queue, or started.
pub data Seen : Type 0 where
  nothing : Seen
  in_queue started_job : JobId → Seen

-- The job that an event may be about after what was seen, and what is seen then; `none` where the event
-- breaks the protocol.
unfoldable pub see : Seen → JobEvent → Option Seen
see nothing (queued id position) = some (in_queue id)
see nothing (started id) = some (started_job id)
see nothing (rejected id reason) = some nothing
see (in_queue j) (started id) = if id == j then some (started_job id) else none
see (in_queue j) (rejected id reason) = if id == j then some nothing else none
see (in_queue j) (exited id status) = if id == j then some nothing else none
see (started_job j) (stdout id bytes) = if id == j then some (started_job j) else none
see (started_job j) (stderr id bytes) = if id == j then some (started_job j) else none
see (started_job j) (exited id status) = if id == j then some nothing else none
see seen ev = none

unfoldable pub see_effect : Seen → Effect → Option Seen
see_effect s (wrote (event ev)) = see s ev
see_effect s e = some s

unfoldable pub see_all : Seen → List Effect → Option Seen
unfolding see_effect
see_all s [] = some s
see_all s (e ∷ es) = elim (see_effect s e) [ none ↦ none | some s' ↦ see_all s' es ]

pub see_all-append :
    (s t : Seen) (a b : List Effect) → see_all s a ≡ some t → see_all s (a ++ b) ≡ see_all t b
unfolding see_all
see_all-append s t [] b h = ground arith
see_all-append s t (e ∷ a) b h = elim (Option-cases (see_effect s e)) [
  | inl breaks ↦ absurd (ground (arith, breaks, h))
  | inr (s', sees) ↦ ground (arith, sees, h, see_all-append s' t a b)
]
