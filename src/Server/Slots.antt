-- ===== src/Server/Slots.antt =====
-- crates/rbs-server/src/socket.rs, `Shared` and what the connections do to it: the scheduler behind its
-- lock, the waiters behind theirs, and the tasks that run between. One action is one section under a
-- lock, or one receive on a job's one-shot channel; any interleaving of tasks is a list of actions.
-- The map `waiters` is kept with the jobs: it holds a job's sender exactly while the job's channel is
-- `registered`. Memory readings are arguments of the actions. Shutdown is left out. A job is addressed by
-- its identifier, as in the source; the counter of identifiers wraps at 64 bits, and what rests on their
-- being distinct counts the submissions of a history (Slots/Numbers).
pub mod Tokens
pub mod Covered
pub mod Numbers
pub mod Places
pub mod Invariant
pub mod Conservation
pub mod Stranded
pub mod LostWakeup
mod Examples
use rust_build_server.Prelude.{
  ℕ, zero, suc, ◌+◌, ◌%◌, ◌^◌, ◌≡◌, Bool, true, false, List, [], ◌∷◌, ◌++◌, Option, none, some,
  ◌==◌, if◌then◌else◌, get_elem?,
}
use rust_build_server.Proto.Job.{JobId, Priority}
use rust_build_server.Server.Scheduler.{
  Snapshot, Limits, Scheduler, Decision, accept, queue, reject_saturated, new, admit, finish, poll,
  remove_queued,
}

-- The one-shot channel of a queued job: its sender is in `waiters`, or has sent, or was dropped.
pub data Channel : Type 0 where
  registered sent closed : Channel

-- Where a job is. `inserting`: queued by the scheduler, its sender not yet in `waiters`. `queued`: the
-- connection is in `Active::Queued`. `dequeuing` and `checking`: inside `dequeue`, before and after the
-- removal from `waiters`, with what `remove_queued` said. `holding`: accepted, starting, running or
-- finished, with `job_finished` still to be called for it. `gone`: nothing is left of it.
pub data Phase : Type 0 where
  inserting : Phase
  queued : Channel → Phase
  dequeuing : (was_queued : Bool) → Channel → Phase
  checking : (was_queued : Bool) → Channel → Phase
  holding : Phase
  gone : Phase

-- A call of `wake` in progress: the jobs to release a slot for, and those still to be delivered.
pub record Waker : Type 0 where
  pub orphaned : List JobId
  pub released : List JobId

pub record Server : Type 0 where
  pub scheduler : Scheduler
  pub next_id : JobId
  pub jobs : List (JobId × Phase)
  pub wakers : List Waker

unfoldable pub start : Limits → Server
start l = record { scheduler = new l; next_id = 1; jobs = []; wakers = [] }

unfoldable pub phase_of : JobId → List (JobId × Phase) → Option Phase
phase_of id [] = none
phase_of id ((j, p) ∷ js) = if j == id then some p else phase_of id js

unfoldable pub set_phase : JobId → Phase → List (JobId × Phase) → List (JobId × Phase)
set_phase id q [] = []
set_phase id q ((j, p) ∷ js) = if j == id then (j, q) ∷ js else (j, p) ∷ set_phase id q js

unfoldable pub set_waker : ℕ → Waker → List Waker → List Waker
set_waker i w [] = []
set_waker zero w (v ∷ vs) = w ∷ vs
set_waker (suc i) w (v ∷ vs) = v ∷ set_waker i w vs

-- A job's move to another phase.
abbrev pub move : JobId → Phase → Server → Server
move id p s = record s { jobs = set_phase id p s.jobs }

-- The scheduler's answer, and the `wake` that the caller goes on with.
abbrev pub woken : Server → Scheduler × List JobId → Server
woken s r = record s {
  scheduler = r.0;
  wakers = record { orphaned = []; released = r.1 } ∷ s.wakers;
}

-- `waiters.remove(&id).is_some_and(|tx| tx.send(()).is_ok())`, as the job's next phase. The receiver of
-- a registered job lives until its connection has left `dequeue`, so the send does not fail.
unfoldable pub deliver_to : Option Phase → Option Phase
deliver_to (some (queued registered)) = some (queued sent)
deliver_to (some (dequeuing b registered)) = some (dequeuing b sent)
deliver_to _ = none

-- The loop over `released` under the lock of `waiters`; the jobs that were not delivered come back.
unfoldable pub deliver_all : List JobId → List (JobId × Phase) → List (JobId × Phase) × List JobId
unfolding deliver_to phase_of set_phase
deliver_all [] jobs = (jobs, [])
deliver_all (id ∷ ids) jobs = elim (deliver_to (phase_of id jobs)) [
  | some p ↦ deliver_all ids (set_phase id p jobs)
  | none ↦ let rest = deliver_all ids jobs in (rest.0, id ∷ rest.1)
]

pub data Action : Type 0 where
  submit : Priority → Snapshot → Action
  insert_waiter receive withdraw remove_waiter check_signal : JobId → Action
  job_finished : JobId → Snapshot → Action
  poll_tick : Snapshot → Action
  wake_deliver : (waker : ℕ) → Action
  wake_release : (waker : ℕ) → Snapshot → Action

-- What `fetch_add` leaves in the counter.
abbrev pub following : JobId → JobId
following id = (id + 1) % 2 ^ 64

-- `handle_submit` up to the decision, for a request that passed its checks.
unfoldable pub submit_job : Server → Priority → Snapshot → Server
submit_job s priority snap =
    let id = s.next_id in
    let r = admit s.scheduler id priority snap in
    let s' = record s { scheduler = r.0; next_id = following id } in
    elim r.1 [
      | accept ↦ record s' { jobs = (id, holding) ∷ s.jobs }
      | queue position ↦ record s' { jobs = (id, inserting) ∷ s.jobs }
      | reject_saturated ↦ s'
    ]

-- The first section of `dequeue`.
unfoldable pub withdraw_job : Server → JobId → Channel → Server
withdraw_job s id c =
    let r = remove_queued s.scheduler id in
    record s { scheduler = r.0; jobs = set_phase id (dequeuing r.1 c) s.jobs }

-- `waiters.remove` drops a sender that is still there.
abbrev pub dropped : Channel → Channel
dropped registered = closed
dropped c = c

-- The rest of `dequeue`: a job that had been released gives its slot back.
abbrev pub checked : Bool → Channel → Phase
checked false sent = holding
checked _ _ = gone

-- The phase in which the receiver of `Active::Queued` resolves: to a start, or to a rejection.
abbrev pub received : Channel → Option Phase
received registered = none
received sent = some holding
received closed = some gone

-- What a job's own action does in its present phase; `none` where the action is not enabled.
unfoldable pub act_on : Server → Action → Phase → Option Server
unfolding withdraw_job
act_on s (insert_waiter id) inserting = some (move id (queued registered) s)
act_on s (receive id) (queued c) = elim (received c) [ none ↦ none | some p ↦ some (move id p s) ]
act_on s (withdraw id) (queued c) = some (withdraw_job s id c)
act_on s (remove_waiter id) (dequeuing b c) = some (move id (checking b (dropped c)) s)
act_on s (check_signal id) (checking b c) = some (move id (checked b c) s)
act_on s (job_finished id snap) holding = some (woken (move id gone s) (finish s.scheduler snap))
act_on s _ _ = none

-- One round of `wake`: deliver what is released, once the orphans of the round before are done.
unfoldable pub deliver_round : Server → ℕ → Waker → Option Server
unfolding deliver_all set_waker
deliver_round s i w = elim w.orphaned [
  | [] ↦
      let r = deliver_all w.released s.jobs in
      some (record s {
        jobs = r.0;
        wakers = set_waker i (record { orphaned = r.1; released = [] }) s.wakers;
      })
  | _ ∷ _ ↦ none
]

unfoldable pub release_orphan : Server → ℕ → Waker → Snapshot → Option Server
unfolding set_waker
release_orphan s i w snap = elim w.orphaned [
  | [] ↦ none
  | id ∷ rest ↦
      let r = finish s.scheduler snap in
      some (record s {
        scheduler = r.0;
        wakers = set_waker i (record { orphaned = rest; released = w.released ++ r.1 }) s.wakers;
      })
]

-- The job that an action is about.
abbrev pub actor : Action → JobId
actor (insert_waiter id) = id
actor (receive id) = id
actor (withdraw id) = id
actor (remove_waiter id) = id
actor (check_signal id) = id
actor (job_finished id snap) = id
actor _ = 0

abbrev pub on_job : Server → JobId → Action → Option Server
on_job s id a = elim (phase_of id s.jobs) [ none ↦ none | some p ↦ act_on s a p ]

abbrev pub on_waker : Server → ℕ → (Waker → Option Server) → Option Server
on_waker s i f = elim (get_elem? s.wakers i) [ none ↦ none | some w ↦ f w ]

-- One step of the server; `none` where the action is not enabled.
unfoldable pub step : Server → Action → Option Server
unfolding submit_job phase_of set_phase act_on deliver_round release_orphan
step s (submit priority snap) = some (submit_job s priority snap)
step s (insert_waiter id) = on_job s id (insert_waiter id)
step s (receive id) = on_job s id (receive id)
step s (withdraw id) = on_job s id (withdraw id)
step s (remove_waiter id) = on_job s id (remove_waiter id)
step s (check_signal id) = on_job s id (check_signal id)
step s (job_finished id snap) = on_job s id (job_finished id snap)
step s (poll_tick snap) = some (woken s (poll s.scheduler snap))
step s (wake_deliver i) = on_waker s i (deliver_round s i)
step s (wake_release i snap) = on_waker s i (λ w. release_orphan s i w snap)

-- The states that the server can be in.
pub data Reachable (l : Limits) : Server → Type 0 where
  started : Reachable l (start l)
  next : {s t : Server} (a : Action) → Reachable l s → step s a ≡ some t → Reachable l t
