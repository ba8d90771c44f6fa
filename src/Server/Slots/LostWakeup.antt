-- ===== src/Server/Slots/LostWakeup.antt =====
-- A job whose release is delivered before its connection has put the sender into `waiters` waits for ever.
use mathlib.Core.Path.{subst}
use mathlib.Core.Option.{some-injective}
use rust_build_server.Prelude.{
  ◌+◌, ◌^◌, ◌≤◌, ◌<◌, ◌≡◌, ◌≢◌, inl, inr, refl, List, [], ◌∷◌, Option, none, some, arith, All,
  Option-cases,
}
use rust_build_server.Proto.Job.{JobId, Priority}
use rust_build_server.Server.Scheduler.{Snapshot, Limits, new, admit, finish, poll}
use rust_build_server.Server.Slots.{
  registered, queued, Server, Action, submit, insert_waiter, withdraw, poll_tick, wake_deliver,
  wake_release, phase_of, submit_job, step, start, Reachable, started, next,
}
use rust_build_server.Server.Slots.Numbers.{submits_in, submissions}
use rust_build_server.Server.Slots.Conservation.{Reachable-Inv}
use rust_build_server.Server.Slots.Stranded.{IsStranded, step-IsStranded}

-- A sequence of actions; `none` if one of them is not enabled.
unfoldable pub run : Server → List Action → Option Server
run s [] = some s
run s (a ∷ acts) = elim (step s a) [ none ↦ none | some t ↦ run t acts ]

run-Reachable :
    (l : Limits) (s t : Server) (acts : List Action)
    → Reachable l s
    → run s acts ≡ some t
    → Reachable l t
unfolding run
run-Reachable l s t [] h e = subst (Reachable l) (some-injective _ _ e) h
run-Reachable l s t (a ∷ acts) h e = elim (Option-cases (step s a)) [
  | inl stuck ↦ absurd (ground arith)
  | inr (u, first) ↦ run-Reachable l u t acts (next a h first) (rw (first, run) at e)
]

-- While fewer than 2 ^ 64 - 1 jobs are submitted, so that no identifier is used twice, a stranded job stays
-- stranded under every sequence of actions of all tasks in which its own connection does not withdraw
-- it: no release, poll or delivery reaches it again.
pub run-IsStranded :
    (l : Limits) (id : JobId) (s t : Server) (acts : List Action) (h : Reachable l s)
    → submissions h + submits_in acts + 1 < 2 ^ 64
    → IsStranded id s
    → All (λ a. a ≢ withdraw id) acts
    → run s acts ≡ some t
    → IsStranded id t
unfolding run submissions
run-IsStranded l id s t [] h few v never e = subst (IsStranded id) (some-injective _ _ e) v
run-IsStranded l id s t (a ∷ acts) h few v never e = elim (Option-cases (step s a)) [
  | inl stuck ↦ absurd (ground arith)
  | inr (u, first) ↦
      run-IsStranded l id u t acts (next a h first) (omega (arith, few))
        (step-IsStranded id s u a first never.0 (Reachable-Inv l s h (omega (arith, few))) v)
        never.1 (rw (first, run) at e)
]

-- One job is queued while memory is low; the timer's poll finds memory again and releases the job; the
-- delivery finds no sender and gives the slot back; only then does the connection insert the sender.
abbrev race : Priority → Snapshot → Snapshot → List Action
race priority low high =
    submit priority low
    ∷ poll_tick high
    ∷ wake_deliver 0
    ∷ wake_release 0 high
    ∷ insert_waiter 1
    ∷ []

abbrev pub raced : Limits → Server
raced l = record {
  scheduler = record { limits = l; running = 0; queue = []; seq = 1 };
  next_id = 2;
  jobs = (1, queued registered) ∷ [];
  wakers = record { orphaned = []; released = [] } ∷ [];
}

run-race :
    (l : Limits) (priority : Priority) (low high : Snapshot)
    → 0 < l.max_jobs
    → 0 < l.queue_limit
    → low.mem_available_bytes ≤ l.min_mem_available_bytes
    → l.min_mem_available_bytes < high.mem_available_bytes
    → run (start l) (race priority low high) ≡ some (raced l)
unfolding run step start new submit_job admit poll finish
run-race l priority low high slot room dry wet = ground arith

-- The server can reach a state in which no slot is taken and no job is in the queue, and yet a queued job's
-- connection waits for a wake-up that no task will send, whatever the limits with a slot and a place to wait.
pub lost_wakeup :
    (l : Limits) (priority : Priority) (low high : Snapshot)
    → 0 < l.max_jobs
    → 0 < l.queue_limit
    → low.mem_available_bytes ≤ l.min_mem_available_bytes
    → l.min_mem_available_bytes < high.mem_available_bytes
    → Reachable l (raced l) × IsStranded 1 (raced l) × ((raced l).scheduler.running ≡ 0)
unfolding phase_of
lost_wakeup l priority low high slot room dry wet = (
  run-Reachable l (start l) (raced l) (race priority low high) started
      (run-race l priority low high slot room dry wet),
  record { waits = refl; not_queued = refl; not_released = refl },
  refl,
)
