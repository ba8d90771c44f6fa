-- ===== src/Server/Slots/Numbers.antt =====
-- The identifiers of jobs: how many a history has used, and where the counter of `Shared` stands.
use rust_build_server.Prelude.{ℕ, ◌+◌, ◌%◌, ◌^◌, ◌<◌, ◌≡◌, arith, List, [], ◌∷◌, some}
use rust_build_server.Proto.Job.{Priority}
use rust_build_server.Server.Scheduler.{Snapshot, Limits}
use rust_build_server.Server.Slots.{
  Server, Action, submit, insert_waiter, receive, withdraw, remove_waiter, check_signal,
  job_finished, poll_tick, wake_deliver, wake_release, submit_job, withdraw_job, act_on,
  deliver_round, release_orphan, step, start, Reachable, started, next,
}

-- How many identifiers an action takes.
abbrev pub submits : Action → ℕ
submits (submit priority snap) = 1
submits _ = 0

abbrev pub submits_in : List Action → ℕ
submits_in [] = 0
submits_in (a ∷ acts) = submits a + submits_in acts

-- The submissions of the history that leads to a state.
unfoldable pub submissions : {l : Limits} {s : Server} → Reachable l s → ℕ
submissions started = 0
submissions (next a h e) = submits a + submissions h

next_id-submit_job :
    (s : Server) (priority : Priority) (snap : Snapshot)
    → (submit_job s priority snap).next_id ≡ (s.next_id + 1) % 2 ^ 64
unfolding submit_job
next_id-submit_job s priority snap = ground arith

next_id-step :
    (s t : Server) (a : Action)
    → step s a ≡ some t
    → s.next_id + submits a < 2 ^ 64
    → t.next_id ≡ s.next_id + submits a
unfolding step act_on withdraw_job deliver_round release_orphan
next_id-step s t (submit priority snap) e few = ground (arith, next_id-submit_job s priority snap)
next_id-step s t (insert_waiter id) e few = ground arith
next_id-step s t (receive id) e few = ground arith
next_id-step s t (withdraw id) e few = ground arith
next_id-step s t (remove_waiter id) e few = ground arith
next_id-step s t (check_signal id) e few = ground arith
next_id-step s t (job_finished id snap) e few = ground arith
next_id-step s t (poll_tick snap) e few = ground arith
next_id-step s t (wake_deliver i) e few = ground arith
next_id-step s t (wake_release i snap) e few = ground arith

-- Before the counter wraps, it is one more than the number of submissions.
pub next_id-Reachable :
    (l : Limits) (s : Server) (h : Reachable l s)
    → submissions h + 1 < 2 ^ 64
    → s.next_id ≡ submissions h + 1
unfolding submissions start
next_id-Reachable l s started few = omega arith
next_id-Reachable l s (next {s = r} a h e) few =
    let before : r.next_id ≡ submissions h + 1 = next_id-Reachable l r h (omega (arith, few)) in
    omega (arith, before, next_id-step r s a e (omega (arith, few, before)))
