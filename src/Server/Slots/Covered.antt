-- ===== src/Server/Slots/Covered.antt =====
-- Every slot that a job or a waker has is one that the scheduler counts, whatever the identifiers.
use mathlib.Core.Path.{subst}
use rust_build_server.Prelude.{
  ℕ, ◌+◌, ◌≤◌, ◌≡◌, ap, inl, inr, Bool, List, [], ◌∷◌, ◌++◌, some, arith, length, length-append,
  get_elem?, Option-cases,
}
use rust_build_server.Proto.Job.{JobId, Priority}
use rust_build_server.Server.Scheduler.{
  Snapshot, Limits, Scheduler, new, finish, poll, remove_queued,
}
use rust_build_server.Server.Scheduler.Admission.{admit_outcomes}
use rust_build_server.Server.Scheduler.Release.{
  limits-poll, limits-finish, running-poll, running-finish, running-poll-le, running-finish-le,
}
use rust_build_server.Server.Slots.{
  Channel, registered, sent, closed, Phase, inserting, queued, dequeuing, checking, holding, gone,
  Waker, Server, Action, submit, insert_waiter, receive, withdraw, remove_waiter, check_signal,
  job_finished, poll_tick, wake_deliver, wake_release, phase_of, deliver_all, move, woken, checked,
  dropped, submit_job, withdraw_job, act_on, on_job, actor, step, start, Reachable, started, next,
}
use rust_build_server.Server.Slots.Tokens.{
  phase_slots, job_slots, waker_slots, job_slots-set_phase, waker_slots-set_waker,
  waker_slots-get_elem?-le, deliver_all-slots,
}
use rust_build_server.Server.Slots.Invariant.{
  delivered, orphan_released, deliver_round-cases, release_orphan-cases,
}

pub record Covered (s : Server) : Type 0 where
  pub slots : job_slots s.jobs + waker_slots s.wakers ≤ s.scheduler.running
  pub bounded : s.scheduler.running ≤ s.scheduler.limits.max_jobs

Covered-of_some : {s t : Server} → some s ≡ some t → Covered s → Covered t
Covered-of_some {s} {t} e v = let same : s ≡ t = cc in subst Covered same v

pub running-remove_queued :
    (s : Scheduler) (id : JobId) → (remove_queued s id).0.running ≡ s.running
unfolding remove_queued
running-remove_queued s id = ground arith

pub limits-remove_queued : (s : Scheduler) (id : JobId) → (remove_queued s id).0.limits ≡ s.limits
unfolding remove_queued
limits-remove_queued s id = ground arith

submit_job-Covered :
    (s : Server) (priority : Priority) (snap : Snapshot)
    → Covered s
    → Covered (submit_job s priority snap)
unfolding submit_job
submit_job-Covered s priority snap v = elim (admit_outcomes s.scheduler s.next_id priority snap) [
  | inl (m, e) ↦
      rw (e, submit_job)
        (rw e (record { slots = omega (arith, v.slots); bounded = omega (arith, m.slot_free) }))
  | inr (inl (_, _, e)) ↦
      rw (e, submit_job) (rw e (record { slots = v.slots; bounded = v.bounded }))
  | inr (inr (_, _, e)) ↦
      rw (e, submit_job) (rw e (record { slots = omega (arith, v.slots); bounded = v.bounded }))
]

-- A move to a phase with no more slots.
move-Covered :
    (s : Server) (id : JobId) (p q : Phase)
    → phase_of id s.jobs ≡ some p
    → phase_slots q ≤ phase_slots p
    → Covered s
    → Covered (move id q s)
move-Covered s id p q found fewer v = record {
  slots = omega (arith, job_slots-set_phase id p q s.jobs found, fewer, v.slots);
  bounded = v.bounded;
}

woken-Covered :
    (s : Server) (c : Scheduler) (out : List JobId)
    → job_slots s.jobs + waker_slots s.wakers + length out ≤ c.running
    → c.running ≤ c.limits.max_jobs
    → Covered (woken s (c, out))
woken-Covered s c out sum bound = record { slots = omega (arith, sum); bounded = bound }

checked-le : (b : Bool) (c : Channel) → phase_slots (checked b c) ≤ phase_slots (checking b c)
checked-le b c = ground arith

dropped-le :
    (b : Bool) (c : Channel) → phase_slots (checking b (dropped c)) ≤ phase_slots (dequeuing b c)
dropped-le b c = ground arith

act_on-Covered :
    (s t : Server) (a : Action) (p : Phase)
    → phase_of (actor a) s.jobs ≡ some p
    → act_on s a p ≡ some t
    → Covered s
    → Covered t
unfolding act_on withdraw_job
act_on-Covered s t (insert_waiter id) inserting found e v =
    Covered-of_some e (move-Covered s id inserting (queued registered) found (omega arith) v)
act_on-Covered s t (receive id) (queued registered) found e v = absurd (cc)
act_on-Covered s t (receive id) (queued sent) found e v =
    Covered-of_some e (move-Covered s id (queued sent) holding found (omega arith) v)
act_on-Covered s t (receive id) (queued closed) found e v =
    Covered-of_some e (move-Covered s id (queued closed) gone found (omega arith) v)
act_on-Covered s t (withdraw id) (queued c) found e v =
    let r = remove_queued s.scheduler id in
    Covered-of_some e (record {
      slots = omega (
        arith,
        v.slots,
        running-remove_queued s.scheduler id,
        job_slots-set_phase id (queued c) (dequeuing r.1 c) s.jobs found,
      );
      bounded =
          rw (running-remove_queued s.scheduler id, limits-remove_queued s.scheduler id) v.bounded;
    })
act_on-Covered s t (remove_waiter id) (dequeuing b c) found e v =
    Covered-of_some e
      (move-Covered s id (dequeuing b c) (checking b (dropped c)) found (dropped-le b c) v)
act_on-Covered s t (check_signal id) (checking b c) found e v =
    Covered-of_some e (move-Covered s id (checking b c) (checked b c) found (checked-le b c) v)
act_on-Covered s t (job_finished id snap) holding found e v =
    let c = s.scheduler in
    Covered-of_some e (
      woken-Covered (move id gone s) (finish c snap).0 (finish c snap).1
        (omega
          (arith, running-finish c snap, v.slots, job_slots-set_phase id holding gone s.jobs found))
        (rw limits-finish (running-finish-le c snap v.bounded)))
act_on-Covered s t _ _ found e v = absurd (cc)

on_job-Covered : (s t : Server) (a : Action) → on_job s (actor a) a ≡ some t → Covered s → Covered t
on_job-Covered s t a e v = elim (Option-cases (phase_of (actor a) s.jobs)) [
  | inl nobody ↦ absurd (ground arith)
  | inr (p, found) ↦ act_on-Covered s t a p found (ground arith) v
]

delivered-Covered :
    (s : Server) (i : ℕ) (w : Waker)
    → get_elem? s.wakers i ≡ some w
    → w.orphaned ≡ []
    → Covered s
    → Covered (delivered s i w)
delivered-Covered s i w at none_left v =
    let r = deliver_all w.released s.jobs in
    let w' : Waker = record { orphaned = r.1; released = [] } in
    record {
      slots = omega (
        arith,
        v.slots,
        deliver_all-slots w.released s.jobs,
        waker_slots-set_waker i w w' s.wakers at,
        ap length none_left,
      );
      bounded = v.bounded;
    }

orphan_released-Covered :
    (s : Server) (i : ℕ) (w : Waker) (id : JobId) (rest : List JobId) (snap : Snapshot)
    → get_elem? s.wakers i ≡ some w
    → w.orphaned ≡ id ∷ rest
    → Covered s
    → Covered (orphan_released s i w rest snap)
orphan_released-Covered s i w id rest snap at one_left v =
    let c = s.scheduler in
    let out = (finish c snap).1 in
    let w' : Waker = record { orphaned = rest; released = w.released ++ out } in
    record {
      slots = omega (
        arith,
        v.slots,
        running-finish c snap,
        waker_slots-set_waker i w w' s.wakers at,
        waker_slots-get_elem?-le i w s.wakers at,
        length-append w.released out,
        ap length one_left,
      );
      bounded = rw limits-finish (running-finish-le c snap v.bounded);
    }

step-Covered : (s t : Server) (a : Action) → step s a ≡ some t → Covered s → Covered t
unfolding step
step-Covered s t (submit priority snap) e v =
    Covered-of_some e (submit_job-Covered s priority snap v)
step-Covered s t (insert_waiter id) e v = on_job-Covered s t (insert_waiter id) e v
step-Covered s t (receive id) e v = on_job-Covered s t (receive id) e v
step-Covered s t (withdraw id) e v = on_job-Covered s t (withdraw id) e v
step-Covered s t (remove_waiter id) e v = on_job-Covered s t (remove_waiter id) e v
step-Covered s t (check_signal id) e v = on_job-Covered s t (check_signal id) e v
step-Covered s t (job_finished id snap) e v = on_job-Covered s t (job_finished id snap) e v
step-Covered s t (poll_tick snap) e v =
    let c = s.scheduler in
    Covered-of_some e (
      woken-Covered s (poll c snap).0 (poll c snap).1 (omega (arith, running-poll c snap, v.slots))
        (rw limits-poll (running-poll-le c snap v.bounded)))
step-Covered s t (wake_deliver i) e v = elim (Option-cases (get_elem? s.wakers i)) [
  | inl nobody ↦ absurd (ground arith)
  | inr (w, at) ↦
      let (none_left, same) = deliver_round-cases s t i w (ground arith) in
      rw same (delivered-Covered s i w at none_left v)
]
step-Covered s t (wake_release i snap) e v = elim (Option-cases (get_elem? s.wakers i)) [
  | inl nobody ↦ absurd (ground arith)
  | inr (w, at) ↦
      let (id, rest, one_left, same) = release_orphan-cases s t i w snap (ground arith) in
      rw same (orphan_released-Covered s i w id rest snap at one_left v)
]

pub Reachable-Covered : (l : Limits) (s : Server) → Reachable l s → Covered s
unfolding start new
Reachable-Covered l s started = record { slots = omega arith; bounded = omega arith }
Reachable-Covered l s (next {s = r} a h e) = step-Covered r s a e (Reachable-Covered l r h)
