-- ===== src/Server/Slots/Conservation.antt =====
-- No interleaving loses a slot or makes one up.
use mathlib.Core.Path.{subst}
use rust_build_server.Prelude.{
  ℕ, ◌+◌, ◌%◌, ◌^◌, ◌<◌, ◌≤◌, ◌≡◌, refl, ◌∙◌, ap, inl, inr, Bool, List, [], ◌∷◌, some, arith, ◌==◌,
  get_elem?, Option-cases,
}
use rust_build_server.Proto.Job.{JobId, Priority}
use rust_build_server.Server.Scheduler.{
  Snapshot, Limits, Scheduler, new, admit, remove_queued, entry_for, queue_index,
}
use rust_build_server.Server.Scheduler.Admission.{admit_outcomes, queued_at}
use rust_build_server.Server.Scheduler.Release.{ids, limits-poll, limits-finish}
use rust_build_server.Server.Slots.{
  Channel, registered, sent, closed, Phase, inserting, queued, dequeuing, checking, holding, gone,
  Server, Action, submit, insert_waiter, receive, withdraw, remove_waiter, check_signal,
  job_finished, poll_tick, wake_deliver, wake_release, phase_of, checked, dropped, submit_job,
  withdraw_job, act_on, deliver_round, release_orphan, on_job, on_waker, actor, step, start,
  Reachable, started, next,
}
use rust_build_server.Server.Slots.Tokens.{phase_slots, job_slots, waker_slots, job_slots-set_phase}
use rust_build_server.Server.Slots.Numbers.{submits, submissions, next_id-Reachable}
use rust_build_server.Server.Slots.Covered.{
  Reachable-Covered, running-remove_queued, limits-remove_queued,
}
use rust_build_server.Server.Slots.Places.{
  count, one_if, phase_places, option_places, job_places-set_phase, count-insert_at,
  count-remove_queued,
}
use rust_build_server.Server.Slots.Invariant.{
  Inv, set_phase-unused, move-Inv, poll_tick-Inv, job_finished-Inv, deliver_round-cases,
  release_orphan-cases, delivered-Inv, orphan_released-Inv, start-Inv,
}

-- A new job, in a phase with no place of its own.
entered-Inv :
    (s : Server) (c : Scheduler) (p : Phase)
    → c.running ≡ phase_slots p + job_slots s.jobs + waker_slots s.wakers
    → c.running ≤ c.limits.max_jobs
    → phase_places p ≡ 0
    → ((j : JobId)
        → count j (ids c.queue) ≤ one_if (s.next_id == j) + count j (ids s.scheduler.queue))
    → Inv s
    → Inv (record s { scheduler = c; next_id = s.next_id + 1; jobs = (s.next_id, p) ∷ s.jobs })
unfolding phase_of
entered-Inv s c p running bound nowhere grown v = record {
  slots = omega (arith, running);
  bounded = bound;
  once = λ j. ground (arith, nowhere, grown j, v.once j, v.unmet j);
  unmet = λ j le. ground (arith, nowhere, grown j, v.unmet j);
  unused = λ j le. ground (arith, v.unused j);
}

-- A job that is turned away uses up its identifier only.
turned_away-Inv : (s : Server) → Inv s → Inv (record s { next_id = s.next_id + 1 })
turned_away-Inv s v = record {
  slots = v.slots;
  bounded = v.bounded;
  once = v.once;
  unmet = λ j le. v.unmet j (omega arith);
  unused = λ j le. v.unused j (omega arith);
}

submit_job-Inv :
    (s : Server) (priority : Priority) (snap : Snapshot)
    → s.next_id + 1 < 2 ^ 64
    → Inv s
    → Inv (submit_job s priority snap)
unfolding submit_job
submit_job-Inv s priority snap few v =
    let small : (s.next_id + 1) % 2 ^ 64 ≡ s.next_id + 1 = omega (arith, few) in
    let c = s.scheduler in
    let id = s.next_id in
    let i = queue_index c.queue priority in
    elim (admit_outcomes c id priority snap) [
      | inl (m, e) ↦
          rw (e, submit_job, small)
            (rw e (
              entered-Inv s (record c { running = c.running + 1 }) holding (omega (arith, v.slots))
                (omega (arith, m.slot_free)) refl (λ j. omega arith) v))
      | inr (inl (_, _, e)) ↦ rw (e, submit_job, small) (rw e (turned_away-Inv s v))
      | inr (inr (_, _, e)) ↦
          rw (e, submit_job, small)
            (rw e (
              entered-Inv s (queued_at i c id priority) inserting (omega (arith, v.slots)) v.bounded
                refl (λ j. omega (arith, count-insert_at j i (entry_for c id priority) c.queue)) v))
    ]

withdraw_job-Inv :
    (s : Server) (id : JobId) (c : Channel)
    → phase_of id s.jobs ≡ some (queued c)
    → Inv s
    → Inv (withdraw_job s id c)
unfolding withdraw_job
withdraw_job-Inv s id c found v =
    let r = remove_queued s.scheduler id in
    let q = dequeuing r.1 c in
    let left = λ (j : JobId). count-remove_queued j id s.scheduler in
    let place = λ (j : JobId). job_places-set_phase id j (queued c) q s.jobs found in
    record {
      slots = omega (
        arith,
        v.slots,
        running-remove_queued s.scheduler id,
        job_slots-set_phase id (queued c) q s.jobs found,
      );
      bounded =
          rw (running-remove_queued s.scheduler id, limits-remove_queued s.scheduler id) v.bounded;
      once = λ j. ground (arith, left j, place j, v.once j);
      unmet = λ j le. ground (arith, left j, place j, v.unmet j le);
      unused = λ j le. set_phase-unused id j (queued c) q s.jobs found (v.unused j le);
    }

-- `checked` gives up no slot: a job that was taken off the queue has not been sent a signal.
checked_keeps :
    (b : Bool) (c : Channel)
    → phase_places (checking b c) ≤ 1
    → (phase_slots (checked b c) ≡ phase_slots (checking b c))
      × (phase_places (checked b c) ≤ phase_places (checking b c))
checked_keeps b c h = ground arith

Inv-of_some : {s t : Server} → some s ≡ some t → Inv s → Inv t
Inv-of_some {s} {t} e v = let same : s ≡ t = cc in subst Inv same v

dropped_keeps :
    (b : Bool) (c : Channel)
    → (phase_slots (checking b (dropped c)) ≡ phase_slots (dequeuing b c))
      × (phase_places (checking b (dropped c)) ≤ phase_places (dequeuing b c))
dropped_keeps b c = ground arith

act_on-Inv :
    (s t : Server) (a : Action) (p : Phase)
    → phase_of (actor a) s.jobs ≡ some p
    → act_on s a p ≡ some t
    → Inv s
    → Inv t
unfolding act_on
act_on-Inv s t (insert_waiter id) inserting found e v =
    Inv-of_some e (move-Inv s id inserting (queued registered) found refl (omega arith) v)
act_on-Inv s t (receive id) (queued registered) found e v = absurd (cc)
act_on-Inv s t (receive id) (queued sent) found e v =
    Inv-of_some e (move-Inv s id (queued sent) holding found refl (omega arith) v)
act_on-Inv s t (receive id) (queued closed) found e v =
    Inv-of_some e (move-Inv s id (queued closed) gone found refl (omega arith) v)
act_on-Inv s t (withdraw id) (queued c) found e v = Inv-of_some e (withdraw_job-Inv s id c found v)
act_on-Inv s t (remove_waiter id) (dequeuing b c) found e v =
    let (same, fewer) = dropped_keeps b c in
    Inv-of_some e (move-Inv s id (dequeuing b c) (checking b (dropped c)) found same fewer v)
act_on-Inv s t (check_signal id) (checking b c) found e v =
    let here : phase_places (checking b c) ≤ 1 = omega (arith, ap option_places found, v.once id) in
    let (same, fewer) = checked_keeps b c here in
    Inv-of_some e (move-Inv s id (checking b c) (checked b c) found same fewer v)
act_on-Inv s t (job_finished id snap) holding found e v =
    Inv-of_some e (job_finished-Inv s id snap found v)
act_on-Inv s t _ _ found e v = absurd (cc)

on_job-Inv : (s t : Server) (a : Action) → on_job s (actor a) a ≡ some t → Inv s → Inv t
on_job-Inv s t a e v = elim (Option-cases (phase_of (actor a) s.jobs)) [
  | inl nobody ↦ absurd (ground arith)
  | inr (p, found) ↦ act_on-Inv s t a p found (ground arith) v
]

wake_deliver-Inv :
    (s t : Server) (i : ℕ) → on_waker s i (deliver_round s i) ≡ some t → Inv s → Inv t
wake_deliver-Inv s t i e v = elim (Option-cases (get_elem? s.wakers i)) [
  | inl nobody ↦ absurd (ground arith)
  | inr (w, at) ↦
      let (none_left, same) = deliver_round-cases s t i w (ground arith) in
      rw same (delivered-Inv s i w at none_left v)
]

wake_release-Inv :
    (s t : Server) (i : ℕ) (snap : Snapshot)
    → on_waker s i (λ w. release_orphan s i w snap) ≡ some t
    → Inv s
    → Inv t
wake_release-Inv s t i snap e v = elim (Option-cases (get_elem? s.wakers i)) [
  | inl nobody ↦ absurd (ground arith)
  | inr (w, at) ↦
      let (id, rest, one_left, same) = release_orphan-cases s t i w snap (ground arith) in
      rw same (orphan_released-Inv s i w id rest snap at one_left v)
]

-- Every action keeps the invariant.
pub step-Inv :
    (s t : Server) (a : Action) → step s a ≡ some t → s.next_id + submits a < 2 ^ 64 → Inv s → Inv t
unfolding step
step-Inv s t (submit priority snap) e few v = Inv-of_some e (submit_job-Inv s priority snap few v)
step-Inv s t (insert_waiter id) e few v = on_job-Inv s t (insert_waiter id) e v
step-Inv s t (receive id) e few v = on_job-Inv s t (receive id) e v
step-Inv s t (withdraw id) e few v = on_job-Inv s t (withdraw id) e v
step-Inv s t (remove_waiter id) e few v = on_job-Inv s t (remove_waiter id) e v
step-Inv s t (check_signal id) e few v = on_job-Inv s t (check_signal id) e v
step-Inv s t (job_finished id snap) e few v = on_job-Inv s t (job_finished id snap) e v
step-Inv s t (poll_tick snap) e few v = Inv-of_some e (poll_tick-Inv s snap v)
step-Inv s t (wake_deliver i) e few v = wake_deliver-Inv s t i e v
step-Inv s t (wake_release i snap) e few v = wake_release-Inv s t i snap e v

-- In every state that any interleaving of the tasks can reach with fewer than 2 ^ 64 - 1 submissions, so
-- that no identifier is used twice, the scheduler counts exactly the slots that jobs and wakers have to
-- give back, at most `max_jobs` of its limits are taken, and no job is met twice among the queue, the
-- released jobs and the signals.
pub Reachable-Inv :
    (l : Limits) (s : Server) (h : Reachable l s) → submissions h + 1 < 2 ^ 64 → Inv s
unfolding submissions
Reachable-Inv l s started few = start-Inv l
Reachable-Inv l s (next {s = r} a h e) few =
    let before : submissions h + 1 < 2 ^ 64 = omega (arith, few) in
    step-Inv r s a e (omega (arith, few, next_id-Reachable l r h before))
      (Reachable-Inv l r h before)

-- How many jobs run or are about to, or have ended with their slot still to be freed.
pub holders : List (JobId × Phase) → ℕ
holders [] = 0
holders ((j, p) ∷ js) = elim p [ holding ↦ 1 | _ ↦ 0 ] + holders js

holders-le : (js : List (JobId × Phase)) → holders js ≤ job_slots js
unfolding holders
holders-le [] = omega arith
holders-le ((j, p) ∷ js) = ground (arith, holders-le js)

limits-admit :
    (s : Scheduler) (id : JobId) (priority : Priority) (snap : Snapshot)
    → (admit s id priority snap).0.limits ≡ s.limits
limits-admit s id priority snap = elim (admit_outcomes s id priority snap) [
  | inl (_, e) ↦ rw e refl
  | inr (inl (_, _, e)) ↦ rw e refl
  | inr (inr (_, _, e)) ↦ rw e refl
]

limits-submit_job :
    (s : Server) (priority : Priority) (snap : Snapshot)
    → (submit_job s priority snap).scheduler.limits ≡ s.scheduler.limits
unfolding submit_job
limits-submit_job s priority snap = ground (arith, limits-admit s.scheduler s.next_id priority snap)

step-limits :
    (s t : Server) (a : Action) → step s a ≡ some t → t.scheduler.limits ≡ s.scheduler.limits
unfolding step act_on withdraw_job deliver_round release_orphan
step-limits s t (submit priority snap) e = ground (arith, limits-submit_job s priority snap)
step-limits s t (insert_waiter id) e = ground arith
step-limits s t (receive id) e = ground arith
step-limits s t (withdraw id) e = ground (arith, limits-remove_queued s.scheduler id)
step-limits s t (remove_waiter id) e = ground arith
step-limits s t (check_signal id) e = ground arith
step-limits s t (job_finished id snap) e = ground (arith, limits-finish s.scheduler snap)
step-limits s t (poll_tick snap) e = ground (arith, limits-poll s.scheduler snap)
step-limits s t (wake_deliver i) e = ground arith
step-limits s t (wake_release i snap) e = ground (arith, limits-finish s.scheduler snap)

Reachable-limits : (l : Limits) (s : Server) → Reachable l s → s.scheduler.limits ≡ l
unfolding start new
Reachable-limits l s started = refl
Reachable-limits l s (next {s = r} a h e) = step-limits r s a e ∙ Reachable-limits l r h

-- In every reachable state at most `max_jobs` jobs have been accepted or started and not yet given back
-- their slots.
pub holders-le-max_jobs : (l : Limits) (s : Server) → Reachable l s → holders s.jobs ≤ l.max_jobs
holders-le-max_jobs l s h =
    let v = Reachable-Covered l s h in
    omega (
      arith,
      v.slots,
      v.bounded,
      holders-le s.jobs,
      ap (λ (m : Limits). m.max_jobs) (Reachable-limits l s h),
    )
