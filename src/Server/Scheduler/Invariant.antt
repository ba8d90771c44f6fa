-- ===== src/Server/Scheduler/Invariant.antt =====
-- The scheduler's invariant, kept by every operation and so by every history.
use rust_build_server.Prelude.{
  ℕ, suc, zero, ◌+◌, ◌%◌, ◌^◌, ◌≤◌, ◌<◌, ◌≡◌, refl, inl, inr, List, [], ◌∷◌, arith, ◌==◌, length,
  length-insert_at, length-drop, find_index, remove_at, All, All-map, Option-cases,
}
use rust_build_server.Proto.Job.{JobId, Priority}
use rust_build_server.Server.Scheduler.{
  Snapshot, Limits, Entry, Scheduler, new, admit, poll, finish, remove_queued, queue_index,
  entry_for,
}
use rust_build_server.Server.Scheduler.Admission.{admit_outcomes, queued_at}
use rust_build_server.Server.Scheduler.Release.{poll_lem, finish_lem, released_count, slot_freed}
use rust_build_server.Server.Scheduler.Order.{
  IsSorted, insert_at-IsSorted, insert_at-All, drop-All, drop-IsSorted, remove_at-All,
  remove_at-IsSorted,
}

-- At most `max_jobs` run, at most `queue_limit` wait, and the queue is in order of rank and arrival.
pub record Inv (s : Scheduler) : Type 0 where
  pub running_bounded : s.running ≤ s.limits.max_jobs
  pub queue_bounded : length s.queue ≤ s.limits.queue_limit
  pub sorted : IsSorted s.queue
  pub numbered : All (λ e. e.seq ≤ s.seq) s.queue

new-Inv : (l : Limits) → Inv (new l)
unfolding new
new-Inv l = record {
  running_bounded = omega arith;
  queue_bounded = omega arith;
  sorted = tt;
  numbered = tt;
}

queued_at-Inv :
    (s : Scheduler) (id : JobId) (priority : Priority)
    → s.seq + 1 < 2 ^ 64
    → length s.queue < s.limits.queue_limit
    → Inv s
    → Inv (queued_at (queue_index s.queue priority) s id priority)
queued_at-Inv s id priority fits room v =
    let e = entry_for s id priority in
    let i = queue_index s.queue priority in
    let next : (s.seq + 1) % 2 ^ 64 ≡ s.seq + 1 = omega arith in
    record {
      running_bounded = v.running_bounded;
      queue_bounded = omega (arith, length-insert_at i e s.queue);
      sorted =
          insert_at-IsSorted e s.queue (All-map (λ x le. omega arith) s.queue v.numbered) v.sorted;
      numbered =
          insert_at-All (λ x. x.seq ≤ (s.seq + 1) % 2 ^ 64) i e s.queue (omega arith)
            (All-map (λ x le. omega arith) s.queue v.numbered);
    }

-- While the arrival numbers do not wrap, `admit` keeps the invariant.
pub admit-Inv :
    (s : Scheduler) (id : JobId) (priority : Priority) (snap : Snapshot)
    → s.seq + 1 < 2 ^ 64
    → Inv s
    → Inv (admit s id priority snap).0
admit-Inv s id priority snap fits v = elim (admit_outcomes s id priority snap) [
  | inl (m, e) ↦ rw e (record {
    running_bounded = omega (arith, m.slot_free);
    queue_bounded = v.queue_bounded;
    sorted = v.sorted;
    numbered = v.numbered;
  })
  | inr (inl (_, _, e)) ↦ rw e v
  | inr (inr (_, room, e)) ↦ rw e (queued_at-Inv s id priority fits room v)
]

pub poll-Inv : (s : Scheduler) (snap : Snapshot) → Inv s → Inv (poll s snap).0
poll-Inv s snap v =
    let k = released_count s snap in
    rw poll_lem (record {
      running_bounded = ground (arith, v.running_bounded);
      queue_bounded = omega (arith, length-drop k s.queue, v.queue_bounded);
      sorted = drop-IsSorted k s.queue v.sorted;
      numbered = drop-All (λ e. e.seq ≤ s.seq) k s.queue v.numbered;
    })

pub finish-Inv : (s : Scheduler) (snap : Snapshot) → Inv s → Inv (finish s snap).0
unfolding finish
finish-Inv s snap v = poll-Inv (slot_freed s) snap (record {
  running_bounded = omega (arith, v.running_bounded);
  queue_bounded = v.queue_bounded;
  sorted = v.sorted;
  numbered = v.numbered;
})

pub length-remove_at-le : (i : ℕ) (q : List Entry) → length (remove_at i q) ≤ length q
length-remove_at-le i [] = omega arith
length-remove_at-le zero (x ∷ q) = omega arith
length-remove_at-le (suc i) (x ∷ q) = omega (arith, length-remove_at-le i q)

pub remove_queued-Inv : (s : Scheduler) (id : JobId) → Inv s → Inv (remove_queued s id).0
unfolding remove_queued
remove_queued-Inv s id v = elim (Option-cases (find_index (λ e. e.id == id) s.queue)) [
  | inl e ↦ rw (e, remove_queued) v
  | inr (i, e) ↦
      rw (e, remove_queued)
        (record {
          running_bounded = v.running_bounded;
          queue_bounded = omega (arith, length-remove_at-le i s.queue, v.queue_bounded);
          sorted = remove_at-IsSorted i s.queue v.sorted;
          numbered = remove_at-All (λ e. e.seq ≤ s.seq) i s.queue v.numbered;
        })
]

-- The calls that the server makes.
pub data Call : Type 0 where
  admits : JobId → Priority → Snapshot → Call
  finishes : Snapshot → Call
  polls : Snapshot → Call
  removes : JobId → Call

unfoldable pub step : Scheduler → Call → Scheduler
unfolding admit finish poll remove_queued
step s (admits id priority snap) = (admit s id priority snap).0
step s (finishes snap) = (finish s snap).0
step s (polls snap) = (poll s snap).0
step s (removes id) = (remove_queued s id).0

unfoldable pub run : Scheduler → List Call → Scheduler
unfolding step
run s [] = s
run s (c ∷ cs) = run (step s c) cs

step-Inv : (s : Scheduler) (c : Call) → s.seq + 1 < 2 ^ 64 → Inv s → Inv (step s c)
unfolding step
step-Inv s (admits id priority snap) fits v = admit-Inv s id priority snap fits v
step-Inv s (finishes snap) fits v = finish-Inv s snap v
step-Inv s (polls snap) fits v = poll-Inv s snap v
step-Inv s (removes id) fits v = remove_queued-Inv s id v

seq-admit-le :
    (s : Scheduler) (id : JobId) (priority : Priority) (snap : Snapshot)
    → (admit s id priority snap).0.seq ≤ s.seq + 1
seq-admit-le s id priority snap = elim (admit_outcomes s id priority snap) [
  | inl (_, e) ↦ rw e (omega arith)
  | inr (inl (_, _, e)) ↦ rw e (omega arith)
  | inr (inr (_, _, e)) ↦ rw e (omega arith)
]

seq-poll : (s : Scheduler) (snap : Snapshot) → (poll s snap).0.seq ≡ s.seq
seq-poll s snap = rw poll_lem refl

seq-finish : (s : Scheduler) (snap : Snapshot) → (finish s snap).0.seq ≡ s.seq
seq-finish s snap = rw finish_lem refl

seq-step-le : (s : Scheduler) (c : Call) → (step s c).seq ≤ s.seq + 1
unfolding step remove_queued
seq-step-le s (admits id priority snap) = seq-admit-le s id priority snap
seq-step-le s (finishes snap) = omega (arith, seq-finish s snap)
seq-step-le s (polls snap) = omega (arith, seq-poll s snap)
seq-step-le s (removes id) = ground arith

run-Inv : (s : Scheduler) (cs : List Call) → s.seq + length cs < 2 ^ 64 → Inv s → Inv (run s cs)
unfolding run
run-Inv s [] fits v = v
run-Inv s (c ∷ cs) fits v =
    run-Inv (step s c) cs (omega (arith, seq-step-le s c)) (step-Inv s c (omega arith) v)

-- From a new scheduler, after any fewer than 2 ^ 64 calls in any order and with any memory readings, at
-- most `max_jobs` jobs run, at most `queue_limit` wait, and those that wait stand in order of rank, and
-- of arrival within a rank.
pub run-new-Inv : (l : Limits) (cs : List Call) → length cs < 2 ^ 64 → Inv (run (new l) cs)
unfolding new
run-new-Inv l cs fits = run-Inv (new l) cs (omega arith) (new-Inv l)
