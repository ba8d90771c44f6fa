-- ===== src/Server/Scheduler/Drain.antt =====
-- Who is served first, and that everybody is served.
use mathlib.Core.List.{append_assoc, map-append}
use rust_build_server.Prelude.{
  ◌-◌, ◌≤◌, ◌<◌, ◌≡◌, refl, sym, ◌∙◌, ap, List, [], ◌∷◌, ◌++◌, arith, length, take, drop,
  length-drop, take-append-drop, All,
}
use rust_build_server.Proto.Job.{JobId}
use rust_build_server.Server.Scheduler.{Snapshot, Limits, Entry, Scheduler, poll, finish}
use rust_build_server.Server.Scheduler.Release.{
  ids, poll_lem, finish_lem, limits-finish, released_count, slot_freed,
}
use rust_build_server.Server.Scheduler.Order.{Before, IsSorted, take-Before-drop}
use rust_build_server.Server.Scheduler.Invariant.{Inv, finish-Inv}

-- How the queue of `s` was divided: the jobs that `r` releases, each of which goes before each that stays.
abbrev pub ServesInOrder : Scheduler → Scheduler × List JobId → Type 0
ServesInOrder s r =
    (sent : List Entry) × (s.queue ≡ sent ++ r.0.queue)
    × (r.1 ≡ ids sent)
    × All (λ a. All (λ b. Before a b) r.0.queue) sent

-- From a sorted queue `poll` releases a first part of it, in order, and each job that it releases is more
-- urgent than each that stays, or as urgent and came first.
pub poll-ServesInOrder :
    (s : Scheduler) (snap : Snapshot) → IsSorted s.queue → ServesInOrder s (poll s snap)
poll-ServesInOrder s snap sorted =
    let k = released_count s snap in
    rw poll_lem
      (take k s.queue, sym (take-append-drop k s.queue), refl, take-Before-drop k s.queue sorted)

-- Jobs end one after another, with the memory reading at each end, while no job is submitted.
pub drain : List Snapshot → Scheduler → Scheduler × List JobId
drain [] s = (s, [])
drain (snap ∷ snaps) s =
    let after = finish s snap in let rest = drain snaps after.0 in (rest.0, after.1 ++ rest.1)

abbrev pub HasMemory : Limits → Snapshot → Type 0
HasMemory l snap = l.min_mem_available_bytes < snap.mem_available_bytes

pub ids-finish :
    (s : Scheduler) (snap : Snapshot)
    → ids s.queue ≡ (finish s snap).1 ++ ids (finish s snap).0.queue
ids-finish s snap =
    let k = released_count (slot_freed s) snap in
    rw finish_lem
      (ap ids (sym (take-append-drop k s.queue)) ∙ map-append _ (take k s.queue) (drop k s.queue))

-- With memory and at least one slot, each end of a job starts a waiting one.
length-finish :
    (s : Scheduler) (snap : Snapshot)
    → Inv s
    → 0 < s.limits.max_jobs
    → HasMemory s.limits snap
    → length (finish s snap).0.queue ≤ length s.queue - 1
length-finish s snap v some_slot memory =
    let k = released_count (slot_freed s) snap in
    rw finish_lem (ground (arith, length-drop k s.queue, v.running_bounded))

-- While memory lasts and at least one slot is configured, the first `n` jobs of the queue have started, in
-- the queue's order, when `n` jobs have ended, and the rest still wait in that order.
pub drain_lem :
    (snaps : List Snapshot) (s : Scheduler)
    → Inv s
    → 0 < s.limits.max_jobs
    → All (HasMemory s.limits) snaps
    → (ids s.queue ≡ (drain snaps s).1 ++ ids (drain snaps s).0.queue)
      × (length (drain snaps s).0.queue ≤ length s.queue - length snaps)
unfolding drain
drain_lem [] s v some_slot memory = (refl, omega arith)
drain_lem (snap ∷ snaps) s v some_slot memory =
    let same = limits-finish s snap in
    let s' = (finish s snap).0 in
    let (order, few) =
      drain_lem snaps s' (finish-Inv s snap v) (rw same some_slot) (rw same memory.1) in
    (
      ids-finish s snap
          ∙ ap (λ t. (finish s snap).1 ++ t) order
          ∙ sym (append_assoc (finish s snap).1 (drain snaps s').1 (ids (drain snaps s').0.queue)),
      omega (arith, few, length-finish s snap v some_slot memory.0),
    )
