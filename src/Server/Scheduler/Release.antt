-- ===== src/Server/Scheduler/Release.antt =====
-- What `poll` and `finish` release, in closed form.
use Prim.Native.Nat.{min}
use rust_build_server.Prelude.{
  ℕ, suc, zero, ◌+◌, ◌-◌, ◌≤◌, ◌≡◌, refl, ◌⊎◌, inl, inr, false, List, [], ◌∷◌, ◌++◌, map, arith,
  ltb, leb, if◌then◌else◌, length, take, drop, drop_all, Bool-cases,
}
use mathlib.Core.List.{append_assoc, append-nil}
use rust_build_server.Proto.Job.{JobId}
use rust_build_server.Server.Scheduler.{
  Snapshot, Entry, Scheduler, has_capacity, poll_loop, poll, finish,
}

abbrev pub ids : List Entry → List JobId
ids = map λ e. e.id

-- How many jobs may start: the free slots, but at most the jobs that wait, and none when memory is low.
abbrev pub free_slots : Scheduler → Snapshot → ℕ
free_slots s snap =
    if ltb s.limits.min_mem_available_bytes snap.mem_available_bytes
    then s.limits.max_jobs - s.running
    else 0

abbrev pub released_count : Scheduler → Snapshot → ℕ
released_count s snap = min (free_slots s snap) (length s.queue)

-- The state after the first `k` entries have been released.
abbrev pub release_first : ℕ → Scheduler → Scheduler
release_first k s = record s { running = s.running + k; queue = drop k s.queue }

poll_loop_lem :
    (snap : Snapshot) (q : List Entry) (s : Scheduler) (out : List JobId) (k : ℕ)
    → s.queue ≡ q
    → k ≡ min (free_slots s snap) (length q)
    → poll_loop snap q s out
      ≡ (record s { running = s.running + k; queue = drop k q }, out ++ ids (take k q))
unfolding poll_loop has_capacity
poll_loop_lem snap [] s out zero e h = ground (arith, append-nil out)
poll_loop_lem snap [] s out (suc k) e h = absurd (omega arith)
poll_loop_lem snap (x ∷ q) s out zero e h = ground (arith, append-nil out)
poll_loop_lem snap (x ∷ q) s out (suc k) e h =
    let s' = record s { queue = q; running = s.running + 1 } in
    ground (
      arith,
      poll_loop_lem snap q s' (out ++ x.id ∷ []) k,
      append_assoc out (x.id ∷ []) (ids (take k q)),
    )

-- `poll` releases the first jobs of the queue, as many as there are free slots while memory is above
-- the minimum, and none otherwise; it counts each as running and leaves the rest of the queue.
pub poll_lem :
    (s : Scheduler) (snap : Snapshot)
    → poll s snap
      ≡ (release_first (released_count s snap) s, ids (take (released_count s snap) s.queue))
unfolding poll
poll_lem s snap = poll_loop_lem snap s.queue s [] (released_count s snap) refl refl

abbrev pub slot_freed : Scheduler → Scheduler
slot_freed s = record s { running = s.running - 1 }

-- `finish` gives back one slot, and then releases as `poll` does with that slot free.
pub finish_lem :
    (s : Scheduler) (snap : Snapshot)
    → finish s snap ≡ (
      release_first (released_count (slot_freed s) snap) (slot_freed s),
      ids (take (released_count (slot_freed s) snap) s.queue),
    )
unfolding finish
finish_lem s snap = poll_lem (slot_freed s) snap

-- After `poll` nothing that could start is left waiting.
pub poll_complete :
    (s : Scheduler) (snap : Snapshot)
    → ((poll s snap).0.queue ≡ []) ⊎ (has_capacity (poll s snap).0 snap ≡ false)
unfolding has_capacity
poll_complete s snap = rw poll_lem (elim (Bool-cases (leb (length s.queue) (free_slots s snap))) [
  | inl few ↦ inl (drop_all _ s.queue (ground arith))
  | inr many ↦ inr (ground arith)
])

length-ids-take : (k : ℕ) (q : List Entry) → length (ids (take k q)) ≡ min k (length q)
length-ids-take zero q = omega arith
length-ids-take (suc k) [] = omega arith
length-ids-take (suc k) (x ∷ q) = omega (arith, length-ids-take k q)

pub limits-poll : (s : Scheduler) (snap : Snapshot) → (poll s snap).0.limits ≡ s.limits
limits-poll s snap = rw poll_lem refl

pub limits-finish : (s : Scheduler) (snap : Snapshot) → (finish s snap).0.limits ≡ s.limits
limits-finish s snap = rw finish_lem refl

-- Each job that is released is counted as running.
pub running-poll :
    (s : Scheduler) (snap : Snapshot) → (poll s snap).0.running ≡ s.running + length (poll s snap).1
running-poll s snap = rw poll_lem (omega (arith, length-ids-take (released_count s snap) s.queue))

pub running-finish :
    (s : Scheduler) (snap : Snapshot)
    → (finish s snap).0.running ≡ s.running - 1 + length (finish s snap).1
running-finish s snap =
    rw finish_lem (omega (arith, length-ids-take (released_count (slot_freed s) snap) s.queue))

pub running-poll-le :
    (s : Scheduler) (snap : Snapshot)
    → s.running ≤ s.limits.max_jobs
    → (poll s snap).0.running ≤ s.limits.max_jobs
running-poll-le s snap h = rw poll_lem (ground arith)

pub running-finish-le :
    (s : Scheduler) (snap : Snapshot)
    → s.running ≤ s.limits.max_jobs
    → (finish s snap).0.running ≤ s.limits.max_jobs
running-finish-le s snap h = rw finish_lem (ground arith)
