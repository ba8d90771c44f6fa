-- ===== src/Server/Scheduler.antt =====
-- crates/rbs-server/src/scheduler.rs: admission and queueing, as functions of the scheduler's state
-- that return the new state and the result. The snapshot of crates/rbs-server/src/sysinfo.rs is an
-- argument. The queue's length is the length of a list, and `seq`, a `u64`, wraps around.
pub mod Admission
pub mod Release
pub mod Order
pub mod Invariant
pub mod Drain
mod Examples
use rust_build_server.Prelude.{
  ℕ, ◌+◌, ◌-◌, ◌*◌, ◌%◌, ◌^◌, Bool, true, false, ◌&&◌, List, [], ◌∷◌, ◌++◌, Option, none, some, ltb,
  leb, ◌==◌, if◌then◌else◌, length, find_index, insert_at, remove_at,
}
use rust_build_server.Proto.Job.{JobId, Priority, rank}

-- `Snapshot`, less the load average, which the scheduler does not read.
pub record Snapshot : Type 0 where
  pub mem_available_bytes : ℕ

pub record Limits : Type 0 where
  pub max_jobs : ℕ
  pub min_mem_available_bytes : ℕ
  pub queue_limit : ℕ

-- `Limits::from`, at the three fields of the `[server]` section; `<< 30` on a `u64`.
unfoldable pub limits_from : (max_jobs min_mem_available_gib queue_limit : ℕ) → Limits
limits_from max_jobs gib queue_limit = record {
  max_jobs = max_jobs;
  min_mem_available_bytes = gib * 2 ^ 30 % 2 ^ 64;
  queue_limit = queue_limit;
}

pub data Decision : Type 0 where
  accept : Decision
  queue : (position : ℕ) → Decision
  reject_saturated : Decision

pub record Entry : Type 0 where
  pub id : JobId
  pub priority : Priority
  pub seq : ℕ

pub record Scheduler : Type 0 where
  pub limits : Limits
  pub running : ℕ
  pub queue : List Entry
  pub seq : ℕ

unfoldable pub new : Limits → Scheduler
new limits = record { limits = limits; running = 0; queue = []; seq = 0 }

unfoldable pub queued : Scheduler → ℕ
queued s = length s.queue

abbrev pub is_empty : List Entry → Bool
is_empty [] = true
is_empty (e ∷ es) = false

unfoldable pub has_capacity : Scheduler → Snapshot → Bool
has_capacity s snap =
    ltb s.running s.limits.max_jobs && ltb s.limits.min_mem_available_bytes snap.mem_available_bytes

unfoldable pub accepting : Scheduler → Snapshot → Bool
unfolding has_capacity
accepting s snap = is_empty s.queue && has_capacity s snap

-- Where a job of this priority goes: before the first entry of a lower rank, or last.
unfoldable pub queue_index : List Entry → Priority → ℕ
queue_index q p = elim (find_index (λ e. ltb (rank e.priority) (rank p)) q) [
  | none ↦ length q
  | some i ↦ i
]

-- The entry that `admit` makes of a job it queues.
abbrev pub entry_for : Scheduler → JobId → Priority → Entry
entry_for s id priority = record { id = id; priority = priority; seq = (s.seq + 1) % 2 ^ 64 }

unfoldable pub enqueue : Scheduler → JobId → Priority → Scheduler × Decision
unfolding queue_index
enqueue s id priority =
    let idx = queue_index s.queue priority in
    (
      record s {
        seq = (s.seq + 1) % 2 ^ 64;
        queue = insert_at idx (entry_for s id priority) s.queue;
      },
      queue (idx + 1),
    )

unfoldable pub admit : Scheduler → JobId → Priority → Snapshot → Scheduler × Decision
unfolding accepting enqueue
admit s id priority snap =
    if accepting s snap
    then (record s { running = s.running + 1 }, accept)
    else if leb s.limits.queue_limit (length s.queue)
    then (s, reject_saturated)
    else enqueue s id priority

-- The loop of `poll`, by recursion on the queue; the state is that before the round.
poll_loop : Snapshot → List Entry → Scheduler → List JobId → Scheduler × List JobId
poll_loop snap [] s released = (s, released)
poll_loop snap (e ∷ rest) s released =
    let next =
      poll_loop snap rest (record s { queue = rest; running = s.running + 1 })
        (released ++ e.id ∷ []) in
    if has_capacity s snap then next else (s, released)

unfoldable pub poll : Scheduler → Snapshot → Scheduler × List JobId
unfolding poll_loop has_capacity
poll s snap = poll_loop snap s.queue s []

-- `saturating_sub` is subtraction on ℕ.
unfoldable pub finish : Scheduler → Snapshot → Scheduler × List JobId
unfolding poll
finish s snap = poll (record s { running = s.running - 1 }) snap

unfoldable pub position : Scheduler → JobId → Option ℕ
position s id = elim (find_index (λ e. e.id == id) s.queue) [ none ↦ none | some i ↦ some (i + 1) ]

unfoldable pub remove_queued : Scheduler → JobId → Scheduler × Bool
remove_queued s id = elim (find_index (λ e. e.id == id) s.queue) [
  | none ↦ (s, false)
  | some i ↦ (record s { queue = remove_at i s.queue }, true)
]
