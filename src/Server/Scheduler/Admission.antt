-- ===== src/Server/Scheduler/Admission.antt =====
-- The branches of `admit`, and the queue position that it reports.
use rust_build_server.Prelude.{
  ℕ, suc, zero, ◌+◌, ◌%◌, ◌^◌, ◌≤◌, ◌<◌, ◌≡◌, refl, ◌⊎◌, inl, inr, Bool, true, false, List, [], ◌∷◌,
  some, arith, leb, ◌==◌, length, find_index, insert_at, All, Bool-cases,
}
use rust_build_server.Proto.Job.{JobId, Priority}
use rust_build_server.Server.Scheduler.{
  Snapshot, Entry, Scheduler, Decision, accept, queue, reject_saturated, is_empty, has_capacity,
  accepting, queue_index, entry_for, enqueue, admit, position,
}

-- What a job needs to start at once: an empty queue, a free slot, and memory above the minimum.
pub record MayStart (s : Scheduler) (snap : Snapshot) : Type 0 where
  pub nobody_waits : s.queue ≡ []
  pub slot_free : s.running < s.limits.max_jobs
  pub memory_free : s.limits.min_mem_available_bytes < snap.mem_available_bytes

empty_of_is_empty : (q : List Entry) → is_empty q ≡ true → q ≡ []
empty_of_is_empty [] h = refl
empty_of_is_empty (e ∷ q) h = cc

pub MayStart-of_accepting :
    (s : Scheduler) (snap : Snapshot) → accepting s snap ≡ true → MayStart s snap
unfolding accepting has_capacity
MayStart-of_accepting s snap h = record {
  nobody_waits = empty_of_is_empty s.queue (ground arith);
  slot_free = ground arith;
  memory_free = ground arith;
}

pub accepting-of_MayStart :
    (s : Scheduler) (snap : Snapshot) → MayStart s snap → accepting s snap ≡ true
unfolding accepting has_capacity
accepting-of_MayStart s snap m = rw m.nobody_waits (ground arith)

-- The state after a job has been queued at index `i`.
abbrev pub queued_at : ℕ → Scheduler → JobId → Priority → Scheduler
queued_at i s id priority = record s {
  seq = (s.seq + 1) % 2 ^ 64;
  queue = insert_at i (entry_for s id priority) s.queue;
}

-- The three outcomes of `admit`.
abbrev pub Admitted : Scheduler → JobId → Priority → Snapshot → Scheduler × Decision → Type 0
Admitted s id priority snap r =
    (MayStart s snap × (r ≡ (record s { running = s.running + 1 }, accept)))
    ⊎ (¬ MayStart s snap × (s.limits.queue_limit ≤ length s.queue) × (r ≡ (s, reject_saturated)))
    ⊎ (¬ MayStart s snap
        × (length s.queue < s.limits.queue_limit)
        × (r ≡ (
          queued_at (queue_index s.queue priority) s id priority,
          queue (queue_index s.queue priority + 1),
        )))

-- `admit` starts the job if it may start, rejects it if not and the queue is full, and otherwise queues it
-- at its index and reports the position, counted from 1; nothing else changes.
pub admit_outcomes :
    (s : Scheduler) (id : JobId) (priority : Priority) (snap : Snapshot)
    → Admitted s id priority snap (admit s id priority snap)
unfolding admit enqueue
admit_outcomes s id priority snap = elim (Bool-cases (accepting s snap)) [
  | inl yes_now ↦ inl (MayStart-of_accepting s snap yes_now, rw yes_now refl)
  | inr not_now ↦
      let blocked : ¬ MayStart s snap = λ m. cc (accepting-of_MayStart s snap m) in
      inr (elim (Bool-cases (leb s.limits.queue_limit (length s.queue))) [
        | inl full ↦ inl (blocked, ground arith, rw (not_now, full) refl)
        | inr room ↦ inr (blocked, ground arith, rw (not_now, room) refl)
      ])
]

queue_index_le : (q : List Entry) (p : Priority) → queue_index q p ≤ length q
unfolding queue_index
queue_index_le [] p = omega arith
queue_index_le (x ∷ q) p = ground (arith, queue_index_le q p)

find_index-insert_at :
    (P : Entry → Bool) (i : ℕ) (e : Entry) (q : List Entry)
    → i ≤ length q
    → P e ≡ true
    → All (λ x. P x ≡ false) q
    → find_index P (insert_at i e q) ≡ some i
find_index-insert_at P zero e q le hit miss = rw hit refl
find_index-insert_at P (suc i) e [] le hit miss = absurd (omega arith)
find_index-insert_at P (suc i) e (x ∷ q) le hit miss =
    rw (miss.0, find_index-insert_at P i e q (omega arith) hit miss.1) refl

position-queued_at :
    (s : Scheduler) (i : ℕ) (id : JobId) (priority : Priority)
    → i ≤ length s.queue
    → All (λ e. (e.id == id) ≡ false) s.queue
    → position (queued_at i s id priority) id ≡ some (i + 1)
unfolding position
position-queued_at s i id priority le fresh =
    let found = find_index-insert_at (λ e. e.id == id) i (entry_for s id priority) s.queue le in
    rw (found (ground arith) fresh, position) (ground arith)

-- A job that is not in the queue and that `admit` queues gets the position that `position` then gives.
pub position-admit :
    (s : Scheduler) (id : JobId) (priority : Priority) (snap : Snapshot) (n : ℕ)
    → All (λ e. (e.id == id) ≡ false) s.queue
    → (admit s id priority snap).1 ≡ queue n
    → position (admit s id priority snap).0 id ≡ some n
position-admit s id priority snap n fresh h =
    let at = queue_index s.queue priority in
    let there = position-queued_at s at id priority (queue_index_le s.queue priority) fresh in
    elim (admit_outcomes s id priority snap) [
      | inl (_, e) ↦ absurd (cc)
      | inr (inl (_, _, e)) ↦ absurd (cc)
      | inr (inr (_, _, e)) ↦ cc
    ]
