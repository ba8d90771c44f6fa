-- ===== src/Server/Slots/Invariant.antt =====
-- The invariant of the slots, and what moves, wake-ups and deliveries do to it.
use rust_build_server.Prelude.{
  ℕ, ◌+◌, ◌≤◌, ◌≡◌, refl, ◌∙◌, ap, inl, inr, List, [], ◌∷◌, ◌++◌, none, some, arith, ==_iff, length,
  length-append, get_elem?, List-cases,
}
use rust_build_server.Proto.Job.{JobId}
use rust_build_server.Server.Scheduler.{Snapshot, Limits, Scheduler, new, finish, poll}
use rust_build_server.Server.Scheduler.Release.{
  ids, limits-poll, limits-finish, running-poll, running-finish, running-poll-le, running-finish-le,
}
use rust_build_server.Server.Scheduler.Drain.{ids-finish}
use rust_build_server.Server.Slots.{
  Phase, holding, gone, Waker, Server, phase_of, set_phase, set_waker, deliver_all, move, woken,
  deliver_round, release_orphan, start,
}
use rust_build_server.Server.Slots.Tokens.{
  phase_slots, job_slots, waker_slots, job_slots-set_phase, waker_slots-set_waker,
  waker_slots-get_elem?-le, deliver_all-slots,
}
use rust_build_server.Server.Slots.Places.{
  count, count-append, phase_places, places, phase_of-set_phase, job_places-set_phase,
  waker_places-set_waker, deliver_all-places, deliver_all-none, ids-poll,
}

-- The scheduler counts exactly the slots that jobs and wakers hold, and never more than `max_jobs`; a job
-- is met in at most one place; and identifiers from `next_id` on are unused.
pub record Inv (s : Server) : Type 0 where
  pub slots : s.scheduler.running ≡ job_slots s.jobs + waker_slots s.wakers
  pub bounded : s.scheduler.running ≤ s.scheduler.limits.max_jobs
  pub once : (id : JobId) → places id s ≤ 1
  pub unmet : (id : JobId) → s.next_id ≤ id → places id s ≡ 0
  pub unused : (id : JobId) → s.next_id ≤ id → phase_of id s.jobs ≡ none

pub start-Inv : (l : Limits) → Inv (start l)
unfolding start new phase_of
start-Inv l = record {
  slots = refl;
  bounded = omega arith;
  once = λ id. omega arith;
  unmet = λ id le. refl;
  unused = λ id le. refl;
}

pub set_phase-unused :
    (id j : JobId) (p q : Phase) (js : List (JobId × Phase))
    → phase_of id js ≡ some p
    → phase_of j js ≡ none
    → phase_of j (set_phase id q js) ≡ none
set_phase-unused id j p q js found h =
    rw (phase_of-set_phase id j p q js found) (ground (arith, ==_iff id j))

-- A move that keeps the job's slots and adds no place.
pub move-Inv :
    (s : Server) (id : JobId) (p q : Phase)
    → phase_of id s.jobs ≡ some p
    → phase_slots q ≡ phase_slots p
    → phase_places q ≤ phase_places p
    → Inv s
    → Inv (move id q s)
move-Inv s id p q found same fewer v = record {
  slots = omega (arith, job_slots-set_phase id p q s.jobs found, v.slots);
  bounded = v.bounded;
  once = λ j. ground (arith, job_places-set_phase id j p q s.jobs found, v.once j);
  unmet = λ j le. ground (arith, job_places-set_phase id j p q s.jobs found, v.unmet j);
  unused = λ j le. set_phase-unused id j p q s.jobs found (v.unused j le);
}

-- What `wake` starts from, after a scheduler operation that moved jobs from the queue to `released`.
pub woken-Inv :
    (s : Server) (c : Scheduler) (out : List JobId)
    → c.running ≡ job_slots s.jobs + waker_slots s.wakers + length out
    → c.running ≤ c.limits.max_jobs
    → ids s.scheduler.queue ≡ out ++ ids c.queue
    → ((id : JobId) → places id s ≤ 1)
    → ((id : JobId) → s.next_id ≤ id → places id s ≡ 0)
    → ((id : JobId) → s.next_id ≤ id → phase_of id s.jobs ≡ none)
    → Inv (woken s (c, out))
woken-Inv s c out running bound order once unmet unused =
    let split = λ (id : JobId). ap (count id) order ∙ count-append id out (ids c.queue) in
    record {
      slots = omega (arith, running);
      bounded = bound;
      once = λ id. omega (arith, split id, once id);
      unmet = λ id le. omega (arith, split id, unmet id le);
      unused = unused;
    }

pub poll_tick-Inv : (s : Server) (snap : Snapshot) → Inv s → Inv (woken s (poll s.scheduler snap))
poll_tick-Inv s snap v =
    let c = s.scheduler in
    woken-Inv s (poll c snap).0 (poll c snap).1 (omega (arith, running-poll c snap, v.slots))
      (rw limits-poll (running-poll-le c snap v.bounded)) (ids-poll c snap) v.once v.unmet v.unused

pub job_finished-Inv :
    (s : Server) (id : JobId) (snap : Snapshot)
    → phase_of id s.jobs ≡ some holding
    → Inv s
    → Inv (woken (move id gone s) (finish s.scheduler snap))
job_finished-Inv s id snap found v =
    let c = s.scheduler in
    let freed = job_slots-set_phase id holding gone s.jobs found in
    let place = λ (j : JobId). job_places-set_phase id j holding gone s.jobs found in
    woken-Inv (move id gone s) (finish c snap).0 (finish c snap).1
      (omega (arith, running-finish c snap, v.slots, freed))
      (rw limits-finish (running-finish-le c snap v.bounded)) (ids-finish c snap)
      (λ j. omega (arith, place j, v.once j)) (λ j le. omega (arith, place j, v.unmet j le))
      (λ j le. set_phase-unused id j holding gone s.jobs found (v.unused j le))

-- The state after a round of deliveries, and after the release of one orphan's slot.
abbrev pub delivered : Server → ℕ → Waker → Server
delivered s i w =
    let r = deliver_all w.released s.jobs in
    record s {
      jobs = r.0;
      wakers = set_waker i (record { orphaned = r.1; released = [] }) s.wakers;
    }

abbrev pub orphan_released : Server → ℕ → Waker → List JobId → Snapshot → Server
orphan_released s i w rest snap =
    let r = finish s.scheduler snap in
    record s {
      scheduler = r.0;
      wakers = set_waker i (record { orphaned = rest; released = w.released ++ r.1 }) s.wakers;
    }

pub deliver_round-cases :
    (s t : Server) (i : ℕ) (w : Waker)
    → deliver_round s i w ≡ some t
    → (w.orphaned ≡ []) × (t ≡ delivered s i w)
unfolding deliver_round
deliver_round-cases s t i w e = ground arith

pub release_orphan-cases :
    (s t : Server) (i : ℕ) (w : Waker) (snap : Snapshot)
    → release_orphan s i w snap ≡ some t
    → (id : JobId) × (rest : List JobId) × (w.orphaned ≡ id ∷ rest)
      × (t ≡ orphan_released s i w rest snap)
unfolding release_orphan
release_orphan-cases s t i w snap e = elim (List-cases w.orphaned) [
  | inl nobody ↦ absurd (ground arith)
  | inr (id, rest, one_left) ↦ (id, rest, one_left, ground arith)
]

pub delivered-Inv :
    (s : Server) (i : ℕ) (w : Waker)
    → get_elem? s.wakers i ≡ some w
    → w.orphaned ≡ []
    → Inv s
    → Inv (delivered s i w)
delivered-Inv s i w at none_left v =
    let r = deliver_all w.released s.jobs in
    let w' : Waker = record { orphaned = r.1; released = [] } in
    let met = λ (j : JobId). waker_places-set_waker j i w w' s.wakers at in
    let jobs = λ (j : JobId). deliver_all-places j w.released s.jobs in
    record {
      slots = omega (
        arith,
        v.slots,
        waker_slots-set_waker i w w' s.wakers at,
        deliver_all-slots w.released s.jobs,
        ap length none_left,
      );
      bounded = v.bounded;
      once = λ j. omega (arith, met j, jobs j, v.once j);
      unmet = λ j le. omega (arith, met j, jobs j, v.unmet j le);
      unused = λ j le. deliver_all-none j w.released s.jobs (v.unused j le);
    }

pub orphan_released-Inv :
    (s : Server) (i : ℕ) (w : Waker) (id : JobId) (rest : List JobId) (snap : Snapshot)
    → get_elem? s.wakers i ≡ some w
    → w.orphaned ≡ id ∷ rest
    → Inv s
    → Inv (orphan_released s i w rest snap)
orphan_released-Inv s i w id rest snap at one_left v =
    let c = s.scheduler in
    let out = (finish c snap).1 in
    let w' : Waker = record { orphaned = rest; released = w.released ++ out } in
    let met = λ (j : JobId). waker_places-set_waker j i w w' s.wakers at in
    let split = λ (j : JobId).
      ap (count j) (ids-finish c snap) ∙ count-append j out (ids (finish c snap).0.queue) in
    let grown = λ (j : JobId). count-append j w.released out in
    record {
      slots = omega (
        arith,
        v.slots,
        running-finish c snap,
        waker_slots-set_waker i w w' s.wakers at,
        waker_slots-get_elem?-le i w s.wakers at,
        length-append w.released out,
        ap length one_left,
      );
      bounded = rw limits-finish (running-finish-le c snap v.bounded);
      once = λ j. omega (arith, met j, split j, grown j, v.once j);
      unmet = λ j le. omega (arith, met j, split j, grown j, v.unmet j le);
      unused = v.unused;
    }
