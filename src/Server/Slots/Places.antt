-- ===== src/Server/Slots/Places.antt =====
-- In how many places a job can be met: in the scheduler's queue, among the jobs that a waker has still
-- to deliver, as a signal that was sent to it, and as one that `dequeue` has taken off the queue.
use mathlib.Core.List.{map-append}
use rust_build_server.Prelude.{
  ℕ, zero, suc, ◌+◌, ◌≤◌, ◌≡◌, refl, sym, ◌∙◌, ap, inl, inr, Bool, ◌&&◌, ◌*◌, ==_iff, List, [], ◌∷◌,
  ◌++◌, Option, none, some, arith, ◌==◌, if◌then◌else◌, get_elem?, take, drop, take-append-drop,
  find_index, insert_at, remove_at, Bool-cases, Option-cases,
}
use rust_build_server.Proto.Job.{JobId}
use rust_build_server.Server.Scheduler.{Snapshot, Entry, Scheduler, poll, remove_queued}
use rust_build_server.Server.Scheduler.Release.{ids, poll_lem, released_count}
use rust_build_server.Server.Slots.{
  Phase, inserting, queued, dequeuing, checking, holding, gone, Waker, Server, phase_of, set_phase,
  set_waker, deliver_to, deliver_all,
}
use rust_build_server.Server.Slots.Tokens.{sent_slots, deliver_to_found}

abbrev pub one_if : Bool → ℕ
one_if b = if b then 1 else 0

abbrev pub count : JobId → List JobId → ℕ
count id [] = 0
count id (j ∷ js) = one_if (j == id) + count id js

pub count-append :
    (id : JobId) (xs ys : List JobId) → count id (xs ++ ys) ≡ count id xs + count id ys
count-append id [] ys = omega arith
count-append id (x ∷ xs) ys = omega (arith, count-append id xs ys)

abbrev pub phase_places : Phase → ℕ
phase_places inserting = 0
phase_places (queued c) = sent_slots c
phase_places (dequeuing b c) = one_if b + sent_slots c
phase_places (checking b c) = one_if b + sent_slots c
phase_places holding = 0
phase_places gone = 0

abbrev pub option_places : Option Phase → ℕ
option_places none = 0
option_places (some p) = phase_places p

abbrev pub job_places : JobId → List (JobId × Phase) → ℕ
job_places id js = option_places (phase_of id js)

abbrev pub waker_places : JobId → List Waker → ℕ
waker_places id [] = 0
waker_places id (w ∷ ws) = count id w.released + waker_places id ws

abbrev pub places : JobId → Server → ℕ
places id s = count id (ids s.scheduler.queue) + waker_places id s.wakers + job_places id s.jobs

pub phase_of-set_phase :
    (id j : JobId) (p q : Phase) (js : List (JobId × Phase))
    → phase_of id js ≡ some p
    → phase_of j (set_phase id q js) ≡ (if id == j then some q else phase_of j js)
unfolding phase_of set_phase
phase_of-set_phase id j p q [] h = absurd (cc)
phase_of-set_phase id j p q ((k, r) ∷ js) h = ground (arith, phase_of-set_phase id j p q js)

pub waker_places-set_waker :
    (id : JobId) (i : ℕ) (v w : Waker) (ws : List Waker)
    → get_elem? ws i ≡ some v
    → waker_places id (set_waker i w ws) + count id v.released
      ≡ waker_places id ws + count id w.released
unfolding set_waker
waker_places-set_waker id i v w [] h = absurd (cc)
waker_places-set_waker id zero v w (u ∷ ws) h = ground arith
waker_places-set_waker id (suc i) v w (u ∷ ws) h =
    omega (arith, waker_places-set_waker id i v w ws h)

pub waker_places-get_elem?-le :
    (id : JobId) (i : ℕ) (w : Waker) (ws : List Waker)
    → get_elem? ws i ≡ some w
    → count id w.released ≤ waker_places id ws
waker_places-get_elem?-le id i w [] h = absurd (cc)
waker_places-get_elem?-le id zero w (u ∷ ws) h = ground arith
waker_places-get_elem?-le id (suc i) w (u ∷ ws) h =
    omega (arith, waker_places-get_elem?-le id i w ws h)

deliver_to-places :
    (p q : Phase) → deliver_to (some p) ≡ some q → phase_places q ≡ phase_places p + 1
unfolding deliver_to
deliver_to-places p q h = ground arith

-- The measure of one job after the move of another, or of itself.
pub job_places-set_phase :
    (id j : JobId) (p q : Phase) (js : List (JobId × Phase))
    → phase_of id js ≡ some p
    → job_places j (set_phase id q js) + one_if (id == j) * phase_places p
      ≡ job_places j js + one_if (id == j) * phase_places q
job_places-set_phase id j p q js h = elim (Bool-cases (id == j)) [
  | inl hit ↦
      let same : id ≡ j = (==_iff id j).0 hit in
      rw (phase_of-set_phase id j p q js h, hit, ← same, h) (omega arith)
  | inr miss ↦ rw (phase_of-set_phase id j p q js h, miss) (omega arith)
]

-- A job met once more as a signal is met once less among the jobs to deliver.
pub deliver_all-places :
    (id : JobId) (js : List JobId) (jobs : List (JobId × Phase))
    → job_places id (deliver_all js jobs).0 ≤ job_places id jobs + count id js
unfolding deliver_all
deliver_all-places id [] jobs = omega arith
deliver_all-places id (j ∷ js) jobs = elim (Option-cases (deliver_to (phase_of j jobs))) [
  | inl lost ↦ rw (lost, deliver_all) (omega (arith, deliver_all-places id js jobs))
  | inr (q, e) ↦
      let (p, found) = deliver_to_found (phase_of j jobs) q e in
      let one = deliver_to-places p q (rw found at e) in
      let moved = job_places-set_phase j id p q jobs found in
      let rest = deliver_all-places id js (set_phase j q jobs) in
      rw (e, deliver_all) (ground (arith, one, moved, rest))
]

pub deliver_all-none :
    (id : JobId) (js : List JobId) (jobs : List (JobId × Phase))
    → phase_of id jobs ≡ none
    → phase_of id (deliver_all js jobs).0 ≡ none
unfolding deliver_all
deliver_all-none id [] jobs h = h
deliver_all-none id (j ∷ js) jobs h = elim (Option-cases (deliver_to (phase_of j jobs))) [
  | inl lost ↦ rw (lost, deliver_all) (deliver_all-none id js jobs h)
  | inr (q, e) ↦
      let (p, found) = deliver_to_found (phase_of j jobs) q e in
      let moved = phase_of-set_phase j id p q jobs found in
      rw (e, deliver_all)
        (deliver_all-none id js (set_phase j q jobs) (rw moved (ground (arith, ==_iff j id))))
]

-- The scheduler's operations move jobs out of the queue and lose none.
pub ids-poll :
    (s : Scheduler) (snap : Snapshot) → ids s.queue ≡ (poll s snap).1 ++ ids (poll s snap).0.queue
ids-poll s snap =
    let k = released_count s snap in
    rw poll_lem
      (ap ids (sym (take-append-drop k s.queue)) ∙ map-append _ (take k s.queue) (drop k s.queue))

pub count-insert_at :
    (id : JobId) (i : ℕ) (e : Entry) (q : List Entry)
    → count id (ids (insert_at i e q)) ≡ one_if (e.id == id) + count id (ids q)
count-insert_at id zero e q = refl
count-insert_at id (suc i) e [] = refl
count-insert_at id (suc i) e (x ∷ q) = omega (arith, count-insert_at id i e q)

count-remove_at :
    (id j : JobId) (i : ℕ) (q : List Entry)
    → find_index (λ e. e.id == j) q ≡ some i
    → count id (ids (remove_at i q)) + one_if (j == id) ≡ count id (ids q)
count-remove_at id j i [] h = absurd (cc)
count-remove_at id j zero (x ∷ q) h = ground arith
count-remove_at id j (suc i) (x ∷ q) h = ground (arith, count-remove_at id j i q)

-- `remove_queued` takes one occurrence of its job off the queue, or says that there was none.
pub count-remove_queued :
    (id j : JobId) (s : Scheduler)
    → count id (ids (remove_queued s j).0.queue) + one_if ((remove_queued s j).1 && j == id)
      ≡ count id (ids s.queue)
unfolding remove_queued
count-remove_queued id j s = elim (Option-cases (find_index (λ e. e.id == j) s.queue)) [
  | inl e ↦ rw (e, remove_queued) (omega arith)
  | inr (i, e) ↦ rw (e, remove_queued) (count-remove_at id j i s.queue e)
]
