-- ===== src/Server/Slots/Tokens.antt =====
-- Who owns a slot: the number of slots that jobs and wakers hold, and what the moves do to it.
use rust_build_server.Prelude.{
  ℕ, zero, suc, ◌+◌, ◌≤◌, ◌≡◌, refl, inl, inr, List, [], ◌∷◌, Option, none, some, arith, ◌==◌,
  length, get_elem?, Bool-cases, Option-cases,
}
use rust_build_server.Proto.Job.{JobId}
use rust_build_server.Server.Slots.{
  Channel, registered, sent, closed, Phase, inserting, queued, dequeuing, checking, holding, gone,
  Waker, phase_of, set_phase, set_waker, deliver_to, deliver_all,
}

abbrev pub sent_slots : Channel → ℕ
sent_slots sent = 1
sent_slots registered = 0
sent_slots closed = 0

-- The slots that a job in this phase has to give back.
abbrev pub phase_slots : Phase → ℕ
phase_slots inserting = 0
phase_slots (queued c) = sent_slots c
phase_slots (dequeuing b c) = sent_slots c
phase_slots (checking b c) = sent_slots c
phase_slots holding = 1
phase_slots gone = 0

abbrev pub job_slots : List (JobId × Phase) → ℕ
job_slots [] = 0
job_slots ((j, p) ∷ js) = phase_slots p + job_slots js

abbrev pub waker_slots : List Waker → ℕ
waker_slots [] = 0
waker_slots (w ∷ ws) = length w.orphaned + length w.released + waker_slots ws

-- A sum over the jobs changes by the change at the job that moves.
pub job_slots-set_phase :
    (id : JobId) (p q : Phase) (js : List (JobId × Phase))
    → phase_of id js ≡ some p
    → job_slots (set_phase id q js) + phase_slots p ≡ job_slots js + phase_slots q
unfolding phase_of set_phase
job_slots-set_phase id p q [] h = absurd (cc)
job_slots-set_phase id p q ((j, r) ∷ js) h = elim (Bool-cases (j == id)) [
  | inl hit ↦ let same : r ≡ p = ground arith in rw (hit, same) (omega arith)
  | inr miss ↦ rw miss (omega (arith, job_slots-set_phase id p q js (ground arith)))
]

pub waker_slots-set_waker :
    (i : ℕ) (v w : Waker) (ws : List Waker)
    → get_elem? ws i ≡ some v
    → waker_slots (set_waker i w ws) + (length v.orphaned + length v.released)
      ≡ waker_slots ws + (length w.orphaned + length w.released)
unfolding set_waker
waker_slots-set_waker i v w [] h = absurd (cc)
waker_slots-set_waker zero v w (u ∷ ws) h = ground arith
waker_slots-set_waker (suc i) v w (u ∷ ws) h = omega (arith, waker_slots-set_waker i v w ws h)

pub waker_slots-get_elem?-le :
    (i : ℕ) (v : Waker) (ws : List Waker)
    → get_elem? ws i ≡ some v
    → length v.orphaned + length v.released ≤ waker_slots ws
waker_slots-get_elem?-le i v [] h = absurd (cc)
waker_slots-get_elem?-le zero v (u ∷ ws) h = ground arith
waker_slots-get_elem?-le (suc i) v (u ∷ ws) h = omega (arith, waker_slots-get_elem?-le i v ws h)

-- A delivery turns a job without a slot into one with a slot.
deliver_to-slots : (p q : Phase) → deliver_to (some p) ≡ some q → phase_slots q ≡ phase_slots p + 1
unfolding deliver_to
deliver_to-slots p q h = ground arith

pub deliver_to_found :
    (o : Option Phase) (q : Phase) → deliver_to o ≡ some q → (p : Phase) × (o ≡ some p)
unfolding deliver_to
deliver_to_found none q h = absurd (cc)
deliver_to_found (some p) q h = (p, refl)

-- Delivery hands over the slots of the jobs it reaches, and keeps one for each job that it does not.
pub deliver_all-slots :
    (ids : List JobId) (js : List (JobId × Phase))
    → job_slots (deliver_all ids js).0 + length (deliver_all ids js).1 ≡ job_slots js + length ids
unfolding deliver_all
deliver_all-slots [] js = omega arith
deliver_all-slots (id ∷ ids) js = elim (Option-cases (deliver_to (phase_of id js))) [
  | inl lost ↦ rw (lost, deliver_all) (omega (arith, deliver_all-slots ids js))
  | inr (q, e) ↦
      let (p, found) = deliver_to_found (phase_of id js) q e in
      let one = deliver_to-slots p q (rw found at e) in
      rw (e, deliver_all)
        (omega (
          arith,
          one,
          job_slots-set_phase id p q js found,
          deliver_all-slots ids (set_phase id q js),
        ))
]
