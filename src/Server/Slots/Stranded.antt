-- ===== src/Server/Slots/Stranded.antt =====
-- A queued job that no task will wake, and that every action but its own withdrawal leaves so.
use mathlib.Core.Path.{subst}
use rust_build_server.Prelude.{
  ℕ, ◌≡◌, ◌≢◌, inl, inr, refl, sym, ◌∙◌, ap, List, [], ◌∷◌, ◌++◌, some, arith, get_elem?,
  Option-cases,
}
use rust_build_server.Proto.Job.{JobId, Priority}
use rust_build_server.Server.Scheduler.{
  Snapshot, Scheduler, finish, poll, remove_queued, entry_for, queue_index,
}
use rust_build_server.Server.Scheduler.Admission.{admit_outcomes}
use rust_build_server.Server.Scheduler.Release.{ids}
use rust_build_server.Server.Scheduler.Drain.{ids-finish}
use rust_build_server.Server.Slots.{
  Channel, registered, sent, closed, Phase, inserting, queued, dequeuing, checking, holding, gone,
  Waker, Server, Action, submit, insert_waiter, receive, withdraw, remove_waiter, check_signal,
  job_finished, poll_tick, wake_deliver, wake_release, phase_of, set_phase, deliver_to, deliver_all,
  move, woken, submit_job, withdraw_job, act_on, deliver_round, release_orphan, on_job, on_waker,
  actor, step,
}
use rust_build_server.Server.Slots.Places.{
  count, count-append, waker_places, waker_places-set_waker, waker_places-get_elem?-le, ids-poll,
  count-insert_at, count-remove_queued,
}
use rust_build_server.Server.Slots.Invariant.{Inv, deliver_round-cases, release_orphan-cases}

-- The connection waits on its channel, and no task will send to it.
pub record IsStranded (id : JobId) (s : Server) : Type 0 where
  pub waits : phase_of id s.jobs ≡ some (queued registered)
  pub not_queued : count id (ids s.scheduler.queue) ≡ 0
  pub not_released : waker_places id s.wakers ≡ 0

phase_of-set_phase_ne :
    (id j : JobId) (q : Phase) (js : List (JobId × Phase))
    → id ≢ j
    → phase_of j (set_phase id q js) ≡ phase_of j js
unfolding phase_of set_phase
phase_of-set_phase_ne id j q [] h = refl
phase_of-set_phase_ne id j q ((k, r) ∷ js) h = ground (arith, phase_of-set_phase_ne id j q js)

deliver_all_other :
    (id : JobId) (js : List JobId) (jobs : List (JobId × Phase))
    → count id js ≡ 0
    → phase_of id (deliver_all js jobs).0 ≡ phase_of id jobs
unfolding deliver_all
deliver_all_other id [] jobs h = refl
deliver_all_other id (j ∷ js) jobs h =
    let other : j ≢ id = ground arith in
    elim (Option-cases (deliver_to (phase_of j jobs))) [
      | inl lost ↦ rw (lost, deliver_all) (deliver_all_other id js jobs (omega arith))
      | inr (q, e) ↦
          rw (e, deliver_all)
            (deliver_all_other id js (set_phase j q jobs) (omega arith)
              ∙ phase_of-set_phase_ne j id q jobs other)
    ]

module _ (id : JobId) where
  IsStranded-of_some : {s t : Server} → some s ≡ some t → IsStranded id s → IsStranded id t
  IsStranded-of_some {s} {t} e v = let same : s ≡ t = cc in subst (IsStranded id) same v

  move-IsStranded :
      (s : Server) (j : JobId) (q : Phase) → j ≢ id → IsStranded id s → IsStranded id (move j q s)
  move-IsStranded s j q other v = record {
    waits = phase_of-set_phase_ne j id q s.jobs other ∙ v.waits;
    not_queued = v.not_queued;
    not_released = v.not_released;
  }

  woken-IsStranded :
      (s : Server) (c : Scheduler) (out : List JobId)
      → ids s.scheduler.queue ≡ out ++ ids c.queue
      → IsStranded id s
      → IsStranded id (woken s (c, out))
  woken-IsStranded s c out order v =
      let split = ap (count id) order ∙ count-append id out (ids c.queue) in
      record {
        waits = v.waits;
        not_queued = omega (arith, split, v.not_queued);
        not_released = omega (arith, split, v.not_queued, v.not_released);
      }

  withdraw_job-IsStranded :
      (s : Server) (j : JobId) (c : Channel)
      → j ≢ id
      → IsStranded id s
      → IsStranded id (withdraw_job s j c)
  unfolding withdraw_job
  withdraw_job-IsStranded s j c other v =
      let q = dequeuing (remove_queued s.scheduler j).1 c in
      record {
        waits = phase_of-set_phase_ne j id q s.jobs other ∙ v.waits;
        not_queued = omega (arith, count-remove_queued id j s.scheduler, v.not_queued);
        not_released = v.not_released;
      }

  -- A job in another phase is another job.
  other_job :
      (s : Server) (j : JobId) (p : Phase)
      → phase_of j s.jobs ≡ some p
      → p ≢ queued registered
      → IsStranded id s
      → j ≢ id
  other_job s j p found differs v same =
      differs (cc (sym found, ap (λ (k : JobId). phase_of k s.jobs) same, v.waits))

  act_on-IsStranded :
      (s t : Server) (a : Action) (p : Phase)
      → phase_of (actor a) s.jobs ≡ some p
      → act_on s a p ≡ some t
      → a ≢ withdraw id
      → IsStranded id s
      → IsStranded id t
  unfolding act_on
  act_on-IsStranded s t (insert_waiter j) inserting found e h v =
      IsStranded-of_some e (move-IsStranded s j _ (other_job s j _ found (λ x. cc) v) v)
  act_on-IsStranded s t (receive j) (queued registered) found e h v = absurd (cc)
  act_on-IsStranded s t (receive j) (queued sent) found e h v =
      IsStranded-of_some e (move-IsStranded s j _ (other_job s j _ found (λ x. cc) v) v)
  act_on-IsStranded s t (receive j) (queued closed) found e h v =
      IsStranded-of_some e (move-IsStranded s j _ (other_job s j _ found (λ x. cc) v) v)
  act_on-IsStranded s t (withdraw j) (queued c) found e h v =
      IsStranded-of_some e (withdraw_job-IsStranded s j c (λ same. h (ap withdraw same)) v)
  act_on-IsStranded s t (remove_waiter j) (dequeuing b c) found e h v =
      IsStranded-of_some e (move-IsStranded s j _ (other_job s j _ found (λ x. cc) v) v)
  act_on-IsStranded s t (check_signal j) (checking b c) found e h v =
      IsStranded-of_some e (move-IsStranded s j _ (other_job s j _ found (λ x. cc) v) v)
  act_on-IsStranded s t (job_finished j snap) holding found e h v =
      let moved = move-IsStranded s j gone (other_job s j _ found (λ x. cc) v) v in
      IsStranded-of_some e (
        woken-IsStranded (move j gone s) (finish s.scheduler snap).0 (finish s.scheduler snap).1
          (ids-finish s.scheduler snap) moved)
  act_on-IsStranded s t _ _ found e h v = absurd (cc)

  on_job-IsStranded :
      (s t : Server) (a : Action)
      → on_job s (actor a) a ≡ some t
      → a ≢ withdraw id
      → IsStranded id s
      → IsStranded id t
  on_job-IsStranded s t a e h v = elim (Option-cases (phase_of (actor a) s.jobs)) [
    | inl nobody ↦ absurd (ground arith)
    | inr (p, found) ↦ act_on-IsStranded s t a p found (ground arith) h v
  ]

  submit_job-IsStranded :
      (s : Server) (priority : Priority) (snap : Snapshot)
      → s.next_id ≢ id
      → IsStranded id s
      → IsStranded id (submit_job s priority snap)
  unfolding submit_job phase_of
  submit_job-IsStranded s priority snap other v =
      let c = s.scheduler in
      let i = queue_index c.queue priority in
      let e = entry_for c s.next_id priority in
      elim (admit_outcomes c s.next_id priority snap) [
        | inl (m, r) ↦
            rw (r, submit_job)
              (rw r (record {
                waits = ground (arith, v.waits);
                not_queued = v.not_queued;
                not_released = v.not_released;
              }))
        | inr (inl (_, _, r)) ↦
            rw (r, submit_job)
              (rw r (record {
                waits = v.waits;
                not_queued = v.not_queued;
                not_released = v.not_released;
              }))
        | inr (inr (_, _, r)) ↦
            rw (r, submit_job)
              (rw r (record {
                waits = ground (arith, v.waits);
                not_queued = ground (arith, count-insert_at id i e c.queue, v.not_queued);
                not_released = v.not_released;
              }))
      ]

  wake_deliver-IsStranded :
      (s t : Server) (i : ℕ)
      → on_waker s i (deliver_round s i) ≡ some t
      → IsStranded id s
      → IsStranded id t
  wake_deliver-IsStranded s t i e v = elim (Option-cases (get_elem? s.wakers i)) [
    | inl nobody ↦ absurd (ground arith)
    | inr (w, at) ↦
        let (_, same) = deliver_round-cases s t i w (ground arith) in
        let w' : Waker = record { orphaned = (deliver_all w.released s.jobs).1; released = [] } in
        let met = waker_places-set_waker id i w w' s.wakers at in
        rw same (record {
          waits =
              deliver_all_other id w.released s.jobs
                (omega (arith, waker_places-get_elem?-le id i w s.wakers at, v.not_released))
              ∙ v.waits;
          not_queued = v.not_queued;
          not_released = omega (arith, met, v.not_released);
        })
  ]

  wake_release-IsStranded :
      (s t : Server) (i : ℕ) (snap : Snapshot)
      → on_waker s i (λ w. release_orphan s i w snap) ≡ some t
      → IsStranded id s
      → IsStranded id t
  wake_release-IsStranded s t i snap e v = elim (Option-cases (get_elem? s.wakers i)) [
    | inl nobody ↦ absurd (ground arith)
    | inr (w, at) ↦
        let (_, rest, _, same) = release_orphan-cases s t i w snap (ground arith) in
        let c = s.scheduler in
        let out = (finish c snap).1 in
        let w' : Waker = record { orphaned = rest; released = w.released ++ out } in
        let met = waker_places-set_waker id i w w' s.wakers at in
        let split =
          ap (count id) (ids-finish c snap) ∙ count-append id out (ids (finish c snap).0.queue) in
        let grown = count-append id w.released out in
        rw same (record {
          waits = v.waits;
          not_queued = omega (arith, split, v.not_queued);
          not_released = omega (arith, met, split, grown, v.not_queued, v.not_released);
        })
  ]

  pub step-IsStranded :
      (s t : Server) (a : Action)
      → step s a ≡ some t
      → a ≢ withdraw id
      → Inv s
      → IsStranded id s
      → IsStranded id t
  unfolding step
  step-IsStranded s t (submit priority snap) e h inv v =
      let other : s.next_id ≢ id =
        λ same. absurd (cc (inv.unused id (omega (arith, same)), v.waits)) in
      IsStranded-of_some e (submit_job-IsStranded s priority snap other v)
  step-IsStranded s t (insert_waiter j) e h inv v = on_job-IsStranded s t (insert_waiter j) e h v
  step-IsStranded s t (receive j) e h inv v = on_job-IsStranded s t (receive j) e h v
  step-IsStranded s t (withdraw j) e h inv v = on_job-IsStranded s t (withdraw j) e h v
  step-IsStranded s t (remove_waiter j) e h inv v = on_job-IsStranded s t (remove_waiter j) e h v
  step-IsStranded s t (check_signal j) e h inv v = on_job-IsStranded s t (check_signal j) e h v
  step-IsStranded s t (job_finished j snap) e h inv v =
      on_job-IsStranded s t (job_finished j snap) e h v
  step-IsStranded s t (poll_tick snap) e h inv v =
      let c = s.scheduler in
      IsStranded-of_some e (woken-IsStranded s (poll c snap).0 (poll c snap).1 (ids-poll c snap) v)
  step-IsStranded s t (wake_deliver i) e h inv v = wake_deliver-IsStranded s t i e v
  step-IsStranded s t (wake_release i snap) e h inv v = wake_release-IsStranded s t i snap e v
