-- ===== src/Server/Scheduler/Examples.antt =====
-- Runs of the scheduler, after the decision table and the order test of scheduler.rs, and the theorems
-- at such inputs.
use rust_build_server.Prelude.{
  ℕ, ◌*◌, ◌^◌, ◌≤◌, ◌≡◌, refl, List, [], ◌∷◌, ◌++◌, some, arith, length, take, false, ◌⊎◌,
}
use rust_build_server.Proto.Job.{rank, interactive, agent, background}
use rust_build_server.Server.Scheduler.{
  Snapshot, Limits, Scheduler, queue, limits_from, new, admit, poll, finish, position, has_capacity,
}
use rust_build_server.Server.Scheduler.Admission.{Admitted, admit_outcomes, position-admit}
use rust_build_server.Server.Scheduler.Invariant.{Inv, Call, admits, run, run-new-Inv}
use rust_build_server.Server.Scheduler.Drain.{ServesInOrder, poll-ServesInOrder, drain, drain_lem}
use rust_build_server.Server.Scheduler.Release.{
  ids, release_first, released_count, slot_freed, finish_lem, poll_complete,
}

abbrev gib : ℕ
gib = 2 ^ 30

abbrev snap : ℕ → Snapshot
snap g = record { mem_available_bytes = g * gib }

abbrev one_slot : Limits
one_slot = record { max_jobs = 1; min_mem_available_bytes = 0; queue_limit = 10 }

-- One job runs; a background job, two agents' and an interactive one wait.
abbrev history : List Call
history =
    admits 0 agent (snap 1)
    ∷ admits 1 background (snap 1)
    ∷ admits 2 agent (snap 1)
    ∷ admits 3 agent (snap 1)
    ∷ admits 4 interactive (snap 1)
    ∷ []

abbrev busy : Scheduler
busy = run (new one_slot) history

busy_order : ids busy.queue ≡ 4 ∷ 2 ∷ 3 ∷ 1 ∷ []
unfolding run new rank
busy_order = refl

limits_scaled :
    limits_from 3 2 7 ≡ record { max_jobs = 3; min_mem_available_bytes = 2 * gib; queue_limit = 7 }
unfolding limits_from
limits_scaled = refl

low_memory_queues : (admit (new one_slot) 1 agent (snap 0)).1 ≡ queue 1
unfolding new admit
low_memory_queues = refl

finish_one : (finish busy (snap 1)).1 ≡ 4 ∷ []
unfolding run new rank finish
finish_one = refl

admit_outcomes_example : Admitted busy 9 agent (snap 1) (admit busy 9 agent (snap 1))
admit_outcomes_example = admit_outcomes busy 9 agent (snap 1)

finish_lem_example : finish busy (snap 1) ≡ (
  release_first (released_count (slot_freed busy) (snap 1)) (slot_freed busy),
  ids (take (released_count (slot_freed busy) (snap 1)) busy.queue),
)
finish_lem_example = finish_lem busy (snap 1)

poll_complete_example :
    ((poll busy (snap 1)).0.queue ≡ []) ⊎ (has_capacity (poll busy (snap 1)).0 (snap 1) ≡ false)
poll_complete_example = poll_complete busy (snap 1)

position-admit_example : position (admit busy 9 agent (snap 1)).0 9 ≡ some 4
unfolding run new rank position
position-admit_example =
    position-admit busy 9 agent (snap 1) 4 (refl, (refl, (refl, (refl, tt)))) refl

run-new-Inv_example : Inv (run (new one_slot) history)
run-new-Inv_example = run-new-Inv one_slot history (omega arith)

abbrev ended : Scheduler
ended = record busy { running = 0 }

poll-ServesInOrder_example : ServesInOrder ended (poll ended (snap 1))
unfolding run new rank
poll-ServesInOrder_example =
    poll-ServesInOrder ended (snap 1) (run-new-Inv one_slot history (omega arith)).sorted

drain_lem_example :
    (ids busy.queue
      ≡ (drain (snap 1 ∷ snap 2 ∷ []) busy).1 ++ ids (drain (snap 1 ∷ snap 2 ∷ []) busy).0.queue)
    × (length (drain (snap 1 ∷ snap 2 ∷ []) busy).0.queue ≤ 2)
unfolding run new rank
drain_lem_example =
    drain_lem (snap 1 ∷ snap 2 ∷ []) busy (run-new-Inv one_slot history (omega arith)) (omega arith)
      (omega arith)
