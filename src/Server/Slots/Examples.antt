-- ===== src/Server/Slots/Examples.antt =====
-- The theorems on the slots at a small server.
use rust_build_server.Prelude.{◌+◌, ◌^◌, ◌<◌, ◌≤◌, ◌≡◌, refl, List, [], ◌∷◌, some, arith}
use rust_build_server.Proto.Job.{agent}
use rust_build_server.Server.Scheduler.{Snapshot, Limits, new, admit, poll, finish}
use rust_build_server.Server.Slots.{
  Server, Action, Phase, Channel, submit, poll_tick, wake_deliver, wake_release, insert_waiter,
  job_finished, Reachable, started, next, start, step,
}
use rust_build_server.Server.Slots.Numbers.{submits_in, submissions}
use rust_build_server.Server.Slots.Invariant.{Inv}
use rust_build_server.Server.Slots.Conservation.{Reachable-Inv, holders, holders-le-max_jobs}
use rust_build_server.Server.Slots.Stranded.{IsStranded}
use rust_build_server.Server.Slots.LostWakeup.{raced, lost_wakeup, run, run-IsStranded}

abbrev small : Limits
small = record { max_jobs = 1; min_mem_available_bytes = 4; queue_limit = 2 }

abbrev low : Snapshot
low = record { mem_available_bytes = 4 }

abbrev high : Snapshot
high = record { mem_available_bytes = 5 }

abbrev with_job : Server
with_job = record {
  scheduler = record { limits = small; running = 1; queue = []; seq = 0 };
  next_id = 2;
  jobs = (1, Phase.holding) ∷ [];
  wakers = [];
}

with_job-Reachable : Reachable small with_job
unfolding step start new admit
with_job-Reachable = next (submit agent high) started refl

one_submission : submissions with_job-Reachable + 1 < 2 ^ 64
unfolding submissions with_job-Reachable
one_submission = omega arith

Reachable-Inv_example : Inv with_job
Reachable-Inv_example = Reachable-Inv small with_job with_job-Reachable one_submission

holders-le-max_jobs_example : holders with_job.jobs ≤ 1
unfolding start new
holders-le-max_jobs_example = holders-le-max_jobs small with_job with_job-Reachable

lost_wakeup_example :
    Reachable small (raced small)
    × IsStranded 1 (raced small)
    × ((raced small).scheduler.running ≡ 0)
lost_wakeup_example =
    lost_wakeup small agent low high (omega arith) (omega arith) (omega arith) (omega arith)

-- Another job comes, runs and ends; the stranded one still waits.
abbrev later : List Action
later = submit agent high ∷ job_finished 2 high ∷ poll_tick high ∷ wake_deliver 0 ∷ []

abbrev after_later : Server
after_later = record (raced small) {
  next_id = 3;
  jobs = (2, Phase.gone) ∷ (1, Phase.queued Channel.registered) ∷ [];
  wakers =
      record { orphaned = []; released = [] }
      ∷ record { orphaned = []; released = [] }
      ∷ record { orphaned = []; released = [] }
      ∷ [];
}

run-later : run (raced small) later ≡ some after_later
unfolding run step admit poll finish
run-later = refl

raced-Reachable : Reachable small (raced small)
unfolding step start new admit poll finish
raced-Reachable =
    next (insert_waiter 1)
      (next (wake_release 0 high)
        (next (wake_deliver 0) (next (poll_tick high) (next (submit agent low) started refl) refl)
          refl)
        refl)
      refl

few_submissions : submissions raced-Reachable + submits_in later + 1 < 2 ^ 64
unfolding submissions raced-Reachable
few_submissions = omega arith

run-IsStranded_example : IsStranded 1 after_later
run-IsStranded_example =
    run-IsStranded small 1 (raced small) after_later later raced-Reachable few_submissions
      (lost_wakeup small agent low high (omega arith) (omega arith) (omega arith) (omega arith)).1
      (λ e. cc, (λ e. cc, (λ e. cc, (λ e. cc, tt)))) run-later
