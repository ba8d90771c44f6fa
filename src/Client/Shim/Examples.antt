-- ===== src/Client/Shim/Examples.antt =====
-- An invocation `cargo build` in the mode `auto`, with a remote that takes the job.
use rust_build_server.Prelude.{
  ◌≤◌, ◌≡◌, refl, true, false, List, [], ◌∷◌, ◌++◌, none, some, codes, ok, pos, map,
}
use rust_build_server.Proto.Toolchain.{ToolchainFingerprint}
use rust_build_server.Proto.Job.{
  JobEvent, queued, started, stdout, exited, exit_code, is_terminal, event_id,
}
use rust_build_server.Proto.Message.{submit, cancel}
use rust_build_server.Config.{default_config}
use rust_build_server.Client.Backend.{ProbeResult}
use rust_build_server.Client.Submit.{job_exited, sent, interrupted, submit_job_to}
use rust_build_server.Client.Submit.Events.{
  got, outputs, submit_job_to-events, submit_job_to-interrupted,
}
use rust_build_server.Client.Shim.{ShimInput, Hooks, run, request_for}
use rust_build_server.Client.Shim.Chain.{Ends}
use rust_build_server.Client.Shim.Ends.{not_auto, run-Ends}
use rust_build_server.Client.Shim.Touches.{touches, allowed, touches-run}

abbrev toolchain : ToolchainFingerprint
toolchain = record {
  rustc_commit = codes "59807616e";
  rustc_version = codes "1.95.0";
  host = codes "x86_64-unknown-linux-gnu";
  cargo_version = codes "cargo 1.95.0";
  toolchain_name = codes "stable";
}

abbrev build : ShimInput
build = record {
  cwd = codes "/w";
  argv = codes "cargo" ∷ codes "build" ∷ [];
  cfg = default_config;
  tty = false;
  identity = record { hostname = codes "laptop"; pid = 7; label = none };
  env = [];
  cargo_policy = true;
  pinned = true;
  toolchain_override = none;
}

abbrev probed : ProbeResult
probed = record {
  rtt = 1500000;
  status = record {
    identity = record { hostname = codes "node0"; version = codes "0.1.0" };
    capacity = record {
      tokens_total = 8;
      tokens_free = 8;
      mem_available_bytes = 1;
      load1 = 0;
      accepting = true;
    };
    queued = 0;
    running = 0;
    uptime_secs = 1;
  };
}

abbrev first_events : List JobEvent
first_events = started 3 ∷ stdout 3 (codes "Compiling") ∷ []

abbrev last_event : JobEvent
last_event = exited 3 (exit_code (pos 0))

abbrev hooks : Hooks
hooks = record {
  remote_answer = some (
      ok (record {
        probed = probed;
        session = record {
          send_result = ok tt;
          turns = map got (queued 3 1 ∷ first_events) ++ got last_event ∷ [];
        };
      }));
  local_available = false;
  local_answer = none;
  fingerprint = λ cwd name. ok toolchain;
  workspace_root = λ cwd. ok cwd;
  push = λ root host. ok tt;
  pull = λ root. ok tt;
  exec = λ argv. pos 0;
}

run-Ends_example : Ends build hooks (not_auto build.cfg.policy.mode) (run build hooks)
run-Ends_example = run-Ends build hooks

touches-run_example : touches (run build hooks).1 ≤ allowed build
touches-run_example = touches-run build hooks

submit_job_to-events_example :
    submit_job_to
      (record {
        send_result = ok tt;
        turns = map got (queued 3 1 ∷ first_events) ++ got last_event ∷ [];
      })
      (request_for build toolchain)
      (codes "node0")
    ≡ (
      job_exited (exit_code (pos 0)),
      sent (submit (request_for build toolchain)) ∷ outputs (queued 3 1 ∷ first_events) ++ [],
    )
unfolding is_terminal
submit_job_to-events_example =
    submit_job_to-events (codes "node0") (request_for build toolchain) (queued 3 1) first_events
      last_event (job_exited (exit_code (pos 0))) [] (refl, (refl, (refl, tt))) refl

submit_job_to-interrupted_example :
    submit_job_to
      (record {
        send_result = ok tt;
        turns =
            map got (queued 3 1 ∷ [])
            ++ interrupted (ok tt) ∷ (map got first_events ++ got last_event ∷ []);
      })
      (request_for build toolchain)
      (codes "node0")
    ≡ (
      job_exited (exit_code (pos 0)),
      sent (submit (request_for build toolchain)) ∷ outputs (queued 3 1 ∷ [])
          ++ sent (cancel 3) ∷ (outputs first_events ++ []),
    )
unfolding is_terminal event_id
submit_job_to-interrupted_example =
    submit_job_to-interrupted (codes "node0") (request_for build toolchain) (queued 3 1) []
      first_events last_event (job_exited (exit_code (pos 0))) [] (refl, tt) (refl, (refl, tt)) refl
