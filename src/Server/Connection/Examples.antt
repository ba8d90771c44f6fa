-- ===== src/Server/Connection/Examples.antt =====
-- One connection at concrete turns: a job that waits, starts, prints and ends, and one that is cancelled.
use rust_build_server.Prelude.{◌≡◌, refl, List, [], ◌∷◌, none, some, true, false, ok, codes}
use rust_build_server.Proto.Job.{Priority, JobRequest, is_terminal}
use rust_build_server.Proto.Message
use rust_build_server.Server.Scheduler.{queue}
use rust_build_server.Server.Runner.{Process, read, out_pipe, process_ended, supervise}
use rust_build_server.Server.Connection.View.{Seen, nothing, see_all}
use rust_build_server.Server.Connection.Conforms.{serve-Conforms}
use rust_build_server.Server.Connection.Ledger.{admissions, settlements, serve-settles}
use rust_build_server.Server.Connection.{Answers, Turn, Taken, received, released, job_event, serve}

abbrev pub request : JobRequest
request = record {
  cwd = codes "/w";
  argv = codes "cargo" ∷ codes "build" ∷ [];
  env = [];
  toolchain = record {
    rustc_commit = codes "59807616e";
    rustc_version = [];
    host = [];
    cargo_version = [];
    toolchain_name = [];
  };
  toolchain_override = none;
  priority = Priority.agent;
  client = record { hostname = codes "laptop"; pid = 7; label = none };
  tty = false;
}

abbrev pub process : Process
process = record {
  stdout_reads = read (codes "ok") ∷ read [] ∷ [];
  stderr_reads = [];
  schedule = out_pipe ∷ [];
  late_schedule = [];
  ended = process_ended (some 0);
}

abbrev pub answers : Answers
answers = record {
  next_id = 4;
  cwd_check = ok tt;
  toolchain_check = ok tt;
  decision = queue 0;
  spawned = ok process;
  server_status = record {
    identity = record { hostname = []; version = [] };
    capacity = record {
      tokens_total = 8;
      tokens_free = 8;
      mem_available_bytes = 0;
      load1 = 0;
      accepting = true;
    };
    queued = 0;
    running = 0;
    uptime_secs = 0;
  };
  writable = true;
}

abbrev turn : Taken → Turn
turn taken = record { taken = taken; answers = answers }

abbrev turns : List Turn
turns =
    turn (received (some (Message.submit request)))
    ∷ turn (received (some (Message.submit request)))
    ∷ turn (released true)
    ∷ turn job_event
    ∷ turn job_event
    ∷ turn job_event
    ∷ turn (received (some (Message.submit request)))
    ∷ turn (received (some (Message.cancel 4)))
    ∷ turn (received (some (Message.submit request)))
    ∷ turn (received none)
    ∷ []

serve-Conforms_example : (after : Seen) × (see_all nothing (serve turns).effects ≡ some after)
serve-Conforms_example = serve-Conforms turns

serve-settles_example : admissions 4 (serve turns).effects ≡ settlements 4 (serve turns).effects
serve-settles_example = serve-settles 4 turns

-- The job is admitted three times under this number, which the answers give each time.
three_admissions : admissions 4 (serve turns).effects ≡ 3
unfolding admissions serve supervise is_terminal
three_admissions = refl
