-- ===== src/Server/Runner/Examples.antt =====
-- A process that prints on both pipes and is killed after the deadline, and the environment of a command.
use rust_build_server.Prelude.{
  ◌≡◌, refl, List, [], ◌∷◌, ◌++◌, Option, none, some, false, codes, Bytes, bytes_eq, lookup, insert,
  any, if◌then◌else◌, Result, err, ◌⊎◌,
}
use rust_build_server.Server.Runner.{
  Process, read, read_failed, out_pipe, err_pipe, timed_out, raw_code, raw_signal, exit_of,
  supervise, sends_before_exit,
}
use rust_build_server.Server.Runner.Outputs.{
  printed, until_exit, joined, rest_of, readable, reads_of, supervise-bytes,
}
use rust_build_server.Server.Runner.Command.{
  Runner, Command, systemd, direct, inherited_env, or_else, fixed, last_value, build_command, spawn,
  build_command-env, spawn-err,
}
use rust_build_server.Proto.Job.{Priority, JobRequest, exit_signal, RejectReason, internal}
use rust_build_server.Prelude.{pos}

abbrev killed_late : Process
killed_late = record {
  stdout_reads = read (codes "a") ∷ read (codes "b") ∷ read_failed ∷ [];
  stderr_reads = read (codes "warning") ∷ read [] ∷ [];
  schedule = out_pipe ∷ err_pipe ∷ err_pipe ∷ [];
  late_schedule = out_pipe ∷ [];
  ended = timed_out (record { term_wait = none; kill_wait = some 9 });
}

supervise-bytes_example :
    printed out_pipe (until_exit (supervise 3 killed_late))
      ++ joined (rest_of out_pipe (sends_before_exit killed_late))
    ≡ readable (reads_of out_pipe killed_late)
supervise-bytes_example = supervise-bytes 3 killed_late out_pipe

killed_late-exit_of : exit_of killed_late ≡ exit_signal (pos 9)
unfolding exit_of raw_code raw_signal
killed_late-exit_of = refl

abbrev request : JobRequest
request = record {
  cwd = codes "/w";
  argv = codes "cargo" ∷ codes "build" ∷ [];
  env = (codes "LANG", codes "C") ∷ (codes "RUSTC_WRAPPER", codes "sccache") ∷ [];
  toolchain = record {
    rustc_commit = [];
    rustc_version = [];
    host = [];
    cargo_version = [];
    toolchain_name = [];
  };
  toolchain_override = none;
  priority = Priority.agent;
  client = record { hostname = codes "laptop"; pid = 7; label = none };
  tty = false;
}

abbrev runner : Runner
runner = record { makeflags = codes "-j"; scope = systemd 12 }

-- A server that has every variable, with the value `x`.
abbrev server_env : Bytes → Option Bytes
server_env key = some (codes "x")

build_command-env_example :
    lookup (codes "LANG") (build_command runner server_env request (systemd 12)).env
    ≡ or_else (fixed runner (codes "LANG")) (
        or_else
          (last_value (codes "LANG") request.env)
          (if any (bytes_eq (codes "LANG")) inherited_env then server_env (codes "LANG") else none))
build_command-env_example = build_command-env runner server_env request (systemd 12) (codes "LANG")

lang_of_request :
    lookup (codes "LANG") (build_command runner server_env request (systemd 12)).env
    ≡ some (codes "C")
unfolding lookup build_command bytes_eq insert last_value
lang_of_request = build_command-env runner server_env request (systemd 12) (codes "LANG")

-- A system without cargo or systemd.
abbrev refuse : Command → Result Bytes Process
refuse command = err (codes "not found")

abbrev quoted : Bytes → Bytes
quoted s = codes "'" ++ s ++ codes "'"

abbrev not_spawned : RejectReason
not_spawned = internal (codes "spawn 'cargo' failed: not found")

refused : spawn runner server_env refuse quoted request ≡ err not_spawned
unfolding spawn
refused = refl

spawn-err_example :
    ((request.argv ≡ []) × (not_spawned ≡ internal (codes "empty argv")))
    ⊎ ((program : Bytes) × (args : List Bytes) × (e : Bytes) × (request.argv ≡ program ∷ args)
        × (refuse (build_command runner server_env request direct) ≡ err e)
        × (not_spawned ≡ internal (codes "spawn " ++ quoted program ++ codes " failed: " ++ e)))
spawn-err_example = spawn-err runner server_env refuse quoted request not_spawned refused
