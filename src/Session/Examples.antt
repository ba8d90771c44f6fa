-- ===== src/Session/Examples.antt =====
-- A job that waits at the front of the queue, prints, and fails.
use rust_build_server.Prelude.{◌≡◌, ◌++◌, some, codes}
use rust_build_server.Client.Submit.{job_exited, submit_job_to}
use rust_build_server.Server.Runner.{out_pipe, exit_of, sends_before_exit}
use rust_build_server.Server.Runner.Outputs.{joined, rest_of, reads_of, readable}
use rust_build_server.Server.Connection.{serve}
use rust_build_server.Server.Connection.Examples.{request, process, answers}
use rust_build_server.Session.{reading, whole, written, submit_job_to-serve}

submit_job_to-serve_example :
    let r =
      submit_job_to
        (reading (serve (whole answers request (some 0) process)).effects)
        request
        (codes "box") in
    (r.0 ≡ job_exited (exit_of process))
    × (written out_pipe r.1 ++ joined (rest_of out_pipe (sends_before_exit process))
        ≡ readable (reads_of out_pipe process))
submit_job_to-serve_example =
    submit_job_to-serve answers request (some 0) process (codes "box") out_pipe
