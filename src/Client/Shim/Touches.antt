-- ===== src/Client/Shim/Touches.antt =====
-- The touches of the store that a run of the shim spawns.
use rust_build_server.Prelude.{
  ℕ, suc, ◌+◌, ◌≤◌, ◌≡◌, refl, Bool, true, false, ◌&&◌, List, [], ◌∷◌, ◌++◌, Option, none, some,
  Bytes, Result, ok, err, arith, if◌then◌else◌,
}
use rust_build_server.Proto.Job.{
  JobId, JobEvent, queued, started, stdout, stderr, exited, rejected, success, JobRequest,
}
use rust_build_server.Proto.Toolchain.{ToolchainFingerprint}
use rust_build_server.Proto.Message.{hello, status, event, error}
use rust_build_server.Config.{Mode, auto, remote, local, plain}
use rust_build_server.Client.Transport.{TransportError}
use rust_build_server.Client.Backend.{Backend, remote_backend, local_backend, plain_backend}
use rust_build_server.Toolchain.{Mismatch}
use rust_build_server.Client.Submit.{
  Effect, sent, wrote_stdout, wrote_stderr, pushed, pulled, spawned_touch, finished, reported,
  no_fingerprint, no_backend, gave_up, exec_local, Outcome, job_exited, mismatch, busy, refused,
  transport, Turn, received, interrupted, Session, submit_loop, first_id, on_event, submit_job_to,
}
use rust_build_server.Client.Shim.{
  ShimInput, Hooks, Run, RemoteConnection, LocalConnection, run, run_in, run_here, after_push,
  after_root, after_fingerprint, run_chain, start_chain, touch_and_run_here, touch_if_wanted,
  try_chain, try_local, try_remote, after_remote, after_mismatch, after_outcome, links_locally,
  prefixed, hard_mismatch, subcommand, wants_touch, is_passthrough, is_local_subcommand, probe_for,
  request_for,
}
use rust_build_server.Client.Shim.Ends.{guarded}

abbrev pub touches : List Effect → ℕ
touches [] = 0
touches (spawned_touch dir ∷ es) = suc (touches es)
touches (_ ∷ es) = touches es

-- How many a run may spawn.
abbrev pub allowed : ShimInput → ℕ
allowed input = if wants_touch input (subcommand input) then 1 else 0

touches-append : (a b : List Effect) → touches (a ++ b) ≡ touches a + touches b
touches-append [] b = omega arith
touches-append (sent m ∷ a) b = touches-append a b
touches-append (wrote_stdout x ∷ a) b = touches-append a b
touches-append (wrote_stderr x ∷ a) b = touches-append a b
touches-append (pushed x y ∷ a) b = touches-append a b
touches-append (pulled x ∷ a) b = touches-append a b
touches-append (spawned_touch x ∷ a) b = omega (arith, touches-append a b)
touches-append (finished x ∷ a) b = touches-append a b
touches-append (reported x y ∷ a) b = touches-append a b
touches-append (no_fingerprint e ∷ a) b = touches-append a b
touches-append (no_backend ∷ a) b = touches-append a b
touches-append (gave_up ∷ a) b = touches-append a b
touches-append (exec_local x ∷ a) b = touches-append a b

touches-on_event :
    (host : Bytes) (ev : JobEvent) (r : Outcome × List Effect)
    → touches r.1 ≡ 0
    → touches (on_event host ev r).1 ≡ 0
unfolding on_event
touches-on_event host (queued id position) r q = q
touches-on_event host (started id) r q = q
touches-on_event host (stdout id bytes) r q = q
touches-on_event host (stderr id bytes) r q = q
touches-on_event host (exited id code) r q = refl
touches-on_event host (rejected id reason) r q = refl

touches-submit_loop :
    (host : Bytes) (id : Option JobId) (c : Bool) (turns : List Turn)
    → touches (submit_loop host id c turns).1 ≡ 0
unfolding submit_loop
touches-submit_loop host id c [] = refl
touches-submit_loop host id true (interrupted r ∷ turns) = touches-submit_loop host id true turns
touches-submit_loop host none false (interrupted r ∷ turns) = refl
touches-submit_loop host (some id) false (interrupted (err e) ∷ turns) = refl
touches-submit_loop host (some id) false (interrupted (ok u) ∷ turns) =
    touches-submit_loop host (some id) true turns
touches-submit_loop host id c (received (err e) ∷ turns) = refl
touches-submit_loop host id c (received (ok none) ∷ turns) = refl
touches-submit_loop host id c (received (ok (some (event ev))) ∷ turns) =
    touches-on_event host ev _ (touches-submit_loop host (first_id id ev) c turns)
touches-submit_loop host id c (received (ok (some (error e))) ∷ turns) = refl
touches-submit_loop host id c (received (ok (some (hello v s))) ∷ turns) = refl
touches-submit_loop host id c (received (ok (some (status s))) ∷ turns) = refl

touches-submit_job_to :
    (s : Session) (request : JobRequest) (host : Bytes)
    → touches (submit_job_to s request host).1 ≡ 0
unfolding submit_job_to
touches-submit_job_to s request host =
    elim s.send_result
      as (λ r. touches (submit_job_to (record s { send_result = r }) request host).1 ≡ 0) [
        | err e ↦ refl
        | ok u ↦ touches-submit_loop host none false s.turns
      ]

module _ (input : ShimInput) (hooks : Hooks) where
  if_wanted : (dir : Bytes) → touches (touch_if_wanted input dir) ≡ allowed input
  unfolding touch_if_wanted
  if_wanted dir =
      elim (wants_touch input (subcommand input))
        as (λ b. touches (if b then spawned_touch dir ∷ [] else []) ≡ (if b then 1 else 0)) [
          | true ↦ refl
          | false ↦ refl
        ]

  here : touches (run_here input hooks).1 ≡ 0
  unfolding run_here
  here = refl

  touch_then_here : (dir : Bytes) → touches (touch_and_run_here input hooks dir).1 ≤ allowed input
  unfolding touch_and_run_here
  touch_then_here dir = omega (
    arith,
    touches-append (touch_if_wanted input dir) (run_here input hooks).1,
    if_wanted dir,
    here,
  )

  after_prefix :
      (es : List Effect) (r : Run)
      → touches es ≡ 0
      → touches r.1 ≤ allowed input
      → touches (prefixed es r).1 ≤ allowed input
  after_prefix es r q h = omega (arith, touches-append es r.1, q, h)

  if_success :
      (b : Bool) → touches (if b then touch_if_wanted input input.cwd else []) ≤ allowed input
  if_success true = omega (arith, if_wanted input.cwd)
  if_success false = omega arith

  by_mismatch :
      (b : Bool) (m : Mismatch) (next : Run)
      → touches next.1 ≤ allowed input
      → touches (after_mismatch b m next).1 ≤ allowed input
  unfolding after_mismatch
  by_mismatch true m next h = omega arith
  by_mismatch false m next h = h

  by_outcome :
      (o : Outcome) (next : Run)
      → touches next.1 ≤ allowed input
      → touches (after_outcome input o next).1 ≤ allowed input
  unfolding after_outcome
  by_outcome (job_exited st) next h = if_success (success st)
  by_outcome (mismatch host server client) next h = by_mismatch (hard_mismatch input) _ next h
  by_outcome busy next h = h
  by_outcome (refused reason) next h = h
  by_outcome (transport e) next h = h

  linked :
      (root : Bytes)
      → touches (prefixed (touch_if_wanted input root ++ pulled root ∷ []) (run_here input hooks)).1
        ≤ allowed input
  linked root = omega (
    arith,
    touches-append (touch_if_wanted input root ++ pulled root ∷ []) (run_here input hooks).1,
    touches-append (touch_if_wanted input root) (pulled root ∷ []),
    if_wanted root,
    here,
  )

  by_remote :
      (root : Bytes) (o : Outcome) (next : Run)
      → touches next.1 ≤ allowed input
      → touches (after_remote input hooks root o next).1 ≤ allowed input
  unfolding after_remote
  by_remote root o next h =
      elim (links_locally input o)
        as (λ b.
          touches
            (if b
              then prefixed (touch_if_wanted input root ++ pulled root ∷ []) (run_here input hooks)
              else after_outcome input o next).1
          ≤ allowed input) [ true ↦ linked root | false ↦ by_outcome o next h ]

  by_push :
      (request : JobRequest) (c : RemoteConnection) (root : Bytes) (r : Result Bytes Unit)
      (next : Run)
      → touches next.1 ≤ allowed input
      → touches (after_push input hooks request c root r next).1 ≤ allowed input
  unfolding after_push
  by_push request c root (err e) next h = h
  by_push request c root (ok u) next h =
      let host = c.probed.status.identity.hostname in
      after_prefix (submit_job_to c.session request host).1
        (after_remote input hooks root (submit_job_to c.session request host).0 next)
        (touches-submit_job_to c.session request host)
        (by_remote root (submit_job_to c.session request host).0 next h)

  by_root :
      (request : JobRequest) (c : RemoteConnection) (root : Result Bytes Bytes) (next : Run)
      → touches next.1 ≤ allowed input
      → touches (after_root input hooks request c root next).1 ≤ allowed input
  unfolding after_root
  by_root request c (err e) next h = h
  by_root request c (ok root) next h =
      by_push request c root (hooks.push root input.cfg.remote.host) next h

  by_local :
      (request : JobRequest) (a : Option (Result (TransportError Bytes) LocalConnection))
      (next : Run)
      → touches next.1 ≤ allowed input
      → touches (try_local input request a next).1 ≤ allowed input
  unfolding try_local
  by_local request none next h = h
  by_local request (some (err e)) next h = h
  by_local request (some (ok conn)) next h =
      after_prefix (submit_job_to conn.session request conn.hostname).1
        (after_outcome input (submit_job_to conn.session request conn.hostname).0 next)
        (touches-submit_job_to conn.session request conn.hostname)
        (by_outcome (submit_job_to conn.session request conn.hostname).0 next h)

  by_chain :
      (request : JobRequest) (chain : List Backend) (conn : Option RemoteConnection)
      → touches (try_chain input hooks request conn chain).1 ≤ allowed input
  unfolding try_chain try_remote
  by_chain request [] conn = omega arith
  by_chain request (plain_backend ∷ chain) conn = touch_then_here input.cwd
  by_chain request (remote_backend ∷ chain) none = by_chain request chain none
  by_chain request (remote_backend ∷ chain) (some c) =
      by_root request c (hooks.workspace_root input.cwd) _ (by_chain request chain none)
  by_chain request (local_backend ∷ chain) conn =
      by_local request hooks.local_answer _ (by_chain request chain conn)

  by_start :
      (request : JobRequest) (chain : List Backend) (conn : Option RemoteConnection)
      → touches (start_chain input hooks request conn chain).1 ≤ allowed input
  unfolding start_chain
  by_start request [] conn = omega arith
  by_start request (b ∷ chain) conn = by_chain request (b ∷ chain) conn

  by_fingerprint :
      (t : Result Bytes ToolchainFingerprint) (mode : Mode)
      → touches (after_fingerprint input hooks t mode).1 ≤ allowed input
  unfolding after_fingerprint run_chain
  by_fingerprint (ok t) mode = by_start (request_for input t) _ (probe_for input hooks).1
  by_fingerprint (err x) auto = touch_then_here input.cwd
  by_fingerprint (err x) remote = omega arith
  by_fingerprint (err x) local = omega arith
  by_fingerprint (err x) plain = omega arith

  by_guards :
      (passes stays : Bool) (next : Run)
      → touches next.1 ≤ allowed input
      → touches (guarded input hooks passes stays next).1 ≤ allowed input
  by_guards true stays next h = omega (arith, here)
  by_guards false true next h = touch_then_here input.cwd
  by_guards false false next h = h

  by_mode : (mode : Mode) → touches (run_in input hooks mode).1 ≤ allowed input
  unfolding run_in
  by_mode plain = touch_then_here input.cwd
  by_mode auto =
      by_guards (input.cargo_policy && is_passthrough (subcommand input))
        (input.cargo_policy && is_local_subcommand input)
        (after_fingerprint input hooks (hooks.fingerprint input.cwd input.toolchain_override) auto)
        (by_fingerprint (hooks.fingerprint input.cwd input.toolchain_override) auto)
  by_mode remote =
      by_guards (input.cargo_policy && is_passthrough (subcommand input))
        (input.cargo_policy && is_local_subcommand input)
        (after_fingerprint input hooks (hooks.fingerprint input.cwd input.toolchain_override)
          remote)
        (by_fingerprint (hooks.fingerprint input.cwd input.toolchain_override) remote)
  by_mode local =
      by_guards (input.cargo_policy && is_passthrough (subcommand input))
        (input.cargo_policy && is_local_subcommand input)
        (after_fingerprint input hooks (hooks.fingerprint input.cwd input.toolchain_override) local)
        (by_fingerprint (hooks.fingerprint input.cwd input.toolchain_override) local)

-- A run spawns at most one touch of the store, and none unless the invocation wants one.
pub touches-run : (input : ShimInput) (hooks : Hooks) → touches (run input hooks).1 ≤ allowed input
unfolding run
touches-run input hooks = by_mode input hooks input.cfg.policy.mode
