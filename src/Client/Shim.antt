-- ===== src/Client/Shim.antt =====
-- `run` of crates/rbs-client/src/shim.rs: one invocation of cargo through the shim. The hooks are a record
-- of what each of them answers, and a run gives the exit code with the effects that it had, in order. The
-- log lines are left out, but for those on the end of a job and of the chain.
pub mod Quiet
pub mod Chain
pub mod Ends
pub mod Touches
mod Examples
use rust_build_server.Prelude.{
  ℕ, Bool, true, false, ◌&&◌, ◌||◌, List, [], ◌∷◌, ◌++◌, Option, none, some, ◌==◌, if◌then◌else◌,
  Bytes, codes, bytes_eq, strip_prefix, get_elem?, any, pos, ℤ, Result, ok, err, insert,
}
use rust_build_server.Proto.Toolchain.{ToolchainFingerprint}
use rust_build_server.Proto.Job.{
  JobRequest, ClientIdentity, ExitStatus, success, as_process_exit_code,
}
use rust_build_server.Config.{
  Config, Mode, auto, remote, local, plain, PostBuild, pull_and_link, no_post_build,
}
use rust_build_server.Client.Transport.{TransportError}
use rust_build_server.Client.Backend.{
  Backend, remote_backend, local_backend, plain_backend, ProbeResult, RemoteProbe, probe_ok, failed,
  select,
}
use rust_build_server.Toolchain.{Mismatch}
use rust_build_server.Client.Submit.{
  Effect, pushed, pulled, spawned_touch, finished, reported, no_fingerprint, no_backend, gave_up,
  exec_local, Outcome, job_exited, mismatch, busy, refused, transport, Session, submit_job_to,
}

pub record ShimInput : Type 0 where
  pub cwd : Bytes
  pub argv : List Bytes
  pub cfg : Config
  pub tty : Bool
  pub identity : ClientIdentity
  pub env : List (Bytes × Bytes)
  pub cargo_policy : Bool
  pub pinned : Bool
  pub toolchain_override : Option Bytes

abbrev pub is_some : {A : Type 0} → Option A → Bool
is_some none = false
is_some (some a) = true

unfoldable pub toolchain_override_token : List Bytes → Option Bytes
toolchain_override_token argv = elim (get_elem? argv 1) [
  | none ↦ none
  | some s ↦ elim (strip_prefix (codes "+") s) [
    | none ↦ none
    | some name ↦ elim name [ [] ↦ none | c ∷ cs ↦ some (c ∷ cs) ]
  ]
]

unfoldable pub subcommand : ShimInput → Option Bytes
subcommand input = get_elem? input.argv (if is_some input.toolchain_override then 2 else 1)

unfoldable pub hard_mismatch : ShimInput → Bool
hard_mismatch input = input.pinned || is_some input.toolchain_override

pub compiling_subcommands : List Bytes
compiling_subcommands =
    codes "bench"
    ∷ codes "build"
    ∷ codes "check"
    ∷ codes "clippy"
    ∷ codes "doc"
    ∷ codes "run"
    ∷ codes "test"
    ∷ []

pub passthrough_subcommands : List Bytes
passthrough_subcommands =
    codes "metadata"
    ∷ codes "locate-project"
    ∷ codes "pkgid"
    ∷ codes "tree"
    ∷ codes "search"
    ∷ codes "login"
    ∷ codes "logout"
    ∷ codes "install"
    ∷ codes "uninstall"
    ∷ codes "new"
    ∷ codes "init"
    ∷ codes "add"
    ∷ codes "remove"
    ∷ codes "rm"
    ∷ codes "update"
    ∷ codes "fetch"
    ∷ codes "generate-lockfile"
    ∷ codes "vendor"
    ∷ codes "publish"
    ∷ codes "package"
    ∷ codes "owner"
    ∷ codes "yank"
    ∷ codes "version"
    ∷ codes "help"
    ∷ codes "fmt"
    ∷ codes "read-manifest"
    ∷ codes "verify-project"
    ∷ codes "report"
    ∷ codes "config"
    ∷ codes "info"
    ∷ codes "clean"
    ∷ []

unfoldable pub wants_touch : ShimInput → Option Bytes → Bool
wants_touch input sub =
    input.cargo_policy
    && input.cfg.store.touch
    && elim sub [ none ↦ false | some s ↦ any (bytes_eq s) compiling_subcommands ]

unfoldable pub is_passthrough : Option Bytes → Bool
is_passthrough none = true
is_passthrough (some s) =
    elim s [ [] ↦ false | c ∷ cs ↦ c == b'-' ] || any (bytes_eq s) passthrough_subcommands

-- A remote that has been probed: its handshaken connection.
pub record RemoteConnection : Type 0 where
  pub probed : ProbeResult
  pub session : Session

-- What the local server's socket gives: a connection that has said hello, with its host.
pub record LocalConnection : Type 0 where
  pub hostname : Bytes
  pub session : Session

pub record Hooks : Type 0 where
  pub remote_answer : Option (Result Bytes RemoteConnection)
  pub local_available : Bool
  pub local_answer : Option (Result (TransportError Bytes) LocalConnection)
  pub fingerprint : (cwd : Bytes) → Option Bytes → Result Bytes ToolchainFingerprint
  pub workspace_root : (cwd : Bytes) → Result Bytes Bytes
  pub push : (root host : Bytes) → Result Bytes Unit
  pub pull : (root : Bytes) → Result Bytes Unit
  pub exec : (argv : List Bytes) → ℤ

abbrev pub Run : Type 0
Run = ℤ × List Effect

-- `touch_before_exec`
unfoldable pub touch_if_wanted : ShimInput → (dir : Bytes) → List Effect
touch_if_wanted input dir =
    if wants_touch input (subcommand input) then spawned_touch dir ∷ [] else []

unfoldable pub run_here : ShimInput → Hooks → Run
run_here input hooks = (hooks.exec input.argv, exec_local input.argv ∷ [])

unfoldable pub touch_and_run_here : ShimInput → Hooks → (dir : Bytes) → Run
unfolding run_here
touch_and_run_here input hooks dir =
    let r = run_here input hooks in (r.0, touch_if_wanted input dir ++ r.1)

abbrev pub prefixed : List Effect → Run → Run
prefixed es (code, later) = (code, es ++ later)

abbrev pub failure : Run
failure = (pos 1, gave_up ∷ [])

abbrev pub shim_active_env : Bytes
shim_active_env = codes "RBS_SHIM_ACTIVE"

unfoldable pub job_env : List (Bytes × Bytes) → List (Bytes × Bytes)
job_env env = insert shim_active_env (codes "1") env

abbrev pub request_for : ShimInput → ToolchainFingerprint → JobRequest
request_for input toolchain = record {
  cwd = input.cwd;
  argv = input.argv;
  env = job_env input.env;
  toolchain = toolchain;
  toolchain_override = input.toolchain_override;
  priority = input.cfg.policy.priority;
  client = input.identity;
  tty = input.tty;
}

abbrev pub mismatch_of :
    ShimInput → (server_host : Bytes) (server client : ToolchainFingerprint) → Mismatch
mismatch_of input server_host server client = record {
  client_host = input.identity.hostname;
  client = client;
  server_host = server_host;
  server = server;
}

-- A mismatch where it is an error, or not.
unfoldable pub after_mismatch : (hard : Bool) → Mismatch → Run → Run
after_mismatch true m next = (pos 1, reported true m ∷ [])
after_mismatch false m next = prefixed (reported false m ∷ []) next

-- The `match outcome` of the chain's loop; `next` is the rest of the chain.
unfoldable pub after_outcome : ShimInput → Outcome → Run → Run
after_outcome input (job_exited status) next = (
  as_process_exit_code status,
  finished status ∷ (if success status then touch_if_wanted input input.cwd else []),
)
after_outcome input (mismatch server_host server client) next =
    after_mismatch (hard_mismatch input) (mismatch_of input server_host server client) next
after_outcome input busy next = next
after_outcome input (refused reason) next = next
after_outcome input (transport e) next = next

abbrev pub is_pull_and_link : PostBuild → Bool
is_pull_and_link pull_and_link = true
is_pull_and_link no_post_build = false

abbrev pub is_build : Option Bytes → Bool
is_build none = false
is_build (some s) = bytes_eq s (codes "build")

-- The condition of the post-build pull.
unfoldable pub links_locally : ShimInput → Outcome → Bool
links_locally input (job_exited status) =
    success status
    && input.cargo_policy
    && is_build (subcommand input)
    && is_pull_and_link input.cfg.policy.post_build
links_locally input _ = false

-- The end of a remote job: the pull and the local link, or what any outcome does. An error of the pull is
-- only logged.
unfoldable pub after_remote : ShimInput → Hooks → (root : Bytes) → Outcome → Run → Run
after_remote input hooks root outcome next =
    let linked = prefixed (touch_if_wanted input root ++ pulled root ∷ []) (run_here input hooks) in
    if links_locally input outcome then linked else after_outcome input outcome next

-- `Backend::Remote` of the loop, from what the push gives on.
unfoldable pub after_push :
    ShimInput
    → Hooks
    → JobRequest
    → RemoteConnection
    → (root : Bytes) → Result Bytes Unit
    → Run
    → Run
after_push input hooks request conn root (err e) next =
    prefixed (pushed root input.cfg.remote.host ∷ []) next
after_push input hooks request conn root (ok u) next =
    let (outcome, es) = submit_job_to conn.session request conn.probed.status.identity.hostname in
    prefixed (pushed root input.cfg.remote.host ∷ es) (after_remote input hooks root outcome next)

-- From the workspace's root on.
unfoldable pub after_root :
    ShimInput → Hooks → JobRequest → RemoteConnection → Result Bytes Bytes → Run → Run
after_root input hooks request conn (err e) next = next
after_root input hooks request conn (ok root) next =
    after_push input hooks request conn root (hooks.push root input.cfg.remote.host) next

unfoldable pub try_remote : ShimInput → Hooks → JobRequest → RemoteConnection → Run → Run
try_remote input hooks request conn next =
    after_root input hooks request conn (hooks.workspace_root input.cwd) next

-- `Backend::Local` of the loop, from what the socket gives on.
unfoldable pub try_local :
    ShimInput → JobRequest → Option (Result (TransportError Bytes) LocalConnection) → Run → Run
try_local input request none next = next
try_local input request (some (err e)) next = next
try_local input request (some (ok conn)) next =
    let (outcome, es) = submit_job_to conn.session request conn.hostname in
    prefixed es (after_outcome input outcome next)

-- The loop over the chain; the remote's connection is taken by the first that uses it.
unfoldable pub try_chain :
    ShimInput → Hooks → JobRequest → Option RemoteConnection → List Backend → Run
try_chain input hooks request conn [] = failure
try_chain input hooks request conn (plain_backend ∷ chain) =
    touch_and_run_here input hooks input.cwd
try_chain input hooks request none (remote_backend ∷ chain) =
    try_chain input hooks request none chain
try_chain input hooks request (some c) (remote_backend ∷ chain) =
    try_remote input hooks request c (try_chain input hooks request none chain)
try_chain input hooks request conn (local_backend ∷ chain) =
    try_local input request hooks.local_answer (try_chain input hooks request conn chain)

abbrev pub asks_remote : Mode → Bool
asks_remote auto = true
asks_remote remote = true
asks_remote local = false
asks_remote plain = false

-- The probe of the remote, and the connection that it leaves.
unfoldable pub probe_for : ShimInput → Hooks → Option RemoteProbe × Option RemoteConnection
probe_for input hooks =
    let asked : Option RemoteProbe × Option RemoteConnection = elim hooks.remote_answer [
      | none ↦ (some (failed (codes "no remote transport")), none)
      | some a ↦ elim a [
        | err e ↦ (some (failed e), none)
        | ok conn ↦ (some (probe_ok conn.probed), some conn)
      ]
    ] in
    if asks_remote input.cfg.policy.mode && input.cfg.remote.enabled then asked else (none, none)

-- The loop over a chain that is not empty.
unfoldable pub start_chain :
    ShimInput → Hooks → JobRequest → Option RemoteConnection → List Backend → Run
unfolding try_chain
start_chain input hooks request conn [] = (pos 1, no_backend ∷ [])
start_chain input hooks request conn (b ∷ chain) = try_chain input hooks request conn (b ∷ chain)

-- The chain that `select` gives.
unfoldable pub run_chain : ShimInput → Hooks → ToolchainFingerprint → Run
run_chain input hooks toolchain =
    let (probe, conn) = probe_for input hooks in
    start_chain input hooks (request_for input toolchain) conn
      (select input.cfg.policy.mode probe hooks.local_available input.cfg).chain

-- From what the fingerprint gives on.
unfoldable pub after_fingerprint :
    ShimInput → Hooks → Result Bytes ToolchainFingerprint → Mode → Run
after_fingerprint input hooks (ok toolchain) mode = run_chain input hooks toolchain
after_fingerprint input hooks (err e) auto = touch_and_run_here input hooks input.cwd
after_fingerprint input hooks (err e) _ = (pos 1, no_fingerprint e ∷ [])

unfoldable pub is_local_subcommand : ShimInput → Bool
is_local_subcommand input = elim (subcommand input) [
  | none ↦ false
  | some s ↦ any (λ l. bytes_eq l s) input.cfg.policy.local_subcommands
]

-- `run` in the mode of the configuration; the mode `plain` does not reach the other tests.
unfoldable pub run_in : ShimInput → Hooks → Mode → Run
run_in input hooks plain = touch_and_run_here input hooks input.cwd
run_in input hooks mode =
    if input.cargo_policy && is_passthrough (subcommand input)
    then run_here input hooks
    else if input.cargo_policy && is_local_subcommand input
    then touch_and_run_here input hooks input.cwd
    else after_fingerprint input hooks (hooks.fingerprint input.cwd input.toolchain_override) mode

unfoldable pub run : ShimInput → Hooks → Run
run input hooks = run_in input hooks input.cfg.policy.mode
