-- ===== src/Server/Runner/Command.antt =====
-- crates/rbs-server/src/runner.rs, `build_command`, `spawn_child` and `spawn`: the command of a job. The
-- environment of the server is a function, what the operating system makes of a command is another, and a
-- spawned child is the process that it will be. A string between quotes, as `{:?}` writes it, is a parameter.
use rust_build_server.Prelude.{
  ℕ, ◌≡◌, refl, ap, ◌∙◌, arith, List, [], ◌∷◌, ◌++◌, Option, none, some, if◌then◌else◌, Bytes,
  bytes_eq, bytes_eq_sound, codes, decimal, Result, ok, err, lookup, insert, lookup-insert,
  Bool-cases, Option-cases, inl, inr, ◌⊎◌, Result-cases, List-cases, any,
}
use rust_build_server.Proto.Job.{JobRequest, cpu_weight, RejectReason, internal}
use rust_build_server.Server.Runner.{Process}

abbrev pub inherited_env : List Bytes
inherited_env =
    codes "PATH"
    ∷ codes "HOME"
    ∷ codes "USER"
    ∷ codes "TERM"
    ∷ codes "LANG"
    ∷ codes "XDG_RUNTIME_DIR"
    ∷ codes "DBUS_SESSION_BUS_ADDRESS"
    ∷ []

abbrev pub Env : Type 0
Env = List (Bytes × Bytes)

-- The variables of a list that the server has, put into an environment.
unfoldable pub inherit : (server_env : Bytes → Option Bytes) → List Bytes → Env → Env
inherit server_env [] env = env
inherit server_env (key ∷ keys) env = elim (server_env key) [
  | none ↦ inherit server_env keys env
  | some v ↦ inherit server_env keys (insert key v env)
]

-- `inherit_env`, which clears the environment first.
unfoldable pub inherit_env : (server_env : Bytes → Option Bytes) → Env
unfolding inherit
inherit_env server_env = inherit server_env inherited_env []

-- `Command::envs`
unfoldable pub envs : Env → Env → Env
envs [] env = env
envs ((key, v) ∷ vars) env = envs vars (insert key v env)

pub data Scope : Type 0 where
  direct : Scope
  systemd : (mem_max_gib : ℕ) → Scope

Scope-cases : (scope : Scope) → (scope ≡ direct) ⊎ ((gib : ℕ) × (scope ≡ systemd gib))
Scope-cases direct = inl refl
Scope-cases (systemd gib) = inr (gib, refl)

pub record Runner : Type 0 where
  pub makeflags : Bytes
  pub scope : Scope

-- The program with its arguments, where it runs and in what environment.
pub record Command : Type 0 where
  pub argv : List Bytes
  pub current_dir : Bytes
  pub env : Env

unfoldable pub scope_argv : JobRequest → Scope → List Bytes
scope_argv req direct = req.argv
scope_argv req (systemd mem_max_gib) =
    codes "systemd-run"
    ∷ codes "--user"
    ∷ codes "--scope"
    ∷ codes "--quiet"
    ∷ codes "-p"
    ∷ (codes "MemoryMax=" ++ decimal mem_max_gib ++ codes "G")
    ∷ codes "-p"
    ∷ (codes "CPUWeight=" ++ decimal (cpu_weight req.priority))
    ∷ codes "--"
    ∷ req.argv

unfoldable pub job_env : Runner → (server_env : Bytes → Option Bytes) → JobRequest → Env
unfolding inherit_env envs
job_env runner server_env req = insert (codes "RBS_SHIM_ACTIVE") (codes "1") (
    insert (codes "RUSTC_WRAPPER") (codes "kache") (
      insert (codes "CARGO_MAKEFLAGS") runner.makeflags
        (insert (codes "MAKEFLAGS") runner.makeflags (envs req.env (inherit_env server_env)))))

unfoldable pub build_command :
    Runner → (server_env : Bytes → Option Bytes) → JobRequest → Scope → Command
unfolding scope_argv job_env
build_command runner server_env req scope = record {
  argv = scope_argv req scope;
  current_dir = req.cwd;
  env = job_env runner server_env req;
}

-- `spawn_child`, with the system's answer to a command.
unfoldable pub spawn_child :
    Runner
    → (server_env : Bytes → Option Bytes) → (run : Command → Result Bytes Process) → JobRequest
    → Result Bytes Process
unfolding build_command
spawn_child runner server_env run req = elim runner.scope [
  | direct ↦ run (build_command runner server_env req direct)
  | systemd gib ↦ elim (run (build_command runner server_env req (systemd gib))) [
    | ok child ↦ ok child
    | err e ↦ run (build_command runner server_env req direct)
  ]
]

unfoldable pub spawn_failed :
    (debug : Bytes → Bytes) → Bytes → Result Bytes Process → Result RejectReason Process
spawn_failed debug program (ok child) = ok child
spawn_failed debug program (err e) =
    err (internal (codes "spawn " ++ debug program ++ codes " failed: " ++ e))

unfoldable pub spawn :
    Runner
    → (server_env : Bytes → Option Bytes) → (run : Command → Result Bytes Process)
    → (debug : Bytes → Bytes) → JobRequest
    → Result RejectReason Process
unfolding spawn_child spawn_failed
spawn runner server_env run debug req = elim req.argv [
  | [] ↦ err (internal (codes "empty argv"))
  | program ∷ args ↦ spawn_failed debug program (spawn_child runner server_env run req)
]

-- The value of a key in a list where a later pair overrides an earlier.
unfoldable pub last_value : Bytes → Env → Option Bytes
last_value key [] = none
last_value key ((k, v) ∷ vars) = elim (last_value key vars) [
  | some w ↦ some w
  | none ↦ if bytes_eq key k then some v else none
]

abbrev pub or_else : Option Bytes → Option Bytes → Option Bytes
or_else (some v) other = some v
or_else none other = other

lookup-inherit :
    (key : Bytes) (server_env : Bytes → Option Bytes) (keys : List Bytes) (env : Env)
    → lookup key (inherit server_env keys env)
      ≡ or_else (if any (bytes_eq key) keys then server_env key else none) (lookup key env)
unfolding inherit
lookup-inherit key server_env [] env = refl
lookup-inherit key server_env (k ∷ keys) env = elim (Option-cases (server_env k)) [
  | inl unset ↦ elim (Bool-cases (bytes_eq key k)) [
    | inl same ↦ ground (
      arith,
      unset,
      same,
      ap server_env (bytes_eq_sound key k same),
      lookup-inherit key server_env keys env,
    )
    | inr other ↦ ground (arith, unset, other, lookup-inherit key server_env keys env)
  ]
  | inr (v, set) ↦ elim (Bool-cases (bytes_eq key k)) [
    | inl same ↦ ground (
      arith,
      set,
      same,
      ap server_env (bytes_eq_sound key k same),
      lookup-inherit key server_env keys (insert k v env),
      lookup-insert key k v env,
    )
    | inr other ↦ ground (
      arith,
      set,
      other,
      lookup-inherit key server_env keys (insert k v env),
      lookup-insert key k v env,
    )
  ]
]

lookup-envs :
    (key : Bytes) (vars env : Env)
    → lookup key (envs vars env) ≡ or_else (last_value key vars) (lookup key env)
unfolding envs last_value
lookup-envs key [] env = refl
lookup-envs key ((k, v) ∷ vars) env =
    lookup-envs key vars (insert k v env) ∙ ground (arith, lookup-insert key k v env)

-- The variables that the runner fixes.
abbrev pub fixed : Runner → Bytes → Option Bytes
fixed runner key =
    if bytes_eq key (codes "RBS_SHIM_ACTIVE")
    then some (codes "1")
    else if bytes_eq key (codes "RUSTC_WRAPPER")
    then some (codes "kache")
    else if bytes_eq key (codes "CARGO_MAKEFLAGS")
    then some runner.makeflags
    else if bytes_eq key (codes "MAKEFLAGS")
    then some runner.makeflags
    else none

fixed_step :
    (key k v : Bytes) (env : Env) (o other : Option Bytes)
    → lookup key env ≡ or_else o other
    → lookup key (insert k v env) ≡ or_else (if bytes_eq key k then some v else o) other
fixed_step key k v env o other h = elim (Bool-cases (bytes_eq key k)) [
  | inl same ↦ ground (arith, same, lookup-insert key k v env)
  | inr differs ↦ ground (arith, differs, h, lookup-insert key k v env)
]

or_else-none : (o : Option Bytes) → or_else o none ≡ o
or_else-none none = refl
or_else-none (some v) = refl

-- What a job finds under each name in its environment, whatever its scope: the value that the runner fixes
-- for `RBS_SHIM_ACTIVE`, `RUSTC_WRAPPER`, `CARGO_MAKEFLAGS` and `MAKEFLAGS`; else the last that the request
-- gives; else, for the names of `INHERITED_ENV` alone, what the server has; and else nothing.
pub build_command-env :
    (runner : Runner) (server_env : Bytes → Option Bytes) (req : JobRequest) (scope : Scope)
    (key : Bytes)
    → lookup key (build_command runner server_env req scope).env
      ≡ or_else (fixed runner key) (
          or_else
            (last_value key req.env)
            (if any (bytes_eq key) inherited_env then server_env key else none))
unfolding build_command inherit_env lookup
build_command-env runner server_env req scope key =
    let base = envs req.env (inherit_env server_env) in
    let one = insert (codes "MAKEFLAGS") runner.makeflags base in
    let two = insert (codes "CARGO_MAKEFLAGS") runner.makeflags one in
    let three = insert (codes "RUSTC_WRAPPER") (codes "kache") two in
    fixed_step key (codes "RBS_SHIM_ACTIVE") (codes "1") three _ _ (
      fixed_step key (codes "RUSTC_WRAPPER") (codes "kache") two _ _ (
        fixed_step key (codes "CARGO_MAKEFLAGS") runner.makeflags one _ _
          (fixed_step key (codes "MAKEFLAGS") runner.makeflags base none (lookup key base) refl)))
    ∙ ap (or_else (fixed runner key)) (
        lookup-envs key req.env (inherit_env server_env)
        ∙ ap (or_else (last_value key req.env))
            (lookup-inherit key server_env inherited_env [] ∙ or_else-none _))

-- A child that cannot be spawned: neither can the command without a scope.
spawn_child-err :
    (runner : Runner) (server_env : Bytes → Option Bytes) (run : Command → Result Bytes Process)
    (req : JobRequest) (e : Bytes)
    → spawn_child runner server_env run req ≡ err e
    → run (build_command runner server_env req direct) ≡ err e
unfolding spawn_child
spawn_child-err runner server_env run req e h = elim (Scope-cases runner.scope) [
  | inl plain ↦ ground (arith, plain, h)
  | inr (gib, scoped) ↦
      elim (Result-cases (run (build_command runner server_env req (systemd gib)))) [
        | inl (child, runs) ↦ absurd (ground (arith, scoped, runs, h))
        | inr (e', fails) ↦ ground (arith, scoped, fails, h)
      ]
]

spawn_failed-err :
    (debug : Bytes → Bytes) (program : Bytes) (r : Result Bytes Process) (reason : RejectReason)
    → spawn_failed debug program r ≡ err reason
    → (e : Bytes) × (r ≡ err e)
      × (reason ≡ internal (codes "spawn " ++ debug program ++ codes " failed: " ++ e))
unfolding spawn_failed
spawn_failed-err debug program (ok child) reason h = absurd (ground (arith, h))
spawn_failed-err debug program (err e) reason h = (e, refl, ground (arith, h))

-- A job that cannot be spawned has an empty command line, or the system refuses its command even without
-- the systemd scope, and the reason carries that error, not the scope's.
pub spawn-err :
    (runner : Runner) (server_env : Bytes → Option Bytes) (run : Command → Result Bytes Process)
    (debug : Bytes → Bytes) (req : JobRequest) (reason : RejectReason)
    → spawn runner server_env run debug req ≡ err reason
    → ((req.argv ≡ []) × (reason ≡ internal (codes "empty argv")))
      ⊎ ((program : Bytes) × (args : List Bytes) × (e : Bytes) × (req.argv ≡ program ∷ args)
          × (run (build_command runner server_env req direct) ≡ err e)
          × (reason ≡ internal (codes "spawn " ++ debug program ++ codes " failed: " ++ e)))
unfolding spawn
spawn-err runner server_env run debug req reason h = elim (List-cases req.argv) [
  | inl empty ↦ inl (empty, ground (arith, empty, h))
  | inr (program, args, full) ↦
      let (e, fails, says) =
        spawn_failed-err debug program (spawn_child runner server_env run req) reason
          (ground (arith, full, h)) in
      inr (program, args, e, full, spawn_child-err runner server_env run req e fails, says)
]
