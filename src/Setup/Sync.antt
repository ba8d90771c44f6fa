-- ===== src/Setup/Sync.antt =====
-- crates/rbs-setup/src/toolchain_sync/mod.rs: the sync of two hosts' toolchains. A computation takes the
-- history of what has run and been written, the newest first, and leaves it longer. Log lines and
-- the fields of the outcome that only the report uses are left out.
pub mod Order
use rust_build_server.Prelude.{
  ◌≡◌, Bool, true, false, List, [], ◌∷◌, ◌++◌, Option, none, some, if◌then◌else◌, Bytes, codes,
  Result, ok, err,
}
use rust_build_server.Proto.Toolchain.{ToolchainFingerprint, compatible_with}
use rust_build_server.Toolchain.{parse_rustc_vv, RustcVv, ToolchainError, until_space}
use rust_build_server.Config.Env.{trim_start}
use rust_build_server.Setup.Commands.{
  Output, success, failure_detail, Answer, Event, ran, wrote, History, Runner,
}
use rust_build_server.Setup.Shell.{shell_quote, login_shell_args, toolchain_installed}
use rust_build_server.Setup.Release.{
  SyncPolicy, Probe, Winner, local, remote, Target, Release, stable, nightly, beta, choose,
  pin_channel, SyncError, command, verify_failed, diverged, pin_io,
}
use rust_build_server.Setup.Pin.{Files, pin_text}

abbrev pub Sync : Type 0 → Type 0
Sync A = History → Result SyncError A × History

unfoldable pub return : {A : Type 0} → A → Sync A
return a h = (ok a, h)

unfoldable pub fail : {A : Type 0} → SyncError → Sync A
fail e h = (err e, h)

abbrev pub next :
    {A B : Type 0} → Result SyncError A × History → (A → Sync B) → Result SyncError B × History
next (ok a, h) f = f a h
next (err e, h) f = (err e, h)

infixl 5 ◌>>=◌
unfoldable pub ◌>>=◌ : {A B : Type 0} → Sync A → (A → Sync B) → Sync B
(m >>= f) h = next (m h) f

-- A result that is at hand.
unfoldable pub given : {A : Type 0} → Result SyncError A → Sync A
given (ok a) = return a
given (err e) = fail e

-- `runner.run`
unfoldable pub run_program : Runner → (program : Bytes) → List Bytes → Sync Answer
run_program runner program args h =
    let answer = runner h program args in (ok answer, ran program args answer ∷ h)

-- What `Host::run` and `remote_active_toolchain` make of an answer.
unfoldable pub stdout_of : (host command_text : Bytes) → Answer → Sync Bytes
stdout_of host command_text (err e) = fail (command host command_text e)
stdout_of host command_text (ok out) =
    if success out then return out.stdout else fail (command host command_text (failure_detail out))

pub data Host : Type 0 where
  here : Host
  there : (host : Bytes) → Host

unfoldable pub label : Host → Bytes
label here = codes "local"
label (there host) = host

-- `argv.join(" ")`
unfoldable pub words : (program : Bytes) → List Bytes → Bytes
words program [] = program
words program (arg ∷ args) = program ++ codes " " ++ words arg args

-- `Host::run`: the program and the arguments that are run for it.
unfoldable pub host_argv : Host → (program : Bytes) → List Bytes → Bytes × List Bytes
unfolding words
host_argv here program args = (program, args)
host_argv (there host) program args = (codes "ssh", login_shell_args host (words program args))

unfoldable pub run_on : Runner → Host → (program : Bytes) → List Bytes → Sync Bytes
unfolding host_argv run_program stdout_of label
run_on runner host program args = do
  answer ← run_program runner (host_argv host program args).0 (host_argv host program args).1
  stdout_of (label host) (words program args) answer

unfoldable pub install : Runner → Host → (channel : Bytes) → Sync Bool
unfolding run_on
install runner host channel = do
  out ←
      run_on runner host (codes "rustup")
        (codes "toolchain" ∷ codes "install" ∷ channel ∷ codes "--profile" ∷ codes "minimal" ∷ [])
  return true

unfoldable pub ensure_installed : Runner → Host → (channel : Bytes) → Sync Bool
unfolding install
ensure_installed runner host channel = do
  list ← run_on runner host (codes "rustup") (codes "toolchain" ∷ codes "list" ∷ [])
  if toolchain_installed list channel then return false else install runner host channel

unfoldable pub fingerprint_of : (channel : Bytes) → RustcVv → ToolchainFingerprint
fingerprint_of channel vv = record {
  rustc_commit = vv.commit_hash;
  rustc_version = vv.release;
  host = vv.host;
  cargo_version = [];
  toolchain_name = channel;
}

unfoldable pub parsed_vv :
    Host → (channel : Bytes) → Result ToolchainError RustcVv → Sync ToolchainFingerprint
unfolding fingerprint_of
parsed_vv host channel (ok vv) = return (fingerprint_of channel vv)
parsed_vv host channel (err e) = fail (verify_failed (label host) channel)

unfoldable pub verify : Runner → Host → (channel : Bytes) → Sync ToolchainFingerprint
unfolding run_on parsed_vv
verify runner host channel = do
  out ← run_on runner host (codes "rustc") ((codes "+" ++ channel) ∷ codes "-vV" ∷ [])
  parsed_vv host channel (parse_rustc_vv out)

-- `Path::display`, of an absolute path.
unfoldable pub display : List Bytes → Bytes
display [] = codes "/"
display (name ∷ []) = codes "/" ++ name
display (name ∷ dir ∷ dirs) = display (dir ∷ dirs) ++ codes "/" ++ name

unfoldable pub remote_active_toolchain : Runner → (host : Bytes) → (cwd : List Bytes) → Sync Bytes
unfolding run_program stdout_of display
remote_active_toolchain runner host cwd =
    let text =
      codes "cd " ++ shell_quote (display cwd) ++ codes " && rustup show active-toolchain" in
    do
      answer ← run_program runner (codes "ssh") (login_shell_args host text)
      out ← stdout_of host text answer
      return (until_space (trim_start out))

unfoldable pub write_at : Files → List Bytes × Bytes → Sync (List Bytes)
write_at files (path, text) h =
    if files.can_write path then (ok path, wrote path text ∷ h) else (err (pin_io path), h)

unfoldable pub write_pin : Files → (cwd : List Bytes) → (channel : Bytes) → Sync (List Bytes)
unfolding given write_at
write_pin files cwd channel = do pin ← given (pin_text files cwd channel); write_at files pin

unfoldable pub is_mirrored : Answer → Bool
is_mirrored (ok out) = success out
is_mirrored (err e) = false

unfoldable pub copy_pin : Runner → (host src : Bytes) → Sync Bool
unfolding run_program stdout_of
copy_pin runner host src =
    let dst = host ++ codes ":" ++ src in
    do
      answer ← run_program runner (codes "scp") (codes "-q" ∷ src ∷ dst ∷ [])
      out ← stdout_of host (codes "scp " ++ src ++ codes " " ++ dst) answer
      return true

unfoldable pub push_pin : Runner → (host : Bytes) → (pin : List Bytes) → Sync Bool
unfolding run_program is_mirrored copy_pin display
push_pin runner host [] = return false
push_pin runner host (name ∷ dir) = do
  answer ←
      run_program runner (codes "ssh")
        (host ∷ codes "test" ∷ codes "-d" ∷ shell_quote (display dir) ∷ [])
  if is_mirrored answer then copy_pin runner host (display (name ∷ dir)) else return false

pub record Synced : Type 0 where
  pub channel : Bytes
  pub winner : Winner
  pub local_installed : Bool
  pub remote_installed : Bool
  pub pin : List Bytes
  pub pin_pushed : Bool
  pub local_fp : ToolchainFingerprint
  pub remote_fp : ToolchainFingerprint

pub data Outcome : Type 0 where
  already_in_sync : Outcome
  synced : Synced → Outcome

unfoldable pub pin_verified :
    Runner
    → Files
    → (host : Bytes) → (cwd : List Bytes) → Winner
    → (channel : Bytes) → (local_installed remote_installed : Bool)
    → (local_fp remote_fp : ToolchainFingerprint) → Sync Outcome
unfolding write_pin push_pin
pin_verified runner files host cwd winner channel li ri lf rf = do
  pin ← write_pin files cwd channel
  pushed ← push_pin runner host pin
  return (
      synced (record {
        channel = channel;
        winner = winner;
        local_installed = li;
        remote_installed = ri;
        pin = pin;
        pin_pushed = pushed;
        local_fp = lf;
        remote_fp = rf;
      }))

-- From the check of the two builds on.
unfoldable pub pin_both :
    Runner
    → Files
    → (host : Bytes) → (cwd : List Bytes) → Winner
    → (channel : Bytes) → (local_installed remote_installed : Bool)
    → (local_fp remote_fp : ToolchainFingerprint) → Sync Outcome
unfolding pin_verified
pin_both runner files host cwd winner channel li ri lf rf =
    if compatible_with lf rf
    then pin_verified runner files host cwd winner channel li ri lf rf
    else fail (diverged host channel lf rf)

-- From the channel on.
unfoldable pub converge :
    Runner → Files → (host : Bytes) → (cwd : List Bytes) → Winner → (channel : Bytes) → Sync Outcome
unfolding ensure_installed verify pin_both
converge runner files host cwd winner channel = do
  li ← ensure_installed runner here channel
  ri ← ensure_installed runner (there host) channel
  lf ← verify runner here channel
  rf ← verify runner (there host) channel
  pin_both runner files host cwd winner channel li ri lf rf

-- The host and the name in rustup of the toolchain that is chosen. A stable one is not asked for.
unfoldable pub rustup_name :
    Runner → (host : Bytes) → (cwd : List Bytes) → (l : Probe) → Target → Sync (Bytes × Bytes)
unfolding remote_active_toolchain
rustup_name runner host cwd l t = elim t.winner [
  | local ↦ return (codes "local", l.fp.toolchain_name)
  | remote ↦ elim t.release.channel [
    | stable ↦ return (host, [])
    | nightly ↦ do name ← remote_active_toolchain runner host cwd; return (host, name)
    | beta ↦ do name ← remote_active_toolchain runner host cwd; return (host, name)
  ]
]

unfoldable pub sync_apart :
    Runner → Files → (host : Bytes) → (cwd : List Bytes) → SyncPolicy → (l r : Probe) → Sync Outcome
unfolding converge rustup_name given
sync_apart runner files host cwd policy l r = do
  target ← given (choose policy l r)
  named ← rustup_name runner host cwd l target
  channel ← given (pin_channel target.release named.1 l.fp.host named.0)
  converge runner files host cwd target.winner channel

unfoldable pub sync :
    Runner → Files → (host : Bytes) → (cwd : List Bytes) → SyncPolicy → (l r : Probe) → Sync Outcome
unfolding sync_apart
sync runner files host cwd policy l r =
    if compatible_with l.fp r.fp
    then return already_in_sync
    else sync_apart runner files host cwd policy l r
