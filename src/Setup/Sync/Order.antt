-- ===== src/Setup/Sync/Order.antt =====
-- The order of what a sync does: the pin comes after the proof that both hosts can satisfy it.
use rust_build_server.Prelude.{
  ◌≡◌, refl, sym, arith, Bool, true, false, List, [], ◌∷◌, ◌++◌, if◌then◌else◌, Bytes, codes,
  Result, ok, err, Bool-cases, Result-cases, inl, inr, ◌⊎◌,
}
use mathlib.Core.Path.{subst}
use rust_build_server.Proto.Toolchain.{ToolchainFingerprint, compatible_with}
use rust_build_server.Toolchain.{parse_rustc_vv, RustcVv, ToolchainError}
use rust_build_server.Setup.Commands.{
  Output, success, failure_detail, Answer, Event, ran, wrote, History, Runner,
}
use rust_build_server.Setup.Shell.{toolchain_installed}
use rust_build_server.Setup.Release.{
  SyncPolicy, Probe, Winner, local, remote, Release, Channel, stable, nightly, beta, SyncError,
  command, verify_failed, choose, pin_channel,
}
use rust_build_server.Setup.Pin.{Files, pin_text}
use rust_build_server.Setup.Sync.{
  Sync, return, fail, ◌>>=◌, label, words, display, is_mirrored, pin_verified, sync_apart, next,
  run_program, stdout_of, Host, here, there, host_argv, run_on, install, ensure_installed,
  fingerprint_of, parsed_vv, verify, remote_active_toolchain, write_at, write_pin, copy_pin,
  push_pin, pin_both, converge, rustup_name, given, sync,
}

-- A run of `rustc +channel -vV` for a host, with success and an output that is read.
abbrev pub Shown : Host → (channel : Bytes) → Event → RustcVv → Type 0
Shown host channel e vv =
    let argv = host_argv host (codes "rustc") ((codes "+" ++ channel) ∷ codes "-vV" ∷ []) in
    (out : Output) × (e ≡ ran argv.0 argv.1 (ok out))
    × (success out ≡ true)
    × (parse_rustc_vv out.stdout ≡ ok vv)

-- The last two programs that ran are the one host's `rustc` and then the other's, for the channel, and are
-- the same build.
abbrev pub Verified : (host channel : Bytes) → History → Type 0
Verified host channel before =
    (remote_run : Event) × (local_run : Event) × (earlier : History) × (lv : RustcVv)
    × (rv : RustcVv) × (before ≡ remote_run ∷ local_run ∷ earlier)
    × Shown here channel local_run lv
    × Shown (there host) channel remote_run rv
    × (compatible_with (fingerprint_of channel lv) (fingerprint_of channel rv) ≡ true)

-- Each file that a history has written is the pin of a channel, written with that at hand.
unfoldable pub IsSafe : Files → (host : Bytes) → (cwd : List Bytes) → History → Type 0
IsSafe files host cwd [] = Unit
IsSafe files host cwd (wrote path text ∷ before) =
    ((channel : Bytes) × (pin_text files cwd channel ≡ ok (path, text))
      × Verified host channel before)
    × IsSafe files host cwd before
IsSafe files host cwd (ran program args answer ∷ before) = IsSafe files host cwd before

module _ (runner : Runner) (files : Files) (host : Bytes) (cwd : List Bytes) where
  -- A computation after which a safe history is safe.
  Keeps : {A : Type 0} → Sync A → Type 0
  Keeps m = (h : History) → IsSafe files host cwd h → IsSafe files host cwd (m h).1

  next-Keeps :
      {A B : Type 0} (r : Result SyncError A × History) (f : A → Sync B)
      → IsSafe files host cwd r.1
      → ((a : A) → Keeps (f a))
      → IsSafe files host cwd (next r f).1
  unfolding Keeps
  next-Keeps (ok a, h) f safe keeps = keeps a h safe
  next-Keeps (err e, h) f safe keeps = safe

  bind-Keeps :
      {A B : Type 0} (m : Sync A) (f : A → Sync B)
      → Keeps m
      → ((a : A) → Keeps (f a))
      → Keeps (m >>= f)
  unfolding Keeps ◌>>=◌
  bind-Keeps m f km kf h safe = next-Keeps (m h) f (km h safe) kf

  return-Keeps : {A : Type 0} (a : A) → Keeps (return a)
  unfolding Keeps return
  return-Keeps a h safe = safe

  fail-Keeps : (A : Type 0) (e : SyncError) → Keeps (fail {A = A} e)
  unfolding Keeps fail
  fail-Keeps A e h safe = safe

  run_program-Keeps :
      (program : Bytes) (args : List Bytes) → Keeps (run_program runner program args)
  unfolding Keeps run_program IsSafe
  run_program-Keeps program args h safe = safe

  if-Keeps : {A : Type 0} (b : Bool) (m n : Sync A) → Keeps m → Keeps n → Keeps (if b then m else n)
  if-Keeps true m n km kn = km
  if-Keeps false m n km kn = kn

  stdout_of-Keeps : (who text : Bytes) (answer : Answer) → Keeps (stdout_of who text answer)
  unfolding stdout_of
  stdout_of-Keeps who text (err e) = fail-Keeps _ (command who text e)
  stdout_of-Keeps who text (ok out) =
      if-Keeps (success out) _ _ (return-Keeps out.stdout)
        (fail-Keeps _ (command who text (failure_detail out)))

  run_on-Keeps :
      (on : Host) (program : Bytes) (args : List Bytes) → Keeps (run_on runner on program args)
  unfolding run_on
  run_on-Keeps on program args =
      bind-Keeps _ _ (run_program-Keeps (host_argv on program args).0 (host_argv on program args).1)
        (stdout_of-Keeps (label on) (words program args))

  install-Keeps : (on : Host) (channel : Bytes) → Keeps (install runner on channel)
  unfolding install
  install-Keeps on channel = bind-Keeps _ _ (run_on-Keeps on _ _) (λ out. return-Keeps true)

  ensure_installed-Keeps :
      (on : Host) (channel : Bytes) → Keeps (ensure_installed runner on channel)
  unfolding ensure_installed
  ensure_installed-Keeps on channel = bind-Keeps _ _ (run_on-Keeps on _ _) (λ list.
      if-Keeps (toolchain_installed list channel) _ _ (return-Keeps false)
        (install-Keeps on channel))

  remote_active_toolchain-Keeps : Keeps (remote_active_toolchain runner host cwd)
  unfolding remote_active_toolchain
  remote_active_toolchain-Keeps =
      bind-Keeps _ _ (run_program-Keeps _ _)
        (λ answer. bind-Keeps _ _ (stdout_of-Keeps host _ answer) (λ out. return-Keeps _))

  rustup_name-Keeps :
      (l : Probe) (winner : Winner) (release : Release) (channel : Channel)
      → Keeps (
          rustup_name runner host cwd l
            (record { winner = winner; release = record release { channel = channel } }))
  unfolding rustup_name
  rustup_name-Keeps l local release channel = return-Keeps _
  rustup_name-Keeps l remote release stable = return-Keeps _
  rustup_name-Keeps l remote release nightly =
      bind-Keeps _ _ remote_active_toolchain-Keeps (λ name. return-Keeps _)
  rustup_name-Keeps l remote release beta =
      bind-Keeps _ _ remote_active_toolchain-Keeps (λ name. return-Keeps _)

  copy_pin-Keeps : (src : Bytes) → Keeps (copy_pin runner host src)
  unfolding copy_pin
  copy_pin-Keeps src =
      bind-Keeps _ _ (run_program-Keeps _ _)
        (λ answer. bind-Keeps _ _ (stdout_of-Keeps host _ answer) (λ out. return-Keeps true))

  push_pin-Keeps : (pin : List Bytes) → Keeps (push_pin runner host pin)
  unfolding push_pin
  push_pin-Keeps [] = return-Keeps false
  push_pin-Keeps (name ∷ dir) = bind-Keeps _ _ (run_program-Keeps _ _) (λ answer.
      if-Keeps (is_mirrored answer) _ _ (copy_pin-Keeps (display (name ∷ dir)))
        (return-Keeps false))

  given-Keeps : {A : Type 0} (r : Result SyncError A) → Keeps (given r)
  unfolding given
  given-Keeps (ok a) = return-Keeps a
  given-Keeps (err e) = fail-Keeps _ e

  parsed_vv-Keeps :
      (on : Host) (channel : Bytes) (r : Result ToolchainError RustcVv)
      → Keeps (parsed_vv on channel r)
  unfolding parsed_vv
  parsed_vv-Keeps on channel (ok vv) = return-Keeps (fingerprint_of channel vv)
  parsed_vv-Keeps on channel (err e) = fail-Keeps _ (verify_failed (label on) channel)

  verify-Keeps : (on : Host) (channel : Bytes) → Keeps (verify runner on channel)
  unfolding verify
  verify-Keeps on channel =
      bind-Keeps _ _ (run_on-Keeps on _ _) (λ out. parsed_vv-Keeps on channel (parse_rustc_vv out))

  -- A host's check fails, or its run stands at the head of the history.
  verify-Shown :
      (on : Host) (channel : Bytes) (h : History)
      → ((e : SyncError) × ((verify runner on channel h).0 ≡ err e))
        ⊎ ((vv : RustcVv) × (e : Event) × (verify runner on channel h
              ≡ (ok (fingerprint_of channel vv), e ∷ h))
            × Shown on channel e vv)
  unfolding verify ◌>>=◌ run_on run_program stdout_of return fail parsed_vv
  verify-Shown on channel h =
      let argv = host_argv on (codes "rustc") ((codes "+" ++ channel) ∷ codes "-vV" ∷ []) in
      elim (Result-cases (runner h argv.0 argv.1)) [
        | inr (e, unspawned) ↦ inl (
          command (label on) (words (codes "rustc") ((codes "+" ++ channel) ∷ codes "-vV" ∷ [])) e,
          rw unspawned refl,
        )
        | inl (out, answered) ↦ elim (Bool-cases (success out)) [
          | inr bad ↦ inl (
            command (label on) (words (codes "rustc") ((codes "+" ++ channel) ∷ codes "-vV" ∷ []))
                (failure_detail out),
            rw (answered, bad) refl,
          )
          | inl good ↦ elim (Result-cases (parse_rustc_vv out.stdout)) [
            | inr (e, unread) ↦
                inl (verify_failed (label on) channel, rw (answered, good) (rw unread refl))
            | inl (vv, reads) ↦ inr (
              vv,
              ran argv.0 argv.1 (ok out),
              rw (answered, good) (rw reads refl),
              (out, refl, good, reads),
            )
          ]
        ]
      ]

  next-err :
      {A B : Type 0} (r : Result SyncError A × History) (f : A → Sync B) (e : SyncError)
      → r.0 ≡ err e
      → IsSafe files host cwd r.1
      → IsSafe files host cwd (next r f).1
  next-err (ok a, h) f e fails safe = absurd (ground (arith, fails))
  next-err (err e', h) f e fails safe = safe

  -- What follows the check of a host has it at hand.
  verified-one :
      {A : Type 0} (on : Host) (channel : Bytes) (f : ToolchainFingerprint → Sync A) (h : History)
      → IsSafe files host cwd h
      → ((vv : RustcVv) (e : Event)
          → Shown on channel e vv
          → IsSafe files host cwd (f (fingerprint_of channel vv) (e ∷ h)).1)
      → IsSafe files host cwd ((verify runner on channel >>= f) h).1
  unfolding Keeps ◌>>=◌
  verified-one on channel f h safe after = elim (verify-Shown on channel h) [
    | inl (e, fails) ↦
        next-err (verify runner on channel h) f e fails (verify-Keeps on channel h safe)
    | inr (vv, e, shows, shown) ↦
        subst (λ r. IsSafe files host cwd (next r f).1) (sym shows) (after vv e shown)
  ]

  write_at-IsSafe :
      (channel : Bytes) (pin : List Bytes × Bytes) (h : History)
      → pin_text files cwd channel ≡ ok pin
      → Verified host channel h
      → IsSafe files host cwd h
      → IsSafe files host cwd (write_at files pin h).1
  unfolding write_at IsSafe
  write_at-IsSafe channel (path, text) h found verified safe =
      elim (Bool-cases (files.can_write path)) [
        | inl can ↦ rw can ((channel, found, verified), safe)
        | inr cannot ↦ rw cannot safe
      ]

  write_pin-IsSafe :
      (channel : Bytes) (h : History)
      → Verified host channel h
      → IsSafe files host cwd h
      → IsSafe files host cwd (write_pin files cwd channel h).1
  unfolding write_pin given return fail ◌>>=◌
  write_pin-IsSafe channel h verified safe = elim (Result-cases (pin_text files cwd channel)) [
    | inr (e, none_found) ↦
        subst (λ r. IsSafe files host cwd (next (given r h) (write_at files)).1) (sym none_found)
          safe
    | inl (pin, found) ↦
        subst (λ r. IsSafe files host cwd (next (given r h) (write_at files)).1) (sym found)
          (write_at-IsSafe channel pin h found verified safe)
  ]

  pin_verified-IsSafe :
      (winner : Winner) (channel : Bytes) (li ri : Bool) (lf rf : ToolchainFingerprint)
      (h : History)
      → Verified host channel h
      → IsSafe files host cwd h
      → IsSafe files host cwd (pin_verified runner files host cwd winner channel li ri lf rf h).1
  unfolding pin_verified ◌>>=◌
  pin_verified-IsSafe winner channel li ri lf rf h verified safe =
      next-Keeps (write_pin files cwd channel h) _ (write_pin-IsSafe channel h verified safe)
        (λ pin. bind-Keeps _ _ (push_pin-Keeps pin) (λ pushed. return-Keeps _))

  -- With the runs of both hosts at the head of the history.
  pin_both-IsSafe :
      (winner : Winner) (channel : Bytes) (li ri : Bool) (lv rv : RustcVv) (le re : Event)
      (h : History)
      → IsSafe files host cwd (re ∷ le ∷ h)
      → Shown here channel le lv
      → Shown (there host) channel re rv
      → IsSafe files host cwd
          (pin_both runner files host cwd winner channel li ri
            (fingerprint_of channel lv)
            (fingerprint_of channel rv)
            (re ∷ le ∷ h)).1
  unfolding pin_both fail
  pin_both-IsSafe winner channel li ri lv rv le re h safe ls rs =
      let lf = fingerprint_of channel lv in
      let rf = fingerprint_of channel rv in
      elim (Bool-cases (compatible_with lf rf)) [
        | inl same ↦ rw same (
            pin_verified-IsSafe winner channel li ri lf rf (re ∷ le ∷ h)
              (re, le, h, lv, rv, refl, ls, rs, same) safe)
        | inr differ ↦ rw differ safe
      ]

  -- A run that is shown is no file that is written.
  Shown-IsSafe :
      (on : Host) (channel : Bytes) (e : Event) (vv : RustcVv) (h : History)
      → Shown on channel e vv
      → IsSafe files host cwd h
      → IsSafe files host cwd (e ∷ h)
  unfolding IsSafe
  Shown-IsSafe on channel e vv h (out, ran_as, good, reads) safe =
      subst (λ t. IsSafe files host cwd (t ∷ h)) (sym ran_as) safe

  checked-Keeps :
      (winner : Winner) (channel : Bytes) (li ri : Bool)
      → Keeps (
          verify runner here channel >>= (λ lf.
            verify runner (there host) channel
            >>= (λ rf. pin_both runner files host cwd winner channel li ri lf rf)))
  unfolding Keeps
  checked-Keeps winner channel li ri h safe = verified-one here channel _ h safe (λ lv le ls.
      let safe' = Shown-IsSafe here channel le lv h ls safe in
      verified-one (there host) channel _ (le ∷ h) safe' (λ rv re rs.
        pin_both-IsSafe winner channel li ri lv rv le re h
          (Shown-IsSafe (there host) channel re rv (le ∷ h) rs safe') ls rs))

  converge-Keeps :
      (winner : Winner) (channel : Bytes) → Keeps (converge runner files host cwd winner channel)
  unfolding converge
  converge-Keeps winner channel = bind-Keeps _ _ (ensure_installed-Keeps here channel) (λ li.
      bind-Keeps _ _ (ensure_installed-Keeps (there host) channel)
        (λ ri. checked-Keeps winner channel li ri))

  sync_apart-Keeps :
      (policy : SyncPolicy) (l r : Probe) → Keeps (sync_apart runner files host cwd policy l r)
  unfolding sync_apart
  sync_apart-Keeps policy l r = bind-Keeps _ _ (given-Keeps (choose policy l r)) (λ target.
      bind-Keeps _ _ (rustup_name-Keeps l target.winner target.release target.release.channel)
        (λ named.
          bind-Keeps _ _ (given-Keeps (pin_channel target.release named.1 l.fp.host named.0))
            (λ channel. converge-Keeps target.winner channel)))

  -- However the programs answer and wherever the sync stops: each file that it writes is the pin of a
  -- channel for the workspace, and just before it, `rustc` of that channel has run on this host and on
  -- the other with success and has named builds that are compatible. So no failure leaves a pin that was
  -- not seen to be satisfied on both hosts.
  pub sync-IsSafe :
      (policy : SyncPolicy) (l r : Probe)
      → IsSafe files host cwd (sync runner files host cwd policy l r []).1
  unfolding sync IsSafe Keeps return
  sync-IsSafe policy l r = elim (Bool-cases (compatible_with l.fp r.fp)) [
    | inl same ↦ rw same tt
    | inr differ ↦ rw differ (sync_apart-Keeps policy l r [] tt)
  ]
