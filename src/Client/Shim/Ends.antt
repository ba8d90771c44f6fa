-- ===== src/Client/Shim/Ends.antt =====
-- How a run of the shim ends: which of its effects is the last, and with which exit code.
use rust_build_server.Prelude.{
  ◌≡◌, refl, ap, ◌∙◌, Bool, true, false, not, [], ◌∷◌, Option, inl, inr, any, Bytes, Result, ok,
  err, pos, if◌then◌else◌, Option-cases,
}
use mathlib.Core.Path.{subst}
use rust_build_server.Proto.Toolchain.{ToolchainFingerprint}
use rust_build_server.Config.{Mode, auto, remote, local, plain, Config}
use rust_build_server.Client.Backend.{RemoteProbe, select, consider, remote_skip, local_skip}
use rust_build_server.Client.Submit.{no_fingerprint}
use rust_build_server.Client.Shim.{
  ShimInput, Hooks, Run, run, run_in, run_here, after_fingerprint, run_chain, touch_and_run_here,
  probe_for,
}
use rust_build_server.Client.Shim.Quiet.{is_plain}
use rust_build_server.Client.Shim.Chain.{
  Ends, run_here-Ends, touch_and_run_here-Ends, start_chain-Ends, weaken, probe_for-answered,
}

select_auto_plain :
    (probe : Option RemoteProbe) (available : Bool) (cfg : Config)
    → any is_plain (select auto probe available cfg).chain ≡ true
unfolding select consider
select_auto_plain probe available cfg = elim (Option-cases (remote_skip probe cfg)) [
  | inl r ↦ elim (Option-cases (local_skip available cfg)) [
    | inl l ↦ rw (r, l) refl
    | inr (y, l) ↦ rw (r, l) refl
  ]
  | inr (x, r) ↦ elim (Option-cases (local_skip available cfg)) [
    | inl l ↦ rw (r, l) refl
    | inr (y, l) ↦ rw (r, l) refl
  ]
]

abbrev pub not_auto : Mode → Bool
not_auto auto = false
not_auto _ = true

run_chain-Ends :
    (input : ShimInput) (hooks : Hooks) (t : ToolchainFingerprint) (mode : Mode)
    → input.cfg.policy.mode ≡ mode
    → hooks.fingerprint input.cwd input.toolchain_override ≡ ok t
    → Ends input hooks (not_auto mode) (run_chain input hooks t)
unfolding run_chain
run_chain-Ends input hooks t auto e known =
    let plain_last : any is_plain
          (select input.cfg.policy.mode (probe_for input hooks).0 hooks.local_available
            input.cfg).chain
        ≡ true =
      ap
        (λ m.
          any is_plain (select m (probe_for input hooks).0 hooks.local_available input.cfg).chain)
        e
      ∙ select_auto_plain (probe_for input hooks).0 hooks.local_available input.cfg in
    subst (λ b. Ends input hooks b (run_chain input hooks t)) (ap not plain_last)
      (start_chain-Ends input hooks t known _ refl (probe_for input hooks).1
        (probe_for-answered input hooks))
run_chain-Ends input hooks t remote e known = weaken input hooks _ _ (
    start_chain-Ends input hooks t known _ refl (probe_for input hooks).1
      (probe_for-answered input hooks))
run_chain-Ends input hooks t local e known = weaken input hooks _ _ (
    start_chain-Ends input hooks t known _ refl (probe_for input hooks).1
      (probe_for-answered input hooks))
run_chain-Ends input hooks t plain e known = weaken input hooks _ _ (
    start_chain-Ends input hooks t known _ refl (probe_for input hooks).1
      (probe_for-answered input hooks))

-- Without a fingerprint, in a mode that is not `auto`.
no_fingerprint-Ends :
    (input : ShimInput) (hooks : Hooks) (x : Bytes)
    → hooks.fingerprint input.cwd input.toolchain_override ≡ err x
    → Ends input hooks true (pos 1, no_fingerprint x ∷ [])
no_fingerprint-Ends input hooks x unknown =
    ([], (pos 1, no_fingerprint x ∷ []), tt, inr (inr (inr (inl (refl, x, unknown, refl)))), refl)

after_fingerprint-Ends :
    (input : ShimInput) (hooks : Hooks) (t : Result Bytes ToolchainFingerprint) (mode : Mode)
    → input.cfg.policy.mode ≡ mode
    → hooks.fingerprint input.cwd input.toolchain_override ≡ t
    → Ends input hooks (not_auto mode) (after_fingerprint input hooks t mode)
unfolding after_fingerprint
after_fingerprint-Ends input hooks (ok t) mode e known = run_chain-Ends input hooks t mode e known
after_fingerprint-Ends input hooks (err x) auto e unknown =
    touch_and_run_here-Ends input hooks false input.cwd
after_fingerprint-Ends input hooks (err x) remote e unknown =
    no_fingerprint-Ends input hooks x unknown
after_fingerprint-Ends input hooks (err x) local e unknown =
    no_fingerprint-Ends input hooks x unknown
after_fingerprint-Ends input hooks (err x) plain e unknown =
    no_fingerprint-Ends input hooks x unknown

-- The tests of `run` before the fingerprint.
abbrev pub guarded : ShimInput → Hooks → Bool → Bool → Run → Run
guarded input hooks passes stays next =
    if passes
    then run_here input hooks
    else if stays
    then touch_and_run_here input hooks input.cwd
    else next

guarded-Ends :
    (input : ShimInput) (hooks : Hooks) (f passes stays : Bool) (next : Run)
    → Ends input hooks f next
    → Ends input hooks f (guarded input hooks passes stays next)
guarded-Ends input hooks f true stays next h = run_here-Ends input hooks f
guarded-Ends input hooks f false true next h = touch_and_run_here-Ends input hooks f input.cwd
guarded-Ends input hooks f false false next h = h

run_in-Ends :
    (input : ShimInput) (hooks : Hooks) (mode : Mode)
    → input.cfg.policy.mode ≡ mode
    → Ends input hooks (not_auto mode) (run_in input hooks mode)
unfolding run_in
run_in-Ends input hooks plain e = touch_and_run_here-Ends input hooks true input.cwd
run_in-Ends input hooks auto e = guarded-Ends input hooks false _ _ _ (
    after_fingerprint-Ends input hooks (hooks.fingerprint input.cwd input.toolchain_override) auto e
      refl)
run_in-Ends input hooks remote e = guarded-Ends input hooks true _ _ _ (
    after_fingerprint-Ends input hooks (hooks.fingerprint input.cwd input.toolchain_override) remote
      e refl)
run_in-Ends input hooks local e = guarded-Ends input hooks true _ _ _ (
    after_fingerprint-Ends input hooks (hooks.fingerprint input.cwd input.toolchain_override) local
      e refl)

-- Every run has exactly one effect that ends it, and this is its last but for a touch. Either the real cargo
-- is executed and its code is the run's; or the submission of this job to the remote or the local server
-- has given an exit status, and its code is the run's; or such a submission has given a mismatch and the
-- workspace or the command line names a toolchain: then it is reported, and the code is 1; or, in a mode
-- that is not `auto`, the toolchain has no fingerprint, the chain of backends is empty, or no backend of
-- it is left, and the code is 1. Where a mismatch is an error, nothing follows the report of one.
pub run-Ends :
    (input : ShimInput) (hooks : Hooks)
    → Ends input hooks (not_auto input.cfg.policy.mode) (run input hooks)
unfolding run
run-Ends input hooks = run_in-Ends input hooks input.cfg.policy.mode refl
