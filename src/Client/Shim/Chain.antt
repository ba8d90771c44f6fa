-- ===== src/Client/Shim/Chain.antt =====
-- How the loop over the chain of backends ends: which effect is the last, and with which exit code.
use rust_build_server.Prelude.{
  ◌≡◌, refl, ap, sym, ◌∙◌, Bool, true, false, not, List, [], ◌∷◌, ◌++◌, Option, none, some, ◌⊎◌,
  inl, inr, any, All-append, Bytes, Result, ok, err, pos, arith, if◌then◌else◌, Bool-cases,
}
use mathlib.Core.List.{append_assoc}
use rust_build_server.Proto.Job.{ExitStatus, success, as_process_exit_code, JobRequest}
use rust_build_server.Proto.Toolchain.{ToolchainFingerprint}
use rust_build_server.Client.Transport.{TransportError}
use rust_build_server.Client.Backend.{Backend, remote_backend, local_backend, plain_backend, select}
use rust_build_server.Client.Submit.{
  Effect, pushed, pulled, finished, reported, no_fingerprint, no_backend, Outcome, job_exited,
  mismatch, busy, refused, transport, submit_job_to,
}
use rust_build_server.Client.Shim.{
  ShimInput, Hooks, Run, RemoteConnection, LocalConnection, run_here, after_push, after_root,
  touch_and_run_here, touch_if_wanted, try_chain, try_local, try_remote, after_remote,
  after_mismatch, after_outcome, links_locally, failure, prefixed, hard_mismatch, probe_for,
  request_for, mismatch_of, start_chain,
}
use rust_build_server.Client.Shim.Quiet.{
  is_plain, Quiet, submit_job_to-Quiet, touch_if_wanted-Quiet,
}

-- An outcome that a submission of the job gives, to the remote or to the local server.
abbrev pub FromRemote : ShimInput → Hooks → JobRequest → Outcome → Type 0
FromRemote input hooks request o =
    (c : RemoteConnection) × (hooks.remote_answer ≡ some (ok c))
    × (o ≡ (submit_job_to c.session request c.probed.status.identity.hostname).0)

abbrev pub FromLocal : ShimInput → Hooks → JobRequest → Outcome → Type 0
FromLocal input hooks request o =
    (c : LocalConnection) × (hooks.local_answer ≡ some (ok c))
    × (o ≡ (submit_job_to c.session request c.hostname).0)

-- The submission is of the job of this invocation, with the toolchain of its directory. An interrupt before
-- the first event makes an exit status of its own.
abbrev pub IsSubmitted : ShimInput → Hooks → Outcome → Type 0
IsSubmitted input hooks o =
    (t : ToolchainFingerprint) × (hooks.fingerprint input.cwd input.toolchain_override ≡ ok t)
    × (FromRemote input hooks (request_for input t) o
        ⊎ FromLocal input hooks (request_for input t) o)

-- The chain that the backends' answers leave.
abbrev pub chain_of : ShimInput → Hooks → List Backend
chain_of input hooks =
    (select input.cfg.policy.mode (probe_for input hooks).0 hooks.local_available input.cfg).chain

-- The ends of a run: the real cargo is executed; a submission has given an exit status, and a touch may
-- follow it; a submission has given a mismatch that is an error; or, where `may_fail`, the toolchain is
-- not known, the chain is empty, or no backend is left.
abbrev pub Ending : ShimInput → Hooks → Bool → Run → Type 0
Ending input hooks may_fail r =
    (r ≡ run_here input hooks)
    ⊎ ((st : ExitStatus) × IsSubmitted input hooks (job_exited st)
        × (r ≡ (
          as_process_exit_code st,
          finished st ∷ (if success st then touch_if_wanted input input.cwd else []),
        )))
    ⊎ ((host : Bytes) × (server : ToolchainFingerprint) × (client : ToolchainFingerprint)
        × IsSubmitted input hooks (mismatch host server client)
        × (hard_mismatch input ≡ true)
        × (r ≡ (pos 1, reported true (mismatch_of input host server client) ∷ [])))
    ⊎ ((may_fail ≡ true)
        × (e : Bytes) × (hooks.fingerprint input.cwd input.toolchain_override ≡ err e)
        × (r ≡ (pos 1, no_fingerprint e ∷ [])))
    ⊎ ((may_fail ≡ true) × (chain_of input hooks ≡ []) × (r ≡ (pos 1, no_backend ∷ [])))
    ⊎ ((may_fail ≡ true) × (r ≡ failure))

abbrev pub Ends : ShimInput → Hooks → Bool → Run → Type 0
Ends input hooks may_fail r =
    (es : List Effect) × (end : Run) × Quiet (hard_mismatch input) es
    × Ending input hooks may_fail end
    × (r ≡ prefixed es end)

module _ (input : ShimInput) (hooks : Hooks) where
  pub prefixed-Ends :
      (f : Bool) (es : List Effect) (r : Run)
      → Quiet (hard_mismatch input) es
      → Ends input hooks f r
      → Ends input hooks f (prefixed es r)
  prefixed-Ends f es r q (later, end, ql, ending, e) = (
    es ++ later,
    end,
    All-append _ es later q ql,
    ending,
    ap (prefixed es) e ∙ ap (λ x. (end.0, x)) (sym (append_assoc es later end.1)),
  )

  pub run_here-Ends : (f : Bool) → Ends input hooks f (run_here input hooks)
  run_here-Ends f = ([], run_here input hooks, tt, inl refl, refl)

  pub touch_and_run_here-Ends :
      (f : Bool) (dir : Bytes) → Ends input hooks f (touch_and_run_here input hooks dir)
  unfolding touch_and_run_here
  touch_and_run_here-Ends f dir = (
    touch_if_wanted input dir,
    run_here input hooks,
    touch_if_wanted-Quiet (hard_mismatch input) input dir,
    inl refl,
    refl,
  )

  failure-Ends : Ends input hooks true failure
  failure-Ends = ([], failure, tt, inr (inr (inr (inr (inr (refl, refl))))), refl)

  after_mismatch-Ends :
      (f b : Bool) (host : Bytes) (server client : ToolchainFingerprint) (next : Run)
      → hard_mismatch input ≡ b
      → IsSubmitted input hooks (mismatch host server client)
      → Ends input hooks f next
      → Ends input hooks f (after_mismatch b (mismatch_of input host server client) next)
  unfolding after_mismatch
  after_mismatch-Ends f true host server client next hard by h = (
    [],
    (pos 1, reported true (mismatch_of input host server client) ∷ []),
    tt,
    inr (inr (inl (host, server, client, by, hard, refl))),
    refl,
  )
  after_mismatch-Ends f false host server client next soft by h =
      prefixed-Ends f (reported false (mismatch_of input host server client) ∷ []) next
        (ground (arith, soft), tt) h

  after_outcome-Ends :
      (f : Bool) (o : Outcome) (next : Run)
      → IsSubmitted input hooks o
      → Ends input hooks f next
      → Ends input hooks f (after_outcome input o next)
  unfolding after_outcome
  after_outcome-Ends f (job_exited st) next by h =
      ([], after_outcome input (job_exited st) next, tt, inr (inl (st, by, refl)), refl)
  after_outcome-Ends f (mismatch host server client) next by h =
      after_mismatch-Ends f (hard_mismatch input) host server client next refl by h
  after_outcome-Ends f busy next by h = h
  after_outcome-Ends f (refused reason) next by h = h
  after_outcome-Ends f (transport e) next by h = h

  -- The remote's part of the chain.
  after_remote-Ends :
      (f : Bool) (root : Bytes) (o : Outcome) (next : Run)
      → IsSubmitted input hooks o
      → Ends input hooks f next
      → Ends input hooks f (after_remote input hooks root o next)
  unfolding after_remote
  after_remote-Ends f root o next by h = elim (Bool-cases (links_locally input o)) [
    | inl links ↦ rw links (
        prefixed-Ends f (touch_if_wanted input root ++ pulled root ∷ []) _
          (All-append _ (touch_if_wanted input root) (pulled root ∷ [])
            (touch_if_wanted-Quiet (hard_mismatch input) input root) (refl, tt))
          (run_here-Ends f))
    | inr other ↦ rw other (after_outcome-Ends f o next by h)
  ]

  after_push-Ends :
      (f : Bool) (request : JobRequest) (c : RemoteConnection) (root : Bytes)
      (r : Result Bytes Unit) (next : Run)
      → IsSubmitted input hooks
          (submit_job_to c.session request c.probed.status.identity.hostname).0
      → Ends input hooks f next
      → Ends input hooks f (after_push input hooks request c root r next)
  unfolding after_push
  after_push-Ends f request c root (err e) next by h =
      prefixed-Ends f (pushed root input.cfg.remote.host ∷ []) next (refl, tt) h
  after_push-Ends f request c root (ok u) next by h =
      let r = submit_job_to c.session request c.probed.status.identity.hostname in
      prefixed-Ends f (pushed root input.cfg.remote.host ∷ r.1) _
        (
          refl,
          submit_job_to-Quiet (hard_mismatch input) c.session request
              c.probed.status.identity.hostname,
        )
        (after_remote-Ends f root r.0 next by h)

  after_root-Ends :
      (f : Bool) (request : JobRequest) (c : RemoteConnection) (root : Result Bytes Bytes)
      (next : Run)
      → IsSubmitted input hooks
          (submit_job_to c.session request c.probed.status.identity.hostname).0
      → Ends input hooks f next
      → Ends input hooks f (after_root input hooks request c root next)
  unfolding after_root
  after_root-Ends f request c (err e) next by h = h
  after_root-Ends f request c (ok root) next by h =
      after_push-Ends f request c root (hooks.push root input.cfg.remote.host) next by h

  try_local-Ends :
      (f : Bool) (t : ToolchainFingerprint)
      → hooks.fingerprint input.cwd input.toolchain_override ≡ ok t
      → (a : Option (Result (TransportError Bytes) LocalConnection)) → hooks.local_answer ≡ a
      → (next : Run) → Ends input hooks f next
      → Ends input hooks f (try_local input (request_for input t) a next)
  unfolding try_local
  try_local-Ends f t known none e next h = h
  try_local-Ends f t known (some (err x)) e next h = h
  try_local-Ends f t known (some (ok conn)) e next h =
      let request = request_for input t in
      prefixed-Ends f (submit_job_to conn.session request conn.hostname).1 _
        (submit_job_to-Quiet (hard_mismatch input) conn.session request conn.hostname)
        (after_outcome-Ends f (submit_job_to conn.session request conn.hostname).0 next
          (t, known, inr (conn, e, refl)) h)

  weaken_end : {r : Run} → Ending input hooks false r → Ending input hooks true r
  weaken_end (inl a) = inl a
  weaken_end (inr (inl a)) = inr (inl a)
  weaken_end (inr (inr (inl a))) = inr (inr (inl a))
  weaken_end (inr (inr (inr (inl (h, x, a, e))))) = absurd (ground arith)
  weaken_end (inr (inr (inr (inr (inl (h, a, e)))))) = absurd (ground arith)
  weaken_end (inr (inr (inr (inr (inr (h, e)))))) = absurd (ground arith)

  -- The loop fails only on a chain without the real cargo.
  try_chain-Ends :
      (t : ToolchainFingerprint)
      → hooks.fingerprint input.cwd input.toolchain_override ≡ ok t
      → (chain : List Backend) (conn : Option RemoteConnection)
      → ((c : RemoteConnection) → conn ≡ some c → hooks.remote_answer ≡ some (ok c))
      → Ends input hooks
          (not (any is_plain chain))
          (try_chain input hooks (request_for input t) conn chain)
  unfolding try_chain try_remote
  try_chain-Ends t known [] conn from = failure-Ends
  try_chain-Ends t known (plain_backend ∷ chain) conn from = touch_and_run_here-Ends false input.cwd
  try_chain-Ends t known (remote_backend ∷ chain) none from = try_chain-Ends t known chain none from
  try_chain-Ends t known (remote_backend ∷ chain) (some c) from =
      after_root-Ends _ (request_for input t) c (hooks.workspace_root input.cwd) _
        (t, known, inl (c, from c refl, refl))
        (try_chain-Ends t known chain none (λ d e. absurd (cc)))
  try_chain-Ends t known (local_backend ∷ chain) conn from =
      try_local-Ends _ t known hooks.local_answer refl _ (try_chain-Ends t known chain conn from)

  pub start_chain-Ends :
      (t : ToolchainFingerprint)
      → hooks.fingerprint input.cwd input.toolchain_override ≡ ok t
      → (chain : List Backend) → chain_of input hooks ≡ chain
      → (conn : Option RemoteConnection)
      → ((c : RemoteConnection) → conn ≡ some c → hooks.remote_answer ≡ some (ok c))
      → Ends input hooks
          (not (any is_plain chain))
          (start_chain input hooks (request_for input t) conn chain)
  unfolding start_chain
  start_chain-Ends t known [] e conn from =
      ([], (pos 1, no_backend ∷ []), tt, inr (inr (inr (inr (inl (refl, e, refl))))), refl)
  start_chain-Ends t known (b ∷ chain) e conn from = try_chain-Ends t known (b ∷ chain) conn from

  pub weaken : (f : Bool) (r : Run) → Ends input hooks f r → Ends input hooks true r
  weaken true r h = h
  weaken false r (es, end, q, ending, e) = (es, end, q, weaken_end ending, e)

-- A connection that the probe leaves is the remote's.
pub probe_for-answered :
    (input : ShimInput) (hooks : Hooks) (c : RemoteConnection)
    → (probe_for input hooks).1 ≡ some c
    → hooks.remote_answer ≡ some (ok c)
unfolding probe_for
probe_for-answered input hooks c e = ground arith
