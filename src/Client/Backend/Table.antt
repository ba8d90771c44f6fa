-- ===== src/Client/Backend/Table.antt =====
-- The decision table in the comment of `select`, crates/rbs-client/src/backend.rs.
use rust_build_server.Prelude.{
  ◌≤◌, ◌≡◌, refl, Bool, true, false, List, [], ◌∷◌, Option, none, some, ◌⊎◌, inl, inr, arith,
  Option-cases, Bool-cases,
}
use rust_build_server.Config.{Mode, auto, remote, local, plain, Config}
use rust_build_server.Client.Backend.{
  Backend, remote_backend, local_backend, plain_backend, SkipReason, ProbeResult, RemoteProbe,
  probe_ok, failed, from_millis, probe_skip, remote_skip, disabled, local_skip, consider, select,
}

-- "remote ok" of the table.
abbrev pub RemoteOk : Option RemoteProbe → Config → Type 0
RemoteOk probe cfg =
    (cfg.remote.enabled ≡ true)
    × ((p : ProbeResult) × (probe ≡ some (probe_ok p))
        × (p.rtt ≤ from_millis cfg.remote.max_rtt_ms)
        × (p.status.capacity.accepting ≡ true))

abbrev pub LocalOk : Bool → Config → Type 0
LocalOk local_available cfg = (cfg.local_server.enabled ≡ true) × (local_available ≡ true)

pub remote_skip-RemoteOk :
    (probe : Option RemoteProbe) (cfg : Config) → remote_skip probe cfg ≡ none → RemoteOk probe cfg
unfolding remote_skip probe_skip from_millis
remote_skip-RemoteOk none cfg h = absurd (ground arith)
remote_skip-RemoteOk (some (failed m)) cfg h = absurd (ground arith)
remote_skip-RemoteOk (some (probe_ok p)) cfg h =
    (ground arith, (p, refl, ground arith, ground arith))

pub RemoteOk-remote_skip :
    (probe : Option RemoteProbe) (cfg : Config) (r : SkipReason)
    → remote_skip probe cfg ≡ some r
    → ¬ RemoteOk probe cfg
unfolding remote_skip probe_skip from_millis
RemoteOk-remote_skip none cfg r h ok_now = cc
RemoteOk-remote_skip (some (failed m)) cfg r h ok_now = ground arith
RemoteOk-remote_skip (some (probe_ok p)) cfg r h ok_now = ground arith

-- The row of the table that a mode and the two tests give.
abbrev pub Row : Mode → Type 0 → Type 0 → List Backend → Type 0
Row auto R L c =
    (R × L × (c ≡ remote_backend ∷ local_backend ∷ plain_backend ∷ []))
    ⊎ (R × ¬ L × (c ≡ remote_backend ∷ plain_backend ∷ []))
    ⊎ (¬ R × L × (c ≡ local_backend ∷ plain_backend ∷ []))
    ⊎ (¬ R × ¬ L × (c ≡ plain_backend ∷ []))
Row remote R L c = (R × (c ≡ remote_backend ∷ [])) ⊎ (¬ R × (c ≡ []))
Row local R L c = (L × (c ≡ local_backend ∷ [])) ⊎ (¬ L × (c ≡ []))
Row plain R L c = c ≡ plain_backend ∷ []

remote_cases :
    (probe : Option RemoteProbe) (cfg : Config)
    → ((remote_skip probe cfg ≡ none) × RemoteOk probe cfg)
      ⊎ ((r : SkipReason) × (remote_skip probe cfg ≡ some r) × ¬ RemoteOk probe cfg)
remote_cases probe cfg = elim (Option-cases (remote_skip probe cfg)) [
  | inl h ↦ inl (h, remote_skip-RemoteOk probe cfg h)
  | inr (r, h) ↦ inr (r, h, RemoteOk-remote_skip probe cfg r h)
]

local_cases :
    (available : Bool) (cfg : Config)
    → ((local_skip available cfg ≡ none) × LocalOk available cfg)
      ⊎ ((r : SkipReason) × (local_skip available cfg ≡ some r) × ¬ LocalOk available cfg)
unfolding local_skip
local_cases true cfg = elim (Bool-cases cfg.local_server.enabled) [
  | inl h ↦ inl (ground (arith, h), ground (arith, h))
  | inr h ↦ inr (disabled, ground (arith, h), ground (arith, h))
]
local_cases false cfg = inr (disabled, ground arith, ground arith)

-- The chain that `select` returns is the table's: each backend of the mode that is usable, in the order
-- remote, local, plain, and no other.
pub select-Row :
    (mode : Mode) (probe : Option RemoteProbe) (available : Bool) (cfg : Config)
    → Row mode (RemoteOk probe cfg) (LocalOk available cfg) (select mode probe available cfg).chain
unfolding select consider
select-Row auto probe available cfg = elim (remote_cases probe cfg) [
  | inl (r, fit) ↦ elim (local_cases available cfg) [
    | inl (l, here) ↦ inl (fit, here, rw (r, l) refl)
    | inr (x, l, away) ↦ inr (inl (fit, away, rw (r, l) refl))
  ]
  | inr (y, r, unfit) ↦ elim (local_cases available cfg) [
    | inl (l, here) ↦ inr (inr (inl (unfit, here, rw (r, l) refl)))
    | inr (x, l, away) ↦ inr (inr (inr (unfit, away, rw (r, l) refl)))
  ]
]
select-Row remote probe available cfg = elim (remote_cases probe cfg) [
  | inl (r, fit) ↦ inl (fit, rw r refl)
  | inr (y, r, unfit) ↦ inr (unfit, rw r refl)
]
select-Row local probe available cfg = elim (local_cases available cfg) [
  | inl (l, here) ↦ inl (here, rw l refl)
  | inr (x, l, away) ↦ inr (away, rw l refl)
]
select-Row plain probe available cfg = refl
