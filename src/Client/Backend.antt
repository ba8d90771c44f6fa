-- ===== src/Client/Backend.antt =====
-- crates/rbs-client/src/backend.rs: which backends a run tries, and in which order. A `Duration` is its
-- number of nanoseconds.
mod Table
mod Examples
use rust_build_server.Prelude.{
  ℕ, ◌*◌, Bool, true, false, not, ◌||◌, List, [], ◌∷◌, ◌++◌, Option, none, some, ltb, if◌then◌else◌,
  Bytes, codes,
}
use rust_build_server.Proto.Status.{ServerStatus}
use rust_build_server.Config.{Mode, auto, remote, local, plain, Config}

pub data Backend : Type 0 where
  remote_backend local_backend plain_backend : Backend

pub data SkipReason : Type 0 where
  disabled : SkipReason
  probe_failed : Bytes → SkipReason
  rtt_too_high : (rtt max : ℕ) → SkipReason
  not_accepting : (queued running : ℕ) → SkipReason

pub record Skip : Type 0 where
  pub backend : Backend
  pub reason : SkipReason

pub record Chain : Type 0 where
  pub chain : List Backend
  pub skipped : List Skip

-- transport.rs
pub record ProbeResult : Type 0 where
  pub rtt : ℕ
  pub status : ServerStatus

pub data RemoteProbe : Type 0 where
  probe_ok : ProbeResult → RemoteProbe
  failed : Bytes → RemoteProbe

-- `Duration::from_millis`
unfoldable pub from_millis : ℕ → ℕ
from_millis ms = ms * 1000000

-- What a successful probe is held against.
unfoldable pub probe_skip : ProbeResult → Config → Option SkipReason
unfolding from_millis
probe_skip p cfg =
    let max = from_millis cfg.remote.max_rtt_ms in
    if ltb max p.rtt
    then some (rtt_too_high p.rtt max)
    else if not p.status.capacity.accepting
    then some (not_accepting p.status.queued p.status.running)
    else none

unfoldable pub remote_skip : Option RemoteProbe → Config → Option SkipReason
remote_skip probe cfg = if not cfg.remote.enabled then some disabled else elim probe [
  | none ↦ some (probe_failed (codes "not probed"))
  | some r ↦ elim r [ failed m ↦ some (probe_failed m) | probe_ok p ↦ probe_skip p cfg ]
]

unfoldable pub local_skip : Bool → Config → Option SkipReason
local_skip local_available cfg =
    if not cfg.local_server.enabled || not local_available then some disabled else none

-- The closure of `select`: the backend joins the chain, or is skipped with the reason.
unfoldable pub consider : Backend → Option SkipReason → Chain → Chain
consider b none d = record d { chain = d.chain ++ b ∷ [] }
consider b (some reason) d = record d {
  skipped = d.skipped ++ record { backend = b; reason = reason } ∷ [];
}

abbrev pub empty_chain : Chain
empty_chain = record { chain = []; skipped = [] }

unfoldable pub select : Mode → Option RemoteProbe → Bool → Config → Chain
select auto probe local_available cfg = consider plain_backend none (
    consider local_backend (local_skip local_available cfg)
      (consider remote_backend (remote_skip probe cfg) empty_chain))
select remote probe local_available cfg =
    consider remote_backend (remote_skip probe cfg) empty_chain
select local probe local_available cfg =
    consider local_backend (local_skip local_available cfg) empty_chain
select plain probe local_available cfg = consider plain_backend none empty_chain
