-- ===== src/Config/Env.antt =====
-- crates/rbs-config/src/env.rs: the overrides from `RBS_*` variables, and which variables travel with a
-- job. The values are ASCII texts; an error carries the variable's name.
pub mod Filter
use rust_build_server.Prelude.{
  ℕ, ◌+◌, Bool, true, false, not, ◌&&◌, ◌||◌, List, [], ◌∷◌, Option, none, some, Bytes, codes,
  bytes_eq, strip_prefix, Result, ok, err, ◌>>=◌, if◌then◌else◌, leb, ◌==◌, any, insert, map,
}
use mathlib.Core.List.{reverse}
use rust_build_server.Proto.Job.{Priority, parse_priority}
use rust_build_server.Config.{Mode, local, parse_mode, Config}

pub record EnvOverrides : Type 0 where
  pub mode : Option Mode
  pub remote_host : Option Bytes
  pub priority : Option Priority

-- `str::trim`
unfoldable pub trim_start : Bytes → Bytes
trim_start [] = []
trim_start (c ∷ cs) =
    let rest = trim_start cs in if (c == 32) || (leb 9 c && leb c 13) then rest else c ∷ cs

unfoldable pub trim : Bytes → Bytes
trim s = reverse (trim_start (reverse (trim_start s)))

unfoldable pub to_ascii_lowercase : Bytes → Bytes
to_ascii_lowercase s = map (λ c. if leb b'A' c && leb c b'Z' then c + 32 else c) s

unfoldable pub is_truthy : Bytes → Bool
unfolding trim trim_start to_ascii_lowercase
is_truthy v =
    let w = to_ascii_lowercase (trim v) in
    bytes_eq w (codes "1")
    || bytes_eq w (codes "true")
    || bytes_eq w (codes "yes")
    || bytes_eq w (codes "on")

-- `value.parse()` of a variable that may be set; a value that does not parse is an error of that variable.
unfoldable pub parsed :
    {A : Type 0} → (var : Bytes) → (Bytes → Option A) → Option Bytes → Result Bytes (Option A)
parsed var parse none = ok none
parsed var parse (some v) = elim (parse v) [ none ↦ err var | some a ↦ ok (some a) ]

-- `RBS_LOCAL` counts where `RBS_MODE` is not set.
unfoldable pub or_local : Option Mode → Option Bytes → Option Mode
or_local (some m) v = some m
or_local none none = none
or_local none (some v) = if is_truthy v then some local else none

unfoldable pub non_empty : Option Bytes → Option Bytes
non_empty none = none
non_empty (some s) = elim s [ [] ↦ none | c ∷ cs ↦ some (c ∷ cs) ]

unfoldable pub from_lookup : (Bytes → Option Bytes) → Result Bytes EnvOverrides
from_lookup value = do
  m ← parsed (codes "RBS_MODE") parse_mode (value (codes "RBS_MODE"))
  p ← parsed (codes "RBS_PRIORITY") parse_priority (value (codes "RBS_PRIORITY"))
  ok (record {
    mode = or_local m (value (codes "RBS_LOCAL"));
    remote_host = non_empty (value (codes "RBS_REMOTE_HOST"));
    priority = p;
  })

abbrev pub or_else : {A : Type 0} → Option A → A → A
or_else none a = a
or_else (some b) a = b

unfoldable pub apply : EnvOverrides → Config → Config
apply o cfg = record cfg {
  policy = record cfg.policy {
    mode = or_else o.mode cfg.policy.mode;
    priority = or_else o.priority cfg.policy.priority;
  };
  remote = record cfg.remote { host = or_else o.remote_host cfg.remote.host };
}

-- `pat.strip_suffix('*')`
unfoldable pub strip_star : Bytes → Option Bytes
strip_star [] = none
strip_star (c ∷ []) = if c == b'*' then some [] else none
strip_star (c ∷ d ∷ cs) = elim (strip_star (d ∷ cs)) [ none ↦ none | some p ↦ some (c ∷ p) ]

unfoldable pub starts_with : Bytes → Bytes → Bool
starts_with name prefix = elim (strip_prefix prefix name) [ none ↦ false | some rest ↦ true ]

unfoldable pub pattern_matches : Bytes → Bytes → Bool
pattern_matches name pat = elim (strip_star pat) [
  | some prefix ↦ starts_with name prefix
  | none ↦ bytes_eq name pat
]

unfoldable pub env_allowed : Bytes → List Bytes → Bool
env_allowed name allowlist = any (pattern_matches name) allowlist

unfoldable pub never_forward : List Bytes
never_forward =
    codes "RUSTUP_HOME"
    ∷ codes "CARGO_HOME"
    ∷ codes "RUSTUP_TOOLCHAIN"
    ∷ codes "CARGO_TARGET_DIR"
    ∷ []

unfoldable pub forwarded : Bytes → List Bytes → Bool
forwarded name allowlist = not (any (bytes_eq name) never_forward) && env_allowed name allowlist

-- The variables that pass the filter enter the map one after the other.
unfoldable pub collect :
    List (Bytes × Bytes) → List Bytes → List (Bytes × Bytes) → List (Bytes × Bytes)
collect [] allowlist env = env
collect ((name, value) ∷ vars) allowlist env =
    let next = if forwarded name allowlist then insert name value env else env in
    collect vars allowlist next

unfoldable pub filter_env : List (Bytes × Bytes) → List Bytes → List (Bytes × Bytes)
filter_env vars allowlist = collect vars allowlist []
