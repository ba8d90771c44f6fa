-- ===== src/Config/Examples.antt =====
-- Environments and layers like those of the tests of env.rs and layers.rs.
use rust_build_server.Prelude.{
  ◌≡◌, refl, true, ◌↔◌, List, [], ◌∷◌, ◌++◌, none, some, Bytes, codes, bytes_eq, strip_prefix,
  lookup, insert, if◌then◌else◌, ok,
}
use rust_build_server.Proto.Job.{parse_priority}
use rust_build_server.Config.{parse_mode, local}
use rust_build_server.Config.Env.{
  filter_env, collect, forwarded, never_forward, env_allowed, pattern_matches, strip_star,
  starts_with, from_lookup, parsed, or_local, non_empty, is_truthy, trim, trim_start,
  to_ascii_lowercase,
}
use rust_build_server.Config.Env.Filter.{
  travels, last_value, lookup-filter_env, pattern_matches-star,
}
use rust_build_server.Config.Layers.{Table, leaf, table, empty, entry, get, deep_merge}
use rust_build_server.Config.Layers.Paths.{
  IsDistinct, IsSilent, at, at-deep_merge_upper, at-deep_merge_lower,
}

abbrev process_env : List (Bytes × Bytes)
process_env =
    (codes "CARGO_HOME", codes "/h/.cargo")
    ∷ (codes "RUSTFLAGS", codes "-g")
    ∷ (codes "RUSTFLAGS", codes "-O")
    ∷ (codes "HOME", codes "/h")
    ∷ []

abbrev allowlist : List Bytes
allowlist = codes "CARGO_*" ∷ codes "RUST*" ∷ []

filtered : filter_env process_env allowlist ≡ (codes "RUSTFLAGS", codes "-O") ∷ []
unfolding filter_env collect forwarded never_forward env_allowed pattern_matches strip_star
    starts_with strip_prefix bytes_eq insert
filtered = refl

local_from_env :
    from_lookup (λ k. lookup k ((codes "RBS_LOCAL", codes " Yes ") ∷ []))
    ≡ ok (record { mode = some local; remote_host = none; priority = none })
unfolding from_lookup parsed or_local non_empty is_truthy trim trim_start to_ascii_lowercase lookup
    bytes_eq parse_mode parse_priority
local_from_env = refl

lookup-filter_env_example : lookup (codes "RUSTFLAGS") (filter_env process_env allowlist) ≡ (
    if travels (codes "RUSTFLAGS") allowlist
    then last_value (codes "RUSTFLAGS") process_env
    else none)
lookup-filter_env_example = lookup-filter_env (codes "RUSTFLAGS") process_env allowlist

pattern_matches-star_example :
    (pattern_matches (codes "CARGO_NET") (codes "CARGO_" ++ codes "*") ≡ true)
    ↔ ((rest : Bytes) × (codes "CARGO_NET" ≡ codes "CARGO_" ++ rest))
pattern_matches-star_example = pattern_matches-star (codes "CARGO_NET") (codes "CARGO_")

abbrev user_layer : Table
user_layer =
    entry (codes "remote")
      (table (
        entry (codes "host") (leaf (codes "'a'"))
          (entry (codes "enabled") (leaf (codes "false")) empty)))
      empty

abbrev project_layer : Table
project_layer =
    entry (codes "remote") (table (entry (codes "host") (leaf (codes "'b'")) empty)) empty

project_layer-IsDistinct : IsDistinct project_layer
unfolding get IsDistinct
project_layer-IsDistinct = (refl, (refl, tt, tt), tt)

at-deep_merge_upper_example :
    at (codes "remote" ∷ codes "host" ∷ []) (deep_merge user_layer project_layer)
    ≡ some (codes "'b'")
unfolding at get bytes_eq
at-deep_merge_upper_example =
    at-deep_merge_upper (codes "remote" ∷ codes "host" ∷ []) user_layer project_layer (codes "'b'")
      project_layer-IsDistinct refl

at-deep_merge_lower_example :
    at (codes "remote" ∷ codes "enabled" ∷ []) (deep_merge user_layer project_layer)
    ≡ at (codes "remote" ∷ codes "enabled" ∷ []) user_layer
unfolding IsSilent get bytes_eq
at-deep_merge_lower_example =
    at-deep_merge_lower (codes "remote" ∷ codes "enabled" ∷ []) user_layer project_layer
      project_layer-IsDistinct tt
