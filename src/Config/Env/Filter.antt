-- ===== src/Config/Env/Filter.antt =====
-- What `filter_env` of crates/rbs-config/src/env.rs lets through.
use rust_build_server.Prelude.{
  any, Bool, not, ◌&&◌, ◌||◌, codes, ◌≡◌, refl, ap, ◌∙◌, true, inl, inr, List, [], ◌∷◌, ◌++◌,
  Option, none, some, Bytes, bytes_eq, bytes_eq_sound, ◌↔◌, strip_prefix, strip_prefix-append,
  strip_prefix_sound, if◌then◌else◌, insert, lookup, lookup-insert, arith, Bool-cases, Option-cases,
}
use rust_build_server.Config.Env.{
  never_forward, env_allowed, strip_star, starts_with, pattern_matches, forwarded, collect,
  filter_env,
}

-- The last value that a name has in a process environment.
abbrev pub last_value : Bytes → List (Bytes × Bytes) → Option Bytes
last_value name [] = none
last_value name ((k, v) ∷ vars) = elim (last_value name vars) [
  | some w ↦ some w
  | none ↦ if bytes_eq name k then some v else none
]

abbrev pub or_previous : Option Bytes → Option Bytes → Option Bytes
or_previous (some v) old = some v
or_previous none old = old

lookup-collect :
    (name : Bytes) (vars : List (Bytes × Bytes)) (allowlist : List Bytes)
    (env : List (Bytes × Bytes))
    → lookup name (collect vars allowlist env) ≡ (
        if forwarded name allowlist
        then or_previous (last_value name vars) (lookup name env)
        else lookup name env)
unfolding collect
lookup-collect name [] allowlist env = ground arith
lookup-collect name ((k, v) ∷ vars) allowlist env = elim (Bool-cases (bytes_eq name k)) [
  | inl h ↦
      let same : forwarded name allowlist ≡ forwarded k allowlist =
        ap (λ n. forwarded n allowlist) (bytes_eq_sound name k h) in
      elim (Bool-cases (forwarded k allowlist)) [
        | inl f ↦ ground (
          arith,
          h,
          f,
          same,
          lookup-collect name vars allowlist (insert k v env),
          lookup-insert name k v env,
        )
        | inr f ↦ ground (arith, h, f, same, lookup-collect name vars allowlist env)
      ]
  | inr h ↦ elim (Bool-cases (forwarded k allowlist)) [
    | inl f ↦ ground (
      arith,
      h,
      f,
      lookup-collect name vars allowlist (insert k v env),
      lookup-insert name k v env,
    )
    | inr f ↦ ground (arith, h, f, lookup-collect name vars allowlist env)
  ]
]

-- The names that a job may see: those that a pattern admits, but for four that describe the client's host.
abbrev pub travels : Bytes → List Bytes → Bool
travels name allowlist =
    not (
      bytes_eq name (codes "RUSTUP_HOME")
      || bytes_eq name (codes "CARGO_HOME")
      || bytes_eq name (codes "RUSTUP_TOOLCHAIN")
      || bytes_eq name (codes "CARGO_TARGET_DIR"))
    && any (pattern_matches name) allowlist

travels-forwarded :
    (name : Bytes) (allowlist : List Bytes) → forwarded name allowlist ≡ travels name allowlist
unfolding forwarded never_forward env_allowed
travels-forwarded name allowlist = ground arith

-- A variable travels with a job, with its last value, exactly if some pattern of the allowlist admits it
-- and it is none of the four that describe the client's host.
pub lookup-filter_env :
    (name : Bytes) (vars : List (Bytes × Bytes)) (allowlist : List Bytes)
    → lookup name (filter_env vars allowlist)
      ≡ (if travels name allowlist then last_value name vars else none)
unfolding filter_env lookup
lookup-filter_env name vars allowlist = elim (Option-cases (last_value name vars)) [
  | inl e ↦
      ground (arith, e, lookup-collect name vars allowlist [], travels-forwarded name allowlist)
  | inr (w, e) ↦
      ground (arith, e, lookup-collect name vars allowlist [], travels-forwarded name allowlist)
]

strip_star_sound : (pat prefix : Bytes) → strip_star pat ≡ some prefix → pat ≡ prefix ++ b'*' ∷ []
unfolding strip_star
strip_star_sound [] prefix h = cc
strip_star_sound (c ∷ []) prefix h = ground arith
strip_star_sound (c ∷ d ∷ cs) prefix h = elim (Option-cases (strip_star (d ∷ cs))) [
  | inl e ↦ absurd (ground (arith, e))
  | inr (p, e) ↦ ground (arith, e, strip_star_sound (d ∷ cs) p e)
]

strip_star-append : (prefix : Bytes) → strip_star (prefix ++ b'*' ∷ []) ≡ some prefix
unfolding strip_star
strip_star-append [] = refl
strip_star-append (c ∷ []) = refl
strip_star-append (c ∷ d ∷ cs) = ground (arith, strip_star-append (d ∷ cs))

-- A pattern that ends in a star admits the names that begin with what stands before the star, and no other.
pub pattern_matches-star :
    (name prefix : Bytes)
    → (pattern_matches name (prefix ++ b'*' ∷ []) ≡ true)
      ↔ ((rest : Bytes) × (name ≡ prefix ++ rest))
unfolding pattern_matches starts_with
pattern_matches-star name prefix = (
  λ h. elim (Option-cases (strip_prefix prefix name)) [
    | inl e ↦ absurd (ground (arith, e, h, strip_star-append prefix))
    | inr (rest, e) ↦ (rest, strip_prefix_sound prefix name rest e)
  ],
  λ (rest, e). ground (
    arith,
    strip_star-append prefix,
    e,
    ap (strip_prefix prefix) e ∙ strip_prefix-append prefix rest,
  ),
)
