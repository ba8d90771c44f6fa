-- ===== src/Sync.antt =====
-- crates/rbs-sync/src/plan.rs: the command line of rsync for a workspace.
pub mod Filters
mod Examples
use rust_build_server.Prelude.{
  ℕ, Bool, true, false, List, [], ◌∷◌, ◌++◌, ltb, ◌==◌, if◌then◌else◌, length, Bytes, codes,
}
use rust_build_server.Config
use mathlib.Core.List.{reverse}

pub record RsyncPlan : Type 0 where
  pub rsync_path : Bytes
  pub root : Bytes
  pub host : Bytes
  pub excludes : List Bytes
  pub force_include : List Bytes

-- `RsyncPlan::new`
unfoldable pub plan_of : Config.Sync → (root host : Bytes) → RsyncPlan
plan_of cfg root host = record {
  rsync_path = cfg.rsync_path;
  root = root;
  host = host;
  excludes = cfg.extra_excludes;
  force_include = cfg.force_include;
}

unfoldable pub drop_slashes : Bytes → Bytes
drop_slashes [] = []
drop_slashes (c ∷ cs) = let rest = drop_slashes cs in if c == b'/' then rest else c ∷ cs

-- `trim_end_matches('/')`, of a root that is more than one byte.
unfoldable pub root_no_slash : RsyncPlan → Bytes
unfolding drop_slashes
root_no_slash p = if ltb 1 (length p.root) then reverse (drop_slashes (reverse p.root)) else p.root

unfoldable pub source : RsyncPlan → Bytes
unfolding root_no_slash
source p = root_no_slash p ++ codes "/"

unfoldable pub destination : RsyncPlan → Bytes
unfolding root_no_slash
destination p = p.host ++ codes ":" ++ root_no_slash p ++ codes "/"

unfoldable pub with_option : (option : Bytes) → List Bytes → List Bytes
with_option option [] = []
with_option option (pattern ∷ patterns) = (option ++ pattern) ∷ with_option option patterns

unfoldable pub argv : RsyncPlan → List Bytes
unfolding with_option source destination
argv p =
    p.rsync_path
    ∷ codes "-a"
    ∷ codes "--delete"
    ∷ codes "--mkpath"
    ∷ (with_option (codes "--include=") p.force_include
        ++ (codes "--filter=:- .gitignore"
            ∷ codes "--exclude=.git/"
            ∷ codes "--exclude=target/"
            ∷ (with_option (codes "--exclude=") p.excludes ++ source p ∷ destination p ∷ [])))
