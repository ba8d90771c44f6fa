-- ===== src/Store/Collect.antt =====
-- `execute_plan` of crates/rbs-store/src/gc.rs, with at most 16 deletions in flight. A turn says which
-- of the requests in flight the store answers next, and how.
pub mod Ends
mod Examples
use rust_build_server.Prelude.{ℕ, Bool, true, false, List, [], ◌∷◌, ◌++◌, length, Bytes, zero, suc}
use rust_build_server.Store.Planner.{RemoteObject, Eviction, GcPlan, add_u64}

pub record GcReport : Type 0 where
  pub scanned : ℕ
  pub total_bytes : ℕ
  pub evicted : ℕ
  pub freed_bytes : ℕ
  pub skipped_young : ℕ
  pub junk_deleted : ℕ

unfoldable pub evicted_of : List Eviction → ℕ
evicted_of [] = 0
evicted_of (e ∷ es) = add_u64 (length e.objects) (evicted_of es)

unfoldable pub report_of : GcPlan → GcReport
report_of p = record {
  scanned = p.scanned;
  total_bytes = p.total_bytes;
  evicted = evicted_of p.evictions;
  freed_bytes = p.freed_bytes;
  skipped_young = p.skipped_young;
  junk_deleted = length p.junk;
}

unfoldable pub keys_of : List RemoteObject → List Bytes
keys_of [] = []
keys_of (o ∷ os) = o.key ∷ keys_of os

unfoldable pub evicted_keys : List Eviction → List Bytes
evicted_keys [] = []
evicted_keys (e ∷ es) = keys_of e.objects ++ evicted_keys es

unfoldable pub planned_keys : GcPlan → List Bytes
planned_keys p = evicted_keys p.evictions ++ keys_of p.junk

pub data Answer : Type 0 where
  deleted not_found failed : Answer

-- How far the deletions came: `gone` are the keys that are deleted or were not there. A failure drops
-- the requests in flight, and a pending run waits for an answer.
pub data Progress : Type 0 where
  untouched : Progress
  completed : (gone : List Bytes) → Progress
  stopped : (key : Bytes) (gone : List Bytes) → Progress
  pending : (gone in_flight waiting : List Bytes) → Progress

-- The request that is answered, with the others; beyond the last, the last.
unfoldable pub answered : ℕ → Bytes → List Bytes → Bytes × List Bytes
answered n key [] = (key, [])
answered zero key (k ∷ ks) = (key, k ∷ ks)
answered (suc n) key (k ∷ ks) = let r = answered n k ks in (r.0, key ∷ r.1)

-- `buffer_unordered` takes up a key when it has room.
unfoldable pub start_one : List Bytes × List Bytes → List Bytes × List Bytes
start_one (in_flight, []) = (in_flight, [])
start_one (in_flight, k ∷ waiting) = (in_flight ++ k ∷ [], waiting)

unfoldable pub start : ℕ → List Bytes → List Bytes × List Bytes
unfolding start_one
start zero keys = ([], keys)
start (suc n) keys = start_one (start n keys)

abbrev pub delete_concurrency : ℕ
delete_concurrency = 16

unfoldable pub delete_all :
    List (ℕ × Answer) → (gone : List Bytes) → List Bytes × List Bytes → Progress
unfolding answered start_one
delete_all turns gone ([], waiting) = completed gone
delete_all [] gone (k ∷ ks, waiting) = pending gone (k ∷ ks) waiting
delete_all ((n, answer) ∷ turns) gone (k ∷ ks, waiting) =
    let r = answered n k ks in
    let rest = delete_all turns (r.0 ∷ gone) (start_one (r.1, waiting)) in
    elim answer [ deleted ↦ rest | not_found ↦ rest | failed ↦ stopped r.0 gone ]

unfoldable pub execute_plan : List (ℕ × Answer) → GcPlan → (dry_run : Bool) → GcReport × Progress
unfolding delete_all start
execute_plan turns p true = (report_of p, untouched)
execute_plan turns p false =
    (report_of p, delete_all turns [] (start delete_concurrency (planned_keys p)))
