-- ===== src/Store/Collect/Examples.antt =====
-- A collection of two objects and the copy that a touch has left.
use rust_build_server.Prelude.{ℕ, ◌≡◌, refl, false, List, [], ◌∷◌, Bytes, codes, pos, length}
use rust_build_server.Store.Planner.{RemoteObject, lfu, GcPlan}
use rust_build_server.Store.Collect.{
  Answer, deleted, not_found, failed, completed, stopped, pending, planned_keys, evicted_keys,
  keys_of, execute_plan,
}
use rust_build_server.Store.Collect.Ends.{Ends, planned_total, has_failure, execute_plan-Ends}

abbrev object : Bytes → RemoteObject
object key = record { key = key; size = 10; last_modified = pos 0 }

abbrev small_plan : GcPlan
small_plan = record {
  scanned = 4;
  total_bytes = 40;
  evictions =
      record {
        cache_key = codes "abc";
        crate_name = codes "serde";
        objects = object (codes "p") ∷ object (codes "m") ∷ [];
        hit_count = pos 0;
        last_accessed = pos 0;
        last_modified = pos 0;
        reason = lfu;
      }
      ∷ [];
  freed_bytes = 20;
  skipped_young = 0;
  junk = object (codes "t") ∷ [];
}

abbrev answers : List (ℕ × Answer)
answers = (1, deleted) ∷ (0, not_found) ∷ (5, deleted) ∷ []

completed_test :
    (execute_plan answers small_plan false).1 ≡ completed (codes "t" ∷ codes "p" ∷ codes "m" ∷ [])
unfolding execute_plan planned_keys evicted_keys keys_of
completed_test = refl

stopped_test :
    (execute_plan ((2, deleted) ∷ (1, failed) ∷ []) small_plan false).1
    ≡ stopped (codes "m") (codes "t" ∷ [])
unfolding execute_plan planned_keys evicted_keys keys_of
stopped_test = refl

pending_test :
    (execute_plan [] small_plan false).1 ≡ pending [] (codes "p" ∷ codes "m" ∷ codes "t" ∷ []) []
unfolding execute_plan planned_keys evicted_keys keys_of
pending_test = refl

execute_plan-Ends_example :
    Ends false
      (planned_total small_plan)
      (length answers)
      (has_failure answers)
      (execute_plan answers small_plan false).1
execute_plan-Ends_example = execute_plan-Ends answers small_plan false
