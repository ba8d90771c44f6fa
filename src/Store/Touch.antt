-- ===== src/Store/Touch.antt =====
-- crates/rbs-store/src/touch.rs: which objects of the store a touch rewrites, and how. Each of the three
-- requests of a touch is a step, so that the steps of touches in flight can come in any order; the limit on
-- their number is left out, which allows more orders. A time is its number of nanoseconds from the epoch.
pub mod Keeps
mod Examples
use Prim.Native.Nat.{bit_xor}
use rust_build_server.Prelude.{
  ℕ, zero, suc, ◌+◌, ◌-◌, ◌*◌, ◌%◌, ◌^◌, Bool, true, false, not, List, [], ◌∷◌, ◌++◌, map, Option,
  none, some, ltb, ◌==◌, if◌then◌else◌, Bytes, codes, bytes_eq, bytes_ltb, ℤ, leb_ℤ,
}
use rust_build_server.Store.Planner.{RemoteObject, touch_tmp_suffix, ends_with}

-- `crate_name.replace('-', "_")`
unfoldable pub normalized : Bytes → Bytes
normalized [] = []
normalized (c ∷ cs) = (if c == b'-' then b'_' else c) ∷ normalized cs

unfoldable pub base_of : (store_prefix : Option Bytes) → Bytes
base_of none = []
base_of (some p) = p ++ codes "/"

unfoldable pub variants : (crate_name : Bytes) → List Bytes
unfolding normalized
variants crate_name =
    if bytes_eq (normalized crate_name) crate_name
    then crate_name ∷ []
    else crate_name ∷ normalized crate_name ∷ []

unfoldable pub prefixes_of : (base : Bytes) → List Bytes → List Bytes
prefixes_of base [] = []
prefixes_of base (v ∷ vs) =
    (base ++ codes "v3/manifests/" ++ v) ∷ (base ++ codes "v3/packs/" ++ v) ∷ prefixes_of base vs

unfoldable pub crate_prefixes : (store_prefix : Option Bytes) → (crate_name : Bytes) → List Bytes
unfolding base_of variants prefixes_of
crate_prefixes store_prefix crate_name = prefixes_of (base_of store_prefix) (variants crate_name)

-- FNV-1a, from a hash.
unfoldable pub fnv1a64_from : ℕ → Bytes → ℕ
fnv1a64_from hash [] = hash
fnv1a64_from hash (b ∷ bs) = fnv1a64_from (bit_xor hash b * 1099511628211 % 2 ^ 64) bs

unfoldable pub fnv1a64 : Bytes → ℕ
unfolding fnv1a64_from
fnv1a64 bytes = fnv1a64_from 14695981039346656037 bytes

-- With the stamp's time, if there is a stamp.
unfoldable pub stamp_is_fresh : (mtime now max_age : ℕ) → Bool
stamp_is_fresh mtime now max_age = if ltb now mtime then true else ltb (now - mtime) max_age

unfoldable pub stamp_fresh_on_disk : (mtime : Option ℕ) → (now max_age : ℕ) → Bool
unfolding stamp_is_fresh
stamp_fresh_on_disk none now max_age = false
stamp_fresh_on_disk (some mtime) now max_age = stamp_is_fresh mtime now max_age

pub record TouchPlan : Type 0 where
  pub touch : List Bytes
  pub skipped_fresh : ℕ

unfoldable pub insert_key : Bytes → List Bytes → List Bytes
insert_key a [] = a ∷ []
insert_key a (b ∷ bs) = let rest = insert_key a bs in if bytes_ltb b a then b ∷ rest else a ∷ b ∷ bs

unfoldable pub sort_keys : List Bytes → List Bytes
unfolding insert_key
sort_keys [] = []
sort_keys (a ∷ rest) = insert_key a (sort_keys rest)

-- The loop of `plan_touch`; the keys are those before the sort. The count is a `u64`.
unfoldable pub pick : (cutoff : ℤ) → List RemoteObject → TouchPlan
pick cutoff [] = record { touch = []; skipped_fresh = 0 }
pick cutoff (o ∷ objects) =
    let rest = pick cutoff objects in
    if ends_with o.key touch_tmp_suffix
    then rest
    else if leb_ℤ o.last_modified cutoff
    then record rest { touch = o.key ∷ rest.touch }
    else record rest { skipped_fresh = (rest.skipped_fresh + 1) % 2 ^ 64 }

unfoldable pub plan_touch : List RemoteObject → (cutoff : ℤ) → TouchPlan
unfolding pick sort_keys
plan_touch objects cutoff =
    let plan = pick cutoff objects in record plan { touch = sort_keys plan.touch }

-- What is seen of a copy.
pub data Copied : Type 0 where
  copied not_found copy_failed : Copied

-- `TouchStore`, over the states of what is behind it. What `delete` answers is only logged.
pub record TouchStore (S : Type 0) : Type 0 where
  pub copy : S → (from to : Bytes) → Copied × S
  pub delete : S → (key : Bytes) → S

pub data TouchOutcome : Type 0 where
  touched gone touch_failed : TouchOutcome

unfoldable pub outcome_of : Copied → TouchOutcome
outcome_of copied = touched
outcome_of not_found = gone
outcome_of copy_failed = touch_failed

-- Where a touch is: before its first request, its second or its third, with what the second gave; or done.
pub data Stage : Type 0 where
  planned copied_out : Stage
  copied_back : Copied → Stage
  finished : TouchOutcome → Stage

abbrev pub tmp : Bytes → Bytes
tmp key = key ++ touch_tmp_suffix

unfoldable pub after_copy_out : Copied → Stage
after_copy_out copied = copied_out
after_copy_out not_found = finished gone
after_copy_out copy_failed = finished touch_failed

abbrev pub Touch : Type 0
Touch = Bytes × Stage

module _ {S : Type 0} (store : TouchStore S) where
  -- `touch_one`, one request at a time.
  unfoldable pub touch_step : (key : Bytes) → Stage → S → Stage × S
  unfolding outcome_of after_copy_out
  touch_step key planned s = let r = store.copy s key (tmp key) in (after_copy_out r.0, r.1)
  touch_step key copied_out s = let r = store.copy s (tmp key) key in (copied_back r.0, r.1)
  touch_step key (copied_back r) s = (finished (outcome_of r), store.delete s (tmp key))
  touch_step key (finished o) s = (finished o, s)

  -- The next request of the touch at a place in the list.
  unfoldable pub advance : (place : ℕ) → List Touch → S → List Touch × S
  unfolding touch_step
  advance place [] s = ([], s)
  advance zero ((key, stage) ∷ touches) s =
      let r = touch_step key stage s in ((key, r.0) ∷ touches, r.1)
  advance (suc place) (t ∷ touches) s = let r = advance place touches s in (t ∷ r.0, r.1)

  -- `execute_touch`, for an order of the requests: the places of the touches that make them.
  unfoldable pub run_touches : (order : List ℕ) → List Touch → S → List Touch × S
  unfolding advance
  run_touches [] touches s = (touches, s)
  run_touches (place ∷ order) touches s =
      let r = advance place touches s in run_touches order r.0 r.1

unfoldable pub start_all : List Bytes → List Touch
start_all keys = map (λ key. (key, planned)) keys

unfoldable pub execute_touch :
    {S : Type 0} → TouchStore S → (order : List ℕ) → List Bytes → S → List Touch × S
unfolding run_touches start_all
execute_touch store order keys s = run_touches store order (start_all keys) s

-- How many touches have an outcome.
unfoldable pub count_touched : List Touch → ℕ
count_touched [] = 0
count_touched ((key, finished touched) ∷ touches) = 1 + count_touched touches
count_touched (t ∷ touches) = count_touched touches

unfoldable pub count_failed : List Touch → ℕ
count_failed [] = 0
count_failed ((key, finished touch_failed) ∷ touches) = 1 + count_failed touches
count_failed (t ∷ touches) = count_failed touches
