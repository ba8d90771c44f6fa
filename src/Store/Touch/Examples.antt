-- ===== src/Store/Touch/Examples.antt =====
-- A store with a stale object and a left-over intermediate, which refuses to copy back.
use rust_build_server.Prelude.{
  ◌≡◌, refl, arith, Bool, true, false, not, List, [], ◌∷◌, Option, none, some, Bytes, bytes_eq,
  bytes_eq_refl, strip_prefix, codes, pos, if◌then◌else◌, ◌⊎◌, inl, inr,
}
use rust_build_server.Store.Planner.{RemoteObject, ends_with, strip_suffix, touch_tmp_suffix}
use rust_build_server.Store.Touch.{
  Copied, copied, not_found, copy_failed, TouchStore, plan_touch, execute_touch, fnv1a64,
  crate_prefixes,
}
use rust_build_server.Store.Touch.Keeps.{IsStore, execute_touch-content}

abbrev Objects : Type 0
Objects = Bytes → Option Bytes

abbrev put : Bytes → Option Bytes → Objects → Objects
put key o objects k = if bytes_eq k key then o else objects k

abbrev copied_by : (refuses : Bool) → Option Bytes → (to : Bytes) → Objects → Copied × Objects
copied_by true o to objects = (copy_failed, objects)
copied_by false none to objects = (not_found, objects)
copied_by false (some b) to objects = (copied, put to (some b) objects)

-- Only copies to an intermediate are carried out.
abbrev store : TouchStore Objects
store = record {
  copy = λ s from to. copied_by (not (ends_with to touch_tmp_suffix)) (s from) to s;
  delete = λ s key. put key none s;
}

copied_by-elsewhere :
    (refuses : Bool) (o : Option Bytes) (to : Bytes) (s : Objects) (k : Bytes)
    → bytes_eq k to ≡ false
    → (copied_by refuses o to s).1 k ≡ s k
copied_by-elsewhere true o to s k h = refl
copied_by-elsewhere false none to s k h = refl
copied_by-elsewhere false (some b) to s k h = rw h refl

copied_by-there :
    (refuses : Bool) (o : Option Bytes) (to : Bytes) (s : Objects)
    → ((copied_by refuses o to s).1 to ≡ s to)
      ⊎ ((b : Bytes) × (o ≡ some b) × ((copied_by refuses o to s).1 to ≡ some b))
copied_by-there true o to s = inl refl
copied_by-there false none to s = inl refl
copied_by-there false (some b) to s = inr (b, refl, rw (bytes_eq_refl to) refl)

copied_by-done :
    (refuses : Bool) (o : Option Bytes) (to : Bytes) (s : Objects)
    → (copied_by refuses o to s).0 ≡ copied
    → (b : Bytes) × (o ≡ some b) × ((copied_by refuses o to s).1 to ≡ some b)
copied_by-done true o to s e = absurd (ground (arith, e))
copied_by-done false none to s e = absurd (ground (arith, e))
copied_by-done false (some b) to s e = (b, refl, rw (bytes_eq_refl to) refl)

store-IsStore : IsStore (λ s. s) store
store-IsStore = record {
  copy_elsewhere =
      λ s from to k h. copied_by-elsewhere (not (ends_with to touch_tmp_suffix)) (s from) to s k h;
  copy_there = λ s from to. copied_by-there (not (ends_with to touch_tmp_suffix)) (s from) to s;
  copy_done = λ s from to e. copied_by-done (not (ends_with to touch_tmp_suffix)) (s from) to s e;
  delete_elsewhere = λ s key k h. rw h refl;
  delete_there = λ s key. inr (rw (bytes_eq_refl key) refl);
}

abbrev listed : List RemoteObject
listed =
    record { key = codes "v3/packs/a"; size = 1; last_modified = pos 5 }
    ∷ record { key = codes "v3/packs/a.touch-tmp"; size = 1; last_modified = pos 5 }
    ∷ []

abbrev objects : Objects
objects =
    put (codes "v3/packs/a") (some (codes "new"))
      (put (codes "v3/packs/a.touch-tmp") (some (codes "old")) (λ k. none))

a-IsKey : ends_with (codes "v3/packs/a") touch_tmp_suffix ≡ false
unfolding ends_with strip_suffix strip_prefix
a-IsKey = refl

execute_touch-content_example :
    (execute_touch store (0 ∷ 0 ∷ 0 ∷ []) (plan_touch listed (pos 6)).touch objects).1
      (codes "v3/packs/a")
    ≡ objects (codes "v3/packs/a")
execute_touch-content_example =
    execute_touch-content (λ s. s) store store-IsStore listed (pos 6) (0 ∷ 0 ∷ 0 ∷ []) objects
      (codes "v3/packs/a") a-IsKey

-- The intermediate is gone at the end.
intermediate_gone :
    (execute_touch store (0 ∷ 0 ∷ 0 ∷ []) (plan_touch listed (pos 6)).touch objects).1
      (codes "v3/packs/a.touch-tmp")
    ≡ none
unfolding execute_touch plan_touch ends_with strip_suffix strip_prefix bytes_eq
intermediate_gone = refl

-- The published hash of `a`.
fnv1a64-a : fnv1a64 (codes "a") ≡ 12638187200555641996
unfolding fnv1a64
fnv1a64-a = refl

both_spellings :
    crate_prefixes (some (codes "artifacts")) (codes "a-b")
    ≡ codes "artifacts/v3/manifests/a-b"
      ∷ codes "artifacts/v3/packs/a-b"
      ∷ codes "artifacts/v3/manifests/a_b"
      ∷ codes "artifacts/v3/packs/a_b"
      ∷ []
unfolding crate_prefixes bytes_eq
both_spellings = refl
