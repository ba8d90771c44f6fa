-- ===== src/Store/Collect/Ends.antt =====
-- How `execute_plan` of crates/rbs-store/src/gc.rs ends.
use rust_build_server.Prelude.{
  ℕ, ◌+◌, ◌≤◌, ◌<◌, ◌≡◌, refl, ◌∙◌, arith, Bool, true, false, List, [], ◌∷◌, ◌++◌, if◌then◌else◌,
  length, Bytes, bytes_eq, zero, suc,
}
use rust_build_server.Store.Planner.{RemoteObject, Eviction, GcPlan}
use rust_build_server.Store.Collect.{
  Answer, deleted, not_found, failed, Progress, untouched, completed, stopped, pending, keys_of,
  evicted_keys, planned_keys, answered, start_one, start, delete_all, execute_plan,
}

-- The sum of a weight over the keys.
unfoldable pub total : (Bytes → ℕ) → List Bytes → ℕ
total w [] = 0
total w (k ∷ ks) = w k + total w ks

abbrev pub hits : Bytes → Bytes → ℕ
hits key k = if bytes_eq key k then 1 else 0

unfoldable pub count : Bytes → List Bytes → ℕ
unfolding total
count key = total (hits key)

total-append : (w : Bytes → ℕ) (ks ls : List Bytes) → total w (ks ++ ls) ≡ total w ks + total w ls
unfolding total
total-append w [] ls = omega arith
total-append w (k ∷ ks) ls = omega (arith, total-append w ks ls)

total-length : (ks : List Bytes) → total (λ _. 1) ks ≡ length ks
unfolding total
total-length [] = refl
total-length (k ∷ ks) = omega (arith, total-length ks)

total-answered :
    (w : Bytes → ℕ) (n : ℕ) (k : Bytes) (ks : List Bytes)
    → w (answered n k ks).0 + total w (answered n k ks).1 ≡ w k + total w ks
unfolding answered total
total-answered w n k [] = refl
total-answered w zero k (l ∷ ks) = refl
total-answered w (suc n) k (l ∷ ks) = omega (arith, total-answered w n l ks)

abbrev outstanding : (Bytes → ℕ) → List Bytes × List Bytes → ℕ
outstanding w s = total w s.0 + total w s.1

outstanding-start_one :
    (w : Bytes → ℕ) (s : List Bytes × List Bytes) → outstanding w (start_one s) ≡ outstanding w s
unfolding start_one total
outstanding-start_one w (f, []) = refl
outstanding-start_one w (f, k ∷ ks) = omega (arith, total-append w f (k ∷ []))

outstanding-start :
    (w : Bytes → ℕ) (n : ℕ) (ks : List Bytes) → outstanding w (start n ks) ≡ total w ks
unfolding start total
outstanding-start w zero ks = omega arith
outstanding-start w (suc n) ks = outstanding-start_one w (start n ks) ∙ outstanding-start w n ks

-- No key waits while none is in flight.
abbrev IsFed : List Bytes × List Bytes → Type 0
IsFed s = length s.0 ≡ 0 → length s.1 ≡ 0

start_one-IsFed : (s : List Bytes × List Bytes) → IsFed (start_one s)
unfolding start_one
start_one-IsFed (f, []) = λ _. refl
start_one-IsFed ([], k ∷ ks) = λ e. omega (arith, e)
start_one-IsFed (j ∷ f, k ∷ ks) = λ e. omega (arith, e)

unfoldable pub has_failure : List (ℕ × Answer) → Bool
has_failure [] = false
has_failure ((n, deleted) ∷ turns) = has_failure turns
has_failure ((n, not_found) ∷ turns) = has_failure turns
has_failure ((n, failed) ∷ turns) = true

-- What a plan has, each object with the weight of its key: the objects of its evictions, and its junk.
objects_total : (Bytes → ℕ) → List RemoteObject → ℕ
objects_total w [] = 0
objects_total w (o ∷ os) = w o.key + objects_total w os

evictions_total : (Bytes → ℕ) → List Eviction → ℕ
evictions_total w [] = 0
evictions_total w (e ∷ es) = objects_total w e.objects + evictions_total w es

pub planned_total : GcPlan → (Bytes → ℕ) → ℕ
unfolding objects_total evictions_total
planned_total p w = evictions_total w p.evictions + objects_total w p.junk

-- How the deletions stand after `turns` answers, of which one may be a failure, where `planned` is the
-- weight of what is planned.
unfoldable pub Ends :
    (dry_run : Bool) (planned : (Bytes → ℕ) → ℕ) (turns : ℕ) (failure : Bool) → Progress → Type 0
unfolding count
Ends dry_run planned turns failure untouched = dry_run ≡ true
Ends dry_run planned turns failure (completed gone) =
    (dry_run ≡ false) × ((k : Bytes) → count k gone ≡ planned (hits k))
Ends dry_run planned turns failure (stopped key gone) =
    (dry_run ≡ false) × ((failure ≡ true) × ((k : Bytes) → count k (key ∷ gone) ≤ planned (hits k)))
Ends dry_run planned turns failure (pending gone in_flight waiting) =
    (dry_run ≡ false)
    × (((k : Bytes) → count k gone + (count k in_flight + count k waiting) ≡ planned (hits k))
        × (turns < planned (λ _. 1)))

total_none : (w : Bytes → ℕ) (ks : List Bytes) → length ks ≡ 0 → total w ks ≡ 0
unfolding total
total_none w [] e = refl
total_none w (k ∷ ks) e = omega (arith, e)

-- What is gone, in flight and waiting makes up what is planned.
abbrev IsPart : (planned : (Bytes → ℕ) → ℕ) (gone : List Bytes) → List Bytes × List Bytes → Type 0
IsPart planned gone s = (w : Bytes → ℕ) → total w gone + outstanding w s ≡ planned w

answered-IsPart :
    (planned : (Bytes → ℕ) → ℕ) (gone : List Bytes) (n : ℕ) (k : Bytes) (ks waiting : List Bytes)
    → IsPart planned gone (k ∷ ks, waiting)
    → IsPart planned ((answered n k ks).0 ∷ gone) (start_one ((answered n k ks).1, waiting))
unfolding total
answered-IsPart planned gone n k ks waiting all w =
    omega (
      arith,
      all w,
      total-answered w n k ks,
      outstanding-start_one w ((answered n k ks).1, waiting),
    )

delete_all-Ends :
    (planned : (Bytes → ℕ) → ℕ) (m : ℕ) (turns : List (ℕ × Answer)) (gone : List Bytes)
    (s : List Bytes × List Bytes)
    → IsPart planned gone s
    → IsFed s
    → m ≡ length gone + length turns
    → Ends false planned m (has_failure turns) (delete_all turns gone s)
unfolding delete_all Ends has_failure count total
delete_all-Ends planned m turns gone ([], waiting) all fed sum =
    (refl, λ k. omega (arith, all (hits k), total_none (hits k) waiting (fed refl)))
delete_all-Ends planned m [] gone (k ∷ ks, waiting) all fed sum =
    (refl, (λ j. all (hits j), omega (arith, sum, all (λ _. 1), total-length gone)))
delete_all-Ends planned m ((n, deleted) ∷ turns) gone (k ∷ ks, waiting) all fed sum =
    delete_all-Ends planned m turns _ _ (answered-IsPart planned gone n k ks waiting all)
      (start_one-IsFed ((answered n k ks).1, waiting)) (omega (arith, sum))
delete_all-Ends planned m ((n, not_found) ∷ turns) gone (k ∷ ks, waiting) all fed sum =
    delete_all-Ends planned m turns _ _ (answered-IsPart planned gone n k ks waiting all)
      (start_one-IsFed ((answered n k ks).1, waiting)) (omega (arith, sum))
delete_all-Ends planned m ((n, failed) ∷ turns) gone (k ∷ ks, waiting) all fed sum =
    (refl, (refl, λ j. omega (arith, all (hits j), total-answered (hits j) n k ks)))

start-IsFed : (n : ℕ) (keys : List Bytes) → IsFed (start (suc n) keys)
unfolding start
start-IsFed n keys = start_one-IsFed (start n keys)

total-keys_of : (w : Bytes → ℕ) (os : List RemoteObject) → total w (keys_of os) ≡ objects_total w os
unfolding total keys_of objects_total
total-keys_of w [] = refl
total-keys_of w (o ∷ os) = omega (arith, total-keys_of w os)

total-evicted_keys :
    (w : Bytes → ℕ) (es : List Eviction) → total w (evicted_keys es) ≡ evictions_total w es
unfolding total evicted_keys evictions_total
total-evicted_keys w [] = refl
total-evicted_keys w (e ∷ es) = omega (
  arith,
  total-append w (keys_of e.objects) (evicted_keys es),
  total-keys_of w e.objects,
  total-evicted_keys w es,
)

total-planned_keys : (w : Bytes → ℕ) (p : GcPlan) → total w (planned_keys p) ≡ planned_total p w
unfolding planned_keys planned_total
total-planned_keys w p = omega (
  arith,
  total-append w (evicted_keys p.evictions) (keys_of p.junk),
  total-evicted_keys w p.evictions,
  total-keys_of w p.junk,
)

-- A dry run asks for no deletion. Every other run, in whatever order the store answers its requests, if it
-- completes, has deleted or found missing each object of the plan's evictions and of its junk, as often as
-- the plan has it, and nothing else; if it stops, then at a failure, and the keys that were answered are
-- planned; and if it is pending, it has had fewer answers than there are planned objects, so that it ends.
pub execute_plan-Ends :
    (turns : List (ℕ × Answer)) (p : GcPlan) (dry_run : Bool)
    → Ends dry_run
        (planned_total p)
        (length turns)
        (has_failure turns)
        (execute_plan turns p dry_run).1
unfolding execute_plan Ends
execute_plan-Ends turns p true = refl
execute_plan-Ends turns p false =
    delete_all-Ends (planned_total p) (length turns) turns [] _
      (λ w. omega (arith, outstanding-start w 16 (planned_keys p), total-planned_keys w p))
      (start-IsFed 15 (planned_keys p)) (omega arith)
