-- ===== src/Store/Planner/Outcome.antt =====
-- What `plan` of crates/rbs-store/src/planner.rs decides, for a listing whose sizes fit 64 bits.
use rust_build_server.Prelude.{
  ℕ, ◌+◌, ◌^◌, ◌≤◌, ◌<◌, ◌≡◌, refl, ap, sym, ◌∙◌, ◌⊎◌, inl, inr, true, false, not, List, [], ◌∷◌,
  ◌++◌, leb, leb_ℤ, ◌-ℤ◌, if◌then◌else◌, length, map, Bytes, keep_if, ℤ, arith, Bool-cases,
}
use mathlib.Core.Path.{subst}
use mathlib.Core.List.{append_assoc, append-nil}
use rust_build_server.Store.Planner.{
  RemoteObject, Eviction, Usage, GcParams, GcPlan, Listing, add_u64, classify, classify_one,
  ends_with, touch_tmp_suffix, group_all, candidate, sort, plan, evict,
}
use rust_build_server.Store.Planner.Evict.{bytes_in, Evicts, evict-Evicts, add_u64_small}
use rust_build_server.Store.Planner.Sums.{
  sizes, groups_bytes-group_all, bytes_in-candidates, bytes_in-sort,
}

-- The content of the store in a listing: what is not a copy that a touch has left.
abbrev pub content : List RemoteObject → List RemoteObject
content os = keep_if (λ o. not (ends_with o.key touch_tmp_suffix)) os

pub sizes-content : (os : List RemoteObject) → sizes (content os) ≤ sizes os
sizes-content [] = omega arith
sizes-content (o ∷ os) = elim (Bool-cases (ends_with o.key touch_tmp_suffix)) [
  | inl tmp ↦ rw tmp (omega (arith, sizes-content os))
  | inr kept ↦ rw kept (omega (arith, sizes-content os))
]

abbrev Classified : List RemoteObject → Listing → Listing → Type 0
Classified os l r =
    (r.total_bytes ≡ l.total_bytes + sizes (content os)) × (r.managed ≡ l.managed ++ content os)

one_tmp :
    (cutoff : ℤ) (o : RemoteObject) (l : Listing)
    → ends_with o.key touch_tmp_suffix ≡ true
    → ((classify_one cutoff o l).total_bytes ≡ l.total_bytes)
      × ((classify_one cutoff o l).managed ≡ l.managed)
unfolding classify_one
one_tmp cutoff o l tmp =
    rw tmp
      (elim (leb_ℤ o.last_modified cutoff)
        as (λ b.
          ((if b then record l { junk = l.junk ++ o ∷ [] } else l).total_bytes ≡ l.total_bytes)
          × ((if b then record l { junk = l.junk ++ o ∷ [] } else l).managed ≡ l.managed)) [
            | true ↦ (refl, refl)
            | false ↦ (refl, refl)
          ])

one_kept :
    (cutoff : ℤ) (o : RemoteObject) (l : Listing)
    → ends_with o.key touch_tmp_suffix ≡ false
    → classify_one cutoff o l
      ≡ record l { managed = l.managed ++ o ∷ []; total_bytes = add_u64 l.total_bytes o.size }
unfolding classify_one
one_kept cutoff o l kept = rw kept refl

classify-Classified :
    (cutoff : ℤ) (os : List RemoteObject) (l : Listing)
    → l.total_bytes + sizes os < 2 ^ 64
    → Classified os l (classify cutoff os l)
unfolding classify
classify-Classified cutoff [] l h = (omega arith, sym (append-nil l.managed))
classify-Classified cutoff (o ∷ os) l h = elim (Bool-cases (ends_with o.key touch_tmp_suffix)) [
  | inl tmp ↦
      let (same, all_same) = one_tmp cutoff o l tmp in
      let (total, managed) =
        classify-Classified cutoff os (classify_one cutoff o l) (omega (arith, h, same)) in
      rw tmp (omega (arith, total, same), managed ∙ ap (λ m. m ++ content os) all_same)
  | inr kept ↦
      let exact = add_u64_small l.total_bytes o.size (omega (arith, h)) in
      let one = one_kept cutoff o l kept in
      let bytes = ap (λ x. x.total_bytes) one ∙ exact in
      let (total, managed) =
        classify-Classified cutoff os (classify_one cutoff o l) (omega (arith, h, bytes)) in
      rw kept (
        omega (arith, total, bytes),
        managed
            ∙ ap (λ x. x.managed ++ content os) one
            ∙ append_assoc l.managed (o ∷ []) (content os),
      )
]

-- The plan before the eviction loop.
abbrev pub nothing_evicted : List RemoteObject → GcParams → GcPlan
nothing_evicted objects params =
    let l =
      classify (params.now -ℤ params.min_age) objects
        (record { junk = []; managed = []; total_bytes = 0 }) in
    record {
      scanned = length objects;
      total_bytes = l.total_bytes;
      evictions = [];
      freed_bytes = 0;
      skipped_young = 0;
      junk = l.junk;
    }

abbrev pub candidates_of : List RemoteObject → List (Bytes × Usage) → GcParams → List Eviction
candidates_of objects index params =
    sort (map (candidate params.now index) (group_all (content objects) []))

bytes_in-candidates_of :
    (objects : List RemoteObject) (index : List (Bytes × Usage)) (params : GcParams)
    → bytes_in (candidates_of objects index params) ≤ sizes (content objects)
bytes_in-candidates_of objects index params =
    let groups = group_all (content objects) [] in
    omega (
      arith,
      bytes_in-sort (map (candidate params.now index) groups),
      bytes_in-candidates params.now index groups,
      groups_bytes-group_all (content objects) [],
    )

abbrev pub Ranked : List RemoteObject → List (Bytes × Usage) → GcParams → GcPlan → Type 0
Ranked objects index params r =
    Evicts params.watermark_bytes (params.now -ℤ params.min_age) (sizes (content objects))
      (candidates_of objects index params) (nothing_evicted objects params) r

-- The loop as `plan` calls it, on the managed objects and their bytes.
abbrev evict_from :
    List RemoteObject → List (Bytes × Usage) → GcParams → ℕ → List RemoteObject → GcPlan
evict_from objects index params total managed =
    evict params.watermark_bytes (params.now -ℤ params.min_age) total
      (sort (map (candidate params.now index) (group_all managed [])))
      (nothing_evicted objects params)

abbrev pub Planned : List RemoteObject → List (Bytes × Usage) → GcParams → GcPlan → Type 0
Planned objects index params r =
    ((sizes (content objects) ≤ params.max_bytes) × (r ≡ nothing_evicted objects params))
    ⊎ ((params.max_bytes < sizes (content objects)) × Ranked objects index params r)

-- While the store's content is at most the cap, the plan evicts nothing. Above the cap it evicts the first
-- candidates, in the order of the ranking, of those that are not young: just as many as it takes for the
-- content that remains to be at most the watermark, or all of them; and the bytes that it reports as freed
-- are those of the evictions. The listed sizes together fit 64 bits.
pub plan-Planned :
    (objects : List RemoteObject) (index : List (Bytes × Usage)) (params : GcParams)
    → sizes objects < 2 ^ 64
    → Planned objects index params (plan objects index params)
unfolding plan
plan-Planned objects index params small =
    let l =
      classify (params.now -ℤ params.min_age) objects
        (record { junk = []; managed = []; total_bytes = 0 }) in
    let (total, managed) =
      classify-Classified (params.now -ℤ params.min_age) objects
        (record { junk = []; managed = []; total_bytes = 0 }) (omega (arith, small)) in
    let all_bytes : l.total_bytes ≡ sizes (content objects) = omega (arith, total) in
    elim (Bool-cases (leb l.total_bytes params.max_bytes)) [
      | inl under ↦ rw under (inl (ground (arith, total), refl))
      | inr over ↦ rw over (
          inr (
            ground (arith, total),
            subst
                (λ os.
                  Ranked objects index params (evict_from objects index params l.total_bytes os))
                (sym managed)
                (subst
                  (λ n.
                    Ranked objects index params
                      (evict_from objects index params n (content objects)))
                  (sym all_bytes)
                  (evict-Evicts params.watermark_bytes (params.now -ℤ params.min_age)
                    (candidates_of objects index params) (sizes (content objects))
                    (nothing_evicted objects params) (bytes_in-candidates_of objects index params)
                    (omega (arith, small, sizes-content objects)))),
          ))
    ]
