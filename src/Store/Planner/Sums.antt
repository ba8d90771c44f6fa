-- ===== src/Store/Planner/Sums.antt =====
-- The bytes of the candidates of `plan`, crates/rbs-store/src/planner.rs, are among the bytes that it lists.
use rust_build_server.Prelude.{
  ℕ, ◌+◌, ◌≤◌, ◌≡◌, refl, ap, inl, inr, List, [], ◌∷◌, ◌++◌, Option, none, some, map, Bytes,
  bytes_eq, lookup, insert, insert_new, insert_old, replace, place, bytes_ltb, ℤ, arith, Bool-cases,
  Option-cases,
}
use rust_build_server.Store.Planner.{
  RemoteObject, pack, manifest, ParsedKey, Eviction, Group, Usage, add_u64, bytes_of, group_objects,
  group_in, group_all, with_object, or_no_group, no_group, parse_object_key, key_without_prefix,
  candidate, insert_sorted, sort, before, option_to_list,
}
use rust_build_server.Store.Planner.Evict.{bytes_in}

abbrev pub sizes : List RemoteObject → ℕ
sizes [] = 0
sizes (o ∷ os) = o.size + sizes os

abbrev pub size_of : Option RemoteObject → ℕ
size_of none = 0
size_of (some o) = o.size

abbrev pub group_bytes : Group → ℕ
group_bytes g = size_of g.pack_object + size_of g.manifest_object

abbrev pub groups_bytes : List (Bytes × Group) → ℕ
groups_bytes [] = 0
groups_bytes ((k, g) ∷ m) = group_bytes g + groups_bytes m

groups_bytes-replace :
    (k : Bytes) (g old : Group) (m : List (Bytes × Group))
    → lookup k m ≡ some old
    → groups_bytes (replace k g m) + group_bytes old ≡ groups_bytes m + group_bytes g
unfolding lookup replace
groups_bytes-replace k g old [] e = absurd (ground arith)
groups_bytes-replace k g old ((k', g') ∷ m) e = elim (Bool-cases (bytes_eq k k')) [
  | inl same ↦ ground (arith, same, e)
  | inr other ↦ ground (arith, other, e, groups_bytes-replace k g old m (ground (arith, other, e)))
]

groups_bytes-place :
    (k : Bytes) (g : Group) (m : List (Bytes × Group))
    → groups_bytes (place k g m) ≡ groups_bytes m + group_bytes g
unfolding place
groups_bytes-place k g [] = omega arith
groups_bytes-place k g ((k', g') ∷ m) = elim (Bool-cases (bytes_ltb k k')) [
  | inl less ↦ rw less (omega arith)
  | inr more ↦ rw more (omega (arith, groups_bytes-place k g m))
]

group_bytes-with_object :
    (p : ParsedKey) (o : RemoteObject) (g : Group)
    → group_bytes (with_object p o g) ≤ group_bytes g + o.size
unfolding with_object
group_bytes-with_object p o g =
    elim p.kind
      as (λ k. group_bytes (with_object (record p { kind = k }) o g) ≤ group_bytes g + o.size) [
        | pack ↦ omega arith
        | manifest ↦ omega arith
      ]

groups_bytes-group_in :
    (o : RemoteObject) (m : List (Bytes × Group))
    → groups_bytes (group_in o m) ≤ groups_bytes m + o.size
unfolding group_in
groups_bytes-group_in o m = elim (Option-cases (parse_object_key [] (key_without_prefix o.key))) [
  | inl other ↦ ground (arith, other)
  | inr (p, parsed) ↦ elim (Option-cases (lookup p.cache_key m)) [
    | inl absent ↦
        let g = with_object p o no_group in
        ground (
          arith,
          parsed,
          ap (λ x. insert p.cache_key (with_object p o (or_no_group x)) m) absent,
          ap groups_bytes (insert_new p.cache_key g m absent),
          groups_bytes-place p.cache_key g m,
          group_bytes-with_object p o no_group,
        )
    | inr (old, there) ↦
        let g = with_object p o old in
        ground (
          arith,
          parsed,
          ap (λ x. insert p.cache_key (with_object p o (or_no_group x)) m) there,
          ap groups_bytes (insert_old p.cache_key g old m there),
          groups_bytes-replace p.cache_key g old m there,
          group_bytes-with_object p o old,
        )
  ]
]

pub groups_bytes-group_all :
    (os : List RemoteObject) (m : List (Bytes × Group))
    → groups_bytes (group_all os m) ≤ groups_bytes m + sizes os
unfolding group_all
groups_bytes-group_all [] m = omega arith
groups_bytes-group_all (o ∷ os) m =
    omega (arith, groups_bytes-group_all os (group_in o m), groups_bytes-group_in o m)

bytes_of-group_objects : (g : Group) → bytes_of (group_objects g) ≤ group_bytes g
unfolding bytes_of group_objects add_u64
bytes_of-group_objects g =
    elim g.pack_object
      as (λ p.
        bytes_of (option_to_list p ++ option_to_list g.manifest_object)
        ≤ size_of p + size_of g.manifest_object) [
          | none ↦ elim g.manifest_object as (λ m. bytes_of (option_to_list m) ≤ 0 + size_of m) [
            | none ↦ omega arith
            | some m ↦ omega arith
          ]
          | some p ↦
              elim g.manifest_object
                as (λ m. bytes_of (p ∷ option_to_list m) ≤ p.size + size_of m) [
                  | none ↦ omega arith
                  | some m ↦ omega arith
                ]
        ]

pub bytes_in-candidates :
    (now : ℤ) (index : List (Bytes × Usage)) (m : List (Bytes × Group))
    → bytes_in (map (candidate now index) m) ≤ groups_bytes m
unfolding candidate
bytes_in-candidates now index [] = omega arith
bytes_in-candidates now index ((k, g) ∷ m) =
    omega (arith, bytes_in-candidates now index m, bytes_of-group_objects g)

bytes_in-insert_sorted :
    (a : Eviction) (l : List Eviction)
    → bytes_in (insert_sorted a l) ≡ bytes_of a.objects + bytes_in l
unfolding insert_sorted
bytes_in-insert_sorted a [] = refl
bytes_in-insert_sorted a (b ∷ l) = elim (Bool-cases (before b a)) [
  | inl first ↦ rw first (omega (arith, bytes_in-insert_sorted a l))
  | inr last ↦ rw last refl
]

pub bytes_in-sort : (l : List Eviction) → bytes_in (sort l) ≡ bytes_in l
unfolding sort
bytes_in-sort [] = refl
bytes_in-sort (a ∷ l) = omega (arith, bytes_in-insert_sorted a (sort l), bytes_in-sort l)
