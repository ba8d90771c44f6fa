-- ===== src/Prelude/Maps.antt =====
-- `BTreeMap` with texts as keys: the list of its entries in the order of the keys.
use mathlib.Core.Path.{◌∙◌, ◌≡◌, refl, ap}
use mathlib.Core.Bool.{Bool, true, false, ◌||◌, ◌&&◌}
use mathlib.Core.List.{List, [], ◌∷◌}
use mathlib.Core.Option.{Option, none, some}
use mathlib.Core.Logic.{inl, inr}
use native.Mathlib.Omega.{arith}
use rust_build_server.Prelude.Tests.{ltb, ◌==◌, if◌then◌else◌, Bool-cases, Option-cases}
use rust_build_server.Prelude.Texts.{Bytes, bytes_eq, bytes_eq_sound}

-- The order of texts, byte by byte.
unfoldable pub bytes_ltb : Bytes → Bytes → Bool
bytes_ltb [] [] = false
bytes_ltb [] (y ∷ ys) = true
bytes_ltb (x ∷ xs) [] = false
bytes_ltb (x ∷ xs) (y ∷ ys) = ltb x y || ((x == y) && bytes_ltb xs ys)

module _ {ℓ} {V : Type ℓ} where
  unfoldable pub lookup : Bytes → List (Bytes × V) → Option V
  lookup k [] = none
  lookup k ((k', v) ∷ m) = if bytes_eq k k' then some v else lookup k m

  -- The value of a key that the map has.
  unfoldable pub replace : Bytes → V → List (Bytes × V) → List (Bytes × V)
  replace k v [] = []
  replace k v ((k', v') ∷ m) =
      let rest = replace k v m in if bytes_eq k k' then (k, v) ∷ m else (k', v') ∷ rest

  -- A new key, before the first that is greater.
  unfoldable pub place : Bytes → V → List (Bytes × V) → List (Bytes × V)
  place k v [] = (k, v) ∷ []
  place k v ((k', v') ∷ m) =
      let rest = place k v m in if bytes_ltb k k' then (k, v) ∷ (k', v') ∷ m else (k', v') ∷ rest

  unfoldable pub insert : Bytes → V → List (Bytes × V) → List (Bytes × V)
  unfolding replace place lookup
  insert k v m = elim (lookup k m) [ none ↦ place k v m | some old ↦ replace k v m ]

  pub insert_new :
      (k : Bytes) (v : V) (m : List (Bytes × V)) → lookup k m ≡ none → insert k v m ≡ place k v m
  unfolding insert
  insert_new k v m h = ground (arith, h)

  pub insert_old :
      (k : Bytes) (v old : V) (m : List (Bytes × V))
      → lookup k m ≡ some old
      → insert k v m ≡ replace k v m
  unfolding insert
  insert_old k v old m h = ground (arith, h)

  lookup-replace :
      (q k : Bytes) (v old : V) (m : List (Bytes × V))
      → lookup k m ≡ some old
      → lookup q (replace k v m) ≡ (if bytes_eq q k then some v else lookup q m)
  unfolding lookup replace
  lookup-replace q k v old [] e = absurd (ground arith)
  lookup-replace q k v old ((k', v') ∷ m) e = elim (Bool-cases (bytes_eq k k')) [
    | inl same ↦ ground (arith, same, ap (bytes_eq q) (bytes_eq_sound k k' same))
    | inr other ↦ elim (Bool-cases (bytes_eq q k)) [
      | inl h ↦ ground (
        arith,
        other,
        h,
        ap (λ t. bytes_eq t k') (bytes_eq_sound q k h),
        lookup-replace q k v old m (ground (arith, other, e)),
      )
      | inr h ↦ ground (arith, other, h, lookup-replace q k v old m (ground (arith, other, e)))
    ]
  ]

  lookup-place :
      (q k : Bytes) (v : V) (m : List (Bytes × V))
      → lookup k m ≡ none
      → lookup q (place k v m) ≡ (if bytes_eq q k then some v else lookup q m)
  unfolding lookup place
  lookup-place q k v [] e = refl
  lookup-place q k v ((k', v') ∷ m) e = elim (Bool-cases (bytes_eq k k')) [
    | inl same ↦ absurd (ground (arith, same, e))
    | inr other ↦ elim (Bool-cases (bytes_eq q k)) [
      | inl h ↦ ground (
        arith,
        other,
        h,
        ap (λ t. bytes_eq t k') (bytes_eq_sound q k h),
        lookup-place q k v m (ground (arith, other, e)),
      )
      | inr h ↦ ground (arith, other, h, lookup-place q k v m (ground (arith, other, e)))
    ]
  ]

  pub lookup-insert :
      (q k : Bytes) (v : V) (m : List (Bytes × V))
      → lookup q (insert k v m) ≡ (if bytes_eq q k then some v else lookup q m)
  lookup-insert q k v m = elim (Option-cases (lookup k m)) [
    | inl absent ↦ ap (lookup q) (insert_new k v m absent) ∙ lookup-place q k v m absent
    | inr (old, there) ↦
        ap (lookup q) (insert_old k v old m there) ∙ lookup-replace q k v old m there
  ]
