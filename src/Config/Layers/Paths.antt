-- ===== src/Config/Layers/Paths.antt =====
-- Which layer a setting comes from after the merge of crates/rbs-config/src/layers.rs.
use rust_build_server.Prelude.{
  ◌≡◌, refl, ap, sym, ◌∙◌, List, [], ◌∷◌, Option, none, some, inl, inr, Bytes, bytes_eq,
  bytes_eq_sound, if◌then◌else◌, arith, Bool-cases, Option-cases,
}
use mathlib.Core.Path.{subst}
use rust_build_server.Config.Layers.{
  Value, leaf, table, Table, empty, entry, get, put, over_value, deep_merge,
}

-- No key stands twice in a table, nor in a table within it.
unfoldable mutual
  pub IsDistinctValue : Value → Type 0
  IsDistinctValue (leaf x) = Unit
  IsDistinctValue (table t) = IsDistinct t

  pub IsDistinct : Table → Type 0
  IsDistinct empty = Unit
  IsDistinct (entry k v t) = (get k t ≡ none) × IsDistinctValue v × IsDistinct t

-- The setting at a path of keys below a value.
abbrev at_value : List Bytes → Option Value → Option Bytes
at_value p none = none
at_value [] (some (leaf x)) = some x
at_value [] (some (table t)) = none
at_value (k ∷ p) (some (leaf x)) = none
at_value (k ∷ p) (some (table t)) = at_value p (get k t)

unfoldable pub at : List Bytes → Table → Option Bytes
at p t = at_value p (some (table t))

-- The layer does not reach the path: a table on the way to it lacks the next key.
unfoldable pub IsSilent : List Bytes → Option Value → Type 0
IsSilent p none = Unit
IsSilent p (some (leaf x)) = ⊥
IsSilent [] (some (table t)) = ⊥
IsSilent (k ∷ p) (some (table t)) = IsSilent p (get k t)

get-put :
    (q k : Bytes) (v : Value) (t : Table)
    → get q (put k v t) ≡ (if bytes_eq q k then some v else get q t)
unfolding get put
get-put q k v empty = refl
get-put q k v (entry k' v' t) = elim (Bool-cases (bytes_eq k k')) [
  | inl same ↦ ground (arith, same, ap (bytes_eq q) (bytes_eq_sound k k' same))
  | inr other ↦ elim (Bool-cases (bytes_eq q k)) [
    | inl h ↦
        ground (arith, other, h, ap (λ t. bytes_eq t k') (bytes_eq_sound q k h), get-put q k v t)
    | inr h ↦ ground (arith, other, h, get-put q k v t)
  ]
]

-- What the merge holds under a key.
abbrev over_at : Option Value → Option Value → Option Value
over_at old none = old
over_at old (some v) = some (over_value old v)

get-deep_merge :
    (q : Bytes) (base over : Table)
    → IsDistinct over
    → get q (deep_merge base over) ≡ over_at (get q base) (get q over)
unfolding deep_merge get IsDistinct
get-deep_merge q base empty h = refl
get-deep_merge q base (entry k v over) h =
    let v' = over_value (get k base) v in
    let base' = put k v' base in
    elim (Bool-cases (bytes_eq q k)) [
      | inl same ↦
          let e = bytes_eq_sound q k same in
          let absent : get q over ≡ none = ap (λ t. get t over) e ∙ h.0 in
          let put_there : get q base' ≡ some v' =
            get-put q k v' base ∙ ap (λ b. if b then some v' else get q base) same in
          rw same (
            get-deep_merge q base' over h.2
            ∙ ap (over_at (get q base')) absent
            ∙ put_there
            ∙ ap (λ t. some (over_value (get t base) v)) (sym e))
      | inr other ↦
          let kept : get q base' ≡ get q base =
            get-put q k v' base ∙ ap (λ b. if b then some v' else get q base) other in
          rw other (get-deep_merge q base' over h.2 ∙ ap (λ o. over_at o (get q over)) kept)
    ]

IsDistinct-get :
    (k : Bytes) (t : Table) (v : Value) → IsDistinct t → get k t ≡ some v → IsDistinctValue v
unfolding IsDistinct get
IsDistinct-get k empty v h e = absurd (ground arith)
IsDistinct-get k (entry k' w t) v h e = elim (Bool-cases (bytes_eq k k')) [
  | inl same ↦ let found : w ≡ v = ground (arith, same, e) in subst IsDistinctValue found h.1
  | inr other ↦ IsDistinct-get k t v h.2 (ground (arith, other, e))
]

some_of_none : (x : Bytes) → ◌≡◌ {A = Option Bytes} none (some x) → ⊥
some_of_none x e = ground arith

upper_value :
    (p : List Bytes) (old : Option Value) (v : Value) (x : Bytes)
    → IsDistinctValue v
    → at_value p (some v) ≡ some x
    → at_value p (some (over_value old v)) ≡ some x
unfolding over_value IsDistinct
upper_value p old (leaf y) x h e = e
upper_value [] old (table t) x h e = absurd (ground arith)
upper_value (k ∷ p) none (table t) x h e = e
upper_value (k ∷ p) (some (leaf y)) (table t) x h e = e
upper_value (k ∷ p) (some (table b)) (table t) x h e = elim (Option-cases (get k t)) [
  | inl absent ↦ absurd (some_of_none x (sym (ap (at_value p) absent) ∙ e))
  | inr (w, there) ↦
      ap (at_value p) (get-deep_merge k b t h ∙ ap (over_at (get k b)) there)
      ∙ upper_value p (get k b) w x (IsDistinct-get k t w h there) (sym (ap (at_value p) there) ∙ e)
]

silent_none : (p : List Bytes) (o : Option Value) → IsSilent p o → at_value p o ≡ none
unfolding IsSilent
silent_none p none h = refl
silent_none p (some (leaf x)) h = absurd h
silent_none [] (some (table t)) h = refl
silent_none (k ∷ p) (some (table t)) h = silent_none p (get k t) h

lower_value :
    (p : List Bytes) (old : Option Value) (v : Value)
    → IsDistinctValue v
    → IsSilent p (some v)
    → at_value p (some (over_value old v)) ≡ at_value p old
unfolding over_value IsDistinct IsSilent
lower_value p old (leaf y) h s = absurd s
lower_value [] old (table t) h s = absurd s
lower_value (k ∷ p) none (table t) h s = silent_none p (get k t) s
lower_value (k ∷ p) (some (leaf y)) (table t) h s = silent_none p (get k t) s
lower_value (k ∷ p) (some (table b)) (table t) h s = elim (Option-cases (get k t)) [
  | inl absent ↦ ap (at_value p) (get-deep_merge k b t h ∙ ap (over_at (get k b)) absent)
  | inr (w, there) ↦
      ap (at_value p) (get-deep_merge k b t h ∙ ap (over_at (get k b)) there)
      ∙ lower_value p (get k b) w (IsDistinct-get k t w h there) (subst (IsSilent p) there s)
]

-- A setting of the upper layer stands after the merge, whatever the lower layer has at its path or on the
-- way to it. No key of the upper layer stands twice.
pub at-deep_merge_upper :
    (p : List Bytes) (base over : Table) (x : Bytes)
    → IsDistinct over
    → at p over ≡ some x
    → at p (deep_merge base over) ≡ some x
unfolding at IsDistinct over_value
at-deep_merge_upper p base over x h e = upper_value p (some (table base)) (table over) x h e

-- Where the upper layer does not reach a path, the merge has there what the lower layer has. No key of the
-- upper layer stands twice.
pub at-deep_merge_lower :
    (p : List Bytes) (base over : Table)
    → IsDistinct over
    → IsSilent p (some (table over))
    → at p (deep_merge base over) ≡ at p base
unfolding at IsDistinct over_value
at-deep_merge_lower p base over h s = lower_value p (some (table base)) (table over) h s
