-- ===== src/Store/Touch/Keeps.antt =====
-- What the touches in flight keep of the store: the content of every object that is no intermediate.
use rust_build_server.Prelude.{
  ℕ, zero, suc, ◌≡◌, refl, ap, sym, ◌∙◌, arith, true, false, List, [], ◌∷◌, ◌++◌, Option, none,
  some, Bytes, bytes_eq, bytes_eq_sound, strip_prefix, strip_prefix-append, ℤ, bytes_ltb, leb_ℤ,
  All, All-map, ◌⊎◌, inl, inr, Bool-cases,
}
use mathlib.Core.Path.{subst}
use mathlib.Core.List.{reverse, reverse-append, reverse-reverse}
use rust_build_server.Store.Planner.{RemoteObject, touch_tmp_suffix, strip_suffix, ends_with}
use rust_build_server.Store.Touch.{
  Copied, copied, not_found, copy_failed, TouchStore, Stage, planned, copied_out, copied_back,
  finished, tmp, after_copy_out, Touch, touch_step, advance, run_touches, start_all, execute_touch,
  pick, plan_touch, sort_keys, insert_key,
}

abbrev pub IsTmp : Bytes → Type 0
IsTmp key = ends_with key touch_tmp_suffix ≡ true

abbrev pub IsKey : Bytes → Type 0
IsKey key = ends_with key touch_tmp_suffix ≡ false

abbrev turned : Option Bytes → Option Bytes
turned none = none
turned (some r) = some (reverse r)

strip_suffix-append : (suffix s : Bytes) → strip_suffix suffix (s ++ suffix) ≡ some s
unfolding strip_suffix
strip_suffix-append suffix s =
    ap turned (
      ap (strip_prefix (reverse suffix)) (reverse-append s suffix)
      ∙ strip_prefix-append (reverse suffix) (reverse s))
    ∙ ap (λ t. some t) (reverse-reverse s)

tmp-IsTmp : (key : Bytes) → IsTmp (tmp key)
unfolding ends_with
tmp-IsTmp key = ground (arith, strip_suffix-append touch_tmp_suffix key)

some_content : Option Bytes → Bytes
some_content none = []
some_content (some s) = s

tmp-injective : (a b : Bytes) → tmp a ≡ tmp b → a ≡ b
unfolding some_content
tmp-injective a b e = ap some_content (
    sym (strip_suffix-append touch_tmp_suffix a)
    ∙ ap (strip_suffix touch_tmp_suffix) e
    ∙ strip_suffix-append touch_tmp_suffix b)

key_is_no_tmp : (k key : Bytes) → IsKey k → bytes_eq k (tmp key) ≡ false
key_is_no_tmp k key h = elim (Bool-cases (bytes_eq k (tmp key))) [
  | inr other ↦ other
  | inl same ↦ absurd (
      ground (
        arith,
        h,
        tmp-IsTmp key,
        ap (λ t. ends_with t touch_tmp_suffix) (bytes_eq_sound k (tmp key) same),
      ))
]

tmp_is_no_key : (k key : Bytes) → IsKey key → bytes_eq (tmp k) key ≡ false
tmp_is_no_key k key h = elim (Bool-cases (bytes_eq (tmp k) key)) [
  | inr other ↦ other
  | inl equal ↦ absurd (
      ground (
        arith,
        h,
        tmp-IsTmp k,
        ap (λ t. ends_with t touch_tmp_suffix) (bytes_eq_sound (tmp k) key equal),
      ))
]

-- What a touch relies on in a store, where `content` is what stands under a key: a copy changes only the
-- object it is to, and either not at all or to what is there to copy; where it is seen to succeed it
-- has been carried out. A deletion changes only its object, if any. An error may hide either.
pub record IsStore {S : Type 0} (content : S → Bytes → Option Bytes) (store : TouchStore S)
    : Type 0 where
  pub copy_elsewhere :
      (s : S) (from to k : Bytes)
      → bytes_eq k to ≡ false
      → content (store.copy s from to).1 k ≡ content s k
  pub copy_there :
      (s : S) (from to : Bytes)
      → (content (store.copy s from to).1 to ≡ content s to)
        ⊎ ((b : Bytes) × (content s from ≡ some b) × (content (store.copy s from to).1 to ≡ some b))
  pub copy_done :
      (s : S) (from to : Bytes)
      → (store.copy s from to).0 ≡ copied
      → (b : Bytes) × (content s from ≡ some b) × (content (store.copy s from to).1 to ≡ some b)
  pub delete_elsewhere :
      (s : S) (key k : Bytes)
      → bytes_eq k key ≡ false
      → content (store.delete s key) k ≡ content s k
  pub delete_there :
      (s : S) (key : Bytes)
      → (content (store.delete s key) key ≡ content s key)
        ⊎ (content (store.delete s key) key ≡ none)

module _ {S : Type 0} (content : S → Bytes → Option Bytes) (store : TouchStore S)
    (law : IsStore content store) (orig : Bytes → Option Bytes) where
  -- Every object but the intermediates has the content that it had.
  abbrev Whole : S → Type 0
  Whole s = (k : Bytes) → IsKey k → content s k ≡ orig k

  -- Nothing, or the content of a key.
  abbrev Fits : Bytes → Option Bytes → Type 0
  Fits key c = (c ≡ none) ⊎ (c ≡ orig key)

  -- A touch that has copied its object out finds that copy, or nothing.
  abbrev Held : S → Touch → Type 0
  Held s (key, copied_out) = Fits key (content s (tmp key))
  Held s (key, stage) = Unit

  abbrev Preserves : S → S → Type 0
  Preserves s later = (Whole s → Whole later) × ((t : Touch) → Held s t → Held later t)

  same : (s : S) → Preserves s s
  same s = (λ w. w, λ t h. h)

  -- A change of one intermediate, to what fits its key.
  change_tmp :
      (key : Bytes) (s later : S)
      → ((k : Bytes) → bytes_eq k (tmp key) ≡ false → content later k ≡ content s k)
      → (Fits key (content s (tmp key)) → Fits key (content later (tmp key)))
      → Preserves s later
  change_tmp key s later elsewhere there =
      (λ w k is_key. elsewhere k (key_is_no_tmp k key is_key) ∙ w k is_key, held)
    where
      held : (t : Touch) → Held s t → Held later t
      held (other, planned) h = tt
      held (other, copied_back r) h = tt
      held (other, finished r) h = tt
      held (other, copied_out) h = elim (Bool-cases (bytes_eq (tmp other) (tmp key))) [
        | inr differ ↦ subst (λ c. Fits other c) (sym (elsewhere (tmp other) differ)) h
        | inl equal ↦
            subst (λ k. Fits k (content s (tmp k)) → Fits k (content later (tmp k)))
              (sym (tmp-injective other key (bytes_eq_sound (tmp other) (tmp key) equal))) there h
      ]

  copy_out-Preserves :
      (key : Bytes) (s : S) → IsKey key → Whole s → Preserves s (store.copy s key (tmp key)).1
  copy_out-Preserves key s is_key w =
      let later = (store.copy s key (tmp key)).1 in
      change_tmp key s later (law.copy_elsewhere s key (tmp key)) (λ fits.
        elim (law.copy_there s key (tmp key)) [
          | inl kept ↦ subst (λ c. Fits key c) (sym kept) fits
          | inr (b, found, put) ↦ inr (put ∙ sym found ∙ w key is_key)
        ])

  delete-Preserves : (key : Bytes) (s : S) → Preserves s (store.delete s (tmp key))
  delete-Preserves key s =
      change_tmp key s (store.delete s (tmp key)) (law.delete_elsewhere s (tmp key)) (λ fits.
        elim (law.delete_there s (tmp key)) [
          | inl kept ↦ subst (λ c. Fits key c) (sym kept) fits
          | inr gone ↦ inl gone
        ])

  -- What stands under a key after its intermediate was copied back.
  copied_back-orig :
      (key : Bytes) (s : S)
      → IsKey key
      → Fits key (content s (tmp key))
      → Whole s
      → content (store.copy s (tmp key) key).1 key ≡ orig key
  copied_back-orig key s is_key fits w = elim (law.copy_there s (tmp key) key) [
    | inl kept ↦ kept ∙ w key is_key
    | inr (b, found, put) ↦ elim fits [
      | inl nothing ↦ absurd (ground (arith, found, nothing))
      | inr fit ↦ put ∙ sym found ∙ fit
    ]
  ]

  copy_back-Preserves :
      (key : Bytes) (s : S)
      → IsKey key
      → Fits key (content s (tmp key))
      → Preserves s (store.copy s (tmp key) key).1
  copy_back-Preserves key s is_key fits = (whole, held)
    where
      later : S
      later = (store.copy s (tmp key) key).1

      whole : Whole s → Whole later
      whole w k is_k = elim (Bool-cases (bytes_eq k key)) [
        | inr differ ↦ law.copy_elsewhere s (tmp key) key k differ ∙ w k is_k
        | inl equal ↦
            subst (λ t. content later t ≡ orig t) (sym (bytes_eq_sound k key equal))
              (copied_back-orig key s is_key fits w)
      ]

      held : (t : Touch) → Held s t → Held later t
      held (other, planned) h = tt
      held (other, copied_back r) h = tt
      held (other, finished r) h = tt
      held (other, copied_out) h =
          subst (λ c. Fits other c)
            (sym (law.copy_elsewhere s (tmp key) key (tmp other) (tmp_is_no_key other key is_key)))
            h

  touch_step-Preserves :
      (key : Bytes) (stage : Stage) (s : S)
      → IsKey key
      → Whole s
      → Held s (key, stage)
      → Preserves s (touch_step store key stage s).1
  unfolding touch_step
  touch_step-Preserves key planned s is_key w h = copy_out-Preserves key s is_key w
  touch_step-Preserves key copied_out s is_key w h = copy_back-Preserves key s is_key h
  touch_step-Preserves key (copied_back r) s is_key w h = delete-Preserves key s
  touch_step-Preserves key (finished o) s is_key w h = same s

  -- What a copy out leaves for its own touch.
  after_copy_out-Held :
      (key : Bytes) (s : S) (c : Copied)
      → IsKey key
      → Whole s
      → (store.copy s key (tmp key)).0 ≡ c
      → Held (store.copy s key (tmp key)).1 (key, after_copy_out c)
  unfolding after_copy_out
  after_copy_out-Held key s not_found is_key w e = tt
  after_copy_out-Held key s copy_failed is_key w e = tt
  after_copy_out-Held key s copied is_key w e =
      let (b, found, put) = law.copy_done s key (tmp key) e in inr (put ∙ sym found ∙ w key is_key)

  touch_step-Held :
      (key : Bytes) (stage : Stage) (s : S)
      → IsKey key
      → Whole s
      → let r = touch_step store key stage s in Held r.1 (key, r.0)
  unfolding touch_step
  touch_step-Held key planned s is_key w =
      after_copy_out-Held key s (store.copy s key (tmp key)).0 is_key w refl
  touch_step-Held key copied_out s is_key w = tt
  touch_step-Held key (copied_back r) s is_key w = tt
  touch_step-Held key (finished o) s is_key w = tt

  abbrev InOrder : S → List Touch → Type 0
  InOrder s touches = All (λ t. IsKey t.0 × Held s t) touches

  advance-Preserves :
      (place : ℕ) (touches : List Touch) (s : S)
      → Whole s
      → InOrder s touches
      → let r = advance store place touches s in Preserves s r.1 × InOrder r.1 r.0
  unfolding advance
  advance-Preserves place [] s w h = (same s, tt)
  advance-Preserves zero ((key, stage) ∷ touches) s w ((is_key, held), rest) =
      let p = touch_step-Preserves key stage s is_key w held in
      (
        p,
        (
          (is_key, touch_step-Held key stage s is_key w),
          All-map (λ t both. (both.0, p.1 t both.1)) touches rest,
        ),
      )
  advance-Preserves (suc place) (t ∷ touches) s w ((is_key, held), rest) =
      let (p, later) = advance-Preserves place touches s w rest in
      (p, ((is_key, p.1 t held), later))

  run_touches-Whole :
      (order : List ℕ) (touches : List Touch) (s : S)
      → Whole s
      → InOrder s touches
      → Whole (run_touches store order touches s).1
  unfolding run_touches
  run_touches-Whole [] touches s w h = w
  run_touches-Whole (place ∷ order) touches s w h =
      let r = advance store place touches s in
      let (p, later) = advance-Preserves place touches s w h in
      run_touches-Whole order r.0 r.1 (p.0 w) later

  start_all-InOrder : (s : S) (keys : List Bytes) → All IsKey keys → InOrder s (start_all keys)
  unfolding start_all
  start_all-InOrder s [] h = tt
  start_all-InOrder s (key ∷ keys) h = ((h.0, tt), start_all-InOrder s keys h.1)

insert_key-IsKey :
    (a : Bytes) (keys : List Bytes) → IsKey a → All IsKey keys → All IsKey (insert_key a keys)
unfolding insert_key
insert_key-IsKey a [] h k = (h, tt)
insert_key-IsKey a (b ∷ bs) h k = elim (Bool-cases (bytes_ltb b a)) [
  | inl before ↦ rw before (k.0, insert_key-IsKey a bs h k.1)
  | inr not_before ↦ rw not_before (h, k)
]

sort_keys-IsKey : (keys : List Bytes) → All IsKey keys → All IsKey (sort_keys keys)
unfolding sort_keys
sort_keys-IsKey [] h = tt
sort_keys-IsKey (a ∷ keys) h = insert_key-IsKey a (sort_keys keys) h.0 (sort_keys-IsKey keys h.1)

pick-IsKey : (cutoff : ℤ) (objects : List RemoteObject) → All IsKey (pick cutoff objects).touch
unfolding pick
pick-IsKey cutoff [] = tt
pick-IsKey cutoff (o ∷ objects) = elim (Bool-cases (ends_with o.key touch_tmp_suffix)) [
  | inl is_tmp ↦ rw is_tmp (pick-IsKey cutoff objects)
  | inr is_key ↦ elim (Bool-cases (leb_ℤ o.last_modified cutoff)) [
    | inl stale ↦ rw (is_key, stale) (is_key, pick-IsKey cutoff objects)
    | inr fresh ↦ rw (is_key, fresh) (pick-IsKey cutoff objects)
  ]
]

plan_touch-IsKey :
    (objects : List RemoteObject) (cutoff : ℤ) → All IsKey (plan_touch objects cutoff).touch
unfolding plan_touch
plan_touch-IsKey objects cutoff =
    sort_keys-IsKey (pick cutoff objects).touch (pick-IsKey cutoff objects)

-- Over a store that keeps the laws of `IsStore`, whatever a listing holds, in whatever order the requests
-- of the touches that are planned for it are made, whether they are carried out or fail, also where a
-- key is planned twice and wherever the run stops: each object whose key does not end in `.touch-tmp` has
-- the content that it had, and none has appeared.
pub execute_touch-content :
    {S : Type 0} (content : S → Bytes → Option Bytes) (store : TouchStore S)
    (law : IsStore content store) (objects : List RemoteObject) (cutoff : ℤ) (order : List ℕ)
    (s : S) (k : Bytes)
    → IsKey k
    → content (execute_touch store order (plan_touch objects cutoff).touch s).1 k ≡ content s k
unfolding execute_touch
execute_touch-content content store law objects cutoff order s k is_key =
    let keys = (plan_touch objects cutoff).touch in
    run_touches-Whole content store law (content s) order (start_all keys) s (λ k' h. refl)
      (start_all-InOrder content store law (content s) s keys (plan_touch-IsKey objects cutoff)) k
      is_key
