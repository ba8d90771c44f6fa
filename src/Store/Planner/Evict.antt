-- ===== src/Store/Planner/Evict.antt =====
-- The eviction loop of `plan`, crates/rbs-store/src/planner.rs, against its closed form.
use rust_build_server.Prelude.{
  ℕ, zero, suc, ◌+◌, ◌-◌, ◌^◌, ◌≤◌, ◌<◌, ◌≡◌, refl, ap, sym, ◌∙◌, ◌⊎◌, inl, inr, Bool, false, not,
  List, [], ◌∷◌, ◌++◌, leb, length, take, keep_if, ltb_ℤ, ℤ, arith, Bool-cases,
}
use mathlib.Core.Path.{subst}
use mathlib.Core.List.{append_assoc, append-nil}
use rust_build_server.Store.Planner.{Eviction, GcPlan, add_u64, sub_u64, bytes_of, evict}

abbrev pub bytes_in : List Eviction → ℕ
bytes_in [] = 0
bytes_in (c ∷ cs) = bytes_of c.objects + bytes_in cs

-- Not used since the cutoff.
abbrev pub is_old : ℤ → Eviction → Bool
is_old cutoff c = not (ltb_ℤ cutoff c.last_accessed)

-- The loop evicts the first `k` of the old candidates: as many as it takes for what remains to be at most
-- the watermark, and no more, or all of them.
abbrev pub Evicts :
    (watermark : ℕ) → (cutoff : ℤ) → (remaining : ℕ) → List Eviction → GcPlan → GcPlan → Type 0
Evicts watermark cutoff remaining cs before r =
    (k : ℕ) × (r.evictions ≡ before.evictions ++ take k (keep_if (is_old cutoff) cs))
    × (r.freed_bytes ≡ before.freed_bytes + bytes_in (take k (keep_if (is_old cutoff) cs)))
    × ((remaining ≤ watermark + bytes_in (take k (keep_if (is_old cutoff) cs)))
        ⊎ (take k (keep_if (is_old cutoff) cs) ≡ keep_if (is_old cutoff) cs))
    × ((j : ℕ) → j < k → watermark + bytes_in (take j (keep_if (is_old cutoff) cs)) < remaining)

sub_u64_small : (a b : ℕ) → b ≤ a → sub_u64 a b ≡ a - b
unfolding sub_u64
sub_u64_small a b h = ground arith

pub add_u64_small : (a b : ℕ) → a + b < 2 ^ 64 → add_u64 a b ≡ a + b
unfolding add_u64
add_u64_small a b h = omega arith

abbrev evicting : Eviction → GcPlan → GcPlan
evicting c before = record before {
  freed_bytes = before.freed_bytes + bytes_of c.objects;
  evictions = before.evictions ++ c ∷ [];
}

minimal_cons :
    (watermark remaining : ℕ) (c : Eviction) (old : List Eviction) (k : ℕ)
    → watermark < remaining
    → bytes_of c.objects ≤ remaining
    → ((j : ℕ) → j < k → watermark + bytes_in (take j old) < remaining - bytes_of c.objects)
    → (j : ℕ) → j < suc k
    → watermark + bytes_in (take j (c ∷ old)) < remaining
minimal_cons watermark remaining c old k more fits minimal zero h = omega arith
minimal_cons watermark remaining c old k more fits minimal (suc i) h =
    omega (arith, minimal i (omega arith))

-- What the rest of the loop does after an eviction.
Evicts-cons :
    (watermark : ℕ) (cutoff : ℤ) (c : Eviction) (cs : List Eviction) (remaining : ℕ)
    (before r : GcPlan)
    → ltb_ℤ cutoff c.last_accessed ≡ false
    → watermark < remaining
    → bytes_of c.objects ≤ remaining
    → Evicts watermark cutoff (remaining - bytes_of c.objects) cs (evicting c before) r
    → Evicts watermark cutoff remaining (c ∷ cs) before r
Evicts-cons watermark cutoff c cs remaining before r old more fits (k, same, freed, stop, minimal) =
    rw old (
      suc k,
      same ∙ append_assoc before.evictions (c ∷ []) _,
      omega (arith, freed),
      elim stop [ inl low ↦ inl (omega (arith, low)) | inr whole ↦ inr (ap (λ t. c ∷ t) whole) ],
      minimal_cons watermark remaining c (keep_if (is_old cutoff) cs) k more fits minimal,
    )

-- The eviction loop takes the candidates in their order, skips those that are young, and stops as soon as
-- what remains is at most the watermark; the bytes that it counts as freed are those that it evicts. The
-- candidates' bytes are part of what remains, and the sums fit 64 bits.
pub evict-Evicts :
    (watermark : ℕ) (cutoff : ℤ) (cs : List Eviction) (remaining : ℕ) (before : GcPlan)
    → bytes_in cs ≤ remaining
    → before.freed_bytes + remaining < 2 ^ 64
    → Evicts watermark cutoff remaining cs before (evict watermark cutoff remaining cs before)
unfolding evict
evict-Evicts watermark cutoff [] remaining before fits small =
    (0, sym (append-nil before.evictions), omega arith, inr refl, λ j h. absurd (omega arith))
evict-Evicts watermark cutoff (c ∷ cs) remaining before fits small =
    elim (Bool-cases (leb remaining watermark)) [
      | inl enough ↦ rw enough (
        0,
        sym (append-nil before.evictions),
        omega arith,
        inl (ground arith),
        λ j h. absurd (omega arith),
      )
      | inr more ↦ elim (Bool-cases (ltb_ℤ cutoff c.last_accessed)) [
        | inl young ↦
            rw (more, young)
              (evict-Evicts watermark cutoff cs remaining
                (record before { skipped_young = add_u64 before.skipped_young (length c.objects) })
                (omega (arith, fits)) small)
        | inr old ↦
            let fits_one : bytes_of c.objects ≤ remaining = omega (arith, fits) in
            let rest =
              evict watermark cutoff (remaining - bytes_of c.objects) cs (evicting c before) in
            let taken : evict watermark cutoff remaining (c ∷ cs) before ≡ rest =
              rw
                (
                  more,
                  old,
                  sub_u64_small remaining (bytes_of c.objects) fits_one,
                  add_u64_small before.freed_bytes (bytes_of c.objects)
                      (omega (arith, small, fits_one)),
                )
                refl in
            subst (Evicts watermark cutoff remaining (c ∷ cs) before) (sym taken) (
              Evicts-cons watermark cutoff c cs remaining before rest old (ground arith) fits_one (
                evict-Evicts watermark cutoff cs (remaining - bytes_of c.objects)
                  (evicting c before) (omega (arith, fits)) (omega (arith, small, fits_one))))
      ]
    ]
