-- ===== src/Setup/Release/Choose.antt =====
-- The choice between two hosts' toolchains does not depend on which of them makes it.
use Prim.Native.Nat.{compare, Ordering}
use rust_build_server.Prelude.{
  ℕ, ◌≡◌, refl, ap, sym, ◌∙◌, arith, true, [], ◌∷◌, Option, none, some, Bytes, bytes_eq,
  bytes_eq_iff, Result, ok, err, Bool-cases, Result-cases, inl, inr,
}
use rust_build_server.Setup.Release.{
  SyncPolicy, newest, oldest, Release, then_by, cmp_bytes, cmp_date, cmp, channel_rank, Probe,
  Winner, local, remote, Target, SyncError, prefers_local, decide, release_of, choose,
}

abbrev flip : Ordering → Ordering
flip Ordering.lt = Ordering.gt
flip Ordering.eq = Ordering.eq
flip Ordering.gt = Ordering.lt

flip-then_by : (b d : Ordering) → then_by (flip b) (flip d) ≡ flip (then_by b d)
flip-then_by Ordering.lt d = refl
flip-then_by Ordering.eq d = refl
flip-then_by Ordering.gt d = refl

then_by-flip : (a b c d : Ordering) → a ≡ flip b → c ≡ flip d → then_by a c ≡ flip (then_by b d)
then_by-flip a b c d h k = ap (λ t. then_by t c) h ∙ ap (then_by (flip b)) k ∙ flip-then_by b d

compare-flip : (a b : ℕ) → compare a b ≡ flip (compare b a)
compare-flip a b = ground arith

cmp_bytes-flip : (a b : Bytes) → cmp_bytes a b ≡ flip (cmp_bytes b a)
unfolding cmp_bytes
cmp_bytes-flip [] [] = refl
cmp_bytes-flip [] (y ∷ ys) = refl
cmp_bytes-flip (x ∷ xs) [] = refl
cmp_bytes-flip (x ∷ xs) (y ∷ ys) = then_by-flip _ _ _ _ (compare-flip x y) (cmp_bytes-flip xs ys)

cmp_date-flip : (a b : Option Bytes) → cmp_date a b ≡ flip (cmp_date b a)
unfolding cmp_date
cmp_date-flip none none = refl
cmp_date-flip none (some b) = refl
cmp_date-flip (some a) none = refl
cmp_date-flip (some a) (some b) = cmp_bytes-flip a b

cmp-flip : (a b : Release) → cmp a b ≡ flip (cmp b a)
unfolding cmp
cmp-flip a b = then_by-flip _ _ _ _ (compare-flip a.major b.major) (
    then_by-flip _ _ _ _ (compare-flip a.minor b.minor) (
      then_by-flip _ _ _ _ (compare-flip a.patch b.patch) (
        then_by-flip _ _ _ _ (compare-flip (channel_rank a.channel) (channel_rank b.channel))
          (cmp_date-flip a.commit_date b.commit_date))))

abbrev pub opposite : Winner → Winner
opposite local = remote
opposite remote = local

abbrev pub swapped : Target → Target
swapped t = record t { winner = opposite t.winner }

abbrev swap_ok : Result SyncError Target → Result SyncError Target
swap_ok (ok t) = ok (swapped t)
swap_ok (err e) = err e

decide-flip :
    (policy : SyncPolicy) (v w : Bytes) (a b : Release) (o : Ordering) (t : Target)
    → decide policy v a b o ≡ ok t
    → decide policy w b a (flip o) ≡ ok (swapped t)
unfolding decide prefers_local
decide-flip newest v w a b Ordering.lt t h = ap swap_ok h
decide-flip newest v w a b Ordering.gt t h = ap swap_ok h
decide-flip oldest v w a b Ordering.lt t h = ap swap_ok h
decide-flip oldest v w a b Ordering.gt t h = ap swap_ok h
decide-flip newest v w a b Ordering.eq t h = absurd (ground (arith, h))
decide-flip oldest v w a b Ordering.eq t h = absurd (ground (arith, h))

bytes_eq_comm : (a b : Bytes) → bytes_eq a b ≡ true → bytes_eq b a ≡ true
bytes_eq_comm a b h = (bytes_eq_iff b a).1 (sym ((bytes_eq_iff a b).0 h))

-- What a choice that succeeds has found.
choose-ok :
    (policy : SyncPolicy) (l r : Probe) (t : Target)
    → choose policy l r ≡ ok t
    → (a : Release) × (b : Release) × (bytes_eq l.fp.host r.fp.host ≡ true)
      × (release_of l ≡ ok a)
      × (release_of r ≡ ok b)
      × (decide policy l.fp.rustc_version a b (cmp a b) ≡ ok t)
unfolding choose
choose-ok policy l r t h = elim (Bool-cases (bytes_eq l.fp.host r.fp.host)) [
  | inr differ ↦ absurd (ground (arith, differ, h))
  | inl same ↦ elim (Result-cases (release_of l)) [
    | inr (e, unread) ↦ absurd (ground (arith, same, unread, h))
    | inl (a, la) ↦ elim (Result-cases (release_of r)) [
      | inr (e, unread) ↦ absurd (ground (arith, same, la, unread, h))
      | inl (b, rb) ↦ (a, b, same, la, rb, ground (arith, same, la, rb, h))
    ]
  ]
]

-- Where one host chooses a toolchain, the other, asked with the two hosts exchanged and under the same
-- policy, chooses the same release, of the same host.
pub choose-swapped :
    (policy : SyncPolicy) (l r : Probe) (t : Target)
    → choose policy l r ≡ ok t
    → choose policy r l ≡ ok (swapped t)
unfolding choose
choose-swapped policy l r t h =
    let (a, b, same, la, rb, decided) = choose-ok policy l r t h in
    rw (bytes_eq_comm l.fp.host r.fp.host same) (
      rw rb (
        rw la (
          ap (decide policy r.fp.rustc_version b a) (cmp-flip b a)
          ∙ decide-flip policy l.fp.rustc_version r.fp.rustc_version a b (cmp a b) t decided)))
