-- ===== src/Server/Scheduler/Order.antt =====
-- The order of the queue: by rank, and by arrival within a rank.
use rust_build_server.Prelude.{
  ℕ, suc, zero, ◌<◌, ◌≡◌, refl, ◌⊎◌, inl, inr, List, [], ◌∷◌, arith, ltb, if◌then◌else◌, insert_at,
  remove_at, take, drop, All, All-map, Bool-cases,
}
use rust_build_server.Proto.Job.{rank}
use rust_build_server.Server.Scheduler.{Entry, queue_index}

-- `a` goes before `b`: it is more urgent, or as urgent and came first.
abbrev pub Before : Entry → Entry → Type 0
Before a b =
    (rank b.priority < rank a.priority) ⊎ ((rank a.priority ≡ rank b.priority) × (a.seq < b.seq))

abbrev pub IsSorted : List Entry → Type 0
IsSorted [] = Unit {0}
IsSorted (e ∷ es) = All (Before e) es × IsSorted es

-- Where `admit` puts an entry, as an insertion by recursion.
insert_entry : Entry → List Entry → List Entry
insert_entry e [] = e ∷ []
insert_entry e (x ∷ q) =
    if ltb (rank x.priority) (rank e.priority) then e ∷ x ∷ q else x ∷ insert_entry e q

insert_at-queue_index :
    (e : Entry) (q : List Entry) → insert_at (queue_index q e.priority) e q ≡ insert_entry e q
unfolding queue_index insert_entry
insert_at-queue_index e [] = refl
insert_at-queue_index e (x ∷ q) = ground (arith, insert_at-queue_index e q)

insert_entry-All {κ} :
    (P : Entry → Type κ) (e : Entry) (q : List Entry) → P e → All P q → All P (insert_entry e q)
unfolding insert_entry
insert_entry-All P e [] p h = (p, tt)
insert_entry-All P e (x ∷ q) p h = elim (Bool-cases (ltb (rank x.priority) (rank e.priority))) [
  | inl here ↦ rw here (p, h)
  | inr later ↦ rw later (h.0, insert_entry-All P e q p h.1)
]

Before-trans : (a b c : Entry) → Before a b → Before b c → Before a c
Before-trans a b c p q = omega arith

insert_entry-IsSorted :
    (e : Entry) (q : List Entry)
    → All (λ x. x.seq < e.seq) q
    → IsSorted q
    → IsSorted (insert_entry e q)
unfolding insert_entry
insert_entry-IsSorted e [] new s = (tt, tt)
insert_entry-IsSorted e (x ∷ q) new s =
    elim (Bool-cases (ltb (rank x.priority) (rank e.priority))) [
      | inl here ↦
          let first : Before e x = inl (ground arith) in
          rw here ((first, All-map (λ y b. Before-trans e x y first b) q s.0), s)
      | inr later ↦
          let behind : Before x e = ground arith in
          rw later (insert_entry-All (Before x) e q behind s.0, insert_entry-IsSorted e q new.1 s.1)
    ]

-- A new entry, younger than all others, goes to its place in the order.
pub insert_at-IsSorted :
    (e : Entry) (q : List Entry)
    → All (λ x. x.seq < e.seq) q
    → IsSorted q
    → IsSorted (insert_at (queue_index q e.priority) e q)
insert_at-IsSorted e q new s = rw insert_at-queue_index (insert_entry-IsSorted e q new s)

pub insert_at-All {κ} :
    (P : Entry → Type κ) (i : ℕ) (e : Entry) (q : List Entry)
    → P e
    → All P q
    → All P (insert_at i e q)
insert_at-All P zero e q p h = (p, h)
insert_at-All P (suc i) e [] p h = (p, tt)
insert_at-All P (suc i) e (x ∷ q) p h = (h.0, insert_at-All P i e q p h.1)

pub drop-All {κ} : (P : Entry → Type κ) (n : ℕ) (q : List Entry) → All P q → All P (drop n q)
drop-All P zero q h = h
drop-All P (suc n) [] h = tt
drop-All P (suc n) (x ∷ q) h = drop-All P n q h.1

pub take-All {κ} : (P : Entry → Type κ) (n : ℕ) (q : List Entry) → All P q → All P (take n q)
take-All P zero q h = tt
take-All P (suc n) [] h = tt
take-All P (suc n) (x ∷ q) h = (h.0, take-All P n q h.1)

pub remove_at-All {κ} :
    (P : Entry → Type κ) (n : ℕ) (q : List Entry) → All P q → All P (remove_at n q)
remove_at-All P n [] h = tt
remove_at-All P zero (x ∷ q) h = h.1
remove_at-All P (suc n) (x ∷ q) h = (h.0, remove_at-All P n q h.1)

pub drop-IsSorted : (n : ℕ) (q : List Entry) → IsSorted q → IsSorted (drop n q)
drop-IsSorted zero q h = h
drop-IsSorted (suc n) [] h = tt
drop-IsSorted (suc n) (x ∷ q) h = drop-IsSorted n q h.1

pub remove_at-IsSorted : (n : ℕ) (q : List Entry) → IsSorted q → IsSorted (remove_at n q)
remove_at-IsSorted n [] h = tt
remove_at-IsSorted zero (x ∷ q) h = h.1
remove_at-IsSorted (suc n) (x ∷ q) h =
    (remove_at-All (Before x) n q h.0, remove_at-IsSorted n q h.1)

-- In a sorted queue each of the first `n` entries goes before each of the others.
pub take-Before-drop :
    (n : ℕ) (q : List Entry) → IsSorted q → All (λ a. All (λ b. Before a b) (drop n q)) (take n q)
take-Before-drop zero q h = tt
take-Before-drop (suc n) [] h = tt
take-Before-drop (suc n) (x ∷ q) h = (drop-All (Before x) n q h.0, take-Before-drop n q h.1)
