-- ===== src/Prelude/Decimal.antt =====
-- Numbers in decimal, as `format!` writes them and `str::parse::<u32>` reads them.
use Prim.Native.Nat.{ℕ, zero, suc, ◌+◌, ◌-◌, ◌*◌, ◌/◌, ◌%◌, ◌≤◌, ◌<◌}
use mathlib.Core.Path.{◌≡◌, refl, ap, sym, ◌∙◌}
use mathlib.Core.Logic.{inl, inr}
use mathlib.Core.Bool.{Bool, true, false, ◌&&◌}
use mathlib.Core.List.{[], ◌∷◌, ◌++◌}
use mathlib.Core.Option.{Option, none, some}
use native.Mathlib.Omega.{arith}
use rust_build_server.Prelude.Tests.{ltb, leb, ◌==◌, if◌then◌else◌, Bool-cases}
use rust_build_server.Prelude.Lists.{all}
use rust_build_server.Prelude.Texts.{Bytes}

-- On fuel; a number has fewer digits than it has units, but for 0.
decimal_on : (fuel : ℕ) → ℕ → Bytes
decimal_on zero n = []
decimal_on (suc fuel) n =
    let rest = decimal_on fuel (n / 10) in
    if ltb n 10 then (b'0' + n) ∷ [] else rest ++ (b'0' + n % 10) ∷ []

unfoldable pub decimal : ℕ → Bytes
unfolding decimal_on
decimal n = decimal_on (suc n) n

abbrev pub is_digit : ℕ → Bool
is_digit c = leb b'0' c && leb c b'9'

abbrev pub max_u32 : ℕ
max_u32 = 4294967295

-- The digits of a number so far, and the rest.
unfoldable pub digits_from : ℕ → Bytes → Option ℕ
digits_from acc [] = some acc
digits_from acc (c ∷ cs) =
    let later = digits_from (acc * 10 + (c - b'0')) cs in
    if is_digit c && leb (acc * 10 + (c - b'0')) max_u32 then later else none

-- `str::parse::<u32>`: an optional `+`, and at least one digit; a value that is too large is an error.
unfoldable pub parse_u32 : Bytes → Option ℕ
parse_u32 [] = none
parse_u32 (c ∷ []) = if c == b'+' then none else digits_from 0 (c ∷ [])
parse_u32 (c ∷ d ∷ cs) = if c == b'+' then digits_from 0 (d ∷ cs) else digits_from 0 (c ∷ d ∷ cs)

digits_from-append :
    (acc : ℕ) (s : Bytes) (c : ℕ) (n : ℕ)
    → digits_from acc s ≡ some n
    → digits_from acc (s ++ c ∷ []) ≡ digits_from n (c ∷ [])
unfolding digits_from
digits_from-append acc [] c n h = ground arith
digits_from-append acc (x ∷ s) c n h =
    elim (Bool-cases (is_digit x && leb (acc * 10 + (x - b'0')) max_u32)) [
      | inl good ↦ ground (arith, good, h, digits_from-append (acc * 10 + (x - b'0')) s c n)
      | inr bad ↦ absurd (ground (arith, bad, h))
    ]

digits_from-decimal_on :
    (fuel n : ℕ) → n < fuel → n ≤ max_u32 → digits_from 0 (decimal_on fuel n) ≡ some n
unfolding decimal_on digits_from
digits_from-decimal_on zero n h small = absurd (omega arith)
digits_from-decimal_on (suc fuel) n h small = elim (Bool-cases (ltb n 10)) [
  | inl one ↦ ground (arith, one, small)
  | inr more ↦ rw more (
      digits_from-append 0 (decimal_on fuel (n / 10)) (b'0' + n % 10) (n / 10)
        (digits_from-decimal_on fuel (n / 10) (ground arith) (omega arith))
      ∙ ground (arith, more, small))
]

digits_from-first :
    (acc c : ℕ) (cs : Bytes) (n : ℕ)
    → digits_from acc (c ∷ cs) ≡ some n
    → (is_digit c ≡ true) × ((acc' : ℕ) × (digits_from acc' cs ≡ some n))
unfolding digits_from
digits_from-first acc c cs n h =
    elim (Bool-cases (is_digit c && leb (acc * 10 + (c - b'0')) max_u32)) [
      | inl good ↦ (ground (arith, good), (acc * 10 + (c - b'0'), ground (arith, good, h)))
      | inr bad ↦ absurd (ground (arith, bad, h))
    ]

-- Only digits are read.
pub digits_from-all :
    (acc : ℕ) (s : Bytes) (n : ℕ) → digits_from acc s ≡ some n → all is_digit s ≡ true
digits_from-all acc [] n h = refl
digits_from-all acc (c ∷ cs) n h =
    let (digit, rest) = digits_from-first acc c cs n h in
    let (acc', later) = rest in rw digit (digits_from-all acc' cs n later)

not_plus : (c : ℕ) → is_digit c ≡ true → (c == b'+') ≡ false
not_plus c h = ground (arith, h)

parse_u32-digits :
    (c : ℕ) (cs : Bytes) (n : ℕ) → digits_from 0 (c ∷ cs) ≡ some n → parse_u32 (c ∷ cs) ≡ some n
unfolding parse_u32
parse_u32-digits c [] n h = rw (not_plus c (digits_from-first 0 c [] n h).0) h
parse_u32-digits c (d ∷ cs) n h = rw (not_plus c (digits_from-first 0 c (d ∷ cs) n h).0) h

last-nonempty : (s : Bytes) (d : ℕ) → (c : ℕ) × (cs : Bytes) × (s ++ d ∷ [] ≡ c ∷ cs)
last-nonempty [] d = (d, [], refl)
last-nonempty (c ∷ s) d = (c, s ++ d ∷ [], refl)

decimal-nonempty : (n : ℕ) → (c : ℕ) × (cs : Bytes) × (decimal n ≡ c ∷ cs)
unfolding decimal decimal_on
decimal-nonempty n = elim (Bool-cases (ltb n 10)) [
  | inl one ↦ (b'0' + n, [], rw one refl)
  | inr more ↦
      let (c, cs, e) = last-nonempty (decimal_on n (n / 10)) (b'0' + n % 10) in (c, cs, rw more e)
]

pub digits_from-decimal : (n : ℕ) → n ≤ max_u32 → digits_from 0 (decimal n) ≡ some n
unfolding decimal
digits_from-decimal n small = digits_from-decimal_on (suc n) n (omega arith) small

-- A number that is written is read.
pub parse_u32-decimal : (n : ℕ) → n ≤ max_u32 → parse_u32 (decimal n) ≡ some n
parse_u32-decimal n small =
    let (c, cs, e) = decimal-nonempty n in
    ap parse_u32 e
    ∙ parse_u32-digits c cs n (ap (digits_from 0) (sym e) ∙ digits_from-decimal n small)
