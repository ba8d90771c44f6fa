-- ===== src/Setup/Release/Pinned.antt =====
-- The channel that is pinned for a stable release reads back as that release.
use rust_build_server.Prelude.{
  ℕ, ◌≤◌, ◌≡◌, refl, ap, sym, ◌∙◌, arith, true, not, [], ◌∷◌, ◌++◌, Option, none, some, Bytes, ◌==◌,
  ok, all, is_digit, decimal, digits_from-all, digits_from-decimal, parse_u32, parse_u32-decimal,
  max_u32,
}
use rust_build_server.Setup.Release.{
  Release, stable, split_once, split, channel_of, parse_version, parse, pin_channel,
}

-- A text without a byte.
abbrev Lacks : ℕ → Bytes → Type 0
Lacks sep s = all (λ c. not (c == sep)) s ≡ true

split-Lacks :
    (sep : ℕ) (s rest : Bytes) → Lacks sep s → split sep (s ++ sep ∷ rest) ≡ s ∷ split sep rest
unfolding split
split-Lacks sep [] rest h = ground arith
split-Lacks sep (c ∷ s) rest h = ground (arith, h, split-Lacks sep s rest (ground (arith, h)))

split-last : (sep : ℕ) (s : Bytes) → Lacks sep s → split sep s ≡ s ∷ []
unfolding split
split-last sep [] h = refl
split-last sep (c ∷ s) h = ground (arith, h, split-last sep s (ground (arith, h)))

split_once-Lacks : (sep : ℕ) (s : Bytes) → Lacks sep s → split_once sep s ≡ none
unfolding split_once
split_once-Lacks sep [] h = refl
split_once-Lacks sep (c ∷ s) h = ground (arith, h, split_once-Lacks sep s (ground (arith, h)))

Lacks-append : (sep : ℕ) (a b : Bytes) → Lacks sep a → Lacks sep b → Lacks sep (a ++ b)
Lacks-append sep [] b h k = k
Lacks-append sep (c ∷ a) b h k = ground (arith, h, Lacks-append sep a b (ground (arith, h)) k)

digits-Lacks : (s : Bytes) → all is_digit s ≡ true → Lacks 45 s × Lacks 46 s
digits-Lacks [] h = (refl, refl)
digits-Lacks (c ∷ s) h =
    let (dash, dot) = digits-Lacks s (ground (arith, h)) in
    (ground (arith, h, dash), ground (arith, h, dot))

decimal-Lacks : (n : ℕ) → n ≤ max_u32 → Lacks 45 (decimal n) × Lacks 46 (decimal n)
decimal-Lacks n small =
    digits-Lacks (decimal n) (digits_from-all 0 (decimal n) n (digits_from-decimal n small))

abbrev dotted : (x y z : Bytes) → Bytes
dotted x y z = x ++ 46 ∷ (y ++ 46 ∷ z)

module _ (x y z : Bytes) where
  dotted-Lacks : Lacks 45 x → Lacks 45 y → Lacks 45 z → Lacks 45 (dotted x y z)
  dotted-Lacks hx hy hz =
      Lacks-append 45 x (46 ∷ (y ++ 46 ∷ z)) hx (Lacks-append 45 y (46 ∷ z) hy hz)

  split-dotted : Lacks 46 x → Lacks 46 y → Lacks 46 z → split 46 (dotted x y z) ≡ x ∷ y ∷ z ∷ []
  split-dotted hx hy hz =
      split-Lacks 46 x (y ++ 46 ∷ z) hx
      ∙ ap (λ t. x ∷ t) (split-Lacks 46 y z hy)
      ∙ ap (λ t. x ∷ y ∷ t) (split-last 46 z hz)

  channel_of-dotted :
      Lacks 45 x → Lacks 45 y → Lacks 45 z → channel_of (dotted x y z) ≡ some (dotted x y z, stable)
  unfolding channel_of
  channel_of-dotted hx hy hz =
      ground (arith, split_once-Lacks 45 (dotted x y z) (dotted-Lacks hx hy hz))

  parse_version-read :
      (a b c : ℕ)
      → parse_u32 x ≡ some a
      → parse_u32 y ≡ some b
      → parse_u32 z ≡ some c
      → parse_version (x ∷ y ∷ z ∷ []) ≡ some (a, b, c)
  unfolding parse_version
  parse_version-read a b c hx hy hz = ground (arith, hx, hy, hz)

parse-steps :
    (text : Bytes) (date : Option Bytes) (a b c : ℕ)
    → channel_of text ≡ some (text, stable)
    → parse_version (split 46 text) ≡ some (a, b, c)
    → parse text date
      ≡ some (record { major = a; minor = b; patch = c; channel = stable; commit_date = date })
unfolding parse
parse-steps text date a b c h k = ground (arith, h, k)

parse-decimal :
    (a b c : ℕ) (date : Option Bytes)
    → a ≤ max_u32
    → b ≤ max_u32
    → c ≤ max_u32
    → parse (dotted (decimal a) (decimal b) (decimal c)) date
      ≡ some (record { major = a; minor = b; patch = c; channel = stable; commit_date = date })
parse-decimal a b c date ha hb hc =
    let x = decimal a in
    let y = decimal b in
    let z = decimal c in
    let lx = decimal-Lacks a ha in
    let ly = decimal-Lacks b hb in
    let lz = decimal-Lacks c hc in
    parse-steps (dotted x y z) date a b c (channel_of-dotted x y z lx.0 ly.0 lz.0) (
      ap parse_version (split-dotted x y z lx.1 ly.1 lz.1)
      ∙ parse_version-read x y z a b c (parse_u32-decimal a ha) (parse_u32-decimal b hb)
          (parse_u32-decimal c hc))

-- The channel that is pinned for a stable release whose numbers are `u32`s, whatever rustup calls it, is
-- read back as the release with the same three numbers.
pub pin_channel-parse :
    (r : Release) (rustup_name triple host : Bytes)
    → r.channel ≡ stable
    → r.major ≤ max_u32
    → r.minor ≤ max_u32
    → r.patch ≤ max_u32
    → (s : Bytes) × (pin_channel r rustup_name triple host ≡ ok s)
      × (parse s r.commit_date ≡ some r)
unfolding pin_channel
pin_channel-parse r rustup_name triple host is_stable ha hb hc = (
  dotted (decimal r.major) (decimal r.minor) (decimal r.patch),
  ap (λ c. pin_channel (record r { channel = c }) rustup_name triple host) is_stable,
  parse-decimal r.major r.minor r.patch r.commit_date ha hb hc
      ∙ ap (λ c. some (record r { channel = c })) (sym is_stable),
)
