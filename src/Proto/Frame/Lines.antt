-- ===== src/Proto/Frame/Lines.antt =====
-- What the decoder of frame.rs takes from its buffer: the first line, blank lines left out.
use rust_build_server.Prelude.{
  ℕ, ◌≡◌, refl, false, [], ◌∷◌, ◌++◌, none, some, ◌==◌, ◌⊎◌, inl, inr, ◌≢◌, find_index, all, All,
  Bytes, Result, ok, arith, Option-cases, Bool-cases,
}
use rust_build_server.Proto.Frame.{
  newline, drain_line, is_ascii_whitespace, next_frame_loop, next_frame, parse_line, Decoder,
}

abbrev pub HasNoNewline : Bytes → Type 0
HasNoNewline line = All (λ b. b ≢ newline) line

drain_line_nil : drain_line [] ≡ none
unfolding drain_line
drain_line_nil = refl

drain_line_here : (b : ℕ) (buf : Bytes) → b ≡ newline → drain_line (b ∷ buf) ≡ some ([], buf)
unfolding drain_line
drain_line_here b buf e = rw e refl

drain_line-none_later :
    (b : ℕ) (buf : Bytes) → b ≢ newline → drain_line buf ≡ none → drain_line (b ∷ buf) ≡ none
unfolding drain_line
drain_line-none_later b buf n e = elim (Option-cases (find_index (λ x. x == newline) buf)) [
  | inl h ↦ ground arith
  | inr h ↦ ground arith
]

drain_line_later :
    (b : ℕ) (buf line rest : Bytes)
    → b ≢ newline
    → drain_line buf ≡ some (line, rest)
    → drain_line (b ∷ buf) ≡ some (b ∷ line, rest)
unfolding drain_line
drain_line_later b buf line rest n e = elim (Option-cases (find_index (λ x. x == newline) buf)) [
  | inl h ↦ ground arith
  | inr h ↦ ground arith
]

-- Whether `drain_line` gives a line, and which.
pub drain_line_cases :
    (buf : Bytes)
    → (HasNoNewline buf × (drain_line buf ≡ none))
      ⊎ ((line rest : Bytes) × HasNoNewline line
          × (buf ≡ line ++ newline ∷ rest)
          × (drain_line buf ≡ some (line, rest)))
drain_line_cases [] = inl (tt, drain_line_nil)
drain_line_cases (b ∷ buf) = elim (Bool-cases (b == newline)) [
  | inl h ↦ inr ([], buf, tt, ground arith, drain_line_here b buf (ground arith))
  | inr h ↦ elim (drain_line_cases buf) [
    | inl (clean, e) ↦
        inl ((λ q. ground arith, clean), drain_line-none_later b buf (ground arith) e)
    | inr (line, rest, clean, e, d) ↦ inr (
      b ∷ line,
      rest,
      (λ q. ground arith, clean),
      ground arith,
      drain_line_later b buf line rest (ground arith) d,
    )
  ]
]

-- Where the first line ends is determined by the bytes.
pub line_unique :
    (l m r s : Bytes)
    → HasNoNewline l
    → HasNoNewline m
    → l ++ newline ∷ r ≡ m ++ newline ∷ s
    → (l ≡ m) × (r ≡ s)
line_unique [] [] r s hl hm e = ground arith
line_unique [] (y ∷ m) r s hl hm e = absurd (hm.0 (ground arith))
line_unique (x ∷ l) [] r s hl hm e = absurd (hl.0 (ground arith))
line_unique (x ∷ l) (y ∷ m) r s hl hm e = ground (arith, line_unique l m r s hl.1 hm.1)

pub no_newline_end : (l m s : Bytes) → HasNoNewline l → l ≡ m ++ newline ∷ s → ⊥
no_newline_end [] [] s h e = cc
no_newline_end [] (y ∷ m) s h e = cc
no_newline_end (x ∷ l) [] s h e = h.0 (ground arith)
no_newline_end (x ∷ l) (y ∷ m) s h e = no_newline_end l m s h.1 (ground arith)

module _ {A E : Type 0} (from_slice : Bytes → Result E A) where
  -- A full line that is not blank is what `next_frame` parses.
  pub next_frame_line :
      (d : Decoder) (line rest : Bytes) (m : A)
      → drain_line d.buf ≡ some (line, rest)
      → all is_ascii_whitespace line ≡ false
      → from_slice line ≡ ok m
      → next_frame from_slice d ≡ (record { buf = rest }, ok (some m))
  unfolding next_frame next_frame_loop parse_line
  next_frame_line d line rest m e h parsed = ground (arith, h, e, parsed)

  pub next_frame-none :
      (d : Decoder) → drain_line d.buf ≡ none → next_frame from_slice d ≡ (d, ok none)
  unfolding next_frame next_frame_loop
  next_frame-none d e = ground (arith, e)
