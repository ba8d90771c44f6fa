-- ===== src/Proto/Frame.antt =====
-- crates/rbs-proto/src/frame.rs: one JSON object per line. Writing and reading JSON is serde_json's, and
-- stands here as `to_vec` and `from_slice`.
pub mod Lines
use rust_build_server.Prelude.{
  ℕ, zero, suc, ◌+◌, ◌*◌, ◌≤◌, Bool, ◌||◌, List, [], ◌∷◌, ◌++◌, Option, none, some, ltb, ◌==◌,
  if◌then◌else◌, length, take, drop, find_index, all, Bytes, Result, ok, err, ◌>>=◌,
}

abbrev pub max_frame_bytes : ℕ
max_frame_bytes = 16 * 1024 * 1024

abbrev pub newline : ℕ
newline = 10

pub data FrameError (E : Type 0) : Type 0 where
  too_large : FrameError E
  json : E → FrameError E

-- `encode`; the test that a debug build makes of the text is left out.
unfoldable pub encode_frame :
    {A E : Type 0} → (A → Result E Bytes) → A → Result (FrameError E) Bytes
encode_frame to_vec msg = elim (to_vec msg) [ err e ↦ err (json e) | ok v ↦ ok (v ++ newline ∷ []) ]

pub record Decoder : Type 0 where
  pub buf : Bytes

unfoldable pub push : {E : Type 0} → Decoder → Bytes → Result (FrameError E) Decoder
push d bytes =
    if ltb max_frame_bytes (length d.buf + length bytes)
    then err too_large
    else ok (record d { buf = d.buf ++ bytes })

-- `u8::is_ascii_whitespace`
unfoldable pub is_ascii_whitespace : ℕ → Bool
is_ascii_whitespace b = (b == 32) || (b == 9) || (b == 10) || (b == 12) || (b == 13)

-- The first line of the buffer, without its end, and what is left after `drain(..=pos)`.
unfoldable pub drain_line : Bytes → Option (Bytes × Bytes)
drain_line buf = elim (find_index (λ b. b == newline) buf) [
  | none ↦ none
  | some pos ↦ some (take pos buf, drop (suc pos) buf)
]

module _ {A E : Type 0} (from_slice : Bytes → Result E A) where
  unfoldable pub parse_line : Bytes → Result (FrameError E) (Option A)
  parse_line line = elim (from_slice line) [ err e ↦ err (json e) | ok m ↦ ok (some m) ]

  -- The loop of `next_frame`, on fuel: each round takes at least one byte from the buffer.
  unfoldable pub next_frame_loop : ℕ → Bytes → Bytes × Result (FrameError E) (Option A)
  next_frame_loop zero buf = (buf, ok none)
  next_frame_loop (suc fuel) buf = elim (drain_line buf) [
    | none ↦ (buf, ok none)
    | some p ↦
        let later = next_frame_loop fuel p.1 in
        if all is_ascii_whitespace p.0 then later else (p.1, parse_line p.0)
  ]

  unfoldable pub next_frame : Decoder → Decoder × Result (FrameError E) (Option A)
  next_frame d = let r = next_frame_loop (suc (length d.buf)) d.buf in (record d { buf = r.0 }, r.1)

unfoldable pub pending : Decoder → ℕ
pending d = length d.buf
