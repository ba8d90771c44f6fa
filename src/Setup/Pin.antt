-- ===== src/Setup/Pin.antt =====
-- crates/rbs-setup/src/toolchain_sync/pin.rs: the channel in the workspace's toolchain file. What the TOML
-- reader finds as the channel of a text is a parameter, and so is the file system.
use rust_build_server.Prelude.{
  ℕ, zero, suc, ◌+◌, Bool, false, ◌&&◌, not, List, [], ◌∷◌, ◌++◌, Option, none, some, ◌==◌, leb,
  if◌then◌else◌, length, take, drop, insert_at, find_index, any, Bytes, bytes_eq, codes,
  strip_prefix, Result, ok, err,
}
use rust_build_server.Config.Env.{trim, trim_start, starts_with}
use rust_build_server.Toolchain.{lines, find_toolchain_file}
use rust_build_server.Setup.Release.{SyncError, pin_io, pin_edit}

-- `read_toml` is `parse_toolchain_channel`.
pub record Files : Type 0 where
  pub is_file : List Bytes → Bool
  pub read : List Bytes → Option Bytes
  pub can_write : List Bytes → Bool
  pub read_toml : Bytes → Option Bytes

unfoldable pub is_header : Bytes → Bool
is_header line = bytes_eq (trim line) (codes "[toolchain]")

unfoldable pub is_table : Bytes → Bool
is_table line = starts_with (trim_start line) (codes "[")

unfoldable pub is_channel : Bytes → Bool
is_channel line = elim (strip_prefix (codes "channel") (trim_start line)) [
  | none ↦ false
  | some rest ↦ starts_with (trim_start rest) (codes "=")
]

-- `lines[i] = line`
unfoldable pub set_at : ℕ → Bytes → List Bytes → List Bytes
set_at n line [] = []
set_at zero line (l ∷ ls) = line ∷ ls
set_at (suc n) line (l ∷ ls) = l ∷ set_at n line ls

-- The lines of the table after its header, up to the next.
unfoldable pub table_after : (header : ℕ) → List Bytes → List Bytes
unfolding is_table
table_after header ls = elim (find_index is_table (drop (header + 1) ls)) [
  | none ↦ drop (header + 1) ls
  | some i ↦ take i (drop (header + 1) ls)
]

unfoldable pub in_table : (header : ℕ) → (line : Bytes) → List Bytes → List Bytes
unfolding table_after is_channel set_at
in_table header line ls = elim (find_index is_channel (table_after header ls)) [
  | none ↦ insert_at (header + 1) line ls
  | some i ↦ set_at (header + 1 + i) line ls
]

-- A new table, after an empty line where the last line is not empty.
unfoldable pub new_table : (line : Bytes) → List Bytes → List Bytes
new_table line [] = codes "[toolchain]" ∷ line ∷ []
new_table line (l ∷ []) =
    if bytes_eq (trim l) []
    then l ∷ codes "[toolchain]" ∷ line ∷ []
    else l ∷ [] ∷ codes "[toolchain]" ∷ line ∷ []
new_table line (l ∷ m ∷ ls) = l ∷ new_table line (m ∷ ls)

unfoldable pub set_lines : (line : Bytes) → List Bytes → List Bytes
unfolding is_header in_table new_table
set_lines line ls = elim (find_index is_header ls) [
  | some header ↦ in_table header line ls
  | none ↦ new_table line ls
]

-- `lines.join("\n")` and the newline after it, without one at the start.
unfoldable pub join_lines : List Bytes → Bytes
join_lines [] = 10 ∷ []
join_lines (l ∷ []) = l ++ 10 ∷ []
join_lines (l ∷ m ∷ ls) = l ++ 10 ∷ join_lines (m ∷ ls)

unfoldable pub without_first_newline : Bytes → Bytes
without_first_newline [] = []
without_first_newline (c ∷ cs) = if c == 10 then cs else c ∷ cs

unfoldable pub channel_line : (channel : Bytes) → Bytes
channel_line channel = codes "channel = " ++ 34 ∷ channel ++ 34 ∷ []

unfoldable pub edited : (text channel : Bytes) → Bytes
unfolding set_lines join_lines without_first_newline channel_line lines
edited text channel =
    without_first_newline (join_lines (set_lines (channel_line channel) (lines text)))

unfoldable pub reads_back : (channel : Bytes) → Option Bytes → Bool
reads_back channel none = false
reads_back channel (some c) = bytes_eq c channel

unfoldable pub set_channel :
    (read_toml : Bytes → Option Bytes) → (text channel : Bytes) → Result SyncError Bytes
unfolding edited reads_back
set_channel read_toml text channel =
    if reads_back channel (read_toml (edited text channel))
    then ok (edited text channel)
    else err (pin_edit channel)

-- An old file that holds no more than the name of a channel.
unfoldable pub legacy_plain : (path : List Bytes) → (text : Bytes) → Bool
legacy_plain [] text = false
legacy_plain (name ∷ dir) text =
    bytes_eq name (codes "rust-toolchain")
    && leb (length (lines (trim text))) 1
    && not (any (λ c. c == 91) text)
    && not (any (λ c. c == 61) text)

unfoldable pub new_text :
    Files → (path : List Bytes) → (text channel : Bytes) → Result SyncError Bytes
unfolding legacy_plain set_channel
new_text files path text channel =
    if legacy_plain path text
    then ok (channel ++ 10 ∷ [])
    else set_channel files.read_toml text channel

-- The file that `write_pin` writes, and the text.
unfoldable pub pin_text :
    Files → (cwd : List Bytes) → (channel : Bytes) → Result SyncError (List Bytes × Bytes)
unfolding new_text
pin_text files cwd channel = elim (find_toolchain_file files.is_file cwd) [
  | none ↦ elim (set_channel files.read_toml [] channel) [
    | err e ↦ err e
    | ok text ↦ ok (codes "rust-toolchain.toml" ∷ cwd, text)
  ]
  | some path ↦ elim (files.read path) [
    | none ↦ err (pin_io path)
    | some text ↦ elim (new_text files path text channel) [
      | err e ↦ err e
      | ok new ↦ ok (path, new)
    ]
  ]
]
