-- ===== src/Setup/Shell.antt =====
-- crates/rbs-setup/src/bootstrap.rs, `shell_quote`, `login_shell_args` and `toolchain_installed`; and what
-- a POSIX shell makes of a quoted word.
use rust_build_server.Prelude.{
  ℕ, ◌≡◌, refl, ap, sym, ◌∙◌, ==_iff, Bool, false, ◌||◌, List, [], ◌∷◌, ◌++◌, Option, none, some,
  ◌==◌, if◌then◌else◌, any, leb, ◌&&◌, Bytes, bytes_eq, codes, Bool-cases, inl, inr,
}
use rust_build_server.Config.Env.{trim_start, starts_with}
use rust_build_server.Toolchain.{lines, until_space}

-- `s.replace('\'', r"'\''")`
unfoldable pub replace_quotes : Bytes → Bytes
replace_quotes [] = []
replace_quotes (c ∷ cs) =
    let rest = replace_quotes cs in if c == 39 then 39 ∷ 92 ∷ 39 ∷ 39 ∷ rest else c ∷ rest

unfoldable pub shell_quote : Bytes → Bytes
unfolding replace_quotes
shell_quote s = 39 ∷ replace_quotes s ++ 39 ∷ []

unfoldable pub login_shell_args : (host cmd : Bytes) → List Bytes
unfolding shell_quote
login_shell_args host cmd = host ∷ codes "bash" ∷ codes "-lc" ∷ shell_quote cmd ∷ []

-- `split_whitespace().next()`
unfoldable pub first_of_line : Bytes → Option Bytes
unfolding until_space
first_of_line line = elim (trim_start line) [ [] ↦ none | c ∷ cs ↦ some (until_space (c ∷ cs)) ]

unfoldable pub names_channel : (channel : Bytes) → Option Bytes → Bool
unfolding starts_with
names_channel channel none = false
names_channel channel (some name) = bytes_eq name channel || starts_with name (channel ++ codes "-")

unfoldable pub toolchain_installed : (list channel : Bytes) → Bool
unfolding names_channel first_of_line lines
toolchain_installed list channel =
    any (λ line. names_channel channel (first_of_line line)) (lines list)

-- How a POSIX shell reads a word, outside quotes (false) and inside single ones: a backslash outside makes
-- the next byte literal, and so do the quotes, up to the next. White space and operators outside quotes end
-- the word or mean something, and an open quote is an error: then nothing is read.
pub data Quoting : Type 0 where
  outside inside escaped : Quoting

-- Bytes that stand for themselves outside quotes: digits and letters.
abbrev pub is_plain : ℕ → Bool
is_plain c = (leb 48 c && leb c 57) || (leb 65 c && leb c 90) || (leb 97 c && leb c 122)

abbrev onto_word : ℕ → Option Bytes → Option Bytes
onto_word c none = none
onto_word c (some w) = some (c ∷ w)

unfoldable pub read_word : Quoting → Bytes → Option Bytes
read_word outside [] = some []
read_word inside [] = none
read_word escaped [] = none
read_word inside (c ∷ cs) =
    let after = read_word outside cs in
    let more = read_word inside cs in if c == 39 then after else onto_word c more
read_word escaped (c ∷ cs) = onto_word c (read_word outside cs)
read_word outside (c ∷ cs) =
    let quoted = read_word inside cs in
    let literal = read_word escaped cs in
    let more = read_word outside cs in
    if c == 39
    then quoted
    else if c == 92
    then literal
    else if is_plain c
    then onto_word c more
    else none

read_word-replace_quotes : (s : Bytes) → read_word inside (replace_quotes s ++ 39 ∷ []) ≡ some s
unfolding read_word replace_quotes
read_word-replace_quotes [] = refl
read_word-replace_quotes (c ∷ s) = elim (Bool-cases (c == 39)) [
  | inl quote ↦ rw quote (
      ap (onto_word 39) (read_word-replace_quotes s)
      ∙ ap (λ t. some (t ∷ s)) (sym ((==_iff c 39).0 quote)))
  | inr other ↦ rw other (rw other (ap (onto_word c) (read_word-replace_quotes s)))
]

-- A shell reads a quoted text, whatever its bytes, as one word that is the text itself.
pub read_word-shell_quote : (s : Bytes) → read_word outside (shell_quote s) ≡ some s
unfolding shell_quote read_word
read_word-shell_quote s = read_word-replace_quotes s
