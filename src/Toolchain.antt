-- ===== src/Toolchain.antt =====
-- crates/rbs-toolchain/src/lib.rs: the fingerprint of the toolchain of a directory. What a program prints is
-- a parameter, as a decoded text; a directory is the list of its names, the last first. The white space that
-- is trimmed is ASCII's.
pub mod Print
pub mod Nearest
mod Examples
use rust_build_server.Prelude.{
  ℕ, zero, suc, Bool, true, false, ◌&&◌, ◌||◌, List, [], ◌∷◌, ◌++◌, Option, none, some, ◌==◌, ltb,
  leb, if◌then◌else◌, Bytes, codes, strip_prefix, Result, ok, err, ◌>>=◌,
}
use rust_build_server.Proto.Toolchain.{ToolchainFingerprint, compatible_with}
use rust_build_server.Config.Env.{trim, trim_start}

pub record Mismatch : Type 0 where
  pub client_host : Bytes
  pub client : ToolchainFingerprint
  pub server_host : Bytes
  pub server : ToolchainFingerprint

unfoldable pub check :
    (client_host : Bytes) (client : ToolchainFingerprint) (server_host : Bytes)
    (server : ToolchainFingerprint)
    → Result Mismatch Unit
check client_host client server_host server =
    if compatible_with client server
    then ok tt
    else err (record {
      client_host = client_host;
      client = client;
      server_host = server_host;
      server = server;
    })

-- The directories from one up to the root.
unfoldable pub ancestors : List Bytes → List (List Bytes)
ancestors [] = [] ∷ []
ancestors (name ∷ dir) = (name ∷ dir) ∷ ancestors dir

unfoldable pub file_in : (is_file : List Bytes → Bool) → List (List Bytes) → Option (List Bytes)
file_in is_file [] = none
file_in is_file (dir ∷ dirs) =
    let rest = file_in is_file dirs in
    if is_file (codes "rust-toolchain.toml" ∷ dir)
    then some (codes "rust-toolchain.toml" ∷ dir)
    else if is_file (codes "rust-toolchain" ∷ dir)
    then some (codes "rust-toolchain" ∷ dir)
    else rest

unfoldable pub find_toolchain_file :
    (is_file : List Bytes → Bool) → List Bytes → Option (List Bytes)
unfolding ancestors file_in
find_toolchain_file is_file cwd = file_in is_file (ancestors cwd)

-- A byte before the first line of a text, which is new if there is none.
unfoldable pub prepend : ℕ → List Bytes → List Bytes
prepend c [] = (c ∷ []) ∷ []
prepend c (line ∷ lines) = (c ∷ line) ∷ lines

unfoldable pub begins_with_lf : Bytes → Bool
begins_with_lf [] = false
begins_with_lf (c ∷ cs) = c == 10

-- `str::lines`
unfoldable pub lines : Bytes → List Bytes
unfolding prepend begins_with_lf
lines [] = []
lines (c ∷ cs) =
    let rest = lines cs in
    if c == 10 then [] ∷ rest else if (c == 13) && begins_with_lf cs then rest else prepend c rest

-- `chars().take(n).collect()`, on UTF-8.
unfoldable pub take_chars : ℕ → Bytes → Bytes
take_chars n [] = []
take_chars zero (c ∷ cs) =
    let more = take_chars zero cs in if leb 128 c && ltb c 192 then c ∷ more else []
take_chars (suc n) (c ∷ cs) =
    let same = take_chars (suc n) cs in
    let more = take_chars n cs in if leb 128 c && ltb c 192 then c ∷ same else c ∷ more

pub record RustcVv : Type 0 where
  pub release : Bytes
  pub commit_hash : Bytes
  pub host : Bytes

-- The texts of an error but for the program's or the field's name are left out.
pub data ToolchainError : Type 0 where
  spawn failed : (program : Bytes) → ToolchainError
  parse : (field : Bytes) → ToolchainError

unfoldable pub field_in : (key : Bytes) → List Bytes → Option Bytes
field_in key [] = none
field_in key (line ∷ lines) = elim (strip_prefix key line) [
  | some v ↦ some (trim v)
  | none ↦ field_in key lines
]

-- `field(out, key).ok_or(...)`
unfoldable pub require : (name : Bytes) → Option Bytes → Result ToolchainError Bytes
require name none = err (parse name)
require name (some v) = ok v

unfoldable pub parse_lines : List Bytes → Result ToolchainError RustcVv
unfolding field_in require take_chars
parse_lines ls = do
  release ← require (codes "release") (field_in (codes "release:") ls)
  host ← require (codes "host") (field_in (codes "host:") ls)
  commit_hash ← require (codes "commit-hash") (field_in (codes "commit-hash:") ls)
  ok (record { release = release; commit_hash = take_chars 9 commit_hash; host = host })

unfoldable pub parse_rustc_vv : Bytes → Result ToolchainError RustcVv
unfolding parse_lines lines
parse_rustc_vv out = parse_lines (lines out)

-- With the `+` that `run_with_path` puts before the name.
unfoldable pub args_with_override : (toolchain_override : Option Bytes) → List Bytes → List Bytes
args_with_override none args = args
args_with_override (some name) args = (codes "+" ++ name) ∷ args

-- How a program runs in a directory with a `PATH` and `RBS_SHIM_ACTIVE=1`: not at all, or with or without
-- success, and what it prints.
pub data Ran : Type 0 where
  not_spawned unsuccessful : Ran
  printed : (stdout : Bytes) → Ran

unfoldable pub output_of : (program : Bytes) → Ran → Result ToolchainError Bytes
output_of program not_spawned = err (spawn program)
output_of program unsuccessful = err (failed program)
output_of program (printed out) = ok out

unfoldable pub run_with_path :
    (run : (program : Bytes) → List Bytes → Ran) (program : Bytes)
    → List Bytes
    → (toolchain_override : Option Bytes) → Result ToolchainError Bytes
unfolding output_of args_with_override
run_with_path run program args toolchain_override =
    output_of program (run program (args_with_override toolchain_override args))

-- `split_whitespace().next().unwrap_or_default()`
unfoldable pub until_space : Bytes → Bytes
until_space [] = []
until_space (c ∷ cs) =
    let rest = until_space cs in if (c == 32) || (leb 9 c && leb c 13) then [] else c ∷ rest

unfoldable pub first_word : Result ToolchainError Bytes → Bytes
unfolding until_space
first_word (ok s) = until_space (trim_start s)
first_word (err e) = []

unfoldable pub toolchain_name : (run : (program : Bytes) → List Bytes → Ran) → Option Bytes → Bytes
unfolding run_with_path first_word
toolchain_name run (some name) = name
toolchain_name run none =
    first_word
      (run_with_path run (codes "rustup") (codes "show" ∷ codes "active-toolchain" ∷ []) none)

unfoldable pub fingerprint_with_path :
    (run : (program : Bytes) → List Bytes → Ran) (toolchain_override : Option Bytes)
    → Result ToolchainError ToolchainFingerprint
unfolding run_with_path toolchain_name
fingerprint_with_path run toolchain_override = do
  out ← run_with_path run (codes "rustc") (codes "-vV" ∷ []) toolchain_override
  vv ← parse_rustc_vv out
  cargo ← run_with_path run (codes "cargo") (codes "-V" ∷ []) toolchain_override
  ok (record {
    rustc_commit = vv.commit_hash;
    rustc_version = vv.release;
    host = vv.host;
    cargo_version = trim cargo;
    toolchain_name = toolchain_name run toolchain_override;
  })
