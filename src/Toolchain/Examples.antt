-- ===== src/Toolchain/Examples.antt =====
-- A host with rustup and one with an override and without rustup, and a project with both files.
use rust_build_server.Prelude.{
  ◌⊎◌, ◌≡◌, ◌↔◌, refl, Bool, false, ◌&&◌, List, [], ◌∷◌, Option, none, some, Bytes, bytes_eq, codes,
  ok, if◌then◌else◌,
}
use rust_build_server.Proto.Toolchain.{ToolchainFingerprint}
use rust_build_server.Config.Env.{trim, trim_start}
use rust_build_server.Toolchain.{
  check, take_chars, ancestors, find_toolchain_file, Ran, not_spawned, printed,
  fingerprint_with_path,
}
use rust_build_server.Toolchain.Print.{
  Printout, IsPrinted, unlines, vv_lines, check-fingerprint_with_path,
}
use rust_build_server.Toolchain.Nearest.{Governs, rustup_in, Differs, find_toolchain_file-rustup_in}

abbrev printout : Bytes → Printout
printout cargo = record {
  version = codes "1.95.0 (59807616e 2026-04-14)";
  date = codes "2026-04-14";
  llvm = codes "21.1.0";
  vv = record {
    release = codes "1.95.0";
    commit_hash = codes "59807616e0a1";
    host = codes "x86_64-unknown-linux-gnu";
  };
  cargo = cargo;
}

-- A host where each program but rustup prints.
abbrev host : Printout → Bytes → List Bytes → Ran
host out program args =
    if bytes_eq program (codes "rustc")
    then printed (unlines (vv_lines out.version out.date out.vv out.llvm))
    else if bytes_eq program (codes "cargo")
    then printed out.cargo
    else not_spawned

host-IsPrinted :
    (toolchain_override : Option Bytes)
    → IsPrinted (host (printout (codes "cargo 1"))) toolchain_override (printout (codes "cargo 1"))
unfolding bytes_eq trim trim_start
host-IsPrinted toolchain_override =
    (refl, refl, refl, refl, refl, ((refl, refl), (refl, refl), (refl, refl)))

check-fingerprint_with_path_example :
    (client server : ToolchainFingerprint) × (fingerprint_with_path
        (host (printout (codes "cargo 1")))
        none
      ≡ ok client)
    × (fingerprint_with_path (host (printout (codes "cargo 1"))) (some (codes "1.95")) ≡ ok server)
    × ((check (codes "laptop") client (codes "box") server ≡ ok tt) ↔ (
        (take_chars 9 (codes "59807616e0a1") ≡ take_chars 9 (codes "59807616e0a1"))
        × (codes "x86_64-unknown-linux-gnu" ≡ codes "x86_64-unknown-linux-gnu")))
check-fingerprint_with_path_example =
    check-fingerprint_with_path (codes "laptop") (codes "box") (host (printout (codes "cargo 1")))
      (host (printout (codes "cargo 1"))) none (some (codes "1.95")) (printout (codes "cargo 1"))
      (printout (codes "cargo 1")) (host-IsPrinted none) (host-IsPrinted (some (codes "1.95")))

-- Only `/work/rust-toolchain` is a file.
abbrev is_file : List Bytes → Bool
is_file [] = false
is_file (name ∷ []) = false
is_file (name ∷ dir ∷ []) = bytes_eq name (codes "rust-toolchain") && bytes_eq dir (codes "work")
is_file (name ∷ dir ∷ d ∷ dirs) = false

abbrev crate_dir : List Bytes
crate_dir = codes "crate" ∷ codes "work" ∷ []

find_toolchain_file-rustup_in_example :
    Governs is_file (ancestors crate_dir) (find_toolchain_file is_file crate_dir)
    × ((find_toolchain_file is_file crate_dir ≡ rustup_in is_file (ancestors crate_dir))
        ⊎ Differs is_file
            (ancestors crate_dir)
            (find_toolchain_file is_file crate_dir)
            (rustup_in is_file (ancestors crate_dir)))
find_toolchain_file-rustup_in_example = find_toolchain_file-rustup_in is_file crate_dir

found_above :
    find_toolchain_file is_file (codes "crate" ∷ codes "work" ∷ [])
    ≡ some (codes "rust-toolchain" ∷ codes "work" ∷ [])
unfolding find_toolchain_file bytes_eq
found_above = refl
