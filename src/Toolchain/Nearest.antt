-- ===== src/Toolchain/Nearest.antt =====
-- Which toolchain file governs a directory, for this code and for rustup.
use rust_build_server.Prelude.{
  ◌≡◌, refl, ap, Bool, true, false, List, [], ◌∷◌, ◌++◌, Option, none, some, ◌⊎◌, inl, inr, Bytes,
  codes, All, Bool-cases, if◌then◌else◌,
}
use rust_build_server.Toolchain.{ancestors, file_in, find_toolchain_file}

-- No toolchain file stands in the directory.
abbrev pub IsBare : (List Bytes → Bool) → List Bytes → Type 0
IsBare is_file dir =
    (is_file (codes "rust-toolchain.toml" ∷ dir) ≡ false)
    × (is_file (codes "rust-toolchain" ∷ dir) ≡ false)

-- The file of a directory: the one with the extension, or the other where that is missing.
abbrev pub IsFileOf : (List Bytes → Bool) → List Bytes → List Bytes → Type 0
IsFileOf is_file dir file =
    ((file ≡ codes "rust-toolchain.toml" ∷ dir) × (is_file file ≡ true))
    ⊎ ((file ≡ codes "rust-toolchain" ∷ dir)
        × (is_file file ≡ true)
        × (is_file (codes "rust-toolchain.toml" ∷ dir) ≡ false))

-- Where a search ends.
abbrev pub Governs : (List Bytes → Bool) → List (List Bytes) → Option (List Bytes) → Type 0
Governs is_file dirs none = All (IsBare is_file) dirs
Governs is_file dirs (some file) =
    (nearer : List (List Bytes)) × (dir : List Bytes) × (farther : List (List Bytes)) × (dirs
      ≡ nearer ++ dir ∷ farther)
    × All (IsBare is_file) nearer
    × IsFileOf is_file dir file

Governs-farther :
    (is_file : List Bytes → Bool) (dir : List Bytes) (dirs : List (List Bytes))
    (found : Option (List Bytes))
    → IsBare is_file dir
    → Governs is_file dirs found
    → Governs is_file (dir ∷ dirs) found
Governs-farther is_file dir dirs none bare h = (bare, h)
Governs-farther is_file dir dirs (some file) bare (nearer, at, farther, split, bares, of) =
    (dir ∷ nearer, at, farther, ap (λ t. dir ∷ t) split, (bare, bares), of)

file_in-Governs :
    (is_file : List Bytes → Bool) (dirs : List (List Bytes))
    → Governs is_file dirs (file_in is_file dirs)
unfolding file_in
file_in-Governs is_file [] = tt
file_in-Governs is_file (dir ∷ dirs) =
    elim (Bool-cases (is_file (codes "rust-toolchain.toml" ∷ dir))) [
      | inl toml ↦ rw toml ([], dir, dirs, refl, tt, inl (refl, toml))
      | inr no_toml ↦ elim (Bool-cases (is_file (codes "rust-toolchain" ∷ dir))) [
        | inl plain ↦ rw (no_toml, plain) ([], dir, dirs, refl, tt, inr (refl, plain, no_toml))
        | inr no_plain ↦
            rw (no_toml, no_plain)
              (Governs-farther is_file dir dirs (file_in is_file dirs) (no_toml, no_plain)
                (file_in-Governs is_file dirs))
      ]
    ]

-- The search as rustup documents it: from a directory upwards, and `rust-toolchain` where a directory has
-- both files.
abbrev pub rustup_in : (List Bytes → Bool) → List (List Bytes) → Option (List Bytes)
rustup_in is_file [] = none
rustup_in is_file (dir ∷ dirs) =
    let rest = rustup_in is_file dirs in
    if is_file (codes "rust-toolchain" ∷ dir)
    then some (codes "rust-toolchain" ∷ dir)
    else if is_file (codes "rust-toolchain.toml" ∷ dir)
    then some (codes "rust-toolchain.toml" ∷ dir)
    else rest

-- The nearest directory that has a file has both, and the searches take different ones.
abbrev pub Differs :
    (List Bytes → Bool) → List (List Bytes) → (found rustups : Option (List Bytes)) → Type 0
Differs is_file dirs found rustups =
    (nearer : List (List Bytes)) × (dir : List Bytes) × (farther : List (List Bytes)) × (dirs
      ≡ nearer ++ dir ∷ farther)
    × All (IsBare is_file) nearer
    × (is_file (codes "rust-toolchain.toml" ∷ dir) ≡ true)
    × (is_file (codes "rust-toolchain" ∷ dir) ≡ true)
    × (found ≡ some (codes "rust-toolchain.toml" ∷ dir))
    × (rustups ≡ some (codes "rust-toolchain" ∷ dir))

Differs-farther :
    (is_file : List Bytes → Bool) (dir : List Bytes) (dirs : List (List Bytes))
    (found rustups : Option (List Bytes))
    → IsBare is_file dir
    → (found ≡ rustups) ⊎ Differs is_file dirs found rustups
    → (found ≡ rustups) ⊎ Differs is_file (dir ∷ dirs) found rustups
Differs-farther is_file dir dirs found rustups bare (inl same) = inl same
Differs-farther is_file dir dirs found rustups bare
      (inr (nearer, at, farther, split, bares, toml, plain, ours, theirs)) =
    inr
      (dir ∷ nearer, at, farther, ap (λ t. dir ∷ t) split, (bare, bares), toml, plain, ours, theirs)

file_in-rustup_in :
    (is_file : List Bytes → Bool) (dirs : List (List Bytes))
    → (file_in is_file dirs ≡ rustup_in is_file dirs)
      ⊎ Differs is_file dirs (file_in is_file dirs) (rustup_in is_file dirs)
unfolding file_in
file_in-rustup_in is_file [] = inl refl
file_in-rustup_in is_file (dir ∷ dirs) =
    elim (Bool-cases (is_file (codes "rust-toolchain.toml" ∷ dir))) [
      | inl toml ↦ elim (Bool-cases (is_file (codes "rust-toolchain" ∷ dir))) [
        | inl plain ↦ rw (toml, plain) (inr ([], dir, dirs, refl, tt, toml, plain, refl, refl))
        | inr no_plain ↦ rw (toml, no_plain) (inl refl)
      ]
      | inr no_toml ↦ elim (Bool-cases (is_file (codes "rust-toolchain" ∷ dir))) [
        | inl plain ↦ rw (no_toml, plain) (inl refl)
        | inr no_plain ↦
            rw (no_toml, no_plain)
              (Differs-farther is_file dir dirs (file_in is_file dirs) (rustup_in is_file dirs)
                (no_toml, no_plain) (file_in-rustup_in is_file dirs))
      ]
    ]

-- The file that is found stands in the nearest directory, from the given one upwards, that has one of
-- `rust-toolchain.toml` and `rust-toolchain`, the former where it has both, and none is found where none
-- has either. It is the file that rustup takes, but in one case: that nearest directory has both files,
-- where rustup takes `rust-toolchain`.
pub find_toolchain_file-rustup_in :
    (is_file : List Bytes → Bool) (cwd : List Bytes)
    → Governs is_file (ancestors cwd) (find_toolchain_file is_file cwd)
      × ((find_toolchain_file is_file cwd ≡ rustup_in is_file (ancestors cwd))
          ⊎ Differs is_file
              (ancestors cwd)
              (find_toolchain_file is_file cwd)
              (rustup_in is_file (ancestors cwd)))
unfolding find_toolchain_file
find_toolchain_file-rustup_in is_file cwd =
    (file_in-Governs is_file (ancestors cwd), file_in-rustup_in is_file (ancestors cwd))
