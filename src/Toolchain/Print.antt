-- ===== src/Toolchain/Print.antt =====
-- What `rustc -vV` prints is read back, and decides whether two hosts may build for each other.
use rust_build_server.Prelude.{
  ℕ, ◌≡◌, ◌↔◌, refl, ap, ◌∙◌, arith, Bool, true, List, [], ◌∷◌, ◌++◌, Option, ◌==◌, Bytes, codes,
  strip_prefix, ok, All, all, not, ◌&&◌, Bool-cases, inl, inr,
}
use rust_build_server.Proto.Toolchain.{ToolchainFingerprint, compatible_with, compatible_with_iff}
use rust_build_server.Config.Env.{trim, trim_start}
use rust_build_server.Toolchain.{
  check, lines, prepend, take_chars, RustcVv, field_in, require, parse_lines, parse_rustc_vv, Ran,
  printed, output_of, args_with_override, run_with_path, toolchain_name, fingerprint_with_path,
}

-- A line's own bytes, and a value that `trim` leaves as it is.
abbrev pub line_byte : ℕ → Bool
line_byte c = not (c == 10) && not (c == 13)

abbrev pub IsLine : Bytes → Type 0
IsLine line = all line_byte line ≡ true

abbrev pub IsValue : Bytes → Type 0
IsValue v = IsLine v × (trim v ≡ v)

abbrev pub IsVv : RustcVv → Type 0
IsVv vv = IsValue vv.release × IsValue vv.commit_hash × IsValue vv.host

abbrev pub unlines : List Bytes → Bytes
unlines [] = []
unlines (line ∷ rest) = line ++ 10 ∷ unlines rest

-- What `rustc -vV` prints: a first line with the version, and a line for each field.
abbrev pub vv_lines : (version date : Bytes) → RustcVv → (llvm : Bytes) → List Bytes
vv_lines version date vv llvm =
    (codes "rustc " ++ version)
    ∷ codes "binary: rustc"
    ∷ (codes "commit-hash: " ++ vv.commit_hash)
    ∷ (codes "commit-date: " ++ date)
    ∷ (codes "host: " ++ vv.host)
    ∷ (codes "release: " ++ vv.release)
    ∷ (codes "LLVM version: " ++ llvm)
    ∷ []

lines-line : (line rest : Bytes) → IsLine line → lines (line ++ 10 ∷ rest) ≡ line ∷ lines rest
unfolding lines prepend
lines-line [] rest h = refl
lines-line (c ∷ line) rest h = ground (arith, h, lines-line line rest (ground (arith, h)))

lines-unlines : (ls : List Bytes) → All IsLine ls → lines (unlines ls) ≡ ls
unfolding lines
lines-unlines [] h = refl
lines-unlines (line ∷ ls) h =
    lines-line line (unlines ls) h.0 ∙ ap (λ t. line ∷ t) (lines-unlines ls h.1)

-- A space before a value is trimmed too.
trim-space : (v : Bytes) → IsValue v → trim (32 ∷ v) ≡ v
unfolding trim trim_start
trim-space v h = h.1

vv_lines-IsLine :
    (version date llvm : Bytes) (vv : RustcVv)
    → IsLine version
    → IsLine date
    → IsLine llvm
    → IsVv vv
    → All IsLine (vv_lines version date vv llvm)
vv_lines-IsLine version date llvm vv iv id il h =
    (iv, (refl, (h.1.0, (id, (h.2.0, (h.0.0, (il, tt)))))))

shortened : RustcVv → RustcVv
shortened vv = record vv { commit_hash = take_chars 9 vv.commit_hash }

parse_lines-vv_lines :
    (version date llvm : Bytes) (vv : RustcVv)
    → IsVv vv
    → parse_lines (vv_lines version date vv llvm) ≡ ok (shortened vv)
unfolding parse_lines field_in require strip_prefix shortened
parse_lines-vv_lines version date llvm vv h =
    rw (trim-space vv.release h.0, trim-space vv.commit_hash h.1, trim-space vv.host h.2) refl

parse_rustc_vv-unlines :
    (version date llvm : Bytes) (vv : RustcVv)
    → IsLine version
    → IsLine date
    → IsLine llvm
    → IsVv vv
    → parse_rustc_vv (unlines (vv_lines version date vv llvm)) ≡ ok (shortened vv)
unfolding parse_rustc_vv
parse_rustc_vv-unlines version date llvm vv iv id il h =
    ap parse_lines (
      lines-unlines (vv_lines version date vv llvm)
        (vv_lines-IsLine version date llvm vv iv id il h))
    ∙ parse_lines-vv_lines version date llvm vv h

-- What a host's programs print in a directory.
pub record Printout : Type 0 where
  pub version : Bytes
  pub date : Bytes
  pub llvm : Bytes
  pub vv : RustcVv
  pub cargo : Bytes

abbrev pub IsPrinted : (run : Bytes → List Bytes → Ran) → Option Bytes → Printout → Type 0
IsPrinted run toolchain_override out =
    (run (codes "rustc") (args_with_override toolchain_override (codes "-vV" ∷ []))
      ≡ printed (unlines (vv_lines out.version out.date out.vv out.llvm)))
    × (run (codes "cargo") (args_with_override toolchain_override (codes "-V" ∷ []))
        ≡ printed out.cargo)
    × IsLine out.version
    × IsLine out.date
    × IsLine out.llvm
    × IsVv out.vv

fingerprint_of : (run : Bytes → List Bytes → Ran) → Option Bytes → Printout → ToolchainFingerprint
unfolding shortened
fingerprint_of run toolchain_override out = record {
  rustc_commit = take_chars 9 out.vv.commit_hash;
  rustc_version = out.vv.release;
  host = out.vv.host;
  cargo_version = trim out.cargo;
  toolchain_name = toolchain_name run toolchain_override;
}

fingerprint_with_path-IsPrinted :
    (run : Bytes → List Bytes → Ran) (toolchain_override : Option Bytes) (out : Printout)
    → IsPrinted run toolchain_override out
    → fingerprint_with_path run toolchain_override ≡ ok (fingerprint_of run toolchain_override out)
unfolding fingerprint_with_path run_with_path output_of fingerprint_of
fingerprint_with_path-IsPrinted run toolchain_override out (rustc, cargo, iv, id, il, h) =
    rw (rustc, parse_rustc_vv-unlines out.version out.date out.llvm out.vv iv id il h, cargo) refl

check-ok :
    (client_host server_host : Bytes) (client server : ToolchainFingerprint)
    → (check client_host client server_host server ≡ ok tt)
      ↔ ((client.rustc_commit ≡ server.rustc_commit) × (client.host ≡ server.host))
unfolding check
check-ok client_host server_host client server = elim (Bool-cases (compatible_with client server)) [
  | inl same ↦ ground (arith, same, compatible_with_iff client server)
  | inr differ ↦ ground (arith, differ, compatible_with_iff client server)
]

-- Where the programs of two hosts print what `rustc` and `cargo` print, each with its own override of the
-- toolchain and with or without rustup, both fingerprints are made; and the check passes exactly if the
-- first nine characters of the commits are the same and the host triples are: the releases, the versions
-- of cargo and the names of the toolchains do not matter.
pub check-fingerprint_with_path :
    (client_host server_host : Bytes) (client_run server_run : Bytes → List Bytes → Ran)
    (client_override server_override : Option Bytes) (c s : Printout)
    → IsPrinted client_run client_override c
    → IsPrinted server_run server_override s
    → (client server : ToolchainFingerprint) × (fingerprint_with_path client_run client_override
        ≡ ok client)
      × (fingerprint_with_path server_run server_override ≡ ok server)
      × ((check client_host client server_host server ≡ ok tt) ↔ (
          (take_chars 9 c.vv.commit_hash ≡ take_chars 9 s.vv.commit_hash)
          × (c.vv.host ≡ s.vv.host)))
unfolding fingerprint_of
check-fingerprint_with_path client_host server_host client_run server_run client_override
      server_override c s hc hs =
    let client = fingerprint_of client_run client_override c in
    let server = fingerprint_of server_run server_override s in
    (
      client,
      server,
      fingerprint_with_path-IsPrinted client_run client_override c hc,
      fingerprint_with_path-IsPrinted server_run server_override s hs,
      check-ok client_host server_host client server,
    )
