-- ===== src/Setup/Examples.antt =====
-- A laptop with an older stable toolchain and a server with a newer one.
use rust_build_server.Prelude.{
  ◌≡◌, refl, arith, true, false, [], ◌∷◌, ◌++◌, none, some, Bytes, bytes_eq, codes, pos, parse_u32,
  digits_from, ok,
}
use rust_build_server.Setup.Commands.{Runner}
use rust_build_server.Setup.Shell.{shell_quote, read_word, outside, read_word-shell_quote}
use rust_build_server.Setup.Release.{
  newest, stable, Release, Probe, remote, choose, pin_channel, parse,
}
use rust_build_server.Setup.Release.Choose.{swapped, choose-swapped}
use rust_build_server.Setup.Release.Pinned.{pin_channel-parse}
use rust_build_server.Setup.Pin.{Files}
use rust_build_server.Setup.Sync.{sync}
use rust_build_server.Setup.Sync.Order.{IsSafe, sync-IsSafe}

abbrev probe : (version commit : Bytes) → Probe
probe version commit = record {
  fp = record {
    rustc_commit = commit;
    rustc_version = version;
    host = codes "x86_64-unknown-linux-gnu";
    cargo_version = [];
    toolchain_name = version;
  };
  commit_date = none;
}

abbrev laptop : Probe
laptop = probe (codes "1.95.0") (codes "59807616e")

abbrev server : Probe
server = probe (codes "1.96.1") (codes "0a1b2c3d4")

abbrev release : Release
release = record { major = 1; minor = 96; patch = 1; channel = stable; commit_date = none }

chosen : choose newest laptop server ≡ ok (record { winner = remote; release = release })
unfolding choose parse bytes_eq parse_u32 digits_from
chosen = refl

choose-swapped_example :
    choose newest server laptop ≡ ok (swapped (record { winner = remote; release = release }))
choose-swapped_example =
    choose-swapped newest laptop server (record { winner = remote; release = release }) chosen

pin_channel-parse_example :
    (s : Bytes) × (pin_channel release [] (codes "x86_64-unknown-linux-gnu") (codes "box") ≡ ok s)
    × (parse s none ≡ some release)
pin_channel-parse_example =
    pin_channel-parse release [] (codes "x86_64-unknown-linux-gnu") (codes "box") refl
      (ground arith) (ground arith) (ground arith)

read_word-shell_quote_example :
    read_word outside (shell_quote (codes "it's $HOME; rm")) ≡ some (codes "it's $HOME; rm")
read_word-shell_quote_example = read_word-shell_quote (codes "it's $HOME; rm")

-- Each program succeeds and prints the same: no toolchain for a list, and a build for `rustc`.
abbrev vv : Bytes
vv =
    codes "release: 1.96.1"
    ++ 10 ∷ (codes "host: x86_64-unknown-linux-gnu" ++ 10 ∷ codes "commit-hash: 0a1b2c3d4")

abbrev answering : Runner
answering h program args = ok (record { status = some (pos 0); stdout = vv; stderr = [] })

-- No file is there; what is written is read back.
abbrev files : Files
files = record {
  is_file = λ path. false;
  read = λ path. none;
  can_write = λ path. true;
  read_toml = λ text. some (codes "1.96.1");
}

sync-IsSafe_example :
    IsSafe files
      (codes "box")
      (codes "w" ∷ [])
      (sync answering files (codes "box") (codes "w" ∷ []) newest laptop server []).1
sync-IsSafe_example =
    sync-IsSafe answering files (codes "box") (codes "w" ∷ []) newest laptop server
