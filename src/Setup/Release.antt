-- ===== src/Setup/Release.antt =====
-- crates/rbs-setup/src/toolchain_sync/release.rs: the order of two hosts' toolchains, and the one to pin.
pub mod Choose
pub mod Pinned
use Prim.Native.Nat.{compare, Ordering}
use rust_build_server.Prelude.{
  ℕ, suc, ◌≡◌, Bool, true, false, ◌&&◌, ◌||◌, List, [], ◌∷◌, ◌++◌, Option, none, some, ◌==◌,
  if◌then◌else◌, length, Bytes, bytes_eq, codes, decimal, parse_u32, strip_prefix, is_digit, Result,
  ok, err,
}
use rust_build_server.Proto.Toolchain.{ToolchainFingerprint}
use rust_build_server.Config.Env.{trim, starts_with}
use rust_build_server.Toolchain.{lines}
use rust_build_server.Store.Planner.{strip_suffix}

pub data SyncPolicy : Type 0 where
  newest oldest : SyncPolicy

-- `SyncPolicy::from_str`; the message of an error is left out.
unfoldable pub parse_policy : Bytes → Option SyncPolicy
parse_policy s =
    if bytes_eq s (codes "newest")
    then some newest
    else if bytes_eq s (codes "oldest")
    then some oldest
    else none

pub data Channel : Type 0 where
  nightly beta stable : Channel

-- The place in the order of the declaration.
unfoldable pub channel_rank : Channel → ℕ
channel_rank nightly = 0
channel_rank beta = 1
channel_rank stable = 2

pub record Release : Type 0 where
  pub major : ℕ
  pub minor : ℕ
  pub patch : ℕ
  pub channel : Channel
  pub commit_date : Option Bytes

abbrev pub then_by : Ordering → Ordering → Ordering
then_by Ordering.eq o = o
then_by o _ = o

-- The derived orders, of texts, of options and of releases.
unfoldable pub cmp_bytes : Bytes → Bytes → Ordering
cmp_bytes [] [] = Ordering.eq
cmp_bytes [] (y ∷ ys) = Ordering.lt
cmp_bytes (x ∷ xs) [] = Ordering.gt
cmp_bytes (x ∷ xs) (y ∷ ys) = then_by (compare x y) (cmp_bytes xs ys)

unfoldable pub cmp_date : Option Bytes → Option Bytes → Ordering
unfolding cmp_bytes
cmp_date none none = Ordering.eq
cmp_date none (some b) = Ordering.lt
cmp_date (some a) none = Ordering.gt
cmp_date (some a) (some b) = cmp_bytes a b

unfoldable pub cmp : Release → Release → Ordering
unfolding cmp_date channel_rank
cmp a b = then_by (compare a.major b.major) (
    then_by (compare a.minor b.minor) (
      then_by (compare a.patch b.patch) (
        then_by (compare (channel_rank a.channel) (channel_rank b.channel))
          (cmp_date a.commit_date b.commit_date))))

-- `split_once`, on one byte.
unfoldable pub split_once : ℕ → Bytes → Option (Bytes × Bytes)
split_once sep [] = none
split_once sep (c ∷ cs) =
    let rest = split_once sep cs in
    if c == sep then some ([], cs) else elim rest [ none ↦ none | some r ↦ some (c ∷ r.0, r.1) ]

abbrev pub onto_first : ℕ → List Bytes → List Bytes
onto_first c [] = (c ∷ []) ∷ []
onto_first c (part ∷ parts) = (c ∷ part) ∷ parts

-- `split`, on one byte: one part more than there are separators.
unfoldable pub split : ℕ → Bytes → List Bytes
split sep [] = [] ∷ []
split sep (c ∷ cs) = let rest = split sep cs in if c == sep then [] ∷ rest else onto_first c rest

-- The version's text and its channel.
unfoldable pub channel_of : Bytes → Option (Bytes × Channel)
unfolding split_once starts_with
channel_of release = elim (split_once 45 release) [
  | none ↦ some (release, stable)
  | some parts ↦
      if bytes_eq parts.1 (codes "nightly")
      then some (parts.0, nightly)
      else if starts_with parts.1 (codes "beta")
      then some (parts.0, beta)
      else none
]

-- Exactly three numbers.
unfoldable pub parse_version : List Bytes → Option (ℕ × ℕ × ℕ)
parse_version (a ∷ b ∷ c ∷ []) = elim (parse_u32 a) [
  | none ↦ none
  | some major ↦ elim (parse_u32 b) [
    | none ↦ none
    | some minor ↦ elim (parse_u32 c) [ none ↦ none | some patch ↦ some (major, minor, patch) ]
  ]
]
parse_version parts = none

-- `Release::parse`; the one error, `UnparsableRelease` with the text, is `none`.
unfoldable pub parse : Bytes → Option Bytes → Option Release
unfolding channel_of parse_version split
parse release commit_date = elim (channel_of release) [
  | none ↦ none
  | some c ↦ elim (parse_version (split 46 c.0)) [
    | none ↦ none
    | some v ↦
        some (record {
          major = v.0;
          minor = v.1;
          patch = v.2;
          channel = c.1;
          commit_date = commit_date;
        })
  ]
]

-- `commit_date`
unfoldable pub dated : Bytes → Option Bytes
dated d = if bytes_eq d [] || bytes_eq d (codes "unknown") then none else some d

unfoldable pub date_in : List Bytes → Option Bytes
unfolding dated
date_in [] = none
date_in (line ∷ ls) = elim (strip_prefix (codes "commit-date:") line) [
  | some d ↦ dated (trim d)
  | none ↦ date_in ls
]

unfoldable pub commit_date_of : (rustc_vv : Bytes) → Option Bytes
unfolding date_in lines
commit_date_of rustc_vv = date_in (lines rustc_vv)

pub record Probe : Type 0 where
  pub fp : ToolchainFingerprint
  pub commit_date : Option Bytes

pub data Winner : Type 0 where
  local remote : Winner

pub record Target : Type 0 where
  pub winner : Winner
  pub release : Release

pub data SyncError : Type 0 where
  unparsable_release : (release : Bytes) → SyncError
  host_triple_mismatch : (local remote : Bytes) → SyncError
  undecidable : (release : Bytes) → SyncError
  floating_channel : (host name prefix : Bytes) → SyncError
  command : (host command detail : Bytes) → SyncError
  verify_failed : (host channel : Bytes) → SyncError
  diverged : (host channel : Bytes) (local remote : ToolchainFingerprint) → SyncError
  pin_io : (path : List Bytes) → SyncError
  pin_edit : (channel : Bytes) → SyncError

unfoldable pub prefers_local : SyncPolicy → Ordering → Bool
prefers_local newest Ordering.gt = true
prefers_local oldest Ordering.lt = true
prefers_local policy o = false

unfoldable pub decide :
    SyncPolicy → (local_version : Bytes) → Release → Release → Ordering → Result SyncError Target
unfolding prefers_local
decide policy local_version l r Ordering.eq = err (undecidable local_version)
decide policy local_version l r Ordering.lt = ok (
    if prefers_local policy Ordering.lt
    then record { winner = local; release = l }
    else record { winner = remote; release = r })
decide policy local_version l r Ordering.gt = ok (
    if prefers_local policy Ordering.gt
    then record { winner = local; release = l }
    else record { winner = remote; release = r })

-- `Release::of`
unfoldable pub release_of : Probe → Result SyncError Release
unfolding parse
release_of probe = elim (parse probe.fp.rustc_version probe.commit_date) [
  | none ↦ err (unparsable_release probe.fp.rustc_version)
  | some r ↦ ok r
]

unfoldable pub choose : SyncPolicy → (local remote : Probe) → Result SyncError Target
unfolding release_of cmp decide
choose policy l r =
    if bytes_eq l.fp.host r.fp.host
    then elim (release_of l) [
      | err e ↦ err e
      | ok a ↦ elim (release_of r) [
        | err e ↦ err e
        | ok b ↦ decide policy l.fp.rustc_version a b (cmp a b)
      ]
    ]
    else err (host_triple_mismatch l.fp.host r.fp.host)

-- `is_iso_date`, from the byte at the place `i`.
unfoldable pub date_from : ℕ → Bytes → Bool
date_from i [] = true
date_from i (c ∷ cs) =
    (if (i == 4) || (i == 7) then c == 45 else is_digit c) && date_from (suc i) cs

unfoldable pub is_iso_date : Bytes → Bool
unfolding date_from
is_iso_date s = (length s == 10) && date_from 0 s

-- The name without the triple and the dash before it, where it has both.
unfoldable pub without_triple : (rustup_name triple : Bytes) → Bytes
unfolding strip_suffix
without_triple rustup_name triple = elim (strip_suffix triple rustup_name) [
  | none ↦ rustup_name
  | some n ↦ elim (strip_suffix (codes "-") n) [ none ↦ rustup_name | some m ↦ m ]
]

unfoldable pub is_dated : (prefix name : Bytes) → Bool
unfolding is_iso_date
is_dated prefix name = elim (strip_prefix prefix name) [
  | none ↦ false
  | some rest ↦ elim (strip_prefix (codes "-") rest) [ none ↦ false | some date ↦ is_iso_date date ]
]

unfoldable pub pin_pre_release :
    (prefix rustup_name triple host_label : Bytes) → Result SyncError Bytes
unfolding without_triple is_dated
pin_pre_release prefix rustup_name triple host_label =
    if is_dated prefix (without_triple rustup_name triple)
    then ok (without_triple rustup_name triple)
    else err (floating_channel host_label rustup_name prefix)

unfoldable pub pin_channel :
    Release → (rustup_name triple host_label : Bytes) → Result SyncError Bytes
unfolding pin_pre_release
pin_channel r rustup_name triple host_label = elim r.channel [
  | stable ↦
      ok (decimal r.major ++ (codes "." ++ (decimal r.minor ++ (codes "." ++ decimal r.patch))))
  | nightly ↦ pin_pre_release (codes "nightly") rustup_name triple host_label
  | beta ↦ pin_pre_release (codes "beta") rustup_name triple host_label
]
