-- ===== src/Store/Planner.antt =====
-- crates/rbs-store/src/planner.rs: which objects a collection of the store evicts. A time is its number of
-- nanoseconds from the epoch, and the sums of sizes wrap at 64 bits.
pub mod Evict
pub mod Sums
pub mod Outcome
mod Examples
use rust_build_server.Prelude.{
  ℕ, zero, suc, ◌+◌, ◌-◌, ◌*◌, ◌/◌, ◌%◌, ◌^◌, Bool, true, false, not, ◌&&◌, ◌||◌, List, [], ◌∷◌,
  ◌++◌, Option, none, some, ltb, leb, ◌==◌, if◌then◌else◌, length, map, all, Bytes, codes, bytes_eq,
  bytes_ltb, strip_prefix, insert, lookup, ℤ, pos, ◌-ℤ◌, leb_ℤ, ltb_ℤ, max_ℤ,
}
use mathlib.Core.List.{reverse}
use rust_build_server.Config.{Store}

-- `?` on an `Option`
infixl 20 ◌>>=◌
abbrev ◌>>=◌ : {A B : Type 0} → Option A → (A → Option B) → Option B
none >>= f = none
some a >>= f = f a

pub record RemoteObject : Type 0 where
  pub key : Bytes
  pub size : ℕ
  pub last_modified : ℤ

pub data ObjectKind : Type 0 where
  pack manifest : ObjectKind

pub record ParsedKey : Type 0 where
  pub kind : ObjectKind
  pub crate_name : Bytes
  pub cache_key : Bytes

-- `u64` addition and subtraction.
unfoldable pub add_u64 : ℕ → ℕ → ℕ
add_u64 a b = (a + b) % 2 ^ 64

unfoldable pub sub_u64 : ℕ → ℕ → ℕ
sub_u64 a b = if leb b a then a - b else 2 ^ 64 + a - b

abbrev pub slash : ℕ
slash = b'/'

-- `split('/')`
unfoldable pub split_slash : Bytes → List Bytes
split_slash [] = [] ∷ []
split_slash (c ∷ cs) = elim (split_slash cs) [
  | [] ↦ (c ∷ []) ∷ []
  | part ∷ parts ↦ if c == slash then [] ∷ part ∷ parts else (c ∷ part) ∷ parts
]

unfoldable pub strip_suffix : Bytes → Bytes → Option Bytes
strip_suffix suffix s = elim (strip_prefix (reverse suffix) (reverse s)) [
  | none ↦ none
  | some r ↦ some (reverse r)
]

unfoldable pub is_hex : ℕ → Bool
is_hex b = (leb b'0' b && leb b b'9') || (leb b'a' b && leb b b'f')

unfoldable pub parse_kind : Bytes → Option ObjectKind
parse_kind s =
    if bytes_eq s (codes "packs")
    then some pack
    else if bytes_eq s (codes "manifests")
    then some manifest
    else none

unfoldable pub stem_of : ObjectKind → Bytes → Option Bytes
stem_of pack file = strip_suffix (codes ".tar.zst") file
stem_of manifest file = strip_suffix (codes ".json") file

abbrev pub is_empty : {A : Type 0} → List A → Bool
is_empty [] = true
is_empty (x ∷ xs) = false

-- The parts after `split('/')`.
unfoldable pub parse_parts : List Bytes → Option ParsedKey
parse_parts (v ∷ k ∷ crate_name ∷ file ∷ []) =
    if not (bytes_eq v (codes "v3")) || is_empty crate_name then none else do
      kind ← parse_kind k
      stem ← stem_of kind file
      if (length stem == 64) && all is_hex stem
          then some (record { kind = kind; crate_name = crate_name; cache_key = stem })
          else none
parse_parts _ = none

-- The key below the store's prefix.
unfoldable pub relative : Bytes → Bytes → Option Bytes
relative [] key = some key
relative (c ∷ prefix) key = do rest ← strip_prefix (c ∷ prefix) key; strip_prefix (slash ∷ []) rest

unfoldable pub parse_object_key : Bytes → Bytes → Option ParsedKey
parse_object_key prefix key = do rel ← relative prefix key; parse_parts (split_slash rel)

pub record GcParams : Type 0 where
  pub max_bytes : ℕ
  pub watermark_bytes : ℕ
  pub min_age : ℤ
  pub now : ℤ

abbrev pub hours : ℕ → ℤ
hours h = pos (h * 3600000000000)

unfoldable pub from_store_config : Store → ℤ → GcParams
from_store_config store now =
    let max_bytes = store.max_size_gib * (1024 * 1024 * 1024) in
    let percent =
      if leb store.low_watermark_percent 100 then store.low_watermark_percent else 100 in
    record {
      max_bytes = max_bytes;
      watermark_bytes = max_bytes / 100 * percent + max_bytes % 100 * percent / 100;
      min_age = hours store.min_age_hours;
      now = now;
    }

pub data EvictReason : Type 0 where
  orphan lfu : EvictReason

pub record Eviction : Type 0 where
  pub cache_key : Bytes
  pub crate_name : Bytes
  pub objects : List RemoteObject
  pub hit_count : ℤ
  pub last_accessed : ℤ
  pub last_modified : ℤ
  pub reason : EvictReason

unfoldable pub bytes_of : List RemoteObject → ℕ
bytes_of [] = 0
bytes_of (o ∷ os) = add_u64 o.size (bytes_of os)

pub record GcPlan : Type 0 where
  pub scanned : ℕ
  pub total_bytes : ℕ
  pub evictions : List Eviction
  pub freed_bytes : ℕ
  pub skipped_young : ℕ
  pub junk : List RemoteObject

pub record Group : Type 0 where
  pub crate_name : Bytes
  pub pack_object : Option RemoteObject
  pub manifest_object : Option RemoteObject

abbrev pub no_group : Group
no_group = record { crate_name = []; pack_object = none; manifest_object = none }

abbrev pub option_to_list : {A : Type 0} → Option A → List A
option_to_list none = []
option_to_list (some a) = a ∷ []

unfoldable pub group_objects : Group → List RemoteObject
group_objects g = option_to_list g.pack_object ++ option_to_list g.manifest_object

abbrev pub touch_tmp_suffix : Bytes
touch_tmp_suffix = codes ".touch-tmp"

unfoldable pub ends_with : Bytes → Bytes → Bool
ends_with s suffix = elim (strip_suffix suffix s) [ none ↦ false | some r ↦ true ]

-- The first loop: the junk, the managed objects and their bytes.
pub record Listing : Type 0 where
  pub junk : List RemoteObject
  pub managed : List RemoteObject
  pub total_bytes : ℕ

unfoldable pub classify_one : (cutoff : ℤ) → RemoteObject → Listing → Listing
classify_one cutoff o l =
    if ends_with o.key touch_tmp_suffix
    then (if leb_ℤ o.last_modified cutoff then record l { junk = l.junk ++ o ∷ [] } else l)
    else record l { managed = l.managed ++ o ∷ []; total_bytes = add_u64 l.total_bytes o.size }

unfoldable pub classify : (cutoff : ℤ) → List RemoteObject → Listing → Listing
classify cutoff [] l = l
classify cutoff (o ∷ os) l = classify cutoff os (classify_one cutoff o l)

-- `key.find("v3/")`, with the byte before it.
unfoldable pub from_marker : (before : Option ℕ) → Bytes → Option (Option ℕ × Bytes)
from_marker before [] = none
from_marker before (c ∷ cs) = elim (strip_prefix (codes "v3/") (c ∷ cs)) [
  | some rest ↦ some (before, c ∷ cs)
  | none ↦ from_marker (some c) cs
]

unfoldable pub key_without_prefix : Bytes → Bytes
key_without_prefix key = elim (from_marker none key) [
  | none ↦ key
  | some m ↦ elim m.0 [ none ↦ m.1 | some b ↦ if b == slash then m.1 else key ]
]

unfoldable pub with_object : ParsedKey → RemoteObject → Group → Group
with_object p o g = elim p.kind [
  | pack ↦ record g { crate_name = p.crate_name; pack_object = some o }
  | manifest ↦ record g { crate_name = p.crate_name; manifest_object = some o }
]

abbrev pub or_no_group : Option Group → Group
or_no_group none = no_group
or_no_group (some g) = g

-- One managed object enters the group of its cache key; an object that is not the collection's does not.
unfoldable pub group_in : RemoteObject → List (Bytes × Group) → List (Bytes × Group)
group_in o groups = elim (parse_object_key [] (key_without_prefix o.key)) [
  | none ↦ groups
  | some p ↦ insert p.cache_key (with_object p o (or_no_group (lookup p.cache_key groups))) groups
]

unfoldable pub group_all : List RemoteObject → List (Bytes × Group) → List (Bytes × Group)
group_all [] groups = groups
group_all (o ∷ os) groups = group_all os (group_in o groups)

pub record Usage : Type 0 where
  pub hit_count : ℤ
  pub last_accessed : Option ℤ

abbrev pub or_unused : Option Usage → Usage
or_unused none = record { hit_count = pos 0; last_accessed = none }
or_unused (some u) = u

-- The newest of the times, or `now` if there is none.
unfoldable pub newest : (now : ℤ) → List RemoteObject → ℤ
newest now [] = now
newest now (o ∷ []) = o.last_modified
newest now (o ∷ o' ∷ os) = max_ℤ o.last_modified (newest now (o' ∷ os))

abbrev pub recency : Option ℤ → ℤ → ℤ
recency none modified = modified
recency (some accessed) modified = max_ℤ accessed modified

abbrev pub reason_of : Group → EvictReason
reason_of g = elim g.pack_object [
  | none ↦ orphan
  | some p ↦ elim g.manifest_object [ none ↦ orphan | some m ↦ lfu ]
]

unfoldable pub candidate : (now : ℤ) → List (Bytes × Usage) → Bytes × Group → Eviction
candidate now index (cache_key, g) =
    let objects = group_objects g in
    let modified = newest now objects in
    let usage = or_unused (lookup cache_key index) in
    record {
      cache_key = cache_key;
      crate_name = g.crate_name;
      objects = objects;
      hit_count = usage.hit_count;
      last_accessed = recency usage.last_accessed modified;
      last_modified = modified;
      reason = reason_of g;
    }

abbrev pub not_orphan : EvictReason → ℕ
not_orphan orphan = 0
not_orphan lfu = 1

-- The order of the candidates: orphans first, then by hits, recency and key.
unfoldable pub before : Eviction → Eviction → Bool
before a b =
    ltb (not_orphan a.reason) (not_orphan b.reason)
    || ((not_orphan a.reason == not_orphan b.reason)
        && (ltb_ℤ a.hit_count b.hit_count
            || (not (ltb_ℤ b.hit_count a.hit_count)
                && (ltb_ℤ a.last_accessed b.last_accessed
                    || (not (ltb_ℤ b.last_accessed a.last_accessed)
                        && bytes_ltb a.cache_key b.cache_key)))))

-- `sort_by` is a stable sort: each element goes behind those before it that are not greater.
unfoldable pub insert_sorted : Eviction → List Eviction → List Eviction
insert_sorted a [] = a ∷ []
insert_sorted a (b ∷ bs) =
    let rest = insert_sorted a bs in if before b a then b ∷ rest else a ∷ b ∷ bs

unfoldable pub sort : List Eviction → List Eviction
sort [] = []
sort (a ∷ rest) = insert_sorted a (sort rest)

-- The last loop, with its `remaining`.
unfoldable pub evict :
    (watermark : ℕ) → (cutoff : ℤ) → (remaining : ℕ) → List Eviction → GcPlan → GcPlan
evict watermark cutoff remaining [] plan = plan
evict watermark cutoff remaining (c ∷ cs) plan =
    let skipped =
      evict watermark cutoff remaining cs
        (record plan { skipped_young = add_u64 plan.skipped_young (length c.objects) }) in
    let evicted = evict watermark cutoff (sub_u64 remaining (bytes_of c.objects)) cs (record plan {
      freed_bytes = add_u64 plan.freed_bytes (bytes_of c.objects);
      evictions = plan.evictions ++ c ∷ [];
    }) in
    if leb remaining watermark
    then plan
    else if ltb_ℤ cutoff c.last_accessed
    then skipped
    else evicted

unfoldable pub plan : List RemoteObject → List (Bytes × Usage) → GcParams → GcPlan
plan objects index params =
    let cutoff = params.now -ℤ params.min_age in
    let l = classify cutoff objects (record { junk = []; managed = []; total_bytes = 0 }) in
    let start : GcPlan = record {
      scanned = length objects;
      total_bytes = l.total_bytes;
      evictions = [];
      freed_bytes = 0;
      skipped_young = 0;
      junk = l.junk;
    } in
    let candidates = sort (map (candidate params.now index) (group_all l.managed [])) in
    if leb l.total_bytes params.max_bytes
    then start
    else evict params.watermark_bytes cutoff l.total_bytes candidates start
