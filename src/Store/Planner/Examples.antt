-- ===== src/Store/Planner/Examples.antt =====
-- A small store over its cap, after the tests of planner.rs.
use rust_build_server.Prelude.{
  ℕ, ◌≡◌, refl, List, [], ◌∷◌, ◌++◌, Bytes, codes, replicate, pos, arith, strip_prefix, bytes_eq,
  bytes_ltb, lookup, insert, ◌-ℤ◌,
}
use rust_build_server.Store.Planner.{
  RemoteObject, GcParams, plan, evict, classify, classify_one, ends_with, strip_suffix, add_u64,
  sub_u64, bytes_of, group_all, group_in, with_object, group_objects, candidate, newest, sort,
  insert_sorted, before, parse_object_key, relative, split_slash, parse_parts, parse_kind, stem_of,
  is_hex, key_without_prefix, from_marker,
}
use rust_build_server.Store.Planner.Outcome.{Planned, plan-Planned}

abbrev object : Bytes → Bytes → ℕ → RemoteObject
object kind file size = record {
  key = codes "kache/v3/" ++ kind ++ codes "/serde/" ++ file;
  size = size;
  last_modified = pos 10;
}

abbrev key_a : Bytes
key_a = replicate 64 97

abbrev listing : List RemoteObject
listing =
    object (codes "packs") (key_a ++ codes ".tar.zst") 60
    ∷ object (codes "manifests") (key_a ++ codes ".json") 5
    ∷ object (codes "packs") (replicate 64 98 ++ codes ".tar.zst") 40
    ∷ []

abbrev params : GcParams
params = record { max_bytes = 100; watermark_bytes = 90; min_age = pos 5; now = pos 100 }

plan-Planned_example : Planned listing [] params (plan listing [] params)
plan-Planned_example = plan-Planned listing [] params (omega arith)

-- The prefix hides the marker: the key is returned whole.
hidden_marker : key_without_prefix (codes "mv3/v3/packs/a/b") ≡ codes "mv3/v3/packs/a/b"
unfolding key_without_prefix from_marker strip_prefix
hidden_marker = refl

seen_marker : key_without_prefix (codes "kache/v3/packs/a/b") ≡ codes "v3/packs/a/b"
unfolding key_without_prefix from_marker strip_prefix
seen_marker = refl

-- The pack without a manifest goes first, and is enough.
orphan_first : (plan listing [] params).freed_bytes ≡ 40
unfolding plan evict classify classify_one ends_with strip_suffix add_u64 sub_u64 bytes_of group_all
    group_in with_object group_objects candidate newest sort insert_sorted before parse_object_key
    relative split_slash parse_parts parse_kind stem_of is_hex key_without_prefix from_marker
    strip_prefix bytes_eq bytes_ltb lookup insert ◌-ℤ◌
orphan_first = refl
