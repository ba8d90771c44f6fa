-- ===== src/Config/Layers.antt =====
-- crates/rbs-config/src/layers.rs: the merge of the layers. A TOML value that is not a table is kept as
-- its text; the reading of a layer, and of the settings from the merged table, is the TOML library's.
pub mod Paths
use rust_build_server.Prelude.{List, [], ◌∷◌, Option, none, some, Bytes, bytes_eq, if◌then◌else◌}

mutual
  pub data Value : Type 0 where
    leaf : Bytes → Value
    table : Table → Value

  pub data Table : Type 0 where
    empty : Table
    entry : (key : Bytes) → Value → Table → Table

unfoldable pub get : Bytes → Table → Option Value
get k empty = none
get k (entry k' v t) = if bytes_eq k k' then some v else get k t

-- `Map::insert`: in the place of the old value, or as a new entry.
unfoldable pub put : Bytes → Value → Table → Table
put k v empty = entry k v empty
put k v (entry k' v' t) =
    let rest = put k v t in if bytes_eq k k' then entry k v t else entry k' v' rest

-- What becomes of an entry of the upper layer over the value that stands there.
unfoldable mutual
  pub over_value : Option Value → Value → Value
  over_value old (leaf x) = leaf x
  over_value none (table o) = table o
  over_value (some (leaf x)) (table o) = table o
  over_value (some (table b)) (table o) = table (deep_merge b o)

  pub deep_merge : Table → Table → Table
  deep_merge base empty = base
  deep_merge base (entry k v over) = deep_merge (put k (over_value (get k base) v) base) over

-- The loop of `merge_layers`.
unfoldable pub merge_tables : Table → List Table → Table
merge_tables merged [] = merged
merge_tables merged (l ∷ layers) = merge_tables (deep_merge merged l) layers
