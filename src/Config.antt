-- ===== src/Config.antt =====
-- crates/rbs-config/src/lib.rs: the settings and their defaults. Paths are lists of bytes, and the widths
-- of the numbers are those of the source, which TOML's reader holds them to.
pub mod Layers
pub mod Env
mod Examples
use rust_build_server.Prelude.{
  ℕ, Bool, true, false, List, [], ◌∷◌, Option, none, some, Bytes, bytes_eq, codes, if◌then◌else◌,
}
use rust_build_server.Proto.Job.{Priority, agent}

pub data Mode : Type 0 where
  auto remote local plain : Mode

-- `Mode::from_str`; the message of an error is left out.
unfoldable pub parse_mode : Bytes → Option Mode
parse_mode s =
    if bytes_eq s (codes "auto")
    then some auto
    else if bytes_eq s (codes "remote")
    then some remote
    else if bytes_eq s (codes "local")
    then some local
    else if bytes_eq s (codes "plain")
    then some plain
    else none

pub data PostBuild : Type 0 where
  pull_and_link no_post_build : PostBuild

pub record Remote : Type 0 where
  pub host : Bytes
  pub enabled : Bool
  pub max_rtt_ms : ℕ
  pub connect_timeout_ms : ℕ
  pub remote_bin : Bytes

unfoldable pub default_remote : Remote
default_remote = record {
  host = codes "node0";
  enabled = true;
  max_rtt_ms = 40;
  connect_timeout_ms = 3000;
  remote_bin = codes ".local/bin/rbs";
}

pub record LocalServer : Type 0 where
  pub enabled : Bool
  pub socket : Bytes
  pub autostart : Bool

unfoldable pub default_local_server : LocalServer
default_local_server = record {
  enabled = true;
  socket = codes "~/.local/state/rbs/server.sock";
  autostart = true;
}

pub record Policy : Type 0 where
  pub mode : Mode
  pub local_subcommands : List Bytes
  pub post_build : PostBuild
  pub env_allowlist : List Bytes
  pub priority : Priority

unfoldable pub default_policy : Policy
default_policy = record {
  mode = auto;
  local_subcommands = codes "run" ∷ [];
  post_build = pull_and_link;
  env_allowlist =
      codes "CARGO_*"
      ∷ codes "RUST*"
      ∷ codes "CC"
      ∷ codes "CXX"
      ∷ codes "PKG_CONFIG_*"
      ∷ codes "SQLX_OFFLINE"
      ∷ codes "DATABASE_URL"
      ∷ [];
  priority = agent;
}

pub record ServerConfig : Type 0 where
  pub tokens : ℕ
  pub reserve_cores : ℕ
  pub max_jobs : ℕ
  pub min_mem_available_gib : ℕ
  pub job_mem_max_gib : ℕ
  pub queue_limit : ℕ
  pub job_timeout_secs : ℕ

unfoldable pub default_server : ServerConfig
default_server = record {
  tokens = 0;
  reserve_cores = 2;
  max_jobs = 8;
  min_mem_available_gib = 8;
  job_mem_max_gib = 24;
  queue_limit = 32;
  job_timeout_secs = 3600;
}

pub record Store : Type 0 where
  pub max_size_gib : ℕ
  pub low_watermark_percent : ℕ
  pub min_age_hours : ℕ
  pub touch : Bool
  pub touch_after_hours : ℕ

unfoldable pub default_store : Store
default_store = record {
  max_size_gib = 40;
  low_watermark_percent = 90;
  min_age_hours = 24;
  touch = true;
  touch_after_hours = 24;
}

pub record Sync : Type 0 where
  pub rsync_path : Bytes
  pub extra_excludes : List Bytes
  pub force_include : List Bytes

unfoldable pub default_sync : Sync
default_sync = record { rsync_path = codes "rsync"; extra_excludes = []; force_include = [] }

pub record Bootstrap : Type 0 where
  pub server : Bytes
  pub clients : List Bytes
  pub push_secrets : Bool
  pub toolchain : Bytes
  pub kache_bin : Bytes
  pub shim_on_path : Bool

unfoldable pub default_bootstrap : Bootstrap
default_bootstrap = record {
  server = codes "node0";
  clients = [];
  push_secrets = false;
  toolchain = [];
  kache_bin = [];
  shim_on_path = true;
}

pub record Config : Type 0 where
  pub remote : Remote
  pub local_server : LocalServer
  pub policy : Policy
  pub server : ServerConfig
  pub store : Store
  pub sync : Sync
  pub bootstrap : Bootstrap

unfoldable pub default_config : Config
unfolding default_remote default_local_server default_policy default_server default_store
    default_sync default_bootstrap
default_config = record {
  remote = default_remote;
  local_server = default_local_server;
  policy = default_policy;
  server = default_server;
  store = default_store;
  sync = default_sync;
  bootstrap = default_bootstrap;
}
