-- ===== src/Client/Backend/Examples.antt =====
-- Rows of the decision table, after the tests of backend.rs.
use rust_build_server.Prelude.{Bool, true, false, ◌≡◌, refl, [], ◌∷◌, some, codes}
use rust_build_server.Config.{auto, default_config, default_remote, default_local_server}
use rust_build_server.Client.Backend.{
  remote_backend, local_backend, plain_backend, RemoteProbe, probe_ok, select, consider,
  remote_skip, local_skip, probe_skip, from_millis,
}
use rust_build_server.Client.Backend.Table.{Row, RemoteOk, LocalOk, select-Row}

abbrev fast : Bool → RemoteProbe
fast accepting = probe_ok (record {
  rtt = 1500000;
  status = record {
    identity = record { hostname = codes "node0"; version = codes "0.1.0" };
    capacity = record {
      tokens_total = 8;
      tokens_free = 8;
      mem_available_bytes = 1;
      load1 = 0;
      accepting = accepting;
    };
    queued = 0;
    running = 0;
    uptime_secs = 1;
  };
})

all_usable :
    (select auto (some (fast true)) true default_config).chain
    ≡ remote_backend ∷ local_backend ∷ plain_backend ∷ []
unfolding select consider remote_skip local_skip probe_skip from_millis default_config
    default_remote default_local_server
all_usable = refl

full_server :
    (select auto (some (fast false)) true default_config).chain ≡ local_backend ∷ plain_backend ∷ []
unfolding select consider remote_skip local_skip probe_skip from_millis default_config
    default_remote default_local_server
full_server = refl

select-Row_example :
    Row auto
      (RemoteOk (some (fast true)) default_config)
      (LocalOk false default_config)
      (select auto (some (fast true)) false default_config).chain
select-Row_example = select-Row auto (some (fast true)) false default_config
