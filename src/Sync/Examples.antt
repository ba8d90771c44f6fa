-- ===== src/Sync/Examples.antt =====
-- A workspace's command line, and what it sends.
use rust_build_server.Prelude.{◌≡◌, refl, true, false, [], ◌∷◌, none, bytes_eq, codes, strip_prefix}
use rust_build_server.Sync.{RsyncPlan, source, destination, argv}
use rust_build_server.Sync.Filters.{rule_of, Entry, every, passes, is_sent, argv-is_sent}

abbrev plan : RsyncPlan
plan = record {
  rsync_path = codes "rsync";
  root = codes "/p/";
  host = codes "h";
  excludes = codes "*.log" ∷ [];
  force_include = codes ".env" ∷ [];
}

argv_test : argv plan ≡ (
    codes "rsync"
    ∷ codes "-a"
    ∷ codes "--delete"
    ∷ codes "--mkpath"
    ∷ codes "--include=.env"
    ∷ codes "--filter=:- .gitignore"
    ∷ codes "--exclude=.git/"
    ∷ codes "--exclude=target/"
    ∷ codes "--exclude=*.log"
    ∷ codes "/p/"
    ∷ codes "h:/p/"
    ∷ [])
unfolding argv
argv_test = refl

plain_program : rule_of (codes "rsync") ≡ none
unfolding rule_of strip_prefix bytes_eq
plain_program = refl

plain_source : rule_of (source plan) ≡ none
unfolding rule_of source strip_prefix bytes_eq
plain_source = refl

plain_destination : rule_of (destination plan) ≡ none
unfolding rule_of destination strip_prefix bytes_eq
plain_destination = refl

-- The directory `target`, and a file `.env` in a directory, which a `.gitignore` names.
abbrev target_dir : Entry
target_dir = record { matches = λ pattern. bytes_eq pattern (codes "target/"); ignored = true }

abbrev env_file : Entry
env_file = record { matches = λ pattern. bytes_eq pattern (codes ".env"); ignored = true }

argv-is_sent_example :
    is_sent (argv plan) (target_dir ∷ env_file ∷ [])
    ≡ every (passes plan) (target_dir ∷ env_file ∷ [])
argv-is_sent_example =
    argv-is_sent plan (target_dir ∷ env_file ∷ []) plain_program plain_source plain_destination

-- A file that is included is not sent from below `target/`, and is from the root.
below_target_test : is_sent (argv plan) (target_dir ∷ env_file ∷ []) ≡ false
unfolding bytes_eq
below_target_test = argv-is_sent_example

at_root_test : is_sent (argv plan) (env_file ∷ []) ≡ true
unfolding bytes_eq
at_root_test = argv-is_sent plan (env_file ∷ []) plain_program plain_source plain_destination

-- A plan whose `force_include` is the pattern `target/` sends what lies below it.
abbrev target_plan : RsyncPlan
target_plan = record plan { force_include = codes "target/" ∷ [] }

abbrev object_file : Entry
object_file = record { matches = λ pattern. false; ignored = false }

target_sent_test : is_sent (argv target_plan) (target_dir ∷ object_file ∷ []) ≡ true
unfolding bytes_eq source destination
target_sent_test =
    argv-is_sent target_plan (target_dir ∷ object_file ∷ []) plain_program plain_source
      plain_destination
