-- ===== src/Examples/Runtime.antt =====
-- The runtime generation at concrete inputs.
use clash_verge_service_ipc.Prelude.{
  ℕ, ◌+◌, ◌≤◌, ◌≡◌, refl, none, some, [], ◌∷◌, bytes, Text, text_eq, ltb, if◌then◌else◌, All, map,
  ok, err, Action,
}
use clash_verge_service_ipc.Prelude.Split.{split, strip_prefix}
use clash_verge_service_ipc.AnyError.{other_kind}
use clash_verge_service_ipc.Structure.{ClashConfig}
use clash_verge_service_ipc.Destination.{
  resolve_in_generation, resolve_key, validate_destination, destination_key, components,
  is_absolute, key_parts, joined_key, is_staging_temporary, components_from, component_of,
  is_service_owned, eq_ignore_ascii_case,
}
use clash_verge_service_ipc.Manager.{running_core_config}
use clash_verge_service_ipc.Plan.{
  StagePlan, default_manifest, declared_remote_providers, declare_all,
}
use clash_verge_service_ipc.Plan.Sources.{destination_of}
use clash_verge_service_ipc.Plan.Stable.{AllDifferent}
use clash_verge_service_ipc.Generation.{
  Os, linux, windows, IoError, SourceFile, ordinary, Host, Turn, file_name, arrive, call, metadata,
}
use clash_verge_service_ipc.Generation.Retry.{
  Rounds, while_the_core_lets_go, while_the_core_lets_go-Rounds,
}
use clash_verge_service_ipc.Generation.Gather.{
  RuntimeBundle, GatheredBundle, gather_bundle, gather_assets, gather_asset, validate_source,
  canonical_regular_file, application_bundle_root,
}
use clash_verge_service_ipc.Generation.Gather.Permitted.{IsPermitted, gather_bundle-IsPermitted}
use clash_verge_service_ipc.Generation.Write.{Serde}
use clash_verge_service_ipc.Generation.Materialize.{materialize_plan}
use clash_verge_service_ipc.Generation.Stage.{stage_runtime}
use clash_verge_service_ipc.Generation.Effects.Outcomes.{Configured, materialize_plan-Configured}
use clash_verge_service_ipc.Generation.Effects.Untouched.{IsUnnamed, materialize_plan-Untouched}
use clash_verge_service_ipc.Generation.Effects.Staging.{Shows, stage_runtime-Shows}
use clash_verge_service_ipc.Examples.Data.{alice, clash_config, idle_manager}

-- A sharing violation, which goes away after three rounds.
abbrev busy : IoError
busy = record { kind = other_kind; raw_os_error = some 32 }

abbrev busy_until_three : Action IoError ℕ Unit
busy_until_three n = (if ltb n 3 then err busy else ok tt, n + 1)

abbrev windows_11 : Os
windows_11 = windows (5 ∷ 32 ∷ [])

while_the_core_lets_go-Rounds_example :
    (n : ℕ) × (n ≤ 7)
    × Rounds windows_11 busy_until_three 0 0
        (while_the_core_lets_go windows_11 busy_until_three 0).0
        (while_the_core_lets_go windows_11 busy_until_three 0).1
        n
while_the_core_lets_go-Rounds_example = while_the_core_lets_go-Rounds windows_11 busy_until_three 0

-- An encoding that keeps no entry.
abbrev serde : Serde
serde = record { to_vec = λ manifest. some (bytes "{}"); from_slice = λ s. some default_manifest }

abbrev generation : Text
generation = bytes "/var/lib/runtime"

abbrev rules : Text
rules = bytes "/Users/alice/rules.yaml"

abbrev rules_file : SourceFile
rules_file = record {
  kind = ordinary;
  canonical = rules;
  contents = bytes "DIRECT";
  mtime_ns = some 5;
}

abbrev core_file : SourceFile
core_file = record rules_file { canonical = bytes "/usr/bin/core" }

abbrev live_config : ClashConfig
live_config = record clash_config {
  core_config = record clash_config.core_config {
    config_dir = generation;
    config_path = bytes "/var/lib/runtime/config.yaml";
  };
}

-- The rename of the manifest fails once.
abbrev quiet : Turn
quiet = record { sources = none; core = none; fault = none; part = [] }

abbrev host : Host
host = record {
  manager = record idle_manager { running_pid = 44; running_config = some live_config };
  sources = λ path.
      if text_eq path rules
      then some rules_file
      else if text_eq path (bytes "/usr/bin/core")
      then some core_file
      else none;
  files = λ path.
      if text_eq path (bytes "/var/lib/runtime/config.yaml") then some (bytes "old") else none;
  turns = quiet ∷ quiet ∷ record quiet { fault = some busy; part = bytes "DI" } ∷ [];
  sequence = 0;
  pid = 7;
}

abbrev plan : StagePlan
plan = record {
  required_deletes = bytes "cache" ∷ [];
  copies =
      record {
        source = rules;
        destination = bytes "rules.yaml";
        identity = record { source = rules; len = 6; mtime_ns = some 5 };
      }
      ∷ [];
  skipped = [];
  hygiene_deletes = [];
  manifest = default_manifest;
}

materialize_plan-Configured_example :
    Configured linux serde generation
      (bytes "new")
      (some (bytes "old"))
      (materialize_plan linux serde generation plan (bytes "new") host).0
      (materialize_plan linux serde generation plan (bytes "new") host).1
materialize_plan-Configured_example =
    materialize_plan-Configured linux serde generation (bytes "new") plan host

abbrev cache_db : Text
cache_db = bytes "/var/lib/runtime/cache.db"

cache_db-IsUnnamed : IsUnnamed generation plan cache_db
unfolding file_name is_staging_temporary resolve_in_generation resolve_key validate_destination
    components is_absolute split destination_key key_parts strip_prefix joined_key components_from
    component_of is_service_owned eq_ignore_ascii_case
cache_db-IsUnnamed = record {
  ordinary = refl;
  no_config = refl;
  no_manifest = refl;
  not_removed = (refl, tt);
  not_copied = (refl, tt);
  not_swept = tt;
}

materialize_plan-Untouched_example :
    (materialize_plan linux serde generation plan (bytes "new") host).1.files cache_db ≡ none
materialize_plan-Untouched_example =
    materialize_plan-Untouched linux serde generation (bytes "new") plan host cache_db
      cache_db-IsUnnamed

abbrev bundle : RuntimeBundle
bundle = record {
  yaml = bytes "new";
  core_path = bytes "/usr/bin/core";
  assets = record { source = rules; destination = bytes "rules.yaml" } ∷ [];
  remote_providers = [];
}

lives : running_core_config (arrive host).manager ≡ some (44, live_config)
unfolding running_core_config
lives = refl

stage_runtime-Shows_example :
    Shows live_config
      (bytes "new")
      (some (bytes "old"))
      (stage_runtime linux serde alice bundle host).0
      (stage_runtime linux serde alice bundle host).1
stage_runtime-Shows_example =
    stage_runtime-Shows linux serde alice bundle live_config 44 host lives refl

abbrev gathered : GatheredBundle
gathered = record {
  sources =
      record {
        asset = record { source = rules; destination = bytes "rules.yaml" };
        len = 6;
        mtime_ns = some 5;
      }
      ∷ [];
  remote = [];
}

abbrev calm : Host
calm = record host { turns = [] }

gathers : (gather_bundle linux alice bundle (bytes "/usr/bin/core") calm).0 ≡ ok gathered
unfolding gather_bundle gather_assets gather_asset validate_source canonical_regular_file call
    metadata components components_from component_of is_absolute split resolve_key
    validate_destination destination_key key_parts joined_key is_staging_temporary strip_prefix
    is_service_owned eq_ignore_ascii_case declared_remote_providers declare_all
    application_bundle_root
gathers = refl

gather_bundle-IsPermitted_example :
    All (IsPermitted alice (application_bundle_root linux (bytes "/usr/bin/core"))) gathered.sources
    × AllDifferent (map destination_of gathered.sources)
gather_bundle-IsPermitted_example =
    gather_bundle-IsPermitted linux alice bundle (bytes "/usr/bin/core") calm gathered gathers
