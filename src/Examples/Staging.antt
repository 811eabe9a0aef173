-- ===== src/Examples/Staging.antt =====
-- Destinations and staging plans at concrete inputs.
use clash_verge_service_ipc.Prelude.{
  ◌≡◌, refl, true, ◌&&◌, ◌||◌, not, some, List, [], ◌∷◌, map, member, Text, bytes, ok,
}
use clash_verge_service_ipc.Prelude.Split.{split, strip_prefix, join}
use clash_verge_service_ipc.Prelude.TextMap.{contains_key}
use clash_verge_service_ipc.Destination.{
  is_absolute, joined_key, resolve_key, destination_key, validate_destination, components,
  is_staging_temporary, staging_temp_name, key_parts,
}
use clash_verge_service_ipc.Destination.Keys.{IsKey, resolve_key-IsKey}
use clash_verge_service_ipc.Destination.Temporaries.{is_staging_temporary-staging_temp_name}
use clash_verge_service_ipc.Plan.{RemoteProvider, AssetSource, RuntimeManifest, plan_stage}
use clash_verge_service_ipc.Plan.Planned.{IsPlanned, plan_stage-IsPlanned}
use clash_verge_service_ipc.Plan.Sources.{destination_of, provider_destination}
use clash_verge_service_ipc.Plan.Sweep.{hygiene_deletes_exact}
use clash_verge_service_ipc.Plan.Stable.{plan_stage_stable}

abbrev raw : Text
raw = bytes "rules//a.yaml"

abbrev key : Text
key = bytes "rules/a.yaml"

resolves : resolve_key raw ≡ ok key
unfolding resolve_key validate_destination is_absolute components split destination_key key_parts
    is_staging_temporary strip_prefix joined_key join
resolves = refl

resolve_key-IsKey_example : (parts : List Text) × IsKey parts key
resolve_key-IsKey_example = resolve_key-IsKey raw key resolves

is_staging_temporary-staging_temp_name_example :
    is_staging_temporary (staging_temp_name (bytes "a.yaml.staging-x.tmp") 41 7) ≡ true
is_staging_temporary-staging_temp_name_example =
    is_staging_temporary-staging_temp_name (bytes "a.yaml.staging-x.tmp") 41 7

abbrev sources : List AssetSource
sources =
    record {
      asset = record { source = bytes "/home/a"; destination = key };
      len = 10;
      mtime_ns = some 5;
    }
    ∷ record {
      asset = record { source = bytes "/home/b"; destination = bytes "b" };
      len = 20;
      mtime_ns = some 6;
    }
    ∷ []

abbrev remote : List RemoteProvider
remote = record { destination = bytes "p"; url = bytes "https://example.org/p" } ∷ []

-- A manifest with an asset that has changed and one that is not declared any more.
abbrev previous : RuntimeManifest
previous = record {
  assets =
      (key, record { source = bytes "/home/a"; len = 9; mtime_ns = some 5 })
      ∷ (bytes "old", record { source = bytes "/home/old"; len = 1; mtime_ns = some 1 })
      ∷ [];
  remote_providers = [];
}

hygiene_deletes_exact_example :
    member (bytes "old") (plan_stage previous sources remote).hygiene_deletes ≡ (
      (contains_key (bytes "old") previous.assets
        || contains_key (bytes "old") previous.remote_providers)
      && not (
          member (bytes "old") (map destination_of sources)
          || member (bytes "old") (map provider_destination remote)))
hygiene_deletes_exact_example = hygiene_deletes_exact previous sources remote (bytes "old")

plan_stage-IsPlanned_example :
    IsPlanned previous sources remote (plan_stage previous sources remote)
plan_stage-IsPlanned_example = plan_stage-IsPlanned previous sources remote

plan_stage_stable_example :
    let again = plan_stage (plan_stage previous sources remote).manifest sources remote in
    (again.copies ≡ [])
    × (again.skipped ≡ map destination_of sources)
    × (again.required_deletes ≡ [])
plan_stage_stable_example =
    plan_stage_stable previous sources remote (refl, (refl, tt)) (refl, tt) (refl, (refl, tt))
