-- ===== src/Generation/Materialize.antt =====
-- The execution of a plan (src/core/runtime_generation/assets.rs, `materialize_plan`): deletions,
-- copies, the manifest and the configuration, and then the sweep.
use clash_verge_service_ipc.Prelude.{
  Bool, List, [], ◌∷◌, if◌then◌else◌, Text, Result, ok, err, map_err, Action, pure, fail, modify,
  ◌>>=◌, ◌>>◌, inspect,
}
use clash_verge_service_ipc.Prelude.TextMap.{remove}
use clash_verge_service_ipc.ServiceError.{ServiceError, invalid_asset}
use clash_verge_service_ipc.Destination.{
  resolve_in_generation, runtime_config_file_name, manifest_file_name,
}
use clash_verge_service_ipc.Plan.{RuntimeManifest, PlannedCopy, StagePlan}
use clash_verge_service_ipc.Generation.{Os, IoError, Host}
use clash_verge_service_ipc.Generation.Write.{
  remove_staged_file, copy_staged_file, source_identity_changed, Serde, join, commit_staged_config,
}

-- Both executions of a plan, a start and a staging, do the same to the files. They differ in what a
-- failure ends with, and in the answer to a source that has changed while it was copied.
pub record Answers (E : Type 0) : Type 0 where
  pub of_service : ServiceError → E
  pub of_io : IoError → E
  pub of_change : PlannedCopy → RuntimeManifest → Result E RuntimeManifest

module _ {E : Type 0} (answers : Answers E) where
  abbrev pub or_io : {A : Type 0} → Action IoError Host A → Action E Host A
  or_io step h = (map_err answers.of_io (step h).0, (step h).1)

  abbrev pub at_target :
      {A : Type 0} → Result ServiceError Text → (Text → Action E Host A) → Action E Host A
  at_target (ok target) k = k target
  at_target (err error) k = fail (answers.of_service error)

  unfoldable pub remove_required : Os → Text → List Text → Action E Host Unit
  unfolding resolve_in_generation remove_staged_file
  remove_required os generation [] = pure tt
  remove_required os generation (destination ∷ later) = do
    at_target (resolve_in_generation generation destination)
        (λ target. or_io (remove_staged_file os target))
    remove_required os generation later

  abbrev pub recorded_after : PlannedCopy → RuntimeManifest → Bool → Result E RuntimeManifest
  recorded_after copy manifest has_changed =
      if has_changed then answers.of_change copy manifest else ok manifest

  -- A copy, and then the comparison of the source with what the plan has noted.
  unfoldable pub copy_planned :
      Os → Text → PlannedCopy → RuntimeManifest → Action E Host RuntimeManifest
  unfolding resolve_in_generation copy_staged_file source_identity_changed
  copy_planned os generation copy manifest = do
    at_target (resolve_in_generation generation copy.destination)
        (λ target. or_io (copy_staged_file os copy.source target))
    λ h.
        let (has_changed, h') = source_identity_changed copy.source copy.identity h in
        (recorded_after copy manifest has_changed, h')

  unfoldable pub copy_all :
      Os → Text → List PlannedCopy → RuntimeManifest → Action E Host RuntimeManifest
  unfolding copy_planned
  copy_all os generation [] manifest = pure manifest
  copy_all os generation (copy ∷ later) manifest =
      copy_planned os generation copy manifest >>= copy_all os generation later

  -- A manifest that describes a configuration which was not committed is discarded.
  abbrev pub or_forget : Os → Text → Result IoError Unit → Action E Host Unit
  or_forget os generation (ok _) = pure tt
  or_forget os generation (err error) = λ h.
      (err (answers.of_io error), (remove_staged_file os (join generation manifest_file_name) h).1)

  unfoldable pub commit : Os → Serde → Text → Text → Text → RuntimeManifest → Action E Host Unit
  unfolding commit_staged_config remove_staged_file
  commit os serde generation config_path yaml manifest =
      inspect (commit_staged_config os serde generation config_path yaml manifest)
        (or_forget os generation)

-- Failures of the sweep are ignored.
abbrev pub swept : Os → Result ServiceError Text → Host → Host
swept os (ok target) h = (remove_staged_file os target h).1
swept os (err error) h = h

unfoldable pub sweep : Os → Text → List Text → Host → Host
unfolding resolve_in_generation remove_staged_file
sweep os generation [] h = h
sweep os generation (destination ∷ later) h =
    sweep os generation later (swept os (resolve_in_generation generation destination) h)

-- A source that has changed is left out of the manifest.
abbrev pub start_answers : Answers ServiceError
start_answers = record {
  of_service = λ error. error;
  of_io = λ error. invalid_asset;
  of_change =
      λ copy manifest. ok (record manifest { assets = remove copy.destination manifest.assets });
}

unfoldable pub materialize_plan :
    Os → Serde → Text → StagePlan → Text → Action ServiceError Host Unit
unfolding remove_required copy_all commit sweep
materialize_plan os serde generation plan yaml = do
  remove_required start_answers os generation plan.required_deletes
  manifest ← copy_all start_answers os generation plan.copies plan.manifest
  commit start_answers os serde generation (join generation runtime_config_file_name) yaml manifest
  modify (sweep os generation plan.hygiene_deletes) tt
