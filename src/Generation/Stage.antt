-- ===== src/Generation/Stage.antt =====
-- The staging of a bundle beside a live core (src/core/runtime_generation/staging.rs,
-- `stage_runtime`).
use clash_verge_service_ipc.Prelude.{
  ℕ, Bool, false, ◌==◌, not, Option, none, some, if◌then◌else◌, Text, Result, ok, err, Action, pure,
  fail, modify, ◌>>=◌, ◌>>◌,
}
use clash_verge_service_ipc.ServiceError.{ServiceError}
use clash_verge_service_ipc.Structure.{AuthenticatedOwner, ClashConfig}
use clash_verge_service_ipc.Destination.{components}
use clash_verge_service_ipc.Manager.{running_core_config}
use clash_verge_service_ipc.Plan.{RuntimeManifest, StagePlan, plan_stage}
use clash_verge_service_ipc.Generation.{Os, Host, arrive}
use clash_verge_service_ipc.Generation.Gather.{
  RuntimeBundle, GatheredBundle, path_eq, validate_core_path, gather_bundle,
}
use clash_verge_service_ipc.Generation.Write.{Serde, read_manifest}
use clash_verge_service_ipc.Generation.Materialize.{
  Answers, remove_required, copy_all, commit, sweep,
}

-- src/core/structure.rs
pub data StageRejection : Type 0 where
  core_not_running core_path_changed runtime_unwritable core_restarted : StageRejection

pub data StageRuntimeOutcome : Type 0 where
  staged : Text → StageRuntimeOutcome
  restart_required : StageRejection → StageRuntimeOutcome

-- A staging ends early with an error, or with the advice to restart.
pub data Halt : Type 0 where
  refused : ServiceError → Halt
  declined : StageRejection → Halt

abbrev pub stage_answers : Answers Halt
stage_answers = record {
  of_service = refused;
  of_io = λ error. declined runtime_unwritable;
  of_change = λ copy manifest. err (declined runtime_unwritable);
}

-- The core that is live when the manager's lock is taken.
abbrev pub live_core : Action Halt Host (Option (ℕ × ClashConfig))
live_core h = (ok (running_core_config (arrive h).manager), arrive h)

abbrev pub has_pid : ℕ → Option (ℕ × ClashConfig) → Bool
has_pid pid none = false
has_pid pid (some (other, config)) = other == pid

-- The watchdog may have replaced the core in the meantime.
abbrev pub unless_restarted : ℕ → Option (ℕ × ClashConfig) → Action Halt Host Unit
unless_restarted core_pid current =
    if has_pid core_pid current then pure tt else fail (declined core_restarted)

-- From the plan to the committed configuration.
unfoldable pub apply_plan : Os → Serde → ℕ → ClashConfig → StagePlan → Text → Action Halt Host Text
unfolding remove_required copy_all commit sweep
apply_plan os serde core_pid running plan yaml = do
  remove_required stage_answers os running.core_config.config_dir plan.required_deletes
  manifest ← copy_all stage_answers os running.core_config.config_dir plan.copies plan.manifest
  current ← live_core
  unless_restarted core_pid current
  commit stage_answers os serde running.core_config.config_dir running.core_config.config_path yaml
      manifest
  modify (sweep os running.core_config.config_dir plan.hygiene_deletes)
      running.core_config.config_path

abbrev pub as_outcome : Result Halt Text → Result ServiceError StageRuntimeOutcome
as_outcome (ok config_path) = ok (staged config_path)
as_outcome (err (refused error)) = err error
as_outcome (err (declined reason)) = ok (restart_required reason)

abbrev pub with_previous :
    Os
    → Serde
    → ℕ
    → ClashConfig
    → GatheredBundle
    → Text
    → Result Unit RuntimeManifest
    → Action ServiceError Host StageRuntimeOutcome
with_previous os serde core_pid running gathered yaml (err u) =
    pure (restart_required runtime_unwritable)
with_previous os serde core_pid running gathered yaml (ok previous) = λ h.
    let plan = plan_stage previous gathered.sources gathered.remote in
    let (result, h') = apply_plan os serde core_pid running plan yaml h in (as_outcome result, h')

abbrev pub with_core_path :
    Os
    → Serde
    → AuthenticatedOwner
    → RuntimeBundle
    → ℕ
    → ClashConfig
    → Text
    → Action ServiceError Host StageRuntimeOutcome
with_core_path os serde owner bundle core_pid running core_path =
    if not (path_eq (components running.core_config.core_path) (components core_path))
    then pure (restart_required core_path_changed)
    else gather_bundle os owner bundle core_path >>= λ gathered h.
        let (previous, h') = read_manifest serde running.core_config.config_dir h in
        with_previous os serde core_pid running gathered bundle.yaml previous h'

abbrev pub with_live :
    Os
    → Serde
    → AuthenticatedOwner
    → RuntimeBundle
    → Option (ℕ × ClashConfig)
    → Action ServiceError Host StageRuntimeOutcome
with_live os serde owner bundle none = pure (restart_required core_not_running)
with_live os serde owner bundle (some (core_pid, running)) =
    validate_core_path os owner bundle.core_path
    >>= with_core_path os serde owner bundle core_pid running

unfoldable pub stage_runtime :
    Os → Serde → AuthenticatedOwner → RuntimeBundle → Action ServiceError Host StageRuntimeOutcome
unfolding validate_core_path gather_bundle read_manifest apply_plan
stage_runtime os serde owner bundle h =
    with_live os serde owner bundle (running_core_config (arrive h).manager) (arrive h)
