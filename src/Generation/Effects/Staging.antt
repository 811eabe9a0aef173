-- ===== src/Generation/Effects/Staging.antt =====
-- What a staging leaves of the configuration (src/core/runtime_generation/staging.rs,
-- `stage_runtime`).
use clash_verge_service_ipc.Prelude.{
  After, After-resume, ℕ, Bool, true, false, ◌≡◌, refl, sym, not, Option, some, if◌then◌else◌, map,
  Text, Result, ok, err, Action, pure, fail, ◌>>=◌,
}
use mathlib.Core.Path.{subst}
use clash_verge_service_ipc.ServiceError.{ServiceError}
use clash_verge_service_ipc.Structure.{AuthenticatedOwner, ClashConfig}
use clash_verge_service_ipc.Destination.{runtime_config_file_name, components}
use clash_verge_service_ipc.Manager.{running_core_config}
use clash_verge_service_ipc.Plan.{RuntimeManifest, StagePlan, plan_stage}
use clash_verge_service_ipc.Generation.{Os, Host, arrive, call}
use clash_verge_service_ipc.Generation.Gather.{
  RuntimeBundle, GatheredBundle, path_eq, validate_core_path, gather_bundle,
}
use clash_verge_service_ipc.Generation.Write.{Serde, join, read_manifest}
use clash_verge_service_ipc.Generation.Materialize.{remove_required, copy_all, commit}
use clash_verge_service_ipc.Generation.Stage.{
  core_restarted, StageRuntimeOutcome, staged, restart_required, core_path_changed, Halt, refused,
  declined, stage_answers, unless_restarted, has_pid, apply_plan, as_outcome, with_previous,
  with_core_path, with_live, stage_runtime,
}
use clash_verge_service_ipc.Generation.Effects.{At}
use clash_verge_service_ipc.Generation.Effects.Plans.{
  copy_destination, remove_required-At, copy_all-At, sweep-At,
}
use clash_verge_service_ipc.Generation.Effects.Owned.{
  config-IsOwned, join-Ordinary, owned-Clear-All,
}
use clash_verge_service_ipc.Generation.Effects.Outcomes.{commit-Configured}
use clash_verge_service_ipc.Generation.Effects.Gathering.{
  validate_core_path-IsRead, gather_bundle-IsRead,
}

-- The live core reads the configuration of the generation that it was started with.
abbrev pub IsGeneration : ClashConfig → Type 0
IsGeneration running =
    running.core_config.config_path ≡ join running.core_config.config_dir runtime_config_file_name

abbrev pub config_of : ClashConfig → Text
config_of running = join running.core_config.config_dir runtime_config_file_name

-- The outcomes of a staging: the new configuration when it is staged, else the old one.
abbrev pub OutcomeShows : ClashConfig → Text → Option Text → StageRuntimeOutcome → Host → Type 0
OutcomeShows running yaml old (staged file) h = At (config_of running) (some yaml) h
OutcomeShows running yaml old (restart_required reason) h = At (config_of running) old h

abbrev pub Shows :
    ClashConfig → Text → Option Text → Result ServiceError StageRuntimeOutcome → Host → Type 0
Shows running yaml old r h = After (OutcomeShows running yaml old) (At (config_of running) old) r h

module _ (os : Os) (serde : Serde) (running : ClashConfig) (yaml : Text) (old : Option Text)
    (own : IsGeneration running) where
  abbrev path : Text
  path = config_of running

  abbrev dir : Text
  dir = running.core_config.config_dir

  -- From the plan on: the new configuration after a success, the old one after any other end.
  abbrev Applied : {A : Type 0} → Result Halt A → Host → Type 0
  Applied r h = After (λ _. At path (some yaml)) (At path old) r h

  unless_restarted-At :
      (core_pid : ℕ) (current : Option (ℕ × ClashConfig)) (h : Host)
      → At path old h
      → After
          (λ _. At path old)
          (At path old)
          (unless_restarted core_pid current h).0
          (unless_restarted core_pid current h).1
  unless_restarted-At core_pid current h p = by_pid (has_pid core_pid current)
    where
      by_pid :
          (b : Bool)
          → After {E = Halt}
              (λ _. At path old)
              (At path old)
              ((if b then pure tt else fail (declined core_restarted)) h).0
              ((if b then pure tt else fail (declined core_restarted)) h).1
      by_pid true = p
      by_pid false = p

  commit-Applied :
      (manifest : RuntimeManifest) (h : Host)
      → At path old h
      → Applied
          (commit stage_answers os serde dir running.core_config.config_path yaml manifest h).0
          (commit stage_answers os serde dir running.core_config.config_path yaml manifest h).1
  commit-Applied manifest h p =
      subst
        (λ file.
          Applied (commit stage_answers os serde dir file yaml manifest h).0
            (commit stage_answers os serde dir file yaml manifest h).1)
        (sym own) (commit-Configured os serde dir yaml old stage_answers manifest h p)

  apply_plan-Applied :
      (core_pid : ℕ) (plan : StagePlan) (h : Host)
      → At path old h
      → Applied
          (apply_plan os serde core_pid running plan yaml h).0
          (apply_plan os serde core_pid running plan yaml h).1
  unfolding apply_plan At
  apply_plan-Applied core_pid plan h p =
      let ordinary = join-Ordinary dir runtime_config_file_name config-IsOwned in
      let clear = owned-Clear-All dir runtime_config_file_name config-IsOwned in
      let removal = remove_required stage_answers os dir plan.required_deletes in
      let copying = copy_all stage_answers os dir plan.copies plan.manifest in
      let committing = commit stage_answers os serde dir running.core_config.config_path yaml in
      After-resume (λ _. At path old) (λ _. At path (some yaml)) (At path old) (removal h).0 _
        (removal h).1
        (remove_required-At stage_answers path old os dir plan.required_deletes h
          (clear plan.required_deletes) p)
        λ _ s at.
          After-resume (λ _. At path old) (λ _. At path (some yaml)) (At path old) (copying s).0 _
            (copying s).1
            (copy_all-At stage_answers path old os dir plan.copies plan.manifest s ordinary
              (clear (map copy_destination plan.copies)) at)
            λ manifest t at_t.
              After-resume (λ _. At path old) (λ _. At path (some yaml)) (At path old)
                (unless_restarted core_pid (running_core_config (arrive t).manager) (arrive t)).0 _
                (unless_restarted core_pid (running_core_config (arrive t).manager) (arrive t)).1
                (unless_restarted-At core_pid (running_core_config (arrive t).manager) (arrive t)
                  at_t)
                λ _ u at_u.
                  After-resume (λ _. At path (some yaml)) (λ _. At path (some yaml)) (At path old)
                    (committing manifest u).0 _ (committing manifest u).1
                    (commit-Applied manifest u at_u)
                    λ _ w at_w.
                      sweep-At path (some yaml) os dir plan.hygiene_deletes w
                        (clear plan.hygiene_deletes) at_w

  as_outcome-Shows :
      (r : Result Halt Text) (h : Host) → Applied r h → Shows running yaml old (as_outcome r) h
  as_outcome-Shows (ok file) h a = a
  as_outcome-Shows (err (refused error)) h a = a
  as_outcome-Shows (err (declined reason)) h a = a

  with_previous-Shows :
      (core_pid : ℕ) (gathered : GatheredBundle) (previous : Result Unit RuntimeManifest) (h : Host)
      → At path old h
      → Shows running yaml old
          (with_previous os serde core_pid running gathered yaml previous h).0
          (with_previous os serde core_pid running gathered yaml previous h).1
  with_previous-Shows core_pid gathered (err u) h p = p
  with_previous-Shows core_pid gathered (ok previous) h p =
      let plan = plan_stage previous gathered.sources gathered.remote in
      as_outcome-Shows (apply_plan os serde core_pid running plan yaml h).0
        (apply_plan os serde core_pid running plan yaml h).1 (apply_plan-Applied core_pid plan h p)

  gathered-Shows :
      (core_pid : ℕ) (gathered : GatheredBundle) (h : Host)
      → At path old h
      → Shows running yaml old
          (with_previous os serde core_pid running gathered yaml
            (read_manifest serde dir h).0
            (read_manifest serde dir h).1).0
          (with_previous os serde core_pid running gathered yaml
            (read_manifest serde dir h).0
            (read_manifest serde dir h).1).1
  unfolding read_manifest call At
  gathered-Shows core_pid gathered h p =
      with_previous-Shows core_pid gathered (read_manifest serde dir h).0
        (read_manifest serde dir h).1 p

module _ (os : Os) (serde : Serde) (owner : AuthenticatedOwner) (bundle : RuntimeBundle)
    (running : ClashConfig) (old : Option Text) (own : IsGeneration running) where
  -- A staging of this bundle beside a core with this configuration.
  abbrev Stages : Result ServiceError StageRuntimeOutcome → Host → Type 0
  Stages r h = Shows running bundle.yaml old r h

  with_core_path-Stages :
      (core_pid : ℕ) (core_path : Text) (h : Host)
      → At (config_of running) old h
      → Stages
          (with_core_path os serde owner bundle core_pid running core_path h).0
          (with_core_path os serde owner bundle core_pid running core_path h).1
  with_core_path-Stages core_pid core_path h p =
      by_path (not (path_eq (components running.core_config.core_path) (components core_path)))
    where
      rest : Action ServiceError Host StageRuntimeOutcome
      rest = gather_bundle os owner bundle core_path >>= λ gathered s.
          let (previous, t) = read_manifest serde running.core_config.config_dir s in
          with_previous os serde core_pid running gathered bundle.yaml previous t

      by_path :
          (differs : Bool)
          → Stages
              ((if differs then pure (restart_required core_path_changed) else rest) h).0
              ((if differs then pure (restart_required core_path_changed) else rest) h).1
      by_path true = p
      by_path false =
          After-resume (λ _. At (config_of running) old) (OutcomeShows running bundle.yaml old)
            (At (config_of running) old) (gather_bundle os owner bundle core_path h).0 _
            (gather_bundle os owner bundle core_path h).1
            (gather_bundle-IsRead (config_of running) old os owner bundle core_path h p)
            λ gathered s at.
              gathered-Shows os serde running bundle.yaml old own core_pid gathered s at

  with_live-Stages :
      (core_pid : ℕ) (h : Host)
      → At (config_of running) old h
      → Stages
          (with_live os serde owner bundle (some (core_pid, running)) h).0
          (with_live os serde owner bundle (some (core_pid, running)) h).1
  with_live-Stages core_pid h p =
      After-resume (λ _. At (config_of running) old) (OutcomeShows running bundle.yaml old)
        (At (config_of running) old) (validate_core_path os owner bundle.core_path h).0 _
        (validate_core_path os owner bundle.core_path h).1
        (validate_core_path-IsRead (config_of running) old os owner bundle.core_path h p)
        (with_core_path-Stages core_pid)

-- A staging beside a live core, whose configuration lies in its own generation: when the outcome is
-- that the bundle is staged, the configuration of that generation is the bundle's; when the outcome
-- asks for a restart, or the staging is refused with an error, it is the one that was there before,
-- whatever the calls did and even if the core was replaced meanwhile.
pub stage_runtime-Shows :
    (os : Os) (serde : Serde) (owner : AuthenticatedOwner) (bundle : RuntimeBundle)
    (running : ClashConfig) (core_pid : ℕ) (h : Host)
    → running_core_config (arrive h).manager ≡ some (core_pid, running)
    → IsGeneration running
    → Shows running bundle.yaml
        (h.files (config_of running))
        (stage_runtime os serde owner bundle h).0
        (stage_runtime os serde owner bundle h).1
unfolding stage_runtime At
stage_runtime-Shows os serde owner bundle running core_pid h live own =
    subst
      (λ core.
        Shows running bundle.yaml (h.files (config_of running))
          (with_live os serde owner bundle core (arrive h)).0
          (with_live os serde owner bundle core (arrive h)).1)
      (sym live)
      (with_live-Stages os serde owner bundle running (h.files (config_of running)) own core_pid
        (arrive h) refl)
