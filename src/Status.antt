-- ===== src/Status.antt =====
-- The status that an owner is told (src/core/status.rs).
pub mod Visibility
use clash_verge_service_ipc.Prelude.{
  ℕ, Bool, true, false, ◌&&◌, not, Option, none, some, Text, text_eq, option_then, if◌then◌else◌,
  Result, ok, err,
}
use clash_verge_service_ipc.AnyError.{AnyError}
use clash_verge_service_ipc.Structure.{AuthenticatedOwner}
use clash_verge_service_ipc.Lifecycle.{
  ServiceLifecycleState, starting, running, recovering_core, recovering_ipc, fatal, StateCells,
  service_lifecycle_state, core_lifecycle_state,
}
use clash_verge_service_ipc.Disk.{ActiveOwnerState, DesiredState, default_desired, Disk}
use clash_verge_service_ipc.Desired.{load_owner_desired_state, load_active_owner}
use clash_verge_service_ipc.Manager.{CoreManager, CoreStatusSnapshot, status}

abbrev pub is_fatal : ServiceLifecycleState → Bool
is_fatal fatal = true
is_fatal _ = false

abbrev pub is_core_trouble : ServiceLifecycleState → Bool
is_core_trouble fatal = true
is_core_trouble recovering_core = true
is_core_trouble starting = true
is_core_trouble running = false
is_core_trouble recovering_ipc = false

abbrev is_absent : Option ℕ → Bool
is_absent none = true
is_absent (some pid) = false

unfoldable pub effective_service_state :
    ServiceLifecycleState → ServiceLifecycleState → Bool → Bool → Option ℕ → ServiceLifecycleState
effective_service_state reported core_reported is_active desired_running core_pid =
    if is_core_trouble core_reported && (is_active && desired_running)
    then core_reported
    else if not (is_fatal reported) && (is_active && (desired_running && is_absent core_pid))
    then recovering_core
    else reported

pub record ServiceStatusSnapshot : Type 0 where
  pub is_active : Bool
  pub active_generation : Option ℕ
  pub service_state : ServiceLifecycleState
  pub core_pid : Option ℕ
  pub core_started_at : Option ℕ
  pub last_core_exit_reason : Option ℕ
  pub restart_count : ℕ
  pub last_recovery_at : Option ℕ
  pub desired_core_should_be_running : Bool
  pub desired_generation : ℕ
  pub desired_updated_at : ℕ

-- `unwrap_or_default()`
abbrev pub or_default : Result AnyError DesiredState → DesiredState
or_default (ok desired) = desired
or_default (err e) = default_desired

-- The generation of the active session, if it is this owner's.
abbrev pub generation_for : AuthenticatedOwner → Option ActiveOwnerState → Option ℕ
generation_for owner none = none
generation_for owner (some active) =
    if text_eq active.owner_key owner.key then some active.generation else none

-- The snapshot of the core, for its owner alone.
abbrev pub core_for : Option ℕ → CoreManager → Option CoreStatusSnapshot
core_for none m = none
core_for (some generation) m = some (status m)

abbrev is_present : Option ℕ → Bool
is_present none = false
is_present (some generation) = true

abbrev count_of : Option CoreStatusSnapshot → ℕ
count_of none = 0
count_of (some core) = core.restart_count

snapshot_of :
    StateCells → DesiredState → Option ℕ → Option CoreStatusSnapshot → ServiceStatusSnapshot
snapshot_of cells desired active_generation core =
    let core_pid = option_then core (λ c. c.core_pid) in
    let is_active = is_present active_generation in
    record {
      is_active = is_active;
      active_generation = active_generation;
      service_state =
          effective_service_state (service_lifecycle_state cells) (core_lifecycle_state cells)
            is_active desired.core_should_be_running core_pid;
      core_pid = core_pid;
      core_started_at = option_then core (λ c. c.core_started_at);
      last_core_exit_reason = option_then core (λ c. c.last_core_exit_reason);
      restart_count = count_of core;
      last_recovery_at = option_then core (λ c. c.last_recovery_at);
      desired_core_should_be_running = desired.core_should_be_running;
      desired_generation = desired.generation;
      desired_updated_at = desired.updated_at;
    }

with_active :
    AuthenticatedOwner
    → CoreManager
    → StateCells
    → DesiredState
    → Result AnyError (Option ActiveOwnerState)
    → Result AnyError ServiceStatusSnapshot
unfolding snapshot_of
with_active owner m cells desired (err e) = err e
with_active owner m cells desired (ok active) =
    let active_generation = generation_for owner active in
    ok (snapshot_of cells desired active_generation (core_for active_generation m))

unfoldable pub service_status_snapshot :
    AuthenticatedOwner
    → CoreManager
    → StateCells
    → Disk
    → Result AnyError ServiceStatusSnapshot × Disk
unfolding with_active
service_status_snapshot owner m cells d =
    let (loaded, d1) = load_owner_desired_state owner.key d in
    let (active, d2) = load_active_owner d1 in
    (with_active owner m cells (or_default loaded) active, d2)
