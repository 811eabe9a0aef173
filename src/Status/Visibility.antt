-- ===== src/Status/Visibility.antt =====
-- What an owner sees of the core (src/core/status.rs).
use clash_verge_service_ipc.Prelude.{◌≡◌, false, Option, none}
use clash_verge_service_ipc.AnyError.{AnyError}
use clash_verge_service_ipc.Structure.{AuthenticatedOwner}
use clash_verge_service_ipc.Lifecycle.{StateCells, service_lifecycle_state}
use clash_verge_service_ipc.Disk.{ActiveOwnerState, Disk}
use clash_verge_service_ipc.Status.{ServiceStatusSnapshot, generation_for}

-- The snapshot shows nothing of a core.
pub record IsHidden (cells : StateCells) (s : ServiceStatusSnapshot) : Type 0 where
  pub inactive : s.is_active ≡ false
  pub no_generation : s.active_generation ≡ none
  pub own_state : s.service_state ≡ service_lifecycle_state cells
  pub no_pid : s.core_pid ≡ none
  pub no_start : s.core_started_at ≡ none
  pub no_reason : s.last_core_exit_reason ≡ none
  pub no_count : s.restart_count ≡ 0
  pub no_recovery : s.last_recovery_at ≡ none

-- What a snapshot shows of the active owner `active`.
abbrev pub Shows :
    AuthenticatedOwner → StateCells → Option ActiveOwnerState → ServiceStatusSnapshot → Type 0
Shows owner cells active s =
    (s.active_generation ≡ generation_for owner active)
    × (generation_for owner active ≡ none → IsHidden cells s)
