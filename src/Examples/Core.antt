-- ===== src/Examples/Core.antt =====
-- The core manager, the proxy, the owner change and the status at concrete inputs.
use clash_verge_service_ipc.Prelude.{
  List, ◌≤◌, ◌<◌, ◌≡◌, refl, true, false, none, some, [], ◌∷◌, bytes, length, ok, arith, modify,
}
use clash_verge_service_ipc.Structure.{global, applied, MacosProxyConfig}
use clash_verge_service_ipc.Lifecycle.{running, fatal, core_lifecycle_state}
use clash_verge_service_ipc.Disk.{
  missing, ActiveOwnerState, io_step, read, steps, write_json_atomic,
}
use clash_verge_service_ipc.Desired.{
  commit_active_owner_session, new_session, read_generation, read_owner_desired_state_resilient,
  update_owner_desired_state, persist_owner_core_started, persist_owner_core_stopped,
  persist_owner_core_stopped_by_key, clear_active_owner,
}
use clash_verge_service_ipc.Session.{hash_session_token, is_session_token}
use clash_verge_service_ipc.Manager.{
  ChildGuard, Recovery, supervising, returned, CoreWorld, attempt, kill_now, stop_watchdog,
  stop_core, start_core, run_with_logging, write_runtime_record_for_config,
  remove_core_runtime_record, watchdog_cleanup,
}
use clash_verge_service_ipc.Manager.Start.{Runs, start_core-Started}
use clash_verge_service_ipc.Manager.Held.{Holds}
use clash_verge_service_ipc.Manager.Stop.{Stopped, stop_core-Stopped}
use clash_verge_service_ipc.Manager.Watchdog.{WatchdogConfig, backoff_delay, restart_once}
use clash_verge_service_ipc.Manager.Watchdog.Bounds.{
  IsBounded, restart_once-IsBounded, backoff_delay_bounds,
}
use clash_verge_service_ipc.Proxy.{
  apply_proxy, clear_proxy, validate_proxy_config, Parsers, SystemProxy, AutoProxy, no_system_proxy,
  no_auto_proxy, ProxyBackend, apply_with_backend, apply_proxy_or_direct_with,
}
use clash_verge_service_ipc.Proxy.Settings
use clash_verge_service_ipc.Proxy.Settings.{
  IsBackend, wanted_system, wanted_auto, Shows, apply_with_backend-Shows,
  apply_proxy_or_direct_with-Ends,
}
use clash_verge_service_ipc.Transition.{
  clear_service_proxy, stop_previous_core, start_new_core, commit_new_owner,
  apply_service_proxy_or_direct, ServiceWorld, StartRequest, start_owner_transition,
  owner_proxy_transition, rollback_started_owner,
}
use clash_verge_service_ipc.Transition.Order
use clash_verge_service_ipc.Transition.Order.{owner_proxy_transition-Ends}
use clash_verge_service_ipc.Transition.Owner.{IsActive, start_owner_transition-IsActive}
use clash_verge_service_ipc.Transition.Rollback.{rollback_started_owner-Stopped}
use clash_verge_service_ipc.Status.{ServiceStatusSnapshot}
use clash_verge_service_ipc.Status.Visibility
use clash_verge_service_ipc.Supervisor.{Supervisor, ListenerExit, listener_exits}
use clash_verge_service_ipc.Supervisor.Window.{InWindow, HasGivenUp, listener_exits-HasGivenUp}
use clash_verge_service_ipc.Examples.Data.{
  alice, token, digest, fresh_disk, clash_config, idle_manager, idle_core,
}

abbrev guard : ChildGuard
guard = record { child = some (record { process = 4; pid = some 44 }) }

abbrev recovery : Recovery
recovery = record { restart_timestamps = 95 ∷ 90 ∷ []; consecutive_attempt = 2 }

-- A core that is supervised.
abbrev busy_core : CoreWorld
busy_core = record idle_core {
  manager = record idle_manager {
    running_pid = 44;
    running_config = some clash_config;
    watchdog_handle = some (supervising guard recovery);
  };
  alive = 4 ∷ [];
}

busy-Holds : Holds 4 busy_core
busy-Holds = record { tracked = λ live. refl; apart = λ live. refl }

stops : (stop_core busy_core).0 ≡ ok tt
unfolding stop_core stop_watchdog kill_now attempt
stops = refl

stop_core-Stopped_example : Stopped 4 (stop_core busy_core).1
stop_core-Stopped_example = stop_core-Stopped 4 busy_core busy-Holds stops

abbrev config : WatchdogConfig
config = record { max_restarts = 3; restart_window = 60; max_backoff = 30 }

restart_once-IsBounded_example :
    IsBounded config (restart_once config recovery idle_core).manager.watchdog_handle
    × (config.max_restarts < length recovery.restart_timestamps
        → ((restart_once config recovery idle_core).manager.watchdog_handle
            ≡ some (returned (ok tt)))
          × (core_lifecycle_state (restart_once config recovery idle_core).cells ≡ fatal)
          × ((restart_once config recovery idle_core).alive ≡ idle_core.alive))
restart_once-IsBounded_example = restart_once-IsBounded config recovery idle_core

backoff_delay_bounds_example :
    (backoff_delay 3 10 ≤ 10)
    × (backoff_delay 3 10 ≤ 32)
    × (backoff_delay 3 10 ≤ backoff_delay 4 10)
backoff_delay_bounds_example = backoff_delay_bounds 3 10

-- A system whose calls all succeed.
abbrev Proxies : Type 0
Proxies = SystemProxy × AutoProxy

abbrev backend : ProxyBackend Proxies
backend = record {
  set_system_proxy = λ p. modify (λ s. (p, s.1)) tt;
  set_auto_proxy = λ p. modify (λ s. (s.0, p)) tt;
}

abbrev system_of : Proxies → SystemProxy
system_of s = s.0

abbrev auto_of : Proxies → AutoProxy
auto_of s = s.1

backend-IsBackend : IsBackend backend system_of auto_of
backend-IsBackend = record {
  system_set = λ p w h. refl;
  auto_set = λ p w h. refl;
  auto_kept = λ p w. refl;
  system_kept = λ p w. refl;
}

abbrev parsers : Parsers
parsers = record { parse_ip = λ host. some true; parse_url = λ url. none }

abbrev off : Proxies
off = (no_system_proxy, no_auto_proxy)

abbrev local_proxy : MacosProxyConfig
local_proxy = global (bytes "127.0.0.1") 7890 []

applies : (apply_with_backend backend local_proxy off).0 ≡ ok tt
unfolding apply_with_backend
applies = refl

apply_with_backend-Shows_example :
    Shows parsers backend system_of auto_of local_proxy
      (apply_with_backend backend local_proxy off).1
apply_with_backend-Shows_example =
    apply_with_backend-Shows parsers backend system_of auto_of backend-IsBackend local_proxy off
      applies

apply_proxy_or_direct_with-Ends_example :
    Settings.Ends parsers backend system_of auto_of local_proxy off
      (apply_proxy_or_direct_with parsers (apply_with_backend backend) (some local_proxy) off).0
      (apply_proxy_or_direct_with parsers (apply_with_backend backend) (some local_proxy) off).1
apply_proxy_or_direct_with-Ends_example =
    apply_proxy_or_direct_with-Ends parsers backend system_of auto_of backend-IsBackend local_proxy
      off

-- A start of Alice's core on an idle service.
abbrev idle_world : ServiceWorld Proxies
idle_world = record {
  core = idle_core;
  disk = fresh_disk;
  settings = off;
  prepared_runtime = some (record { clash_config = clash_config });
}

abbrev request : StartRequest
request = record {
  previous_owner = none;
  owner = alice;
  proposed_session_token = token;
  macos_proxy = some local_proxy;
}

abbrev alice_session : ActiveOwnerState
alice_session =
    new_session alice (bytes "0707070707070707070707070707070707070707070707070707070707070707") 1

owner_proxy_transition-Ends_example :
    Order.Ends
      (start_owner_transition digest true parsers backend request)
      idle_world
      (owner_proxy_transition
        (start_owner_transition digest true parsers backend request)
        idle_world).0
      (owner_proxy_transition
        (start_owner_transition digest true parsers backend request)
        idle_world).1
owner_proxy_transition-Ends_example =
    owner_proxy_transition-Ends (start_owner_transition digest true parsers backend request)
      idle_world

starts :
    (owner_proxy_transition
      (start_owner_transition digest true parsers backend request)
      idle_world).0
    ≡ ok (alice_session, applied)
unfolding owner_proxy_transition start_owner_transition clear_service_proxy clear_proxy apply_proxy
    validate_proxy_config apply_with_backend stop_previous_core stop_core stop_watchdog kill_now
    attempt start_new_core start_core run_with_logging write_runtime_record_for_config
    commit_new_owner persist_owner_core_started commit_active_owner_session read_generation
    hash_session_token is_session_token remove_core_runtime_record watchdog_cleanup
    apply_proxy_or_direct_with apply_service_proxy_or_direct persist_owner_core_stopped
    persist_owner_core_stopped_by_key update_owner_desired_state read_owner_desired_state_resilient
    io_step read clear_active_owner write_json_atomic steps
starts = refl

start_owner_transition-IsActive_example :
    IsActive digest alice token alice_session
      (owner_proxy_transition
        (start_owner_transition digest true parsers backend request)
        idle_world).1.disk.files
start_owner_transition-IsActive_example =
    start_owner_transition-IsActive digest true parsers backend request idle_world alice_session
      applied starts

abbrev busy_world : ServiceWorld Proxies
busy_world = record idle_world { core = busy_core }

rolls_back : (rollback_started_owner alice busy_world).0 ≡ ok tt
unfolding rollback_started_owner stop_core stop_watchdog kill_now attempt persist_owner_core_stopped
    persist_owner_core_stopped_by_key update_owner_desired_state read_owner_desired_state_resilient
    io_step read clear_active_owner write_json_atomic steps
rolls_back = refl

rollback_started_owner-Stopped_example :
    Stopped 4 (rollback_started_owner alice busy_world).1.core
    × ((rollback_started_owner alice busy_world).1.disk.files.active_owner ≡ missing)
rollback_started_owner-Stopped_example =
    rollback_started_owner-Stopped alice 4 busy_world busy-Holds rolls_back

abbrev snapshot : ServiceStatusSnapshot
snapshot = record {
  is_active = false;
  active_generation = none;
  service_state = running;
  core_pid = none;
  core_started_at = none;
  last_core_exit_reason = none;
  restart_count = 0;
  last_recovery_at = none;
  desired_core_should_be_running = false;
  desired_generation = 0;
  desired_updated_at = 0;
}

abbrev crash : ListenerExit
crash = record { now = 100; rebuilt = ok tt }

abbrev crashes : List ListenerExit
crashes = crash ∷ crash ∷ crash ∷ crash ∷ crash ∷ crash ∷ crash ∷ crash ∷ crash ∷ crash ∷ crash ∷ []

abbrev supervisor : Supervisor
supervisor = record { cells = idle_core.cells; restart_timestamps = []; consecutive_attempt = 0 }

crashes-InWindow : InWindow 100 crashes
crashes-InWindow =
    let at : (100 ≤ 100) × (100 < 110) = (omega arith, omega arith) in
    (at, (at, (at, (at, (at, (at, (at, (at, (at, (at, (at, tt)))))))))))

listener_exits-HasGivenUp_example :
    HasGivenUp (listener_exits crashes supervisor).0 (listener_exits crashes supervisor).1
listener_exits-HasGivenUp_example =
    listener_exits-HasGivenUp 100 crashes supervisor crashes-InWindow tt (omega arith) (omega arith)

core_starts : (start_core clash_config idle_core).0 ≡ ok tt
unfolding start_core attempt run_with_logging write_runtime_record_for_config
core_starts = refl

start_core-Started_example : Runs clash_config (start_core clash_config idle_core).1
start_core-Started_example = start_core-Started clash_config idle_core core_starts
