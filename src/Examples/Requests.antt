-- ===== src/Examples/Requests.antt =====
-- Requests at concrete inputs.
use clash_verge_service_ipc.Prelude.{◌≡◌, refl, true, ◌⊎◌, none, some, [], ◌∷◌, bytes, ok, modify}
use clash_verge_service_ipc.Structure.{unix}
use clash_verge_service_ipc.Disk.{content, missing, io_step, read, steps, write_json_atomic}
use clash_verge_service_ipc.Desired.{
  new_session, persist_owner_core_stopped, persist_owner_core_stopped_by_key,
  update_owner_desired_state, read_owner_desired_state_resilient, clear_active_owner,
}
use clash_verge_service_ipc.Manager.{
  CoreWorld, supervising, attempt, kill_now, stop_watchdog, stop_core,
}
use clash_verge_service_ipc.Manager.Held.{Holds}
use clash_verge_service_ipc.Manager.Stop.{Stopped}
use clash_verge_service_ipc.Proxy.{
  SystemProxy, AutoProxy, no_system_proxy, no_auto_proxy, clear_proxy, apply_with_backend,
  apply_proxy, validate_proxy_config,
}
use clash_verge_service_ipc.Transition.{
  ServiceWorld, clear_proxy_with_direct_compensation, clear_service_proxy,
}
use clash_verge_service_ipc.Routes.{
  AuthenticatedSessionRequest, RequestContext, Service, SessionCommand, stop, ok_empty, stop_clash,
  session_route,
}
use clash_verge_service_ipc.Routes.Authorized.{IsAuthorized, IsRefused, session_route-Gated}
use clash_verge_service_ipc.Routes.Stops.{stop_clash-Stopped}
use clash_verge_service_ipc.Examples.Data.{
  alice, token, digest, fresh_disk, no_files, clash_config, idle_manager, idle_core,
}

abbrev Proxies : Type 0
Proxies = SystemProxy × AutoProxy

-- A service on macOS whose system calls all succeed.
abbrev service : Service Proxies
service = record {
  digest = digest;
  live = true;
  parsers = record { parse_ip = λ host. some true; parse_url = λ url. none };
  backend = record {
    set_system_proxy = λ p. modify (λ s. (p, s.1)) tt;
    set_auto_proxy = λ p. modify (λ s. (s.0, p)) tt;
  };
  roots = λ directory. some (record { canonical = directory; metadata = some (true, 501) });
  logs_dir = λ identity. bytes "/var/lib/logs";
  build_version = bytes "2.0.0";
}

-- Alice's core 4 runs in her first session.
abbrev live_core : CoreWorld
live_core = record idle_core {
  manager = record idle_manager {
    running_pid = 44;
    running_config = some clash_config;
    watchdog_handle = some (
        supervising (record { child = some (record { process = 4; pid = some 44 }) })
          (record { restart_timestamps = []; consecutive_attempt = 0 }));
  };
  alive = 4 ∷ [];
}

abbrev world : ServiceWorld Proxies
world = record {
  core = live_core;
  disk = record fresh_disk {
    files = record no_files {
      active_owner = content (
          new_session alice
            (bytes "0707070707070707070707070707070707070707070707070707070707070707") 1);
    };
  };
  settings = (no_system_proxy, no_auto_proxy);
  prepared_runtime = none;
}

abbrev request : AuthenticatedSessionRequest SessionCommand
request = record {
  credentials = record {
    identity = unix 501 20;
    app_data_dir = bytes "/Users/alice";
    token = none;
  };
  session = record { generation = 1; token = token };
  payload = stop;
}

abbrev context : RequestContext (AuthenticatedSessionRequest SessionCommand)
context = record {
  magic = none;
  protocol = some (bytes "2.2");
  peer = some (501, 20);
  json = some request;
}

session_route-Gated_example :
    IsAuthorized service context world.disk ⊎ IsRefused world (session_route service context world)
session_route-Gated_example = session_route-Gated service context world

live-Holds : Holds 4 live_core
live-Holds = record { tracked = λ live. refl; apart = λ live. refl }

stops : (stop_clash service alice world).0 ≡ ok ok_empty
unfolding stop_clash clear_proxy_with_direct_compensation clear_service_proxy clear_proxy
    apply_proxy validate_proxy_config apply_with_backend stop_core stop_watchdog kill_now attempt
    persist_owner_core_stopped persist_owner_core_stopped_by_key update_owner_desired_state
    read_owner_desired_state_resilient io_step read clear_active_owner write_json_atomic steps
stops = refl

stop_clash-Stopped_example :
    Stopped 4 (stop_clash service alice world).1.core
    × ((stop_clash service alice world).1.disk.files.active_owner ≡ missing)
stop_clash-Stopped_example = stop_clash-Stopped service alice 4 world ok_empty live-Holds stops
