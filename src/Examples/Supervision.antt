-- ===== src/Examples/Supervision.antt =====
-- The life of the core manager at concrete inputs.
use clash_verge_service_ipc.Prelude.{
  ℕ, ◌≡◌, refl, true, none, some, List, [], ◌∷◌, ok, err, false, arith,
}
use clash_verge_service_ipc.AnyError.{anyhow}
use clash_verge_service_ipc.Manager.{
  Child, ChildGuard, Recovery, no_recovery, supervising, CoreWorld, new_manager, attempt,
  start_core, stop_core, stop_watchdog, watchdog_cleanup, remove_core_runtime_record,
  run_with_logging, write_runtime_record_for_config,
}
use clash_verge_service_ipc.Manager.Held.{has, is_tracked}
use clash_verge_service_ipc.Manager.Watchdog.{WatchdogConfig, WatchdogEvent, wait_ended, watch}
use clash_verge_service_ipc.Manager.Watchdog.GivenUp.{HasGivenUp, InWindow, watch-HasGivenUp}
use clash_verge_service_ipc.Manager.Watchdog.Recovered.{Recovers, core_exited-Recovers}
use clash_verge_service_ipc.Manager.Invariant.Reachable.{
  Reaches, here, after, starts, stops, wait_fails, is_dropped, Reaches-one_core,
}
use clash_verge_service_ipc.Examples.Data.{clash_config, idle_core}

abbrev config : WatchdogConfig
config = record { max_restarts = 3; restart_window = 60; max_backoff = 30 }

abbrev guard : ChildGuard
guard = record { child = some (record { process = 1; pid = some 1 }) }

-- The first core starts; the wait for it fails, and its kill comes late; a second core starts.
abbrev started : CoreWorld
started = (start_core clash_config idle_core).1

abbrev unwatched : CoreWorld
unwatched = wait_ended config guard no_recovery (err anyhow) started

abbrev cleared : CoreWorld
cleared = (stop_core unwatched).1

abbrev restarted : CoreWorld
restarted = (start_core clash_config cleared).1

idle-new : idle_core.manager ≡ new_manager
unfolding new_manager
idle-new = refl

abbrev dropped : List Child
dropped = record { process = 1; pid = some 1 } ∷ []

path : Reaches config idle_core dropped restarted
unfolding start_core attempt run_with_logging write_runtime_record_for_config wait_ended
    watchdog_cleanup remove_core_runtime_record stop_core stop_watchdog
path =
    after
      (after
        (after (after here (starts clash_config refl refl))
          (wait_fails guard no_recovery anyhow refl))
        stops)
      (starts clash_config refl refl)

-- Both cores run.
runs : (has 2 restarted.alive ≡ true) × (has 1 restarted.alive ≡ true)
unfolding start_core attempt run_with_logging write_runtime_record_for_config wait_ended
    watchdog_cleanup remove_core_runtime_record stop_core stop_watchdog
runs = (refl, refl)

not_dropped : is_dropped 2 dropped ≡ false
not_dropped = refl

Reaches-one_core_example : (◌≡◌ {A = ℕ} 2 2) × (is_tracked 2 restarted.manager ≡ true)
Reaches-one_core_example =
    Reaches-one_core config idle_core restarted dropped idle-new refl path 2 2 runs.0 runs.0
      not_dropped not_dropped

abbrev recovery : Recovery
recovery = record { restart_timestamps = 95 ∷ 90 ∷ []; consecutive_attempt = 2 }

-- The core 1 runs, and the next process is 2.
abbrev guarded : CoreWorld
guarded = record idle_core { alive = 1 ∷ []; next_process = 2 }

core_exited-Recovers_example : Recovers config guard recovery 9 132 2 guarded
core_exited-Recovers_example =
    core_exited-Recovers config guard recovery 9 132 2 guarded refl (omega arith) refl

-- The core exits, comes up again, exits and cannot be started three times.
abbrev events : List WatchdogEvent
events =
    record { at = 100; waited = ok 1; outcomes = [] }
    ∷ record { at = 101; waited = ok 1; outcomes = [] }
    ∷ record { at = 110; waited = ok 9; outcomes = [] }
    ∷ record { at = 112; waited = ok 9; outcomes = some anyhow ∷ [] }
    ∷ record { at = 116; waited = ok 9; outcomes = none ∷ some anyhow ∷ [] }
    ∷ record { at = 124; waited = ok 9; outcomes = [] }
    ∷ record { at = 125; waited = ok 9; outcomes = [] }
    ∷ record { at = 126; waited = ok 9; outcomes = [] }
    ∷ []

abbrev supervised : CoreWorld
supervised = record guarded {
  manager = record guarded.manager { watchdog_handle = some (supervising guard recovery) };
}

events-InWindow : InWindow config 90 events
events-InWindow = omega arith

watch-HasGivenUp_example : HasGivenUp (watch config events supervised)
watch-HasGivenUp_example =
    watch-HasGivenUp config 90 events guard recovery supervised refl events-InWindow
      (omega arith, (omega arith, tt)) (omega arith) (omega arith)
