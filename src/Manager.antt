-- ===== src/Manager.antt =====
-- The core manager (src/core/manager.rs): the start, the stop and the supervision of the core
-- process. Spawning, killing, preparing and securing the socket and writing the runtime record are
-- calls of the operating system: the failures to come are a list in the state, and where it ends
-- the calls succeed. A process is a number that is never used twice.
pub mod Watchdog
pub mod Held
pub mod Stop
pub mod Invariant
pub mod Start
use clash_verge_service_ipc.Prelude.{
  ℕ, zero, suc, ◌+◌, ◌-◌, ◌*◌, ◌^◌, min, Bool, true, false, not, Option, none, some, List, [], ◌∷◌,
  ◌++◌, ◌==◌, ltb, if◌then◌else◌, Text, Result, ok, err, Action, pure, fail, modify, resume, ◌>>=◌,
  ◌>>◌, inspect,
}
use clash_verge_service_ipc.AnyError.{AnyError, anyhow, context}
use clash_verge_service_ipc.Structure.{OwnerIdentity, ClashConfig}
use clash_verge_service_ipc.Lifecycle.{
  ServiceLifecycleState, starting, running, recovering_core, fatal, StateCells,
  set_core_lifecycle_state,
}

-- A spawned process, with the ID that it exposes.
pub record Child : Type 0 where
  pub process : ℕ
  pub pid : Option ℕ

-- `child` is empty once the kill is confirmed.
pub record ChildGuard : Type 0 where
  pub child : Option Child

-- What the watchdog task keeps between two events.
pub record Recovery : Type 0 where
  pub restart_timestamps : List ℕ
  pub consecutive_attempt : ℕ

-- The watchdog task: it waits for its child, it waits before a restart, or it has returned.
pub data WatchdogTask : Type 0 where
  supervising : ChildGuard → Recovery → WatchdogTask
  backing_off : Recovery → WatchdogTask
  returned : Result AnyError Unit → WatchdogTask

pub record CoreManager : Type 0 where
  pub running_pid : ℕ  -- u32, 0 for none
  pub running_config : Option ClashConfig
  pub core_start_time : Option ℕ
  pub core_started_at : ℕ  -- u64, 0 for none
  pub last_core_exit_reason : Option ℕ  -- the exit code that the text is made of
  pub restart_count : ℕ  -- u32
  pub last_recovery_at : ℕ  -- u64
  pub watchdog_handle : Option WatchdogTask
  pub failed_child : Option ChildGuard

-- The runtime record on the disk names the process by its PID.
pub record CoreWorld : Type 0 where
  pub manager : CoreManager
  pub cells : StateCells
  pub startup_reconciled : Bool
  pub runtime_record : Option ℕ
  pub alive : List ℕ  -- the core processes that run
  pub next_process : ℕ
  pub pid_of : ℕ → Option ℕ  -- the ID that a process exposes
  pub outcomes : List (Option AnyError)
  pub now : ℕ

unfoldable pub new_manager : CoreManager
new_manager = record {
  running_pid = 0;
  running_config = none;
  core_start_time = none;
  core_started_at = 0;
  last_core_exit_reason = none;
  restart_count = 0;
  last_recovery_at = 0;
  watchdog_handle = none;
  failed_child = none;
}

after_outcome : List (Option AnyError) → CoreWorld → Result AnyError Unit × CoreWorld
after_outcome [] w = (ok tt, w)
after_outcome (none ∷ later) w = (ok tt, record w { outcomes = later })
after_outcome (some e ∷ later) w = (err e, record w { outcomes = later })

-- One call that may fail.
unfoldable pub attempt : Action AnyError CoreWorld Unit
unfolding after_outcome
attempt w = after_outcome w.outcomes w

abbrev pub with_manager : (CoreManager → CoreManager) → CoreWorld → CoreWorld
with_manager f w = record w { manager = f w.manager }

abbrev pub set_state : ServiceLifecycleState → CoreWorld → CoreWorld
set_state s w = record w { cells = set_core_lifecycle_state s w.cells }

abbrev pub remove_process : ℕ → List ℕ → List ℕ
remove_process p [] = []
remove_process p (q ∷ alive) =
    let rest = remove_process p alive in if q == p then rest else q ∷ rest

abbrev pub exits : Option Child → CoreWorld → CoreWorld
exits none w = w
exits (some child) w = record w { alive = remove_process child.process w.alive }

-- `ChildGuard::kill_now`. The guard loses its child if the kill is confirmed, and keeps it if the
-- kill fails; so after an error the caller still holds the guard that it passed.
kill_child : Option Child → Action AnyError CoreWorld Unit
kill_child none w = (ok tt, w)
kill_child (some child) w = resume (attempt w).0 (λ _. modify (exits (some child)) tt) (attempt w).1

unfoldable pub kill_now : ChildGuard → Action AnyError CoreWorld Unit
unfolding kill_child
kill_now guard = kill_child guard.child

-- The task that the drop of a guard leaves behind, beside the manager: it kills the guard's child, and
-- a failure is only logged.
unfoldable pub kill_dropped : Child → CoreWorld → CoreWorld
kill_dropped child w = (kill_now (record { child = some child }) w).1

abbrev pub id_of : Option Child → Option ℕ
id_of none = none
id_of (some child) = child.pid

-- `child_pid.unwrap_or_default()`
abbrev pub pid_or_zero : Option ℕ → ℕ
pid_or_zero none = 0
pid_or_zero (some pid) = pid

pub spawn : CoreWorld → CoreWorld
spawn w = record w { alive = w.next_process ∷ w.alive; next_process = w.next_process + 1 }

abbrev pub spawned_guard : CoreWorld → ChildGuard
spawned_guard w = record {
  child = some (record { process = w.next_process; pid = w.pid_of w.next_process });
}

-- The log writer is set, then the process is spawned. The output pipes are there, since the
-- command asks for them.
unfoldable pub run_with_logging : Action AnyError CoreWorld ChildGuard
unfolding spawn
run_with_logging = do attempt; attempt; λ w. (ok (spawned_guard w), spawn w)

-- The process must expose a PID and still be there, the record must be written, and then its
-- directory synced.
pub write_record_of : Option ℕ → Action AnyError CoreWorld Unit
write_record_of none = fail anyhow
write_record_of (some pid) = do
  attempt
  attempt
  modify (λ w. record w { runtime_record = some pid }) tt
  attempt

unfoldable pub write_runtime_record_for_config : Option ℕ → Action AnyError CoreWorld Unit
unfolding write_record_of
write_runtime_record_for_config pid = write_record_of pid

forget_record : Result AnyError Unit → CoreWorld → CoreWorld
forget_record (ok _) w = record w { runtime_record = none }
forget_record (err e) w = w

-- A failure to remove the record is ignored.
unfoldable pub remove_core_runtime_record : CoreWorld → CoreWorld
unfolding forget_record
remove_core_runtime_record w = forget_record (attempt w).0 (attempt w).1

-- `stop_watchdog`: the shutdown signal reaches the task in the state that it is in.
abbrev pub retire_core : CoreManager → CoreManager
retire_core m = record m { running_pid = 0; core_start_time = none; core_started_at = 0 }

-- The end of the watchdog's loop, after `break 'watchdog`.
unfoldable pub watchdog_cleanup : CoreWorld → CoreWorld
unfolding remove_core_runtime_record
watchdog_cleanup w = remove_core_runtime_record (with_manager retire_core w)

abbrev pub keep_failed : ChildGuard → CoreWorld → CoreWorld
keep_failed guard w = set_state fatal (with_manager (λ m. record m { failed_child = some guard }) w)

shut_down_child : ChildGuard → Result AnyError Unit → CoreWorld → Result AnyError Unit × CoreWorld
unfolding watchdog_cleanup
shut_down_child guard (ok _) w = (ok tt, watchdog_cleanup w)
shut_down_child guard (err e) w = (err (context e), keep_failed guard w)

pub join_watchdog : Option WatchdogTask → Action AnyError CoreWorld Unit
unfolding shut_down_child
join_watchdog none w = (ok tt, w)
join_watchdog (some (supervising guard recovery)) w =
    shut_down_child guard (kill_now guard w).0 (kill_now guard w).1
join_watchdog (some (backing_off recovery)) w = (ok tt, watchdog_cleanup w)
join_watchdog (some (returned r)) w = (r, w)

unfoldable pub stop_watchdog : Action AnyError CoreWorld Unit
unfolding join_watchdog
stop_watchdog w =
    join_watchdog w.manager.watchdog_handle
      (with_manager (λ m. record m { watchdog_handle = none }) w)

-- The rest of `stop_core`, once no child is left.
finish_stop : Action AnyError CoreWorld Unit
finish_stop w = (
  ok tt,
  set_state running (
      remove_core_runtime_record
        (with_manager (λ m. record (retire_core m) { running_config = none }) w)),
)

retried : ChildGuard → Result AnyError Unit → Action AnyError CoreWorld Unit
unfolding finish_stop
retried guard (ok _) w = finish_stop w
retried guard (err e) w =
    (err (context e), with_manager (λ m. record m { failed_child = some guard }) w)

-- A child whose kill failed before is killed now; only without one does the watchdog's own failure
-- count.
stop_rest : Option ChildGuard → Result AnyError Unit → Action AnyError CoreWorld Unit
unfolding retried finish_stop
stop_rest (some guard) watchdog_result w =
    let w' = with_manager (λ m. record m { failed_child = none }) w in
    retried guard (kill_now guard w').0 (kill_now guard w').1
stop_rest none (ok _) w = finish_stop w
stop_rest none (err e) w = (err e, w)

unfoldable pub stop_core : Action AnyError CoreWorld Unit
unfolding stop_rest
stop_core w =
    let (watchdog_result, w') = stop_watchdog w in
    stop_rest w'.manager.failed_child watchdog_result w'

-- The PID and the configuration of the live core.
unfoldable pub running_core_config : CoreManager → Option (ℕ × ClashConfig)
running_core_config m =
    if m.running_pid == 0
    then none
    else elim m.running_config [ none ↦ none | some config ↦ some (m.running_pid, config) ]

abbrev non_zero : ℕ → Option ℕ
non_zero n = if n == 0 then none else some n

pub record CoreStatusSnapshot : Type 0 where
  pub core_pid : Option ℕ
  pub core_started_at : Option ℕ
  pub last_core_exit_reason : Option ℕ
  pub restart_count : ℕ
  pub last_recovery_at : Option ℕ

unfoldable pub status : CoreManager → CoreStatusSnapshot
status m = record {
  core_pid = non_zero m.running_pid;
  core_started_at = non_zero m.core_started_at;
  last_core_exit_reason = m.last_core_exit_reason;
  restart_count = m.restart_count;
  last_recovery_at = non_zero m.last_recovery_at;
}

-- What a start whose child could not be killed leaves for the next stop.
abbrev track_failed : ChildGuard → ClashConfig → CoreWorld → CoreWorld
track_failed guard config w =
    with_manager
      (λ m. record m {
        running_pid = pid_or_zero (id_of guard.child);
        running_config = some config;
        core_start_time = some w.now;
        core_started_at = w.now;
      })
      w

-- The socket could not be secured: kill the child, or keep it tracked and recorded.
after_insecure :
    ChildGuard → ClashConfig → AnyError → Result AnyError Unit → Action AnyError CoreWorld Unit
after_insecure guard config error (ok _) w = (err error, w)
after_insecure guard config error (err kill_error) w =
    let w' =
      (write_runtime_record_for_config (id_of guard.child) (track_failed guard config w)).1 in
    (err anyhow, keep_failed guard w')

-- The record could not be written: kill the child, or keep it tracked.
after_unrecorded :
    ChildGuard → ClashConfig → AnyError → Result AnyError Unit → Action AnyError CoreWorld Unit
after_unrecorded guard config error (ok _) w = (err error, w)
after_unrecorded guard config error (err kill_error) w =
    (err anyhow, keep_failed guard (track_failed guard config w))

abbrev pub no_recovery : Recovery
no_recovery = record { restart_timestamps = []; consecutive_attempt = 0 }

-- `start_watchdog` after the fields are set.
abbrev supervise : ChildGuard → ClashConfig → CoreWorld → CoreWorld
supervise guard config w = set_state running (
    with_manager (λ m. record m { watchdog_handle = some (supervising guard no_recovery) })
      (track_failed guard config w))

after_record : ChildGuard → ClashConfig → Result AnyError Unit → Action AnyError CoreWorld Unit
unfolding after_unrecorded
after_record guard config (ok _) w = (ok tt, supervise guard config w)
after_record guard config (err error) w =
    after_unrecorded guard config error (kill_now guard w).0 (kill_now guard w).1

after_secure : ChildGuard → ClashConfig → Result AnyError Unit → Action AnyError CoreWorld Unit
unfolding after_record after_insecure
after_secure guard config (ok _) w =
    inspect (write_runtime_record_for_config (id_of guard.child)) (after_record guard config) w
after_secure guard config (err error) w =
    after_insecure guard config error (kill_now guard w).0 (kill_now guard w).1

-- The child is there: secure its socket.
pub with_child : ClashConfig → ChildGuard → Action AnyError CoreWorld Unit
unfolding after_secure
with_child config guard = inspect attempt (after_secure guard config)

pub stop_running : Action AnyError CoreWorld Unit
stop_running w = if w.manager.running_pid == 0 then (ok tt, w) else stop_core w

pub ensure_startup_reconciled : Action AnyError CoreWorld Unit
ensure_startup_reconciled w = if w.startup_reconciled then (ok tt, w) else (err anyhow, w)

-- `attempt` after the stop is `prepare_core_ipc_socket`.
unfoldable pub start_core : ClashConfig → Action AnyError CoreWorld Unit
unfolding with_child stop_running ensure_startup_reconciled
start_core config = do
  ensure_startup_reconciled
  modify (set_state starting) tt
  stop_running
  attempt
  guard ← run_with_logging
  with_child config guard
