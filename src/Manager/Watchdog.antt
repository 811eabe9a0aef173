-- ===== src/Manager/Watchdog.antt =====
-- The watchdog's answer to the exit of its core (src/core/manager.rs, `start_watchdog`): one step per
-- event, the exit and then every attempt to restart.
pub mod Bounds
pub mod Tracked
pub mod Recovered
pub mod Window
pub mod GivenUp
use clash_verge_service_ipc.Prelude.{
  ℕ, ◌+◌, ◌-◌, ◌*◌, ◌%◌, ◌^◌, min, Bool, true, false, Option, none, some, List, [], ◌∷◌, ◌++◌, ◌==◌,
  ltb, if◌then◌else◌, length, retain, Result, ok, err, is_empty,
}
use clash_verge_service_ipc.AnyError.{AnyError, anyhow, context}
use clash_verge_service_ipc.Lifecycle.{running, recovering_core, fatal}
use clash_verge_service_ipc.Manager.{
  Child, ChildGuard, Recovery, WatchdogTask, supervising, backing_off, returned, CoreManager,
  CoreWorld, attempt, with_manager, set_state, exits, kill_now, id_of, pid_or_zero,
  run_with_logging, write_runtime_record_for_config, remove_core_runtime_record, watchdog_cleanup,
  keep_failed,
}

-- Times are seconds.
pub record WatchdogConfig : Type 0 where
  pub max_restarts : ℕ  -- u32
  pub restart_window : ℕ
  pub max_backoff : ℕ

-- `1u64 << (attempt - 1).min(5)` seconds, at most `max`.
unfoldable pub backoff_delay : ℕ → ℕ → ℕ
backoff_delay attempt max = if attempt == 0 then 0 else min (2 ^ min (attempt - 1) 5) max

-- The time stamps that are still in the window; `duration_since` stops at zero.
abbrev pub in_window : WatchdogConfig → ℕ → List ℕ → List ℕ
in_window config now = retain (λ timestamp. ltb (now - timestamp) config.restart_window)

-- The exit of a core that was supervised: with nothing in the window, the attempts start again.
unfoldable pub note_exit : WatchdogConfig → ℕ → Recovery → Recovery
note_exit config now recovery =
    let kept = in_window config now recovery.restart_timestamps in
    record {
      restart_timestamps = kept ++ now ∷ [];
      consecutive_attempt = if is_empty kept then 0 else recovery.consecutive_attempt;
    }

-- An attempt to restart that failed.
unfoldable pub note_failure : WatchdogConfig → ℕ → Recovery → Recovery
note_failure config now recovery = record {
  restart_timestamps = in_window config now recovery.restart_timestamps ++ now ∷ [];
  consecutive_attempt = recovery.consecutive_attempt + 1;
}

abbrev pub with_task : WatchdogTask → CoreWorld → CoreWorld
with_task task = with_manager (λ m. record m { watchdog_handle = some task })

-- `break 'watchdog` with `recovery_exhausted`.
abbrev pub give_up : CoreWorld → CoreWorld
give_up w = set_state fatal (with_task (returned (ok tt)) (watchdog_cleanup w))

-- The core exits by itself with `code`.
unfoldable pub core_exited : WatchdogConfig → ChildGuard → Recovery → ℕ → CoreWorld → CoreWorld
core_exited config guard recovery code w =
    let gone = exits guard.child w in
    let noted =
      with_manager
        (λ m. record m { last_core_exit_reason = some code; running_pid = 0; core_started_at = 0 })
        (set_state recovering_core gone) in
    let cleaned = remove_core_runtime_record noted in
    with_task (backing_off (note_exit config cleaned.now recovery)) cleaned

-- `child.wait()` returns. When it fails, the loop ends with `recovery_exhausted`, and the guard is
-- dropped with its child.
unfoldable pub wait_ended :
    WatchdogConfig → ChildGuard → Recovery → Result AnyError ℕ → CoreWorld → CoreWorld
wait_ended config guard recovery (ok code) w = core_exited config guard recovery code w
wait_ended config guard recovery (err error) w = give_up w

abbrev pub try_again : WatchdogConfig → Recovery → CoreWorld → CoreWorld
try_again config recovery w = with_task (backing_off (note_failure config w.now recovery)) w

-- A restarted core that could not be killed is tracked, for the next stop.
abbrev track_unkilled : ChildGuard → CoreWorld → CoreWorld
track_unkilled guard w =
    with_manager
      (λ m. record m {
        running_pid = pid_or_zero (id_of guard.child);
        core_start_time = some w.now;
        core_started_at = w.now;
      })
      w

insecure : WatchdogConfig → Recovery → ChildGuard → Result AnyError Unit → CoreWorld → CoreWorld
insecure config recovery guard (ok _) w = try_again config recovery w
insecure config recovery guard (err kill_error) w =
    let recorded =
      (write_runtime_record_for_config (id_of guard.child) (track_unkilled guard w)).1 in
    with_task (returned (err (context kill_error))) (keep_failed guard recorded)

unrecorded : ChildGuard → Result AnyError Unit → CoreWorld → CoreWorld
unrecorded guard (ok _) w = give_up w
unrecorded guard (err kill_error) w =
    with_task (returned (err anyhow)) (keep_failed guard (track_unkilled guard w))

-- The new core is supervised; the count is a u32 that wraps.
abbrev restarted : Recovery → ChildGuard → CoreWorld → CoreWorld
restarted recovery guard w = set_state running (
    with_manager
      (λ m. record m {
        restart_count = (m.restart_count + 1) % 2 ^ 32;
        last_recovery_at = w.now;
        watchdog_handle = some (
            supervising guard (record {
              restart_timestamps = recovery.restart_timestamps;
              consecutive_attempt = recovery.consecutive_attempt + 1;
            }));
      })
      (track_unkilled guard w))

recorded : Recovery → ChildGuard → Result AnyError Unit → CoreWorld → CoreWorld
unfolding unrecorded
recorded recovery guard (ok _) w = restarted recovery guard w
recorded recovery guard (err record_error) w =
    unrecorded guard (kill_now guard w).0 (kill_now guard w).1

secured : WatchdogConfig → Recovery → ChildGuard → Result AnyError Unit → CoreWorld → CoreWorld
unfolding insecure recorded
secured config recovery guard (ok _) w =
    let (r, w') = write_runtime_record_for_config (id_of guard.child) w in
    recorded recovery guard r w'
secured config recovery guard (err error) w =
    insecure config recovery guard (kill_now guard w).0 (kill_now guard w).1

spawned : WatchdogConfig → Recovery → Result AnyError ChildGuard → CoreWorld → CoreWorld
unfolding secured
spawned config recovery (ok guard) w = secured config recovery guard (attempt w).0 (attempt w).1
spawned config recovery (err error) w = try_again config recovery w

prepared : WatchdogConfig → Recovery → Result AnyError Unit → CoreWorld → CoreWorld
unfolding spawned
prepared config recovery (ok _) w =
    spawned config recovery (run_with_logging w).0 (run_with_logging w).1
prepared config recovery (err error) w = try_again config recovery w

-- One round of the loop, after the delay: with too many time stamps the watchdog gives up.
unfoldable pub restart_once : WatchdogConfig → Recovery → CoreWorld → CoreWorld
unfolding prepared
restart_once config recovery w =
    if ltb config.max_restarts (length recovery.restart_timestamps)
    then give_up w
    else prepared config recovery (attempt w).0 (attempt w).1

-- What the watchdog meets next: the time, the end of the wait if it waits for its child, and the
-- failures to come.
pub record WatchdogEvent : Type 0 where
  pub at : ℕ
  pub waited : Result AnyError ℕ
  pub outcomes : List (Option AnyError)

unfoldable pub watch_next :
    WatchdogConfig → Result AnyError ℕ → Option WatchdogTask → CoreWorld → CoreWorld
watch_next config waited (some (supervising guard recovery)) w =
    wait_ended config guard recovery waited w
watch_next config waited (some (backing_off recovery)) w = restart_once config recovery w
watch_next config waited (some (returned r)) w = w
watch_next config waited none w = w

-- The two loops of the watchdog, over the events that it meets.
unfoldable pub watch : WatchdogConfig → List WatchdogEvent → CoreWorld → CoreWorld
unfolding watch_next
watch config [] w = w
watch config (e ∷ events) w = watch config events (
    watch_next config e.waited w.manager.watchdog_handle
      (record w { now = e.at; outcomes = e.outcomes }))
