-- ===== src/Supervisor.antt =====
-- The supervisor of the listener (src/core/server.rs, `run_ipc_supervisor_until_shutdown`). Building
-- the listener is a call of another crate: its result comes with each event.
pub mod Window
use clash_verge_service_ipc.Prelude.{
  ℕ, ◌+◌, ◌-◌, ◌*◌, ◌^◌, min, List, [], ◌∷◌, ◌++◌, ◌==◌, ltb, if◌then◌else◌, length, retain,
  is_empty, Result, ok, err, Action, resume,
}
use clash_verge_service_ipc.AnyError.{AnyError, anyhow}
use clash_verge_service_ipc.Lifecycle.{
  ServiceLifecycleState, starting, running, recovering_ipc, fatal, StateCells,
  set_service_lifecycle_state,
}

abbrev pub ipc_max_restarts : ℕ
ipc_max_restarts = 10

-- Seconds.
abbrev pub ipc_restart_window : ℕ
ipc_restart_window = 10

-- Milliseconds.
abbrev pub ipc_max_backoff : ℕ
ipc_max_backoff = 500

-- Milliseconds.
unfoldable pub ipc_backoff_delay : ℕ → ℕ
ipc_backoff_delay attempt =
    if attempt == 0 then 0 else min (100 * 2 ^ min (attempt - 1) 3) ipc_max_backoff

pub record Supervisor : Type 0 where
  pub cells : StateCells
  pub restart_timestamps : List ℕ
  pub consecutive_attempt : ℕ

-- The listener ends at a time, and rebuilding it gives a result.
pub record ListenerExit : Type 0 where
  pub now : ℕ
  pub rebuilt : Result AnyError Unit

abbrev pub report : ServiceLifecycleState → Supervisor → Supervisor
report state s = record s { cells = set_service_lifecycle_state state s.cells }

-- A build of the listener that fails is fatal.
after_build : Result AnyError Unit → Action AnyError Supervisor Unit
after_build (ok _) s = (ok tt, report running s)
after_build (err error) s = (err anyhow, report fatal s)

unfoldable pub supervisor_start : Result AnyError Unit → Action AnyError Supervisor Unit
unfolding after_build
supervisor_start built s = after_build built (report starting s)

abbrev still_in_window : ℕ → List ℕ → List ℕ
still_in_window now = retain (λ timestamp. ltb (now - timestamp) ipc_restart_window)

-- The exit is noted: with nothing in the window, the attempts start again.
abbrev pub note_listener_exit : ℕ → Supervisor → Supervisor
note_listener_exit now s =
    let kept = still_in_window now s.restart_timestamps in
    record s {
      cells = set_service_lifecycle_state recovering_ipc s.cells;
      restart_timestamps = kept ++ now ∷ [];
      consecutive_attempt = if is_empty kept then 0 else s.consecutive_attempt;
    }

rebuild : Result AnyError Unit → Action AnyError Supervisor Unit
unfolding after_build
rebuild rebuilt s =
    if ltb ipc_max_restarts (length s.restart_timestamps)
    then (err anyhow, report fatal s)
    else after_build rebuilt (record s { consecutive_attempt = s.consecutive_attempt + 1 })

unfoldable pub listener_exited : ListenerExit → Action AnyError Supervisor Unit
unfolding rebuild
listener_exited e s = rebuild e.rebuilt (note_listener_exit e.now s)

-- One exit after another, until one is fatal.
unfoldable pub listener_exits : List ListenerExit → Action AnyError Supervisor Unit
listener_exits [] s = (ok tt, s)
listener_exits (e ∷ exits) s =
    resume (listener_exited e s).0 (λ _. listener_exits exits) (listener_exited e s).1
