-- ===== src/Manager/Watchdog/Recovered.antt =====
-- The recovery of a core that exits (src/core/manager.rs, `start_watchdog`), when the calls of the
-- operating system succeed.
use clash_verge_service_ipc.Prelude.{
  ℕ, ◌+◌, ◌-◌, ◌≤◌, ◌<◌, ◌%◌, ◌^◌, ◌≡◌, refl, sym, ap, Bool, true, false, Option, none, some, [],
  ==_refl, ltb, if◌then◌else◌, length, ok, arith,
}
use mathlib.Core.Path.{subst}
use clash_verge_service_ipc.Lifecycle.{running, core_lifecycle_state, core_lifecycle_state-set}
use clash_verge_service_ipc.Manager.{
  Child, ChildGuard, Recovery, supervising, backing_off, CoreWorld, attempt, after_outcome,
  run_with_logging, spawn, write_record_of, write_runtime_record_for_config,
  remove_core_runtime_record, forget_record,
}
use clash_verge_service_ipc.Manager.Held.{has}
use clash_verge_service_ipc.Manager.Watchdog.Bounds.{length-pushed}
use clash_verge_service_ipc.Manager.Watchdog.{
  WatchdogConfig, note_exit, core_exited, recorded, secured, spawned, prepared, give_up,
  restart_once,
}

-- What the new watchdog task starts from.
abbrev pub resumed : Recovery → Recovery
resumed recovery = record {
  restart_timestamps = recovery.restart_timestamps;
  consecutive_attempt = recovery.consecutive_attempt + 1;
}

-- A new process runs, the watchdog waits for it, the manager shows its ID, the record on the disk
-- names it, and the core's state is `running`.
pub record Recovered (recovery : Recovery) (pid : ℕ) (before w : CoreWorld) : Type 0 where
  pub alive : has before.next_process w.alive ≡ true
  pub task :
      w.manager.watchdog_handle
      ≡ some (
          supervising
            (record { child = some (record { process = before.next_process; pid = some pid }) })
            (resumed recovery))
  pub shown : w.manager.running_pid ≡ pid
  pub recorded_as : w.runtime_record ≡ some pid
  pub counted : w.manager.restart_count ≡ (before.manager.restart_count + 1) % 2 ^ 32
  pub reported : core_lifecycle_state w.cells ≡ running

abbrev no_failures : CoreWorld → CoreWorld
no_failures w = record w { outcomes = [] }

-- The exit is noted, the time of the delay passes, and the next round recovers the core.
abbrev pub Recovers : WatchdogConfig → ChildGuard → Recovery → ℕ → ℕ → ℕ → CoreWorld → Type 0
Recovers config guard recovery code later pid w =
    let exited = core_exited config guard recovery code w in
    let noted = note_exit config w.now recovery in
    (exited.manager.watchdog_handle ≡ some (backing_off noted))
    × Recovered noted pid w (restart_once config noted (record exited { now = later }))

module _ (config : WatchdogConfig) (recovery : Recovery) (w : CoreWorld) (pid : ℕ) where
  abbrev spawned_with : Option ℕ → ChildGuard
  spawned_with exposed = record {
    child = some (record { process = w.next_process; pid = exposed });
  }

  secured-Recovered :
      (exposed : Option ℕ)
      → exposed ≡ some pid
      → Recovered recovery pid w
          (secured config recovery (spawned_with exposed) (ok tt) (spawn (no_failures w)))
  unfolding secured recorded write_runtime_record_for_config write_record_of attempt after_outcome
      spawn
  secured-Recovered none e = cc (e)
  secured-Recovered (some q) e = record {
    alive = ground (arith, ==_refl w.next_process);
    task = ap (λ x. some (supervising (spawned_with x) (resumed recovery))) e;
    shown = from_some e;
    recorded_as = e;
    counted = refl;
    reported = (core_lifecycle_state-set running w.cells).0;
  }
    where
      from_some : {a b : ℕ} → some a ≡ some b → a ≡ b
      from_some e = cc (e)

  restart-Recovered :
      length recovery.restart_timestamps ≤ config.max_restarts
      → w.pid_of w.next_process ≡ some pid
      → Recovered recovery pid w (restart_once config recovery (no_failures w))
  unfolding restart_once prepared spawned run_with_logging attempt after_outcome
  restart-Recovered few exposed =
      by_count (ltb config.max_restarts (length recovery.restart_timestamps)) (ground (arith, few))
    where
      by_count :
          (many : Bool)
          → many ≡ false
          → Recovered recovery pid w (
              if many
              then give_up (no_failures w)
              else prepared config recovery (attempt (no_failures w)).0 (attempt (no_failures w)).1)
      by_count true e = cc (e)
      by_count false e = secured-Recovered (w.pid_of w.next_process) exposed

-- The list of time stamps grows by one at most.
note_exit-few :
    (config : WatchdogConfig) (now : ℕ) (recovery : Recovery)
    → length recovery.restart_timestamps < config.max_restarts
    → length (note_exit config now recovery).restart_timestamps ≤ config.max_restarts
unfolding note_exit
note_exit-few config now recovery few = ground (
  arith,
  length-pushed (λ t. ltb (now - t) config.restart_window) recovery.restart_timestamps now,
)

module _ (config : WatchdogConfig) (recovery : Recovery) (code later pid : ℕ) where
  exited-Recovers :
      (child : Option Child) (w : CoreWorld)
      → length recovery.restart_timestamps < config.max_restarts
      → w.pid_of w.next_process ≡ some pid
      → Recovers config (record { child = child }) recovery code later pid (no_failures w)
  unfolding core_exited remove_core_runtime_record forget_record attempt after_outcome
  exited-Recovers none w few exposed =
      let noted = note_exit config w.now recovery in
      let v = record (core_exited config (record { child = none }) recovery code (no_failures w)) {
        now = later;
      } in
      let r =
        restart-Recovered config noted v pid (note_exit-few config w.now recovery few) exposed in
      (
        refl,
        record {
          alive = r.alive;
          task = r.task;
          shown = r.shown;
          recorded_as = r.recorded_as;
          counted = r.counted;
          reported = r.reported;
        },
      )
  exited-Recovers (some child) w few exposed =
      let noted = note_exit config w.now recovery in
      let v =
        record (core_exited config (record { child = some child }) recovery code (no_failures w)) {
          now = later;
        } in
      let r =
        restart-Recovered config noted v pid (note_exit-few config w.now recovery few) exposed in
      (
        refl,
        record {
          alive = r.alive;
          task = r.task;
          shown = r.shown;
          recorded_as = r.recorded_as;
          counted = r.counted;
          reported = r.reported;
        },
      )

-- When a supervised core exits with fewer restarts in the window than are allowed, the calls of the
-- operating system succeed and the next process exposes an ID, then the watchdog is left waiting
-- with the exit noted, and its next round, at any time, recovers the core: a new process runs, the
-- watchdog waits for it, the manager shows its ID, the record on the disk names it, the restart is
-- counted, and the core's state is `running`.
pub core_exited-Recovers :
    (config : WatchdogConfig) (guard : ChildGuard) (recovery : Recovery) (code later pid : ℕ)
    (w : CoreWorld)
    → w.outcomes ≡ []
    → length recovery.restart_timestamps < config.max_restarts
    → w.pid_of w.next_process ≡ some pid
    → Recovers config guard recovery code later pid w
core_exited-Recovers config guard recovery code later pid w quiet few exposed =
    subst (λ o. Recovers config guard recovery code later pid (record w { outcomes = o }))
      (sym quiet) (exited-Recovers config recovery code later pid guard.child w few exposed)
