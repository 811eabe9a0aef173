-- ===== src/Manager/Watchdog/GivenUp.antt =====
-- A core that keeps failing inside one window (src/core/manager.rs, `start_watchdog`): the watchdog
-- gives up on it.
use clash_verge_service_ipc.Prelude.{
  ℕ, ◌+◌, ◌*◌, ◌≤◌, ◌<◌, ◌≡◌, refl, sym, Option, none, some, List, [], ◌∷◌, length, All, Result,
  arith,
}
use mathlib.Core.Path.{subst}
use clash_verge_service_ipc.AnyError.{AnyError}
use clash_verge_service_ipc.Lifecycle.{fatal, core_lifecycle_state}
use clash_verge_service_ipc.Manager.{
  ChildGuard, Recovery, WatchdogTask, supervising, backing_off, returned, CoreWorld,
}
use clash_verge_service_ipc.Manager.Watchdog.{WatchdogConfig, WatchdogEvent, watch_next, watch}
use clash_verge_service_ipc.Manager.Watchdog.Window.{
  Within, Goes, NowIn, restart_once-Goes, wait_ended-Goes,
}

-- The watchdog has returned, and the core is in the fatal state.
pub record HasGivenUp (w : CoreWorld) : Type 0 where
  pub result : Result AnyError Unit
  pub ended : w.manager.watchdog_handle ≡ some (returned result)
  pub reported : core_lifecycle_state w.cells ≡ fatal

-- The events are at times from `from` on and before the end of the window.
abbrev pub InWindow : WatchdogConfig → ℕ → List WatchdogEvent → Type 0
InWindow config from = All (λ e. (from ≤ e.at) × (e.at < from + config.restart_window))

module _ (config : WatchdogConfig) (from : ℕ) where
  watch_next-Goes :
      (n : ℕ) (waited : Result AnyError ℕ) (task : Option WatchdogTask) (w : CoreWorld)
      → w.manager.watchdog_handle ≡ task
      → NowIn config from w.now
      → Within config from n task w.cells
      → Goes config from (n + 1) (watch_next config waited task w)
  unfolding watch_next
  watch_next-Goes n waited none w e here h = elim h [ ]
  watch_next-Goes n waited (some (supervising guard recovery)) w e here h =
      wait_ended-Goes config from n guard recovery waited w here h
  watch_next-Goes n waited (some (backing_off recovery)) w e here h =
      restart_once-Goes config from n recovery w here h
  watch_next-Goes n waited (some (returned r)) w e here h =
      subst (λ t. Within config from (n + 1) t w.cells) (sym e) h

  watch-Goes :
      (events : List WatchdogEvent) (n : ℕ) (w : CoreWorld)
      → InWindow config from events
      → Goes config from n w
      → Goes config from (n + length events) (watch config events w)
  unfolding watch
  watch-Goes [] n w all h = subst (λ k. Goes config from k w) (omega arith) h
  watch-Goes (e ∷ events) n w (here, all) h =
      let v = record w { now = e.at; outcomes = e.outcomes } in
      let next = watch_next config e.waited w.manager.watchdog_handle v in
      subst (λ k. Goes config from k (watch config events next)) (omega arith)
        (watch-Goes events (n + 1) next all
          (watch_next-Goes n e.waited w.manager.watchdog_handle v refl here h))

  Goes-HasGivenUp :
      (n : ℕ) (w : CoreWorld) (task : Option WatchdogTask)
      → w.manager.watchdog_handle ≡ task
      → 2 * config.max_restarts + 2 ≤ n
      → Within config from n task w.cells
      → HasGivenUp w
  Goes-HasGivenUp n w none e many h = elim h [ ]
  Goes-HasGivenUp n w (some (supervising guard recovery)) e many (since, few, enough) =
      absurd (omega arith)
  Goes-HasGivenUp n w (some (backing_off recovery)) e many (since, few, enough) =
      absurd (omega arith)
  Goes-HasGivenUp n w (some (returned r)) e many h = record { result = r; ended = e; reported = h }

-- A watchdog that supervises a core, with no more restarts noted than are allowed, gives up on a core
-- that keeps failing: after twice as many events as restarts are allowed, and two more, all of them
-- inside one window with the time stamps that are noted already, it has returned and the core is in
-- the fatal state, whatever the waits and the other calls do. An event is the end of a wait, or a
-- round that tries to start the core again.
pub watch-HasGivenUp :
    (config : WatchdogConfig) (from : ℕ) (events : List WatchdogEvent) (guard : ChildGuard)
    (recovery : Recovery) (w : CoreWorld)
    → w.manager.watchdog_handle ≡ some (supervising guard recovery)
    → InWindow config from events
    → All (λ t. from ≤ t) recovery.restart_timestamps
    → length recovery.restart_timestamps ≤ config.max_restarts
    → 2 * config.max_restarts + 2 ≤ length events
    → HasGivenUp (watch config events w)
watch-HasGivenUp config from events guard recovery w e all since few many =
    let ended = watch config events w in
    Goes-HasGivenUp config from (0 + length events) ended ended.manager.watchdog_handle refl
      (omega arith)
      (watch-Goes config from events 0 w all
        (subst (λ t. Within config from 0 t w.cells) (sym e) (since, few, omega arith)))
