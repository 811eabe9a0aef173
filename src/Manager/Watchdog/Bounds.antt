-- ===== src/Manager/Watchdog/Bounds.antt =====
-- The number of restarts and the delays (src/core/manager.rs, `start_watchdog`).
use clash_verge_service_ipc.Prelude.{
  ℕ, zero, suc, ◌+◌, ◌-◌, ◌^◌, min, ◌≤◌, ◌<◌, ◌≡◌, refl, Bool, true, false, Option, some, List, [],
  ◌∷◌, ◌++◌, ltb, if◌then◌else◌, length, length-append, retain, length-retain-le, Result, ok, err,
  arith,
}
use clash_verge_service_ipc.AnyError.{AnyError}
use clash_verge_service_ipc.Lifecycle.{fatal, core_lifecycle_state, core_lifecycle_state-set}
use clash_verge_service_ipc.Manager.{
  ChildGuard, Recovery, WatchdogTask, supervising, backing_off, returned, CoreWorld, attempt,
  kill_now, run_with_logging, write_runtime_record_for_config, id_of,
}
use clash_verge_service_ipc.Manager.Held.{cleanup-Same}
use clash_verge_service_ipc.Manager.Watchdog.{
  give_up, WatchdogConfig, note_failure, insecure, unrecorded, recorded, secured, spawned, prepared,
  restart_once, backoff_delay,
}

-- A task that goes on has at most one time stamp more than restarts are allowed.
abbrev pub IsBounded : WatchdogConfig → Option WatchdogTask → Type 0
IsBounded config (some (supervising guard recovery)) =
    length recovery.restart_timestamps ≤ config.max_restarts
IsBounded config (some (backing_off recovery)) =
    length recovery.restart_timestamps ≤ config.max_restarts + 1
IsBounded config _ = Unit

pub length-pushed :
    (keep : ℕ → Bool) (stamps : List ℕ) (now : ℕ)
    → length (retain keep stamps ++ now ∷ []) ≤ length stamps + 1
length-pushed keep stamps now =
    rw (length-append (retain keep stamps) (now ∷ []))
      (ground (arith, length-retain-le keep stamps))

module _ (config : WatchdogConfig) (recovery : Recovery)
    (few : length recovery.restart_timestamps ≤ config.max_restarts) where
  again :
      (now : ℕ)
      → length (note_failure config now recovery).restart_timestamps ≤ config.max_restarts + 1
  unfolding note_failure
  again now = ground (
    arith,
    length-pushed (λ t. ltb (now - t) config.restart_window) recovery.restart_timestamps now,
  )

  abbrev Goes : CoreWorld → Type 0
  Goes w = IsBounded config w.manager.watchdog_handle

  insecure-IsBounded :
      (guard : ChildGuard) (r : Result AnyError Unit) (w : CoreWorld)
      → Goes (insecure config recovery guard r w)
  unfolding insecure
  insecure-IsBounded guard (ok u) w = again w.now
  insecure-IsBounded guard (err x) w = tt

  unrecorded-IsBounded :
      (guard : ChildGuard) (r : Result AnyError Unit) (w : CoreWorld) → Goes (unrecorded guard r w)
  unfolding unrecorded
  unrecorded-IsBounded guard (ok u) w = tt
  unrecorded-IsBounded guard (err x) w = tt

  recorded-IsBounded :
      (guard : ChildGuard) (r : Result AnyError Unit) (w : CoreWorld)
      → Goes (recorded recovery guard r w)
  unfolding recorded
  recorded-IsBounded guard (ok u) w = few
  recorded-IsBounded guard (err x) w =
      unrecorded-IsBounded guard (kill_now guard w).0 (kill_now guard w).1

  secured-IsBounded :
      (guard : ChildGuard) (r : Result AnyError Unit) (w : CoreWorld)
      → Goes (secured config recovery guard r w)
  unfolding secured
  secured-IsBounded guard (ok u) w =
      let (r, w') = write_runtime_record_for_config (id_of guard.child) w in
      recorded-IsBounded guard r w'
  secured-IsBounded guard (err x) w =
      insecure-IsBounded guard (kill_now guard w).0 (kill_now guard w).1

  spawned-IsBounded :
      (r : Result AnyError ChildGuard) (w : CoreWorld) → Goes (spawned config recovery r w)
  unfolding spawned
  spawned-IsBounded (ok guard) w = secured-IsBounded guard (attempt w).0 (attempt w).1
  spawned-IsBounded (err x) w = again w.now

  prepared-IsBounded :
      (r : Result AnyError Unit) (w : CoreWorld) → Goes (prepared config recovery r w)
  unfolding prepared
  prepared-IsBounded (ok u) w = spawned-IsBounded (run_with_logging w).0 (run_with_logging w).1
  prepared-IsBounded (err x) w = again w.now

-- A round with more time stamps in the window than restarts are allowed spawns nothing: the core
-- is in the fatal state and the watchdog has returned. In any other round the task that goes on has
-- at most so many time stamps, and one more when it is to try again.
pub restart_once-IsBounded :
    (config : WatchdogConfig) (recovery : Recovery) (w : CoreWorld)
    → IsBounded config (restart_once config recovery w).manager.watchdog_handle
      × (config.max_restarts < length recovery.restart_timestamps
          → ((restart_once config recovery w).manager.watchdog_handle ≡ some (returned (ok tt)))
            × (core_lifecycle_state (restart_once config recovery w).cells ≡ fatal)
            × ((restart_once config recovery w).alive ≡ w.alive))
unfolding restart_once
restart_once-IsBounded config recovery w =
    by_count (ltb config.max_restarts (length recovery.restart_timestamps)) refl
  where
    run : Bool → CoreWorld
    run many = if many then give_up w else prepared config recovery (attempt w).0 (attempt w).1

    by_count :
        (many : Bool)
        → ltb config.max_restarts (length recovery.restart_timestamps) ≡ many
        → IsBounded config (run many).manager.watchdog_handle
          × (config.max_restarts < length recovery.restart_timestamps
              → ((run many).manager.watchdog_handle ≡ some (returned (ok tt)))
                × (core_lifecycle_state (run many).cells ≡ fatal)
                × ((run many).alive ≡ w.alive))
    by_count true e =
        (tt, λ h. (refl, (core_lifecycle_state-set fatal _).0, (cleanup-Same w).alive_same))
    by_count false e = (
      prepared-IsBounded config recovery (ground arith) (attempt w).0 (attempt w).1,
      λ h. ground arith,
    )

-- The shift of the delay.
shift_bounds : (n : ℕ) → (2 ^ min n 5 ≤ 32) × (2 ^ min n 5 ≤ 2 ^ min (n + 1) 5)
shift_bounds zero = (ground arith, ground arith)
shift_bounds (suc zero) = (ground arith, ground arith)
shift_bounds (suc (suc zero)) = (ground arith, ground arith)
shift_bounds (suc (suc (suc zero))) = (ground arith, ground arith)
shift_bounds (suc (suc (suc (suc zero)))) = (ground arith, ground arith)
shift_bounds (suc (suc (suc (suc (suc n))))) = (ground arith, ground arith)

-- The delay before an attempt is at most 32 seconds and at most the maximum, and it does not shrink
-- from one attempt to the next.
pub backoff_delay_bounds :
    (attempt max : ℕ)
    → (backoff_delay attempt max ≤ max)
      × (backoff_delay attempt max ≤ 32)
      × (backoff_delay attempt max ≤ backoff_delay (attempt + 1) max)
unfolding backoff_delay
backoff_delay_bounds zero max = (omega arith, omega arith, omega arith)
backoff_delay_bounds (suc n) max =
    let (small, grows) = shift_bounds n in (grind arith, grind arith, grind arith)
