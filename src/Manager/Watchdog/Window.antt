-- ===== src/Manager/Watchdog/Window.antt =====
-- The time stamps of a watchdog whose events fall in one window (src/core/manager.rs,
-- `start_watchdog`): none is dropped, so that they count the failures.
use clash_verge_service_ipc.Prelude.{
  ℕ, ◌+◌, ◌*◌, ◌≤◌, ◌<◌, ◌≡◌, refl, sym, ◌∙◌, ap, Bool, true, false, Option, none, some, List, [],
  ◌∷◌, ◌++◌, ltb, if◌then◌else◌, length, length-append, retain-in_window, All-pushed, All, Result,
  ok, err, resume, arith,
}
use mathlib.Core.Path.{subst}
use clash_verge_service_ipc.AnyError.{AnyError}
use clash_verge_service_ipc.Lifecycle.{
  StateCells, fatal, core_lifecycle_state, core_lifecycle_state-set,
}
use clash_verge_service_ipc.Manager.{
  Child, ChildGuard, Recovery, WatchdogTask, supervising, backing_off, returned, CoreWorld, attempt,
  exits, kill_now, run_with_logging, spawn, spawned_guard, write_runtime_record_for_config, id_of,
}
use clash_verge_service_ipc.Manager.Held.{
  attempt-Same, remove_core_runtime_record-Same, kill_now-now,
}
use clash_verge_service_ipc.Manager.Watchdog.{
  WatchdogConfig, note_exit, note_failure, in_window, give_up, core_exited, wait_ended, insecure,
  unrecorded, recorded, secured, spawned, prepared, restart_once,
}

-- The calls leave the clock.
run_with_logging-now : (w : CoreWorld) → (run_with_logging w).1.now ≡ w.now
unfolding run_with_logging spawn
run_with_logging-now w = by_first (attempt w).0 (attempt w).1 (attempt-Same w).now_same
  where
    second : Result AnyError Unit → CoreWorld → CoreWorld
    second r v = (resume {E = AnyError} r (λ _ u. (ok (spawned_guard u), spawn u)) v).1

    run_second : CoreWorld → Result AnyError ChildGuard × CoreWorld
    run_second v = resume (attempt v).0 (λ _ u. (ok (spawned_guard u), spawn u)) (attempt v).1

    by_second :
        (r : Result AnyError Unit) (v : CoreWorld) → v.now ≡ w.now → (second r v).now ≡ w.now
    by_second (ok u) v e = e
    by_second (err x) v e = e

    by_first :
        (r : Result AnyError Unit) (v : CoreWorld)
        → v.now ≡ w.now
        → (resume r (λ _. run_second) v).1.now ≡ w.now
    by_first (ok u) v e = by_second (attempt v).0 (attempt v).1 ((attempt-Same v).now_same ∙ e)
    by_first (err x) v e = e

exits-now : (child : Option Child) (w : CoreWorld) → (exits child w).now ≡ w.now
exits-now none w = refl
exits-now (some child) w = refl

module _ (config : WatchdogConfig) (from : ℕ) where
  -- Where a watchdog is after `n` events of one window: two events leave one time stamp at least.
  abbrev pub Within : ℕ → Option WatchdogTask → StateCells → Type 0
  Within n none cells = ⊥
  Within n (some (supervising guard recovery)) cells =
      All (λ t. from ≤ t) recovery.restart_timestamps
      × (length recovery.restart_timestamps ≤ config.max_restarts)
      × (n ≤ 2 * length recovery.restart_timestamps)
  Within n (some (backing_off recovery)) cells =
      All (λ t. from ≤ t) recovery.restart_timestamps
      × (length recovery.restart_timestamps ≤ config.max_restarts + 1)
      × (n + 1 ≤ 2 * length recovery.restart_timestamps)
  Within n (some (returned r)) cells = core_lifecycle_state cells ≡ fatal

  abbrev pub Goes : ℕ → CoreWorld → Type 0
  Goes n w = Within n w.manager.watchdog_handle w.cells

  abbrev pub NowIn : ℕ → Type 0
  NowIn now = (from ≤ now) × (now < from + config.restart_window)

  -- A stamp that is pushed inside the window joins all the others.
  module _ (now : ℕ) (stamps : List ℕ) (here : NowIn now) (since : All (λ t. from ≤ t) stamps) where
    pushed : in_window config now stamps ++ now ∷ [] ≡ stamps ++ now ∷ []
    pushed =
        ap (λ l. l ++ now ∷ [])
          (retain-in_window from now config.restart_window stamps here.0 here.1 since)

    pushed_since : All (λ t. from ≤ t) (in_window config now stamps ++ now ∷ [])
    pushed_since =
        subst (All (λ t. from ≤ t)) (sym pushed) (All-pushed from now stamps here.0 since)

    length-pushed_all : length (in_window config now stamps ++ now ∷ []) ≡ length stamps + 1
    length-pushed_all = ap length pushed ∙ length-append stamps (now ∷ [])

  give_up-Goes : (n : ℕ) (w : CoreWorld) → Goes n (give_up w)
  give_up-Goes n w = (core_lifecycle_state-set fatal _).0

  -- A round that may start the core again.
  module _ (n : ℕ) (recovery : Recovery) (since : All (λ t. from ≤ t) recovery.restart_timestamps)
      (few : length recovery.restart_timestamps ≤ config.max_restarts)
      (enough : n + 1 ≤ 2 * length recovery.restart_timestamps) where
    again :
        (now : ℕ) (cells : StateCells)
        → NowIn now
        → Within (n + 1) (some (backing_off (note_failure config now recovery))) cells
    unfolding note_failure
    again now cells here = (
      pushed_since now recovery.restart_timestamps here since,
      omega (arith, length-pushed_all now recovery.restart_timestamps here since),
      omega (arith, length-pushed_all now recovery.restart_timestamps here since),
    )

    insecure-Goes :
        (guard : ChildGuard) (r : Result AnyError Unit) (w : CoreWorld)
        → NowIn w.now
        → Goes (n + 1) (insecure config recovery guard r w)
    unfolding insecure
    insecure-Goes guard (ok u) w here = again w.now w.cells here
    insecure-Goes guard (err x) w here = (core_lifecycle_state-set fatal _).0

    unrecorded-Goes :
        (guard : ChildGuard) (r : Result AnyError Unit) (w : CoreWorld)
        → Goes (n + 1) (unrecorded guard r w)
    unfolding unrecorded
    unrecorded-Goes guard (ok u) w = give_up-Goes (n + 1) w
    unrecorded-Goes guard (err x) w = (core_lifecycle_state-set fatal _).0

    recorded-Goes :
        (guard : ChildGuard) (r : Result AnyError Unit) (w : CoreWorld)
        → Goes (n + 1) (recorded recovery guard r w)
    unfolding recorded
    recorded-Goes guard (ok u) w = (since, few, enough)
    recorded-Goes guard (err x) w = unrecorded-Goes guard (kill_now guard w).0 (kill_now guard w).1

    secured-Goes :
        (guard : ChildGuard) (r : Result AnyError Unit) (w : CoreWorld)
        → NowIn w.now
        → Goes (n + 1) (secured config recovery guard r w)
    unfolding secured
    secured-Goes guard (ok u) w here =
        let (r, w') = write_runtime_record_for_config (id_of guard.child) w in
        recorded-Goes guard r w'
    secured-Goes guard (err x) w here =
        insecure-Goes guard (kill_now guard w).0 (kill_now guard w).1
          (subst NowIn (sym (kill_now-now guard w)) here)

    spawned-Goes :
        (r : Result AnyError ChildGuard) (w : CoreWorld)
        → NowIn w.now
        → Goes (n + 1) (spawned config recovery r w)
    unfolding spawned
    spawned-Goes (ok guard) w here =
        secured-Goes guard (attempt w).0 (attempt w).1
          (subst NowIn (sym (attempt-Same w).now_same) here)
    spawned-Goes (err x) w here = again w.now w.cells here

    prepared-Goes :
        (r : Result AnyError Unit) (w : CoreWorld)
        → NowIn w.now
        → Goes (n + 1) (prepared config recovery r w)
    unfolding prepared
    prepared-Goes (ok u) w here =
        spawned-Goes (run_with_logging w).0 (run_with_logging w).1
          (subst NowIn (sym (run_with_logging-now w)) here)
    prepared-Goes (err x) w here = again w.now w.cells here

  pub restart_once-Goes :
      (n : ℕ) (recovery : Recovery) (w : CoreWorld)
      → NowIn w.now
      → Within n (some (backing_off recovery)) w.cells
      → Goes (n + 1) (restart_once config recovery w)
  unfolding restart_once
  restart_once-Goes n recovery w here (since, few, enough) =
      by_count (ltb config.max_restarts (length recovery.restart_timestamps)) refl
    where
      by_count :
          (many : Bool)
          → ltb config.max_restarts (length recovery.restart_timestamps) ≡ many
          → Goes
              (n + 1)
              (if many then give_up w else prepared config recovery (attempt w).0 (attempt w).1)
      by_count true e = give_up-Goes (n + 1) w
      by_count false e =
          prepared-Goes n recovery since (ground arith) enough (attempt w).0 (attempt w).1
            (subst NowIn (sym (attempt-Same w).now_same) here)

  pub wait_ended-Goes :
      (n : ℕ) (guard : ChildGuard) (recovery : Recovery) (waited : Result AnyError ℕ)
      (w : CoreWorld)
      → NowIn w.now
      → Within n (some (supervising guard recovery)) w.cells
      → Goes (n + 1) (wait_ended config guard recovery waited w)
  unfolding wait_ended core_exited note_exit
  wait_ended-Goes n guard recovery (ok code) w here (since, few, enough) =
      noted _ ((remove_core_runtime_record-Same _).now_same ∙ exits-now guard.child w)
    where
      noted :
          (now : ℕ)
          → now ≡ w.now
          → Within (n + 1) (some (backing_off (note_exit config now recovery))) w.cells
      noted now e =
          let stamps = recovery.restart_timestamps in
          let here' = subst NowIn (sym e) here in
          (
            pushed_since now stamps here' since,
            omega (arith, length-pushed_all now stamps here' since),
            omega (arith, length-pushed_all now stamps here' since),
          )
  wait_ended-Goes n guard recovery (err x) w here h = give_up-Goes (n + 1) w
