-- ===== src/Manager/Invariant/Launch.antt =====
-- From an idle manager to a core (src/core/manager.rs, `start_core`): every step on the way.
use clash_verge_service_ipc.Prelude.{
  ℕ, ◌≡◌, refl, ◌∙◌, ap, true, false, Bool, Result, ok, err, Action, resume, modify, ◌>>=◌, ◌==◌,
  if◌then◌else◌,
}
use clash_verge_service_ipc.AnyError.{AnyError, anyhow}
use clash_verge_service_ipc.Structure.{ClashConfig}
use clash_verge_service_ipc.Lifecycle.{starting}
use clash_verge_service_ipc.Manager.{
  ChildGuard, CoreWorld, attempt, set_state, spawned_guard, spawn, run_with_logging, with_child,
  stop_running, ensure_startup_reconciled, start_core, stop_core,
}
use clash_verge_service_ipc.Manager.Held.{is_live, Holds}
use clash_verge_service_ipc.Manager.Stop.{stop_core-Stopped}
use clash_verge_service_ipc.Manager.Invariant.{
  attempt-Keeps, Free, Free-Keeps, Free-Holds, stop_core-Holds,
}
use clash_verge_service_ipc.Manager.Invariant.Starts.{
  Quiet, ap-Quiet, AfterSpawn, run_with_logging-AfterSpawn, with_child-Holds,
}

pub run_with_logging-manager : (w : CoreWorld) → (run_with_logging w).1.manager ≡ w.manager
unfolding run_with_logging spawn
run_with_logging-manager w = by_first (attempt w).0 (attempt w).1 (attempt-Keeps w).manager_same
  where
    second : Result AnyError Unit → CoreWorld → Result AnyError ChildGuard × CoreWorld
    second r v = resume r (λ _ u. (ok (spawned_guard u), spawn u)) v

    by_second :
        (r : Result AnyError Unit) (v : CoreWorld)
        → v.manager ≡ w.manager
        → (second r v).1.manager ≡ w.manager
    by_second (ok u) v e = e
    by_second (err x) v e = e

    by_first :
        (r : Result AnyError Unit) (v : CoreWorld)
        → v.manager ≡ w.manager
        → (resume r (λ _ u. second (attempt u).0 (attempt u).1) v).1.manager ≡ w.manager
    by_first (ok u) v e = by_second (attempt v).0 (attempt v).1 ((attempt-Keeps v).manager_same ∙ e)
    by_first (err x) v e = e

-- The process does not run and no watchdog goes on, or the step failed.
abbrev AfterStop : ℕ → Result AnyError Unit → CoreWorld → Type 0
AfterStop p (ok _) w = Free p w × Quiet w.manager
AfterStop p (err _) w = Holds p w

stop_core-AfterStop :
    {p : ℕ} (w : CoreWorld) → Holds p w → AfterStop p (stop_core w).0 (stop_core w).1
stop_core-AfterStop {p = p} w h = by_result (stop_core w).0 refl
  where
    by_result : (r : Result AnyError Unit) → (stop_core w).0 ≡ r → AfterStop p r (stop_core w).1
    by_result (ok u) e =
        let s = stop_core-Stopped p w h e in
        (record { gone = s.gone; no_failed = s.no_failed }, ap is_live s.no_task)
    by_result (err x) e = stop_core-Holds w h

module _ {p : ℕ} where
  stop_running-AfterStop :
      (w : CoreWorld)
      → Free p w
      → Quiet w.manager
      → AfterStop p (stop_running w).0 (stop_running w).1
  unfolding stop_running
  stop_running-AfterStop w f quiet = by_pid (w.manager.running_pid == 0)
    where
      run : Bool → Result AnyError Unit × CoreWorld
      run none_runs = if none_runs then (ok tt, w) else stop_core w

      by_pid : (none_runs : Bool) → AfterStop p (run none_runs).0 (run none_runs).1
      by_pid true = (f, quiet)
      by_pid false = stop_core-AfterStop w (Free-Holds f)

  launch-Holds :
      (config : ClashConfig) (r : Result AnyError ChildGuard) (w : CoreWorld)
      → Quiet w.manager
      → AfterSpawn p r w
      → Holds p (resume r (with_child config) w).1
  launch-Holds config (ok guard) w quiet after = with_child-Holds guard config w quiet after
  launch-Holds config (err x) w quiet after = Free-Holds after

  prepared-Holds :
      (config : ClashConfig) (r : Result AnyError Unit) (w : CoreWorld)
      → Quiet w.manager
      → Free p w
      → Holds p (resume r (λ _. run_with_logging >>= with_child config) w).1
  prepared-Holds config (ok u) w quiet f =
      launch-Holds config (run_with_logging w).0 (run_with_logging w).1
        (ap-Quiet (run_with_logging-manager w) quiet) (run_with_logging-AfterSpawn w f)
  prepared-Holds config (err x) w quiet f = Free-Holds f

  stopped-Holds :
      (config : ClashConfig) (r : Result AnyError Unit) (w : CoreWorld)
      → AfterStop p r w
      → Holds p (resume r (λ _. attempt >>= λ _. run_with_logging >>= with_child config) w).1
  stopped-Holds config (ok u) w (f, quiet) =
      let k = attempt-Keeps w in
      prepared-Holds config (attempt w).0 (attempt w).1 (ap-Quiet k.manager_same quiet)
        (Free-Keeps k f)
  stopped-Holds config (err x) w h = h

  pub start_core-Holds :
      (config : ClashConfig) (w : CoreWorld)
      → Free p w
      → Quiet w.manager
      → Holds p (start_core config w).1
  unfolding start_core ensure_startup_reconciled
  start_core-Holds config w f quiet = by_reconciled w.startup_reconciled
    where
      w' : CoreWorld
      w' = set_state starting w

      stopped : AfterStop p (stop_running w').0 (stop_running w').1
      stopped = stop_running-AfterStop w' (record { gone = f.gone; no_failed = f.no_failed }) quiet

      checked : Bool → Result AnyError Unit × CoreWorld
      checked b = if b then (ok tt, w) else (err anyhow, w)

      rest : Action AnyError CoreWorld Unit
      rest = modify (set_state starting) tt >>= λ _.
          stop_running >>= λ _. attempt >>= λ _. run_with_logging >>= with_child config

      by_reconciled : (b : Bool) → Holds p (resume (checked b).0 (λ _. rest) (checked b).1).1
      by_reconciled true = stopped-Holds config (stop_running w').0 (stop_running w').1 stopped
      by_reconciled false = Free-Holds f
