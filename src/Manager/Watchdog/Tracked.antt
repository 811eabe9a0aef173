-- ===== src/Manager/Watchdog/Tracked.antt =====
-- The exit of the core and the restart (src/core/manager.rs, `start_watchdog`): what runs afterwards
-- is in the manager's hands.
use clash_verge_service_ipc.Prelude.{
  ℕ, ◌≡◌, refl, sym, ◌∙◌, ap, true, false, Bool, ◌&&◌, not, some, none, Option, Result, ok, err,
  ltb, if◌then◌else◌, length,
}
use clash_verge_service_ipc.AnyError.{AnyError}
use clash_verge_service_ipc.Lifecycle.{recovering_core}
use clash_verge_service_ipc.Manager.{
  Child, ChildGuard, Recovery, WatchdogTask, supervising, backing_off, returned, CoreWorld, attempt,
  with_manager, set_state, exits, retire_core, kill_now, kill_dropped, id_of, run_with_logging,
  remove_core_runtime_record, write_runtime_record_for_config, watchdog_cleanup, keep_failed,
}
use clash_verge_service_ipc.Manager.Watchdog.{
  WatchdogConfig, with_task, give_up, core_exited, wait_ended, track_unkilled, insecure, unrecorded,
  recorded, secured, spawned, prepared, restart_once,
}
use clash_verge_service_ipc.Manager.Held.{
  has, child_is, guard_is, task_is, is_live, holds_failed, is_tracked, Holds, Kills, killed,
  survived, kill_now-Kills, has-remove_process, cleanup-Same, remove_core_runtime_record-Same,
}
use clash_verge_service_ipc.Manager.Invariant.{
  Same-Keeps, attempt-Keeps, Free, Fresh, AfterKill, Free-Keeps, Fresh-Keeps, kill_now-AfterKill,
  or_same, left_true, absurd_bool, false_unless, write_runtime_record-Keeps,
}
use clash_verge_service_ipc.Manager.Invariant.Starts.{
  AfterSpawn, run_with_logging-AfterSpawn, right_true,
}

failed-none : (failed : Option ChildGuard) → holds_failed failed ≡ false → failed ≡ none
failed-none none e = refl
failed-none (some guard) e = cc (e)

-- A child that was spawned and could not be killed is kept, and the task returns.
abbrev given_up : Result AnyError Unit → ChildGuard → CoreWorld → CoreWorld
given_up r guard w = with_task (returned r) (keep_failed guard w)

module _ {p : ℕ} where
  idle_task-Holds : (task : WatchdogTask) (w : CoreWorld) → Free p w → Holds p (with_task task w)
  idle_task-Holds task w f = record {
    tracked = λ live. absurd_bool live f.gone;
    apart = λ _. ap holds_failed f.no_failed;
  }

  given_up-Holds :
      (r : Result AnyError Unit) (guard : ChildGuard) (w : CoreWorld)
      → (has p w.alive ≡ true → child_is p guard.child ≡ true)
      → Holds p (given_up r guard w)
  given_up-Holds r guard w only = record {
    tracked = λ live. left_true _ _ (only live);
    apart = λ l. cc (l);
  }

  give_up-Holds : (w : CoreWorld) → Free p w → Holds p (give_up w)
  give_up-Holds w f =
      let retired : Free p (with_manager retire_core w) = record {
        gone = f.gone;
        no_failed = f.no_failed;
      } in
      let h =
        idle_task-Holds (returned (ok tt)) (watchdog_cleanup w)
          (Free-Keeps (Same-Keeps (cleanup-Same w)) retired) in
      record { tracked = h.tracked; apart = h.apart }

  module _ (config : WatchdogConfig) (recovery : Recovery) where
    insecure-Holds :
        (guard : ChildGuard) (r : Result AnyError Unit) (w : CoreWorld)
        → AfterKill p guard r w
        → Holds p (insecure config recovery guard r w)
    unfolding insecure
    insecure-Holds guard (ok u) w after = idle_task-Holds _ w after
    insecure-Holds guard (err x) w after =
        let k = write_runtime_record-Keeps (id_of guard.child) (track_unkilled guard w) in
        given_up-Holds _ guard
          (write_runtime_record_for_config (id_of guard.child) (track_unkilled guard w)).1
          (λ live. after.only (ap (has p) (sym k.alive_same) ∙ live))

    unrecorded-Holds :
        (guard : ChildGuard) (r : Result AnyError Unit) (w : CoreWorld)
        → AfterKill p guard r w
        → Holds p (unrecorded guard r w)
    unfolding unrecorded
    unrecorded-Holds guard (ok u) w after = give_up-Holds w after
    unrecorded-Holds guard (err x) w after =
        given_up-Holds _ guard (track_unkilled guard w) after.only

    recorded-Holds :
        (guard : ChildGuard) (r : Result AnyError Unit) (w : CoreWorld)
        → Fresh p guard w
        → Holds p (recorded recovery guard r w)
    unfolding recorded
    recorded-Holds guard (ok u) w f = record {
      tracked = λ live. right_true _ _ (f.only live);
      apart = λ _. ap holds_failed f.no_failed;
    }
    recorded-Holds guard (err x) w f =
        unrecorded-Holds guard (kill_now guard w).0 (kill_now guard w).1
          (kill_now-AfterKill guard w f)

    secured-Holds :
        (guard : ChildGuard) (r : Result AnyError Unit) (w : CoreWorld)
        → Fresh p guard w
        → Holds p (secured config recovery guard r w)
    unfolding secured
    secured-Holds guard (ok u) w f =
        let k = write_runtime_record-Keeps (id_of guard.child) w in
        let (r, w') = write_runtime_record_for_config (id_of guard.child) w in
        recorded-Holds guard r w' (Fresh-Keeps k f)
    secured-Holds guard (err x) w f =
        insecure-Holds guard (kill_now guard w).0 (kill_now guard w).1
          (kill_now-AfterKill guard w f)

    spawned-Holds :
        (r : Result AnyError ChildGuard) (w : CoreWorld)
        → AfterSpawn p r w
        → Holds p (spawned config recovery r w)
    unfolding spawned
    spawned-Holds (ok guard) w f =
        secured-Holds guard (attempt w).0 (attempt w).1 (Fresh-Keeps (attempt-Keeps w) f)
    spawned-Holds (err x) w f = idle_task-Holds _ w f

    prepared-Holds :
        (r : Result AnyError Unit) (w : CoreWorld)
        → Free p w
        → Holds p (prepared config recovery r w)
    unfolding prepared
    prepared-Holds (ok u) w f =
        spawned-Holds (run_with_logging w).0 (run_with_logging w).1
          (run_with_logging-AfterSpawn w f)
    prepared-Holds (err x) w f = idle_task-Holds _ w f

    restart-Holds : (w : CoreWorld) → Free p w → Holds p (restart_once config recovery w)
    unfolding restart_once
    restart-Holds w f = by_count (ltb config.max_restarts (length recovery.restart_timestamps))
      where
        by_count :
            (many : Bool)
            → Holds p
                (if many then give_up w else prepared config recovery (attempt w).0 (attempt w).1)
        by_count true = give_up-Holds w f
        by_count false = prepared-Holds (attempt w).0 (attempt w).1 (Free-Keeps (attempt-Keeps w) f)

  -- A watchdog that waits before a restart holds nothing, so nothing runs.
  backing_off-Free :
      (recovery : Recovery) (w : CoreWorld)
      → w.manager.watchdog_handle ≡ some (backing_off recovery)
      → Holds p w
      → Free p w
  backing_off-Free recovery w e h =
      let none_failed = failed-none w.manager.failed_child (h.apart (ap is_live e)) in
      record {
        gone =
            false_unless _ λ live.
              sym (or_same (ap (guard_is p) none_failed) (ap (task_is p) e)) ∙ h.tracked live;
        no_failed = none_failed;
      }

  pub restart_once-Holds :
      (config : WatchdogConfig) (recovery : Recovery) (w : CoreWorld)
      → w.manager.watchdog_handle ≡ some (backing_off recovery)
      → Holds p w
      → Holds p (restart_once config recovery w)
  restart_once-Holds config recovery w e h =
      restart-Holds config recovery w (backing_off-Free recovery w e h)

  -- Under a watchdog that waits for its child only that child can run.
  supervising-Fresh :
      (guard : ChildGuard) (recovery : Recovery) (w : CoreWorld)
      → w.manager.watchdog_handle ≡ some (supervising guard recovery)
      → Holds p w
      → Fresh p guard w
  supervising-Fresh guard recovery w e h =
      let none_failed = failed-none w.manager.failed_child (h.apart (ap is_live e)) in
      record {
        only =
            λ live. sym (or_same (ap (guard_is p) none_failed) (ap (task_is p) e)) ∙ h.tracked live;
        no_failed = none_failed;
      }

  exits-Free :
      (child : Option Child) (w : CoreWorld)
      → Fresh p (record { child = child }) w
      → Free p (exits child w)
  exits-Free none w f = record {
    gone = false_unless _ (λ live. f.only live);
    no_failed = f.no_failed;
  }
  exits-Free (some child) w f = record {
    gone = has-remove_process p child.process w.alive ∙ not_both _ _ f.only;
    no_failed = f.no_failed;
  }
    where
      not_both : (b c : Bool) → (b ≡ true → c ≡ true) → (b && not c) ≡ false
      not_both false c g = refl
      not_both true c g = ap not (g refl)

  pub core_exited-Holds :
      (config : WatchdogConfig) (guard : ChildGuard) (recovery : Recovery) (code : ℕ)
      (w : CoreWorld)
      → w.manager.watchdog_handle ≡ some (supervising guard recovery)
      → Holds p w
      → Holds p (core_exited config guard recovery code w)
  unfolding core_exited
  core_exited-Holds config guard recovery code w e h =
      let gone = exits guard.child w in
      let f = exits-Free guard.child w (supervising-Fresh guard recovery w e h) in
      let noted =
        with_manager
          (λ m. record m {
            last_core_exit_reason = some code;
            running_pid = 0;
            core_started_at = 0;
          })
          (set_state recovering_core gone) in
      let f' : Free p noted = record { gone = f.gone; no_failed = f.no_failed } in
      idle_task-Holds _ (remove_core_runtime_record noted)
        (Free-Keeps (Same-Keeps (remove_core_runtime_record-Same noted)) f')

  -- A wait that fails drops the child: any other process does not run.
  pub wait_ended-Holds :
      (config : WatchdogConfig) (guard : ChildGuard) (recovery : Recovery) (error : AnyError)
      (w : CoreWorld)
      → w.manager.watchdog_handle ≡ some (supervising guard recovery)
      → child_is p guard.child ≡ false
      → Holds p w
      → Holds p (wait_ended config guard recovery (err error) w)
  unfolding wait_ended
  wait_ended-Holds config guard recovery error w e other h =
      let f = supervising-Fresh guard recovery w e h in
      give_up-Holds w (record {
        gone = false_unless _ (λ live. sym other ∙ f.only live);
        no_failed = f.no_failed;
      })

  -- The kill of a child that was dropped leaves the manager alone.
  pub kill_dropped-Holds :
      (child : Child) (w : CoreWorld) → Holds p w → Holds p (kill_dropped child w)
  unfolding kill_dropped
  kill_dropped-Holds child w h = by_kill _ _ (kill_now-Kills (record { child = some child }) w)
    where
      left : (b c : Bool) → (b && c) ≡ true → b ≡ true
      left true c e = refl
      left false c e = e

      by_kill : (r : Result AnyError Unit) (w' : CoreWorld) → Kills (some child) w r w' → Holds p w'
      by_kill r w' (killed e g) = record {
        tracked = λ live.
            ap (is_tracked p) g.manager_same ∙ h.tracked (left _ _ (sym (g.alive_less p) ∙ live));
        apart = λ l.
            ap (λ m. holds_failed m.failed_child) g.manager_same
            ∙ h.apart (sym (ap (λ m. is_live m.watchdog_handle) g.manager_same) ∙ l);
      }
      by_kill r w' (survived x e s) = record {
        tracked = λ live.
            ap (is_tracked p) s.manager_same ∙ h.tracked (sym (ap (has p) s.alive_same) ∙ live);
        apart = λ l.
            ap (λ m. holds_failed m.failed_child) s.manager_same
            ∙ h.apart (sym (ap (λ m. is_live m.watchdog_handle) s.manager_same) ∙ l);
      }
