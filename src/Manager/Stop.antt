-- ===== src/Manager/Stop.antt =====
-- The stop of the core (src/core/manager.rs, `stop_core`).
use clash_verge_service_ipc.Prelude.{
  ℕ, ◌≡◌, refl, sym, ◌∙◌, ap, Bool, true, false, ◌||◌, Option, none, some, Result, ok, err,
}
use clash_verge_service_ipc.AnyError.{AnyError}
use clash_verge_service_ipc.Manager.Held.{
  Same, remove_core_runtime_record-Same, has, child_is, guard_is, task_is, is_live, holds_failed,
  Holds, Kills, killed, survived, kill_now-Kills, cleanup-Same, Gone-dead,
}
use clash_verge_service_ipc.Manager.{
  ChildGuard, WatchdogTask, supervising, backing_off, returned, CoreManager, CoreWorld,
  with_manager, kill_now, retire_core, watchdog_cleanup, shut_down_child, join_watchdog,
  stop_watchdog, finish_stop, retried, stop_rest, stop_core,
}

-- The process `p` is gone, and nothing of the core is left in the manager.
pub record Stopped (p : ℕ) (w : CoreWorld) : Type 0 where
  pub gone : has p w.alive ≡ false
  pub no_pid : w.manager.running_pid ≡ 0
  pub no_config : w.manager.running_config ≡ none
  pub no_failed : w.manager.failed_child ≡ none
  pub no_task : w.manager.watchdog_handle ≡ none

-- Only the failed child can still be there.
pub record Left (p : ℕ) (w : CoreWorld) : Type 0 where
  pub failed : has p w.alive ≡ true → guard_is p w.manager.failed_child ≡ true
  pub no_task : w.manager.watchdog_handle ≡ none

or_false : (b : Bool) → (b || false) ≡ true → b ≡ true
or_false true e = refl
or_false false e = e

implied : (b c : Bool) → (b ≡ true → c ≡ true) → c ≡ false → b ≡ false
implied false c f e = refl
implied true c f e = sym (f refl) ∙ e

true≢false : {A : Type 0} {b : Bool} → b ≡ true → b ≡ false → A
true≢false t f = cc (t, f)

or_failed :
    (p : ℕ) (failed : Option ChildGuard) (b : Bool)
    → holds_failed failed ≡ false
    → (guard_is p failed || b) ≡ true
    → b ≡ true
or_failed p none b absent e = e
or_failed p (some guard) b absent e = cc (absent)

module _ (p : ℕ) where
  shut_down-Left :
      (guard : ChildGuard) (w w' : CoreWorld) (r : Result AnyError Unit)
      → (has p w.alive ≡ true → child_is p guard.child ≡ true)
      → w.manager.watchdog_handle ≡ none
      → Kills guard.child w r w'
      → Left p (shut_down_child guard r w').1
  unfolding shut_down_child
  shut_down-Left guard w w' (ok u) h e (killed k g) = record {
    failed = λ live.
        true≢false (sym (ap (has p) c.alive_same) ∙ live) (Gone-dead p guard.child w w' g h);
    no_task =
        ap CoreManager.watchdog_handle c.manager_same
        ∙ ap CoreManager.watchdog_handle g.manager_same
        ∙ e;
  }
    where
      c : Same (with_manager retire_core w') (watchdog_cleanup w')
      c = cleanup-Same w'
  shut_down-Left guard w w' (ok u) h e (survived x k s) = cc (k)
  shut_down-Left guard w w' (err x) h e (killed k g) = cc (k)
  shut_down-Left guard w w' (err x) h e (survived y k s) = record {
    failed = λ live. h (ap (has p) (sym s.alive_same) ∙ live);
    no_task = ap CoreManager.watchdog_handle s.manager_same ∙ e;
  }

  finish_stop-Stopped :
      (w : CoreWorld)
      → has p w.alive ≡ false
      → w.manager.failed_child ≡ none
      → w.manager.watchdog_handle ≡ none
      → Stopped p (finish_stop w).1
  unfolding finish_stop
  finish_stop-Stopped w dead failed task =
      let w' = with_manager (λ m. record (retire_core m) { running_config = none }) w in
      let s = remove_core_runtime_record-Same w' in
      record {
        gone = ap (has p) s.alive_same ∙ dead;
        no_pid = ap CoreManager.running_pid s.manager_same;
        no_config = ap CoreManager.running_config s.manager_same;
        no_failed = ap CoreManager.failed_child s.manager_same ∙ failed;
        no_task = ap CoreManager.watchdog_handle s.manager_same ∙ task;
      }

  stop_rest-Stopped :
      (failed : Option ChildGuard) (r : Result AnyError Unit) (w : CoreWorld)
      → (has p w.alive ≡ true → guard_is p failed ≡ true)
      → w.manager.failed_child ≡ failed
      → w.manager.watchdog_handle ≡ none
      → (stop_rest failed r w).0 ≡ ok tt
      → Stopped p (stop_rest failed r w).1
  unfolding stop_rest retried
  stop_rest-Stopped none (ok u) w h failed task e =
      finish_stop-Stopped w (implied (has p w.alive) false h refl) failed task
  stop_rest-Stopped none (err x) w h failed task e = cc (e)
  stop_rest-Stopped (some guard) r w h failed task e =
      by_kill (kill_now guard w').0 (kill_now guard w').1 (kill_now-Kills guard w') e
    where
      w' : CoreWorld
      w' = with_manager (λ m. record m { failed_child = none }) w

      by_kill :
          (k : Result AnyError Unit) (w2 : CoreWorld)
          → Kills guard.child w' k w2
          → (retried guard k w2).0 ≡ ok tt
          → Stopped p (retried guard k w2).1
      by_kill (ok u) w2 (killed f g) e =
          finish_stop-Stopped w2 (Gone-dead p guard.child w' w2 g h)
            (ap CoreManager.failed_child g.manager_same)
            (ap CoreManager.watchdog_handle g.manager_same ∙ task)
      by_kill (ok u) w2 (survived x f s) e = cc (f)
      by_kill (err x) w2 k e = cc (e)

  pub join-Left :
      (handle : Option WatchdogTask) (w : CoreWorld)
      → (has p w.alive ≡ true → (guard_is p w.manager.failed_child || task_is p handle) ≡ true)
      → (is_live handle ≡ true → holds_failed w.manager.failed_child ≡ false)
      → w.manager.watchdog_handle ≡ none
      → Left p (join_watchdog handle w).1
  unfolding join_watchdog
  join-Left none w h apart task = record { failed = λ live. or_false _ (h live); no_task = task }
  join-Left (some (supervising guard recovery)) w h apart task =
      shut_down-Left guard w (kill_now guard w).1 (kill_now guard w).0
        (λ live. or_failed p w.manager.failed_child (child_is p guard.child) (apart refl) (h live))
        task (kill_now-Kills guard w)
  join-Left (some (backing_off recovery)) w h apart task =
      let c = cleanup-Same w in
      record {
        failed = λ live.
            ap (guard_is p) (ap CoreManager.failed_child c.manager_same)
            ∙ or_false _ (h (sym (ap (has p) c.alive_same) ∙ live));
        no_task = ap CoreManager.watchdog_handle c.manager_same ∙ task;
      }
  join-Left (some (returned r)) w h apart task = record {
    failed = λ live. or_false _ (h live);
    no_task = task;
  }

-- If the manager holds the process whenever it runs, a failed child is held only once the watchdog
-- has returned or is absent, and the stop returns a success, then the
-- process does not run any more, and the manager holds no PID, no configuration, no watchdog and no
-- child.
pub stop_core-Stopped :
    (p : ℕ) (w : CoreWorld) → Holds p w → (stop_core w).0 ≡ ok tt → Stopped p (stop_core w).1
unfolding stop_core stop_watchdog
stop_core-Stopped p w h =
    let w1 = with_manager (λ m. record m { watchdog_handle = none }) w in
    let (r, w2) = join_watchdog w.manager.watchdog_handle w1 in
    let left : Left p w2 = join-Left p w.manager.watchdog_handle w1 h.tracked h.apart refl in
    stop_rest-Stopped p w2.manager.failed_child r w2 left.failed refl left.no_task
