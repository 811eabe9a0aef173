-- ===== src/Manager/Invariant.antt =====
-- What every operation of the manager keeps (src/core/manager.rs): a process that runs is in the
-- manager's hands. Here the steps that the operations share, and the stop.
pub mod Starts
pub mod Launch
pub mod Reachable
use clash_verge_service_ipc.Prelude.{
  ℕ, ◌≡◌, refl, sym, ◌∙◌, ap, Bool, true, false, ◌||◌, Option, none, some, Result, ok, err, Action,
  resume, modify, ◌>>◌,
}
use clash_verge_service_ipc.AnyError.{AnyError}
use clash_verge_service_ipc.Manager.{
  ChildGuard, WatchdogTask, supervising, backing_off, returned, CoreManager, CoreWorld, attempt,
  with_manager, kill_now, shut_down_child, join_watchdog, stop_watchdog, finish_stop, retried,
  stop_rest, stop_core, keep_failed, remove_core_runtime_record, retire_core, write_record_of,
  write_runtime_record_for_config,
}
use clash_verge_service_ipc.Manager.Stop.{Left, join-Left}
use clash_verge_service_ipc.Manager.Held.{
  Same, attempt-Same, remove_core_runtime_record-Same, has, child_is, guard_is, task_is, is_live,
  holds_failed, is_tracked, Holds, Kills, killed, survived, kill_now-Kills, cleanup-Same, Gone-dead,
}

-- The manager's fields and the processes that run are as before.
pub record Keeps (w w' : CoreWorld) : Type 0 where
  pub manager_same : w'.manager ≡ w.manager
  pub alive_same : w'.alive ≡ w.alive

pub Same-Keeps : {w w' : CoreWorld} → Same w w' → Keeps w w'
Same-Keeps s = record { manager_same = s.manager_same; alive_same = s.alive_same }

pub Keeps-trans : {u v w : CoreWorld} → Keeps u v → Keeps v w → Keeps u w
Keeps-trans a b = record {
  manager_same = b.manager_same ∙ a.manager_same;
  alive_same = b.alive_same ∙ a.alive_same;
}

pub attempt-Keeps : (w : CoreWorld) → Keeps w (attempt w).1
attempt-Keeps w = Same-Keeps (attempt-Same w)

-- The process `p` does not run, and no child is kept as failed.
pub record Free (p : ℕ) (w : CoreWorld) : Type 0 where
  pub gone : has p w.alive ≡ false
  pub no_failed : w.manager.failed_child ≡ none

-- The process `p` runs only as the guard's child, and no other child is kept as failed.
pub record Fresh (p : ℕ) (guard : ChildGuard) (w : CoreWorld) : Type 0 where
  pub only : has p w.alive ≡ true → child_is p guard.child ≡ true
  pub no_failed : w.manager.failed_child ≡ none

pub false_unless : (b : Bool) → (b ≡ true → false ≡ true) → b ≡ false
false_unless false f = refl
false_unless true f = sym (f refl)

pub absurd_bool : {A : Type 0} {b : Bool} → b ≡ true → b ≡ false → A
absurd_bool t f = cc (t, f)

pub or_same : {a b c d : Bool} → a ≡ b → c ≡ d → (a || c) ≡ (b || d)
or_same e f = cc (e, f)

pub left_true : (b c : Bool) → b ≡ true → (b || c) ≡ true
left_true true c e = refl
left_true false c e = cc (e)

-- What a kill of the guard's child leaves: the process is gone, or all is as it was.
abbrev pub AfterKill : ℕ → ChildGuard → Result AnyError Unit → CoreWorld → Type 0
AfterKill p guard (ok _) w = Free p w
AfterKill p guard (err _) w = Fresh p guard w

module _ {p : ℕ} where
  pub Free-Keeps : {w w' : CoreWorld} → Keeps w w' → Free p w → Free p w'
  Free-Keeps k f = record {
    gone = ap (has p) k.alive_same ∙ f.gone;
    no_failed = ap CoreManager.failed_child k.manager_same ∙ f.no_failed;
  }

  pub Fresh-Keeps :
      {guard : ChildGuard} {w w' : CoreWorld} → Keeps w w' → Fresh p guard w → Fresh p guard w'
  Fresh-Keeps k f = record {
    only = λ live. f.only (ap (has p) (sym k.alive_same) ∙ live);
    no_failed = ap CoreManager.failed_child k.manager_same ∙ f.no_failed;
  }

  pub Free-Holds : {w : CoreWorld} → Free p w → Holds p w
  Free-Holds f = record {
    tracked = λ live. absurd_bool live f.gone;
    apart = λ _. ap holds_failed f.no_failed;
  }

  -- A child that could not be killed is kept, once no watchdog is left to hold another.
  pub keep_failed-Holds :
      (guard : ChildGuard) (w : CoreWorld)
      → (has p w.alive ≡ true → child_is p guard.child ≡ true)
      → is_live w.manager.watchdog_handle ≡ false
      → Holds p (keep_failed guard w)
  keep_failed-Holds guard w only idle = record {
    tracked = λ live. left_true _ _ (only live);
    apart = λ l. absurd_bool l idle;
  }

pub kill_now-manager :
    (guard : ChildGuard) (w : CoreWorld) → (kill_now guard w).1.manager ≡ w.manager
kill_now-manager guard w = by_kill _ _ (kill_now-Kills guard w)
  where
    by_kill :
        (r : Result AnyError Unit) (w' : CoreWorld)
        → Kills guard.child w r w'
        → w'.manager ≡ w.manager
    by_kill r w' (killed e g) = g.manager_same
    by_kill r w' (survived x e s) = s.manager_same

pub kill_now-AfterKill :
    {p : ℕ} (guard : ChildGuard) (w : CoreWorld)
    → Fresh p guard w
    → AfterKill p guard (kill_now guard w).0 (kill_now guard w).1
kill_now-AfterKill {p = p} guard w f = by_kill _ _ (kill_now-Kills guard w)
  where
    by_kill :
        (r : Result AnyError Unit) (w' : CoreWorld)
        → Kills guard.child w r w'
        → AfterKill p guard r w'
    by_kill (ok u) w' (killed e g) = record {
      gone = Gone-dead p _ _ _ g f.only;
      no_failed = ap CoreManager.failed_child g.manager_same ∙ f.no_failed;
    }
    by_kill (ok u) w' (survived x e s) = cc (e)
    by_kill (err x) w' (killed e g) = cc (e)
    by_kill (err x) w' (survived y e s) = Fresh-Keeps (Same-Keeps s) f

-- The record is written to the disk only.
pub write_record-Keeps : (pid : Option ℕ) (w : CoreWorld) → Keeps w (write_record_of pid w).1
unfolding write_record_of
write_record-Keeps none w = record { manager_same = refl; alive_same = refl }
write_record-Keeps (some pid) w = by_first (attempt w).0 (attempt w).1 (attempt-Keeps w)
  where
    put : Action AnyError CoreWorld Unit
    put = modify (λ v. record v { runtime_record = some pid }) tt >> attempt

    by_second :
        (r : Result AnyError Unit) (v : CoreWorld) → Keeps w v → Keeps w (resume r (λ _. put) v).1
    by_second (ok u) v k =
        let written = record v { runtime_record = some pid } in
        Keeps-trans k (record {
          manager_same = (attempt-Keeps written).manager_same;
          alive_same = (attempt-Keeps written).alive_same;
        })
    by_second (err x) v k = k

    by_first :
        (r : Result AnyError Unit) (v : CoreWorld)
        → Keeps w v
        → Keeps w (resume r (λ _ u. resume (attempt u).0 (λ _. put) (attempt u).1) v).1
    by_first (ok u) v k = by_second (attempt v).0 (attempt v).1 (Keeps-trans k (attempt-Keeps v))
    by_first (err x) v k = k

pub write_runtime_record-Keeps :
    (pid : Option ℕ) (w : CoreWorld) → Keeps w (write_runtime_record_for_config pid w).1
unfolding write_runtime_record_for_config
write_runtime_record-Keeps pid w = write_record-Keeps pid w

-- Only the failed child can still run once the task is joined, and a stop kills it again.
module _ {p : ℕ} where
  pub Left-Holds : {w : CoreWorld} → Left p w → Holds p w
  Left-Holds j = record {
    tracked = λ live. left_true _ _ (j.failed live);
    apart = λ l. absurd_bool l (ap is_live j.no_task);
  }

  finish_stop-Holds : (w : CoreWorld) → Free p w → Holds p (finish_stop w).1
  unfolding finish_stop
  finish_stop-Holds w f =
      let w' = with_manager (λ m. record (retire_core m) { running_config = none }) w in
      let kept = Same-Keeps (remove_core_runtime_record-Same w') in
      let f' : Free p w' = record { gone = f.gone; no_failed = f.no_failed } in
      let g = Free-Holds (Free-Keeps kept f') in record { tracked = g.tracked; apart = g.apart }

  stop_rest-Holds :
      (failed : Option ChildGuard) (r : Result AnyError Unit) (w : CoreWorld)
      → Left p w
      → w.manager.failed_child ≡ failed
      → Holds p (stop_rest failed r w).1
  unfolding stop_rest retried
  stop_rest-Holds none (ok u) w j e = finish_stop-Holds w (record {
    gone = false_unless _ (λ live. ap (guard_is p) (sym e) ∙ j.failed live);
    no_failed = e;
  })
  stop_rest-Holds none (err x) w j e = Left-Holds j
  stop_rest-Holds (some guard) r w j e =
      by_kill (kill_now guard w').0 (kill_now guard w').1 (kill_now-AfterKill guard w' start)
        (ap CoreManager.watchdog_handle (kill_now-manager guard w') ∙ j.no_task)
    where
      w' : CoreWorld
      w' = with_manager (λ m. record m { failed_child = none }) w

      start : Fresh p guard w'
      start = record { only = λ live. ap (guard_is p) (sym e) ∙ j.failed live; no_failed = refl }

      by_kill :
          (k : Result AnyError Unit) (v : CoreWorld)
          → AfterKill p guard k v
          → v.manager.watchdog_handle ≡ none
          → Holds p (retried guard k v).1
      by_kill (ok u) v after task = finish_stop-Holds v after
      by_kill (err x) v after task = record {
        tracked = λ live. left_true _ _ (after.only live);
        apart = λ l. absurd_bool l (ap is_live task);
      }

  pub stop_core-Holds : (w : CoreWorld) → Holds p w → Holds p (stop_core w).1
  unfolding stop_core stop_watchdog
  stop_core-Holds w h =
      let w1 = with_manager (λ m. record m { watchdog_handle = none }) w in
      let (r, w2) = join_watchdog w.manager.watchdog_handle w1 in
      stop_rest-Holds w2.manager.failed_child r w2
        (join-Left p w.manager.watchdog_handle w1 h.tracked h.apart refl) refl
