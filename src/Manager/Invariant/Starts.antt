-- ===== src/Manager/Invariant/Starts.antt =====
-- The start of the core (src/core/manager.rs, `start_core`): what it leaves running is in the
-- manager's hands, also when it fails.
use clash_verge_service_ipc.Prelude.{
  ℕ, ◌≡◌, refl, sym, ◌∙◌, ap, true, false, ◌||◌, Bool, Result, ok, err, resume, ◌==◌,
}
use clash_verge_service_ipc.AnyError.{AnyError}
use clash_verge_service_ipc.Structure.{ClashConfig}
use clash_verge_service_ipc.Manager.{
  ChildGuard, CoreManager, CoreWorld, attempt, kill_now, id_of, spawned_guard, spawn,
  run_with_logging, write_runtime_record_for_config, after_insecure, after_unrecorded, after_record,
  after_secure, with_child, track_failed,
}
use clash_verge_service_ipc.Manager.Held.{has, is_live, holds_failed, Holds}
use clash_verge_service_ipc.Manager.Invariant.{
  Keeps, Keeps-trans, attempt-Keeps, Free, Fresh, AfterKill, Free-Keeps, Fresh-Keeps, Free-Holds,
  keep_failed-Holds, kill_now-manager, kill_now-AfterKill, write_runtime_record-Keeps,
}

-- No watchdog goes on.
abbrev pub Quiet : CoreManager → Type 0
Quiet m = is_live m.watchdog_handle ≡ false

-- The process that a successful call has spawned, or none.
abbrev pub AfterSpawn : ℕ → Result AnyError ChildGuard → CoreWorld → Type 0
AfterSpawn p (ok guard) w = Fresh p guard w
AfterSpawn p (err _) w = Free p w

pub ap-Quiet : {m m' : CoreManager} → m' ≡ m → Quiet m → Quiet m'
ap-Quiet e q = ap (λ n. is_live n.watchdog_handle) e ∙ q

pub right_true : (b c : Bool) → c ≡ true → (b || c) ≡ true
right_true true c e = refl
right_true false c e = e

-- A process that was never spawned does not run twice: the list of those that run grows by one.
spawn-Fresh : (p : ℕ) (w : CoreWorld) → Free p w → Fresh p (spawned_guard w) (spawn w)
unfolding spawn
spawn-Fresh p w f = record {
  only = λ live. from_or (w.next_process == p) (has p w.alive) f.gone live;
  no_failed = f.no_failed;
}
  where
    from_or : (b c : Bool) → c ≡ false → (b || c) ≡ true → b ≡ true
    from_or true c e l = refl
    from_or false c e l = sym e ∙ l

module _ {p : ℕ} where
  pub run_with_logging-AfterSpawn :
      (w : CoreWorld) → Free p w → AfterSpawn p (run_with_logging w).0 (run_with_logging w).1
  unfolding run_with_logging
  run_with_logging-AfterSpawn w f = by_first (attempt w).0 (attempt w).1 (attempt-Keeps w)
    where
      second : Result AnyError Unit → CoreWorld → Result AnyError ChildGuard × CoreWorld
      second r v = resume r (λ _ u. (ok (spawned_guard u), spawn u)) v

      by_second :
          (r : Result AnyError Unit) (v : CoreWorld)
          → Keeps w v
          → AfterSpawn p (second r v).0 (second r v).1
      by_second (ok u) v k = spawn-Fresh p v (Free-Keeps k f)
      by_second (err x) v k = Free-Keeps k f

      by_first :
          (r : Result AnyError Unit) (v : CoreWorld)
          → Keeps w v
          → AfterSpawn p
              (resume r (λ _ u. second (attempt u).0 (attempt u).1) v).0
              (resume r (λ _ u. second (attempt u).0 (attempt u).1) v).1
      by_first (ok u) v k = by_second (attempt v).0 (attempt v).1 (Keeps-trans k (attempt-Keeps v))
      by_first (err x) v k = Free-Keeps k f

  after_unrecorded-Holds :
      (guard : ChildGuard) (config : ClashConfig) (x : AnyError) (r : Result AnyError Unit)
      (w : CoreWorld)
      → Quiet w.manager
      → AfterKill p guard r w
      → Holds p (after_unrecorded guard config x r w).1
  unfolding after_unrecorded
  after_unrecorded-Holds guard config x (ok u) w quiet after = Free-Holds after
  after_unrecorded-Holds guard config x (err y) w quiet after =
      keep_failed-Holds guard (track_failed guard config w) after.only quiet

  after_insecure-Holds :
      (guard : ChildGuard) (config : ClashConfig) (x : AnyError) (r : Result AnyError Unit)
      (w : CoreWorld)
      → Quiet w.manager
      → AfterKill p guard r w
      → Holds p (after_insecure guard config x r w).1
  unfolding after_insecure
  after_insecure-Holds guard config x (ok u) w quiet after = Free-Holds after
  after_insecure-Holds guard config x (err y) w quiet after =
      let tracked = track_failed guard config w in
      let k = write_runtime_record-Keeps (id_of guard.child) tracked in
      keep_failed-Holds guard (write_runtime_record_for_config (id_of guard.child) tracked).1
        (λ live. after.only (ap (has p) (sym k.alive_same) ∙ live)) (ap-Quiet k.manager_same quiet)

  after_record-Holds :
      (guard : ChildGuard) (config : ClashConfig) (r : Result AnyError Unit) (w : CoreWorld)
      → Quiet w.manager
      → Fresh p guard w
      → Holds p (after_record guard config r w).1
  unfolding after_record
  after_record-Holds guard config (ok u) w quiet f = record {
    tracked = λ live. right_true _ _ (f.only live);
    apart = λ _. ap holds_failed f.no_failed;
  }
  after_record-Holds guard config (err x) w quiet f =
      after_unrecorded-Holds guard config x (kill_now guard w).0 (kill_now guard w).1
        (ap-Quiet (kill_now-manager guard w) quiet) (kill_now-AfterKill guard w f)

  after_secure-Holds :
      (guard : ChildGuard) (config : ClashConfig) (r : Result AnyError Unit) (w : CoreWorld)
      → Quiet w.manager
      → Fresh p guard w
      → Holds p (after_secure guard config r w).1
  unfolding after_secure
  after_secure-Holds guard config (ok u) w quiet f =
      let k = write_runtime_record-Keeps (id_of guard.child) w in
      after_record-Holds guard config (write_runtime_record_for_config (id_of guard.child) w).0
        (write_runtime_record_for_config (id_of guard.child) w).1 (ap-Quiet k.manager_same quiet)
        (Fresh-Keeps k f)
  after_secure-Holds guard config (err x) w quiet f =
      after_insecure-Holds guard config x (kill_now guard w).0 (kill_now guard w).1
        (ap-Quiet (kill_now-manager guard w) quiet) (kill_now-AfterKill guard w f)

  pub with_child-Holds :
      (guard : ChildGuard) (config : ClashConfig) (w : CoreWorld)
      → Quiet w.manager
      → Fresh p guard w
      → Holds p (with_child config guard w).1
  unfolding with_child
  with_child-Holds guard config w quiet f =
      let k = attempt-Keeps w in
      after_secure-Holds guard config (attempt w).0 (attempt w).1 (ap-Quiet k.manager_same quiet)
        (Fresh-Keeps k f)
