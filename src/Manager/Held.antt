-- ===== src/Manager/Held.antt =====
-- The processes that the manager holds (src/core/manager.rs, `ChildGuard`): what a call of the
-- operating system, a kill and the end of the watchdog change.
use clash_verge_service_ipc.Prelude.{
  ℕ, ◌≡◌, refl, ◌∙◌, ap, Bool, true, false, ◌||◌, ◌&&◌, not, Option, none, some, List, [], ◌∷◌,
  ◌==◌, Result, ok, err, resume, arith,
}
use clash_verge_service_ipc.AnyError.{AnyError}
use clash_verge_service_ipc.Manager.{
  Child, ChildGuard, WatchdogTask, supervising, backing_off, returned, CoreManager, CoreWorld,
  attempt, after_outcome, with_manager, remove_process, exits, kill_child, kill_now, retire_core,
  watchdog_cleanup, forget_record, remove_core_runtime_record,
}

-- What a call leaves as it was: all but the failures to come.
pub record Same (w w' : CoreWorld) : Type 0 where
  pub manager_same : w'.manager ≡ w.manager
  pub cells_same : w'.cells ≡ w.cells
  pub alive_same : w'.alive ≡ w.alive
  pub next_same : w'.next_process ≡ w.next_process
  pub pid_same : w'.pid_of ≡ w.pid_of
  pub reconciled_same : w'.startup_reconciled ≡ w.startup_reconciled
  pub now_same : w'.now ≡ w.now

pub attempt-Same : (w : CoreWorld) → Same w (attempt w).1
unfolding attempt after_outcome
attempt-Same w = by_outcomes w.outcomes
  where
    by_outcomes : (o : List (Option AnyError)) → Same w (after_outcome o w).1
    by_outcomes [] = record {
      manager_same = refl;
      cells_same = refl;
      alive_same = refl;
      next_same = refl;
      pid_same = refl;
      reconciled_same = refl;
      now_same = refl;
    }
    by_outcomes (none ∷ o) = record {
      manager_same = refl;
      cells_same = refl;
      alive_same = refl;
      next_same = refl;
      pid_same = refl;
      reconciled_same = refl;
      now_same = refl;
    }
    by_outcomes (some e ∷ o) = record {
      manager_same = refl;
      cells_same = refl;
      alive_same = refl;
      next_same = refl;
      pid_same = refl;
      reconciled_same = refl;
      now_same = refl;
    }

pub remove_core_runtime_record-Same : (w : CoreWorld) → Same w (remove_core_runtime_record w)
unfolding remove_core_runtime_record forget_record
remove_core_runtime_record-Same w = by_result (attempt w).0
  where
    by_result : (r : Result AnyError Unit) → Same w (forget_record r (attempt w).1)
    by_result (err e) = attempt-Same w
    by_result (ok u) =
        let s = attempt-Same w in
        record {
          manager_same = s.manager_same;
          cells_same = s.cells_same;
          alive_same = s.alive_same;
          next_same = s.next_same;
          pid_same = s.pid_same;
          reconciled_same = s.reconciled_same;
          now_same = s.now_same;
        }

abbrev pub has : ℕ → List ℕ → Bool
has p [] = false
has p (q ∷ rest) = q == p || has p rest

abbrev pub child_is : ℕ → Option Child → Bool
child_is p none = false
child_is p (some child) = child.process == p

abbrev pub guard_is : ℕ → Option ChildGuard → Bool
guard_is p none = false
guard_is p (some guard) = child_is p guard.child

abbrev pub task_is : ℕ → Option WatchdogTask → Bool
task_is p (some (supervising guard recovery)) = child_is p guard.child
task_is p _ = false

-- The task has not returned.
abbrev pub is_live : Option WatchdogTask → Bool
is_live none = false
is_live (some (supervising guard recovery)) = true
is_live (some (backing_off recovery)) = true
is_live (some (returned r)) = false

abbrev pub holds_failed : Option ChildGuard → Bool
holds_failed none = false
holds_failed (some guard) = true

-- The process `p` is in the hands of the manager.
abbrev pub is_tracked : ℕ → CoreManager → Bool
is_tracked p m = guard_is p m.failed_child || task_is p m.watchdog_handle

-- If `p` runs, the manager holds it; and a watchdog that has not returned and a failed child are
-- not there together.
pub record Holds (p : ℕ) (w : CoreWorld) : Type 0 where
  pub tracked : has p w.alive ≡ true → is_tracked p w.manager ≡ true
  pub apart : is_live w.manager.watchdog_handle ≡ true → holds_failed w.manager.failed_child ≡ false

pub has-remove_process :
    (p q : ℕ) (alive : List ℕ) → has p (remove_process q alive) ≡ (has p alive && not (q == p))
has-remove_process p q [] = refl
has-remove_process p q (r ∷ alive) = ground (arith, has-remove_process p q alive)

-- The guard's child is gone, and nothing else has changed.
pub record Gone (child : Option Child) (w w' : CoreWorld) : Type 0 where
  pub manager_same : w'.manager ≡ w.manager
  pub cells_same : w'.cells ≡ w.cells
  pub alive_less : (p : ℕ) → has p w'.alive ≡ (has p w.alive && not (child_is p child))

pub data Kills (child : Option Child) (w : CoreWorld)
    : Result AnyError Unit → CoreWorld → Type 0 where
  killed :
      {r : Result AnyError Unit} {w' : CoreWorld} → r ≡ ok tt → Gone child w w' → Kills child w r w'
  survived :
      {r : Result AnyError Unit} {w' : CoreWorld} (e : AnyError)
      → r ≡ err e
      → Same w w'
      → Kills child w r w'

kill_child-Kills :
    (child : Option Child) (w : CoreWorld)
    → Kills child w (kill_child child w).0 (kill_child child w).1
unfolding kill_child
kill_child-Kills none w =
    killed refl (record { manager_same = refl; cells_same = refl; alive_less = λ p. ground arith })
kill_child-Kills (some child) w = by_result (attempt w).0
  where
    after : Result AnyError Unit → Result AnyError Unit × CoreWorld
    after r = resume r (λ _ s. (ok tt, exits (some child) s)) (attempt w).1

    by_result : (r : Result AnyError Unit) → Kills (some child) w (after r).0 (after r).1
    by_result (ok u) = killed refl (record {
      manager_same = (attempt-Same w).manager_same;
      cells_same = (attempt-Same w).cells_same;
      alive_less = λ p.
          has-remove_process p child.process (attempt w).1.alive
          ∙ ap (λ l. has p l && not (child.process == p)) (attempt-Same w).alive_same;
    })
    by_result (err e) = survived e refl (attempt-Same w)

pub cleanup-Same : (w : CoreWorld) → Same (with_manager retire_core w) (watchdog_cleanup w)
unfolding watchdog_cleanup
cleanup-Same w = remove_core_runtime_record-Same (with_manager retire_core w)

pub kill_now-Kills :
    (guard : ChildGuard) (w : CoreWorld)
    → Kills guard.child w (kill_now guard w).0 (kill_now guard w).1
unfolding kill_now
kill_now-Kills guard w = kill_child-Kills guard.child w

-- A process that only the guard can hold is gone with it.
pub Gone-dead :
    (p : ℕ) (child : Option Child) (w w' : CoreWorld)
    → Gone child w w'
    → (has p w.alive ≡ true → child_is p child ≡ true)
    → has p w'.alive ≡ false
Gone-dead p child w w' g h = g.alive_less p ∙ and_not (has p w.alive) (child_is p child) h
  where
    and_not : (b c : Bool) → (b ≡ true → c ≡ true) → (b && not c) ≡ false
    and_not false c f = refl
    and_not true c f = ap not (f refl)

-- A kill leaves the clock.
kill_child-now : (child : Option Child) (w : CoreWorld) → (kill_child child w).1.now ≡ w.now
unfolding kill_child
kill_child-now none w = refl
kill_child-now (some child) w = by_result (attempt w).0
  where
    by_result :
        (r : Result AnyError Unit)
        → (resume r (λ _ s. (ok tt, exits (some child) s)) (attempt w).1).1.now ≡ w.now
    by_result (ok u) = (attempt-Same w).now_same
    by_result (err e) = (attempt-Same w).now_same

pub kill_now-now : (guard : ChildGuard) (w : CoreWorld) → (kill_now guard w).1.now ≡ w.now
unfolding kill_now
kill_now-now guard w = kill_child-now guard.child w
