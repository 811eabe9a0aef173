-- ===== src/Manager/Start.antt =====
-- What a start of the core leaves (src/core/manager.rs, `start_core`).
use clash_verge_service_ipc.Prelude.{
  ℕ, ◌≡◌, refl, sym, ◌∙◌, ap, true, ==_refl, Option, none, some, List, [], ◌∷◌, Result, ok, err,
  Action, resume, ◌>>◌, modify, arith,
}
use mathlib.Core.Path.{subst}
use clash_verge_service_ipc.AnyError.{AnyError, anyhow}
use clash_verge_service_ipc.Structure.{ClashConfig}
use clash_verge_service_ipc.Lifecycle.{
  starting, running, core_lifecycle_state, core_lifecycle_state-set,
}
use clash_verge_service_ipc.Manager.{
  ChildGuard, supervising, CoreWorld, attempt, after_outcome, set_state, spawned_guard, spawn,
  run_with_logging, kill_now, write_record_of, write_runtime_record_for_config, after_insecure,
  after_unrecorded, after_record, after_secure, with_child, stop_running, ensure_startup_reconciled,
  start_core, no_recovery,
}
use clash_verge_service_ipc.Manager.Held.{attempt-Same, has}

abbrev guard_for : ℕ → Option ℕ → ChildGuard
guard_for p pid = record { child = some (record { process = p; pid = pid }) }

-- The process `p` runs with the ID `pid`: the manager supervises it, shows its ID and its
-- configuration, and the runtime record names it.
pub record Started (config : ClashConfig) (p pid : ℕ) (w : CoreWorld) : Type 0 where
  pub alive : has p w.alive ≡ true
  pub task :
      w.manager.watchdog_handle
      ≡ some (
          supervising
            (record { child = some (record { process = p; pid = some pid }) })
            no_recovery)
  pub shown : w.manager.running_pid ≡ pid
  pub configured : w.manager.running_config ≡ some config
  pub recorded : w.runtime_record ≡ some pid
  pub reported : core_lifecycle_state w.cells ≡ running

attempt-record : (w : CoreWorld) → (attempt w).1.runtime_record ≡ w.runtime_record
unfolding attempt after_outcome
attempt-record w = by_outcomes w.outcomes
  where
    by_outcomes :
        (o : List (Option AnyError)) → (after_outcome o w).1.runtime_record ≡ w.runtime_record
    by_outcomes [] = refl
    by_outcomes (none ∷ o) = refl
    by_outcomes (some e ∷ o) = refl

-- The record names the process, and no process has gone.
record Writes (pid : ℕ) (w w' : CoreWorld) : Type 0 where
  named : w'.runtime_record ≡ some pid
  alive_same : w'.alive ≡ w.alive

put_record : ℕ → Action AnyError CoreWorld Unit
put_record pid = modify (λ w. record w { runtime_record = some pid }) tt >> attempt

put_record-Writes :
    (pid : ℕ) (w w' : CoreWorld) → w'.alive ≡ w.alive → Writes pid w (put_record pid w').1
unfolding put_record
put_record-Writes pid w w' e =
    let v = record w' { runtime_record = some pid } in
    record { named = attempt-record v; alive_same = (attempt-Same v).alive_same ∙ e }

write_record-Writes :
    (pid : ℕ) (w : CoreWorld)
    → (write_record_of (some pid) w).0 ≡ ok tt
    → Writes pid w (write_record_of (some pid) w).1
unfolding write_record_of put_record
write_record-Writes pid w = by_first (attempt w).0
  where
    second : Result AnyError Unit → CoreWorld → Result AnyError Unit × CoreWorld
    second r v = resume r (λ _. put_record pid) v

    by_second :
        (r : Result AnyError Unit) (v : CoreWorld)
        → v.alive ≡ w.alive
        → (second r v).0 ≡ ok tt
        → Writes pid w (second r v).1
    by_second (ok u) v same e = put_record-Writes pid w v same
    by_second (err x) v same e = cc (e)

    first : Result AnyError Unit → Result AnyError Unit × CoreWorld
    first r = resume r (λ _ v. second (attempt v).0 (attempt v).1) (attempt w).1

    by_first : (r : Result AnyError Unit) → (first r).0 ≡ ok tt → Writes pid w (first r).1
    by_first (ok u) e =
        by_second (attempt (attempt w).1).0 (attempt (attempt w).1).1
          ((attempt-Same (attempt w).1).alive_same ∙ (attempt-Same w).alive_same) e
    by_first (err x) e = cc (e)

unrecorded-err :
    {A : Type 0} (guard : ChildGuard) (config : ClashConfig) (x : AnyError)
    (r : Result AnyError Unit) (w : CoreWorld)
    → (after_unrecorded guard config x r w).0 ≡ ok tt
    → A
unfolding after_unrecorded
unrecorded-err guard config x (ok u) w e = cc (e)
unrecorded-err guard config x (err y) w e = cc (e)

insecure-err :
    {A : Type 0} (guard : ChildGuard) (config : ClashConfig) (x : AnyError)
    (r : Result AnyError Unit) (w : CoreWorld)
    → (after_insecure guard config x r w).0 ≡ ok tt
    → A
unfolding after_insecure
insecure-err guard config x (ok u) w e = cc (e)
insecure-err guard config x (err y) w e = cc (e)

after_record-err :
    {A : Type 0} (guard : ChildGuard) (config : ClashConfig) (x : AnyError) (w : CoreWorld)
    → (after_record guard config (err x) w).0 ≡ ok tt
    → A
unfolding after_record
after_record-err guard config x w =
    unrecorded-err guard config x (kill_now guard w).0 (kill_now guard w).1

module _ (config : ClashConfig) (p : ℕ) where
  abbrev guard_of : Option ℕ → ChildGuard
  guard_of pid = guard_for p pid

  abbrev IsStarted : Option ℕ → CoreWorld → Type 0
  IsStarted exposed w = (pid : ℕ) × (exposed ≡ some pid) × Started config p pid w

  after_record-Started :
      (pid : ℕ) (r : Result AnyError Unit) (w : CoreWorld)
      → has p w.alive ≡ true
      → (r ≡ ok tt → w.runtime_record ≡ some pid)
      → (after_record (guard_of (some pid)) config r w).0 ≡ ok tt
      → Started config p pid (after_record (guard_of (some pid)) config r w).1
  unfolding after_record
  after_record-Started pid (ok u) w live written e = record {
    alive = live;
    task = refl;
    shown = refl;
    configured = refl;
    recorded = written refl;
    reported = (core_lifecycle_state-set running w.cells).0;
  }
  after_record-Started pid (err x) w live written e =
      after_record-err (guard_of (some pid)) config x w e

  after_secure-Started :
      (exposed : Option ℕ) (r : Result AnyError Unit) (w : CoreWorld)
      → has p w.alive ≡ true
      → (after_secure (guard_of exposed) config r w).0 ≡ ok tt
      → IsStarted exposed (after_secure (guard_of exposed) config r w).1
  unfolding after_secure write_runtime_record_for_config
  after_secure-Started none (ok u) w live e = after_record-err (guard_of none) config anyhow w e
  after_secure-Started (some pid) (ok u) w live e = by_write (write_record_of (some pid) w).0 refl e
    where
      w' : CoreWorld
      w' = (write_record_of (some pid) w).1

      by_write :
          (r : Result AnyError Unit)
          → (write_record_of (some pid) w).0 ≡ r
          → (after_record (guard_of (some pid)) config r w').0 ≡ ok tt
          → IsStarted (some pid) (after_record (guard_of (some pid)) config r w').1
      by_write (ok v) f e =
          let wrote : Writes pid w w' = write_record-Writes pid w f in
          (
            pid,
            refl,
            after_record-Started pid (ok v) w' (ap (has p) wrote.alive_same ∙ live)
                (λ _. wrote.named) e,
          )
      by_write (err x) f e = after_record-err (guard_of (some pid)) config x w' e
  after_secure-Started exposed (err x) w live e =
      insecure-err (guard_of exposed) config x (kill_now (guard_of exposed) w).0
        (kill_now (guard_of exposed) w).1 e

  with_child-Started :
      (exposed : Option ℕ) (w : CoreWorld)
      → has p w.alive ≡ true
      → (with_child config (guard_of exposed) w).0 ≡ ok tt
      → IsStarted exposed (with_child config (guard_of exposed) w).1
  unfolding with_child
  with_child-Started exposed w live =
      after_secure-Started exposed (attempt w).0 (attempt w).1
        (ap (has p) (attempt-Same w).alive_same ∙ live)

-- A guard that a spawn returns holds a process that runs.
IsSpawned : ChildGuard → CoreWorld → Type 0
IsSpawned guard w =
    (p : ℕ) × (exposed : Option ℕ) × (guard ≡ guard_for p exposed) × (has p w.alive ≡ true)

spawns : CoreWorld → Result AnyError ChildGuard × CoreWorld
unfolding spawn
spawns w = (ok (spawned_guard w), spawn w)

run_with_logging-IsSpawned :
    (w : CoreWorld) (guard : ChildGuard)
    → (run_with_logging w).0 ≡ ok guard
    → IsSpawned guard (run_with_logging w).1
unfolding run_with_logging IsSpawned spawns spawn
run_with_logging-IsSpawned w guard = by_first (attempt w).0 (attempt w).1
  where
    second : Result AnyError Unit → CoreWorld → Result AnyError ChildGuard × CoreWorld
    second r v = resume r (λ _. spawns) v

    by_second :
        (r : Result AnyError Unit) (v : CoreWorld)
        → (second r v).0 ≡ ok guard
        → IsSpawned guard (second r v).1
    by_second (ok u) v e =
        (v.next_process, v.pid_of v.next_process, cc (e), ground (arith, ==_refl v.next_process))
    by_second (err x) v e = cc (e)

    by_first :
        (r : Result AnyError Unit) (v : CoreWorld)
        → (resume r (λ _ u. second (attempt u).0 (attempt u).1) v).0 ≡ ok guard
        → IsSpawned guard (resume r (λ _ u. second (attempt u).0 (attempt u).1) v).1
    by_first (ok u) v e = by_second (attempt v).0 (attempt v).1 e
    by_first (err x) v e = cc (e)

module _ (config : ClashConfig) where
  abbrev pub Runs : CoreWorld → Type 0
  Runs w = (p : ℕ) × (pid : ℕ) × Started config p pid w

  -- What follows a step that succeeded decides.
  after_step :
      {A : Type 0} (r : Result AnyError A) (k : A → Action AnyError CoreWorld Unit) (w : CoreWorld)
      → ((a : A) → r ≡ ok a → (k a w).0 ≡ ok tt → Runs (k a w).1)
      → (resume r k w).0 ≡ ok tt
      → Runs (resume r k w).1
  after_step (ok a) k w f e = f a refl e
  after_step (err x) k w f e = cc (e)

  spawned-Runs :
      (guard : ChildGuard) (w : CoreWorld)
      → IsSpawned guard w
      → (with_child config guard w).0 ≡ ok tt
      → Runs (with_child config guard w).1
  unfolding IsSpawned
  spawned-Runs guard w (p, exposed, same, live) =
      subst (λ g. (with_child config g w).0 ≡ ok tt → Runs (with_child config g w).1) (sym same)
        (λ e.
          let (pid, shown, started) = with_child-Started config p exposed w live e in
          (p, pid, started))

  -- A start that succeeds leaves a supervised core: its process runs, the manager shows its ID and
  -- its configuration, the runtime record on the disk names it, and the core's state is `running`.
  pub start_core-Started :
      (w : CoreWorld) → (start_core config w).0 ≡ ok tt → Runs (start_core config w).1
  unfolding start_core
  start_core-Started w =
      after_step (ensure_startup_reconciled w).0 _ (ensure_startup_reconciled w).1 λ _ _.
        after_step (stop_running (starting_now w)).0 _ (stop_running (starting_now w)).1 λ _ _.
          after_step (attempt (stopped_now w)).0 _ (attempt (stopped_now w)).1 λ _ _.
            after_step (run_with_logging (prepared_now w)).0 _ (run_with_logging (prepared_now w)).1
              λ guard e.
                spawned-Runs guard (run_with_logging (prepared_now w)).1
                  (run_with_logging-IsSpawned (prepared_now w) guard e)
    where
      starting_now : CoreWorld → CoreWorld
      starting_now w = set_state starting (ensure_startup_reconciled w).1

      stopped_now : CoreWorld → CoreWorld
      stopped_now w = (stop_running (starting_now w)).1

      prepared_now : CoreWorld → CoreWorld
      prepared_now w = (attempt (stopped_now w)).1
