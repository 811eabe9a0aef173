-- ===== src/Manager/Invariant/Reachable.antt =====
-- The life of the manager (src/core/manager.rs): the requests, the exits of the core, the waits that
-- fail and the rounds of the watchdog, in any order. The core is started at the start of the service or after a
-- stop (src/core/server.rs, src/core/desired.rs), and both leave no watchdog and no failed child.
use clash_verge_service_ipc.Prelude.{
  ℕ, ◌≡◌, refl, sym, ◌∙◌, ap, Bool, true, false, ◌||◌, Option, none, some, List, [], ◌∷◌, ◌==◌, Any,
  ok, err, arith,
}
use clash_verge_service_ipc.AnyError.{AnyError}
use clash_verge_service_ipc.Structure.{ClashConfig}
use clash_verge_service_ipc.Manager.{
  Child, ChildGuard, Recovery, WatchdogTask, supervising, backing_off, returned, CoreWorld,
  new_manager, kill_dropped, start_core, stop_core,
}
use clash_verge_service_ipc.Manager.Held.{
  has, child_is, guard_is, task_is, is_live, holds_failed, is_tracked, Holds,
}
use clash_verge_service_ipc.Manager.Watchdog.{WatchdogConfig, wait_ended, restart_once}
use clash_verge_service_ipc.Manager.Watchdog.Tracked.{
  core_exited-Holds, restart_once-Holds, wait_ended-Holds, kill_dropped-Holds,
}
use clash_verge_service_ipc.Manager.Invariant.{or_same, absurd_bool, false_unless, stop_core-Holds}
use clash_verge_service_ipc.Manager.Invariant.Launch.{start_core-Holds}

-- The kills that a dropped guard leaves to a task beside the manager.
abbrev pub left_by : Option Child → List Child → List Child
left_by none dropped = dropped
left_by (some child) dropped = child ∷ dropped

-- The process is that of a child whose guard was dropped.
abbrev pub is_dropped : ℕ → List Child → Bool
is_dropped p [] = false
is_dropped p (child ∷ dropped) = child.process == p || is_dropped p dropped

-- One event, with the children that were dropped so far. Between two events time passes, and calls of
-- the operating system may come to fail. A dropped child is killed at any time, if the kill succeeds.
pub data Step (config : WatchdogConfig)
    : List Child → CoreWorld → List Child → CoreWorld → Type 0 where
  stops : {d : List Child} {w : CoreWorld} → Step config d w d (stop_core w).1
  starts :
      {d : List Child} {w : CoreWorld} (clash : ClashConfig)
      → w.manager.watchdog_handle ≡ none
      → w.manager.failed_child ≡ none
      → Step config d w d (start_core clash w).1
  exits_by_itself :
      {d : List Child} {w : CoreWorld} (guard : ChildGuard) (recovery : Recovery) (code : ℕ)
      → w.manager.watchdog_handle ≡ some (supervising guard recovery)
      → Step config d w d (wait_ended config guard recovery (ok code) w)
  wait_fails :
      {d : List Child} {w : CoreWorld} (guard : ChildGuard) (recovery : Recovery) (error : AnyError)
      → w.manager.watchdog_handle ≡ some (supervising guard recovery)
      → Step config d w (left_by guard.child d) (wait_ended config guard recovery (err error) w)
  kills_dropped :
      {d : List Child} {w : CoreWorld} (child : Child)
      → Any (λ c. c ≡ child) d
      → Step config d w d (kill_dropped child w)
  restarts :
      {d : List Child} {w : CoreWorld} (recovery : Recovery)
      → w.manager.watchdog_handle ≡ some (backing_off recovery)
      → Step config d w d (restart_once config recovery w)
  waits :
      {d : List Child} {w : CoreWorld} (now : ℕ) (outcomes : List (Option AnyError))
      → Step config d w d (record w { now = now; outcomes = outcomes })

-- From `w`, where nothing was dropped.
pub data Reaches (config : WatchdogConfig) (w : CoreWorld) : List Child → CoreWorld → Type 0 where
  here : Reaches config w [] w
  after :
      {d e : List Child} {u v : CoreWorld}
      → Reaches config w d u
      → Step config d u e v
      → Reaches config w e v

left_by_kept :
    (p : ℕ) (child : Option Child) (d : List Child)
    → is_dropped p (left_by child d) ≡ false
    → (child_is p child ≡ false) × (is_dropped p d ≡ false)
left_by_kept p none d h = (refl, h)
left_by_kept p (some child) d h = (or_left _ _ h, or_right _ _ h)
  where
    or_left : (b c : Bool) → (b || c) ≡ false → b ≡ false
    or_left false c e = refl
    or_left true c e = e

    or_right : (b c : Bool) → (b || c) ≡ false → c ≡ false
    or_right false c e = e
    or_right true c e = cc (e)

-- What holds of a process unless its guard was dropped.
abbrev HoldsUnless : ℕ → List Child → CoreWorld → Type 0
HoldsUnless p d w = is_dropped p d ≡ false → Holds p w

module _ (p : ℕ) {config : WatchdogConfig} where
  Step-Holds :
      {d e : List Child} {v w : CoreWorld}
      → Step config d v e w
      → HoldsUnless p d v
      → HoldsUnless p e w
  Step-Holds {v = v} stops h other = stop_core-Holds v (h other)
  Step-Holds {v = v} (starts clash task failed) h other =
      start_core-Holds clash v
        (record {
          gone = false_unless _ λ live.
              sym (or_same (ap (guard_is p) failed) (ap (task_is p) task)) ∙ (h other).tracked live;
          no_failed = failed;
        })
        (ap is_live task)
  Step-Holds {v = v} (exits_by_itself guard recovery code e) h other =
      unfold wait_ended in core_exited-Holds config guard recovery code v e (h other)
  Step-Holds {d = d} {v = v} (wait_fails guard recovery error e) h other =
      let (not_child, before) = left_by_kept p guard.child d other in
      wait_ended-Holds config guard recovery error v e not_child (h before)
  Step-Holds {v = v} (kills_dropped child m) h other = kill_dropped-Holds child v (h other)
  Step-Holds {v = v} (restarts recovery e) h other =
      restart_once-Holds config recovery v e (h other)
  Step-Holds (waits now outcomes) h other = record {
    tracked = (h other).tracked;
    apart = (h other).apart;
  }

  Reaches-Holds :
      {v : CoreWorld} {d : List Child} {w : CoreWorld}
      → Reaches config v d w
      → Holds p v
      → HoldsUnless p d w
  Reaches-Holds here h other = h
  Reaches-Holds (after path step) h other = Step-Holds step (Reaches-Holds path h) other

-- A manager holds one child at most.
child_is_unique :
    (p q : ℕ) (child : Option Child) → child_is p child ≡ true → child_is q child ≡ true → p ≡ q
child_is_unique p q none e f = cc (e)
child_is_unique p q (some child) e f = grind (arith, e, f)

guard_is_unique :
    (p q : ℕ) (guard : Option ChildGuard)
    → guard_is p guard ≡ true
    → guard_is q guard ≡ true
    → p ≡ q
guard_is_unique p q none e f = cc (e)
guard_is_unique p q (some guard) e f = child_is_unique p q guard.child e f

or_false : (b : Bool) → (b || false) ≡ true → b ≡ true
or_false true e = refl
or_false false e = e

tracked_unique :
    (p q : ℕ) (failed : Option ChildGuard) (task : Option WatchdogTask)
    → (is_live task ≡ true → holds_failed failed ≡ false)
    → (guard_is p failed || task_is p task) ≡ true
    → (guard_is q failed || task_is q task) ≡ true
    → p ≡ q
tracked_unique p q none (some (supervising guard recovery)) apart e f =
    child_is_unique p q guard.child e f
tracked_unique p q none none apart e f = cc (e)
tracked_unique p q none (some (backing_off recovery)) apart e f = cc (e)
tracked_unique p q none (some (returned r)) apart e f = cc (e)
tracked_unique p q (some guard) (some (supervising other recovery)) apart e f =
    absurd_bool refl (apart refl)
tracked_unique p q (some guard) none apart e f =
    child_is_unique p q guard.child (or_false _ e) (or_false _ f)
tracked_unique p q (some guard) (some (backing_off recovery)) apart e f =
    child_is_unique p q guard.child (or_false _ e) (or_false _ f)
tracked_unique p q (some guard) (some (returned r)) apart e f =
    child_is_unique p q guard.child (or_false _ e) (or_false _ f)

-- In every state that a new manager reaches, from no core that runs and by any sequence of starts
-- after a stop, stops, exits of the core, waits that fail, kills of dropped children, rounds of the
-- watchdog and failures of the calls: two core processes that run are the same one, and the manager
-- holds it, as the child of the watchdog or as the child whose kill has failed. Left out are the
-- children whose guard was dropped, which a watchdog does when its wait for the child fails.
pub Reaches-one_core :
    (config : WatchdogConfig) (v w : CoreWorld) (dropped : List Child)
    → v.manager ≡ new_manager
    → v.alive ≡ []
    → Reaches config v dropped w
    → (p q : ℕ) → has p w.alive ≡ true
    → has q w.alive ≡ true
    → is_dropped p dropped ≡ false
    → is_dropped q dropped ≡ false
    → (p ≡ q) × (is_tracked p w.manager ≡ true)
unfolding new_manager
Reaches-one_core config v w dropped fresh idle path p q runs_p runs_q kept_p kept_q =
    let h = Reaches-Holds p path (start p) kept_p in
    let k = Reaches-Holds q path (start q) kept_q in
    (
      tracked_unique p q w.manager.failed_child w.manager.watchdog_handle h.apart (h.tracked runs_p)
          (k.tracked runs_q),
      h.tracked runs_p,
    )
  where
    start : (r : ℕ) → Holds r v
    start r = record {
      tracked = λ live. absurd_bool live (ap (has r) idle);
      apart = λ _. ap (λ m. holds_failed m.failed_child) fresh;
    }
