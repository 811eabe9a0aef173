-- ===== src/Transition/Order.antt =====
-- The order of the steps of an owner change (src/core/server.rs), for every implementation of the
-- steps.
use clash_verge_service_ipc.Prelude.{
  ◌≡◌, refl, Result, ok, err, Action, map_err, resume, inspect, pure, ◌>>=◌, ◌>>◌,
}
use clash_verge_service_ipc.AnyError.{AnyError}
use clash_verge_service_ipc.Structure.{ProxyApplyOutcome}
use clash_verge_service_ipc.Disk.{ActiveOwnerState}
use clash_verge_service_ipc.ServiceError.{
  ServiceError, owner_switch_failed, proxy_clear_failed, proxy_apply_failed,
}
use clash_verge_service_ipc.Transition.{
  OwnerProxyTransition, or_fail, after_clear, owner_proxy_transition,
}

module _ {W : Type 0} (t : OwnerProxyTransition W) (w : W) where
  -- The state after each step.
  abbrev pub cleared : W
  cleared = (t.clear_previous_proxy w).1

  abbrev pub stopped : W
  stopped = (t.stop_previous_core cleared).1

  abbrev pub started : W
  started = (t.start_new_core stopped).1

  abbrev pub committed : W
  committed = (t.commit_new_owner started).1

  abbrev pub applied : W
  applied = (t.apply_new_proxy committed).1

  -- How a change ends, with the state that it leaves.
  pub data Ends : Result ServiceError (ActiveOwnerState × ProxyApplyOutcome) → W → Type 0 where
    clear_failed :
        (e : AnyError)
        → (t.clear_previous_proxy w).0 ≡ err e
        → Ends (err proxy_clear_failed) (t.compensate_direct cleared).1
    stop_failed :
        (e : AnyError)
        → (t.clear_previous_proxy w).0 ≡ ok tt
        → (t.stop_previous_core cleared).0 ≡ err e
        → Ends (err owner_switch_failed) stopped
    start_failed :
        (e : AnyError)
        → (t.clear_previous_proxy w).0 ≡ ok tt
        → (t.stop_previous_core cleared).0 ≡ ok tt
        → (t.start_new_core stopped).0 ≡ err e
        → Ends (err owner_switch_failed) started
    commit_failed :
        (e : AnyError)
        → (t.clear_previous_proxy w).0 ≡ ok tt
        → (t.stop_previous_core cleared).0 ≡ ok tt
        → (t.start_new_core stopped).0 ≡ ok tt
        → (t.commit_new_owner started).0 ≡ err e
        → Ends (err owner_switch_failed) committed
    apply_failed :
        (e : AnyError) (active : ActiveOwnerState)
        → (t.clear_previous_proxy w).0 ≡ ok tt
        → (t.stop_previous_core cleared).0 ≡ ok tt
        → (t.start_new_core stopped).0 ≡ ok tt
        → (t.commit_new_owner started).0 ≡ ok active
        → (t.apply_new_proxy committed).0 ≡ err e
        → Ends (err proxy_apply_failed) applied
    completed :
        (active : ActiveOwnerState) (outcome : ProxyApplyOutcome)
        → (t.clear_previous_proxy w).0 ≡ ok tt
        → (t.stop_previous_core cleared).0 ≡ ok tt
        → (t.start_new_core stopped).0 ≡ ok tt
        → (t.commit_new_owner started).0 ≡ ok active
        → (t.apply_new_proxy committed).0 ≡ ok outcome
        → Ends (ok (active, outcome)) applied

  abbrev Outcome : Type 0
  Outcome = Result ServiceError (ActiveOwnerState × ProxyApplyOutcome)

  finish : ActiveOwnerState → Action ServiceError W (ActiveOwnerState × ProxyApplyOutcome)
  finish active = or_fail proxy_apply_failed t.apply_new_proxy >>= λ outcome. pure (active, outcome)

  commit : Action ServiceError W (ActiveOwnerState × ProxyApplyOutcome)
  unfolding finish
  commit = or_fail owner_switch_failed t.commit_new_owner >>= finish

  start : Action ServiceError W (ActiveOwnerState × ProxyApplyOutcome)
  unfolding commit
  start = or_fail owner_switch_failed t.start_new_core >> commit

  stop : Action ServiceError W (ActiveOwnerState × ProxyApplyOutcome)
  unfolding start
  stop = or_fail owner_switch_failed t.stop_previous_core >> start

  abbrev EndsAs : Outcome × W → Type 0
  EndsAs o = Ends o.0 o.1

  by_apply :
      (active : ActiveOwnerState) (r : Result AnyError ProxyApplyOutcome)
      → (t.clear_previous_proxy w).0 ≡ ok tt
      → (t.stop_previous_core cleared).0 ≡ ok tt
      → (t.start_new_core stopped).0 ≡ ok tt
      → (t.commit_new_owner started).0 ≡ ok active
      → (t.apply_new_proxy committed).0 ≡ r
      → EndsAs
          (resume (map_err (λ _. proxy_apply_failed) r) (λ outcome. pure (active, outcome)) applied)
  by_apply active (ok outcome) a b d c e = completed active outcome a b d c e
  by_apply active (err x) a b d c e = apply_failed x active a b d c e

  by_commit :
      (r : Result AnyError ActiveOwnerState)
      → (t.clear_previous_proxy w).0 ≡ ok tt
      → (t.stop_previous_core cleared).0 ≡ ok tt
      → (t.start_new_core stopped).0 ≡ ok tt
      → (t.commit_new_owner started).0 ≡ r
      → EndsAs (resume (map_err (λ _. owner_switch_failed) r) finish committed)
  unfolding finish
  by_commit (ok active) a b s e = by_apply active (t.apply_new_proxy committed).0 a b s e refl
  by_commit (err x) a b s e = commit_failed x a b s e

  by_start :
      (r : Result AnyError Unit)
      → (t.clear_previous_proxy w).0 ≡ ok tt
      → (t.stop_previous_core cleared).0 ≡ ok tt
      → (t.start_new_core stopped).0 ≡ r
      → EndsAs (resume (map_err (λ _. owner_switch_failed) r) (λ _. commit) started)
  unfolding commit
  by_start (ok u) a s e = by_commit (t.commit_new_owner started).0 a s e refl
  by_start (err x) a s e = start_failed x a s e

  by_stop :
      (r : Result AnyError Unit)
      → (t.clear_previous_proxy w).0 ≡ ok tt
      → (t.stop_previous_core cleared).0 ≡ r
      → EndsAs (resume (map_err (λ _. owner_switch_failed) r) (λ _. start) stopped)
  unfolding start
  by_stop (ok u) c e = by_start (t.start_new_core stopped).0 c e refl
  by_stop (err x) c e = stop_failed x c e

  by_clear :
      (r : Result AnyError Unit)
      → (t.clear_previous_proxy w).0 ≡ r
      → EndsAs (inspect (after_clear t r) (λ q. resume q (λ _. stop)) cleared)
  unfolding stop after_clear
  by_clear (ok u) e = by_stop (t.stop_previous_core cleared).0 e refl
  by_clear (err x) e = clear_failed x e

  -- The steps run in order: the previous proxy is cleared, the previous core stopped, the new core
  -- started, the owner committed, the new proxy applied. Nothing runs after a step that fails, but
  -- for the compensation of a failed clear; and the error says in which part the change failed.
  pub owner_proxy_transition-Ends :
      Ends (owner_proxy_transition t w).0 (owner_proxy_transition t w).1
  unfolding owner_proxy_transition stop start commit finish
  owner_proxy_transition-Ends = by_clear (t.clear_previous_proxy w).0 refl

  -- A change that succeeds has committed the owner that it returns.
  pub Ends-completed :
      {r : Outcome} {w' : W}
      → Ends r w'
      → (active : ActiveOwnerState) (outcome : ProxyApplyOutcome) → r ≡ ok (active, outcome)
      → ((t.commit_new_owner started).0 ≡ ok active) × (w' ≡ applied)
  Ends-completed (clear_failed x c) active outcome e = cc (e)
  Ends-completed (stop_failed x c s) active outcome e = cc (e)
  Ends-completed (start_failed x c s d) active outcome e = cc (e)
  Ends-completed (commit_failed x c s d m) active outcome e = cc (e)
  Ends-completed (apply_failed x a c s d m p) active outcome e = cc (e)
  Ends-completed (completed a o c s d m p) active outcome e = (cc (e, m), refl)
