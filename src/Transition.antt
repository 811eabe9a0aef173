-- ===== src/Transition.antt =====
-- The change of the active owner (src/core/server.rs): the order of the six steps, and what a step
-- that fails undoes.
pub mod Order
pub mod Owner
pub mod Rollback
use clash_verge_service_ipc.Prelude.{
  ◌≡◌, Option, none, some, List, [], ◌∷◌, Bool, true, false, Text, Result, ok, err, map_err, Action,
  pure, fail, modify, resume, ◌>>=◌, ◌>>◌, inspect, if◌then◌else◌,
}
use clash_verge_service_ipc.AnyError.{AnyError, anyhow, context}
use clash_verge_service_ipc.ServiceError.{
  ServiceError, owner_switch_failed, proxy_clear_failed, proxy_apply_failed,
}
use clash_verge_service_ipc.Structure.{
  AuthenticatedOwner, ClashConfig, MacosProxyConfig, disabled, ProxyApplyOutcome, not_requested,
}
use clash_verge_service_ipc.Lifecycle.{fatal}
use clash_verge_service_ipc.Disk.{Disk, ActiveOwnerState, DesiredState, with_context}
use clash_verge_service_ipc.Desired.{
  persist_owner_core_started, persist_owner_core_stopped, persist_owner_core_stopped_by_key,
  clear_active_owner, commit_active_owner_session,
}
use clash_verge_service_ipc.Proxy.{
  Parsers, ProxyBackend, apply_with_backend, apply_proxy, clear_proxy, apply_proxy_or_direct_with,
}
use clash_verge_service_ipc.Manager.{CoreWorld, attempt, set_state, stop_core, start_core}

pub record OwnerProxyTransition (W : Type 0) : Type 0 where
  pub clear_previous_proxy : Action AnyError W Unit
  pub compensate_direct : Action AnyError W Unit
  pub stop_previous_core : Action AnyError W Unit
  pub start_new_core : Action AnyError W Unit
  pub commit_new_owner : Action AnyError W ActiveOwnerState
  pub apply_new_proxy : Action AnyError W ProxyApplyOutcome

module _ {W : Type 0} where
  -- `map_err` on an action.
  abbrev pub or_fail : {A : Type 0} → ServiceError → Action AnyError W A → Action ServiceError W A
  or_fail error step w = (map_err (λ _. error) (step w).0, (step w).1)

  pub after_clear : OwnerProxyTransition W → Result AnyError Unit → Action ServiceError W Unit
  after_clear transition (ok _) w = (ok tt, w)
  after_clear transition (err clear_error) w =
      (err proxy_clear_failed, (transition.compensate_direct w).1)

  unfoldable pub owner_proxy_transition :
      OwnerProxyTransition W → Action ServiceError W (ActiveOwnerState × ProxyApplyOutcome)
  unfolding after_clear
  owner_proxy_transition transition = do
    inspect transition.clear_previous_proxy (after_clear transition)
    or_fail owner_switch_failed transition.stop_previous_core
    or_fail owner_switch_failed transition.start_new_core
    active ← or_fail owner_switch_failed transition.commit_new_owner
    proxy_outcome ← or_fail proxy_apply_failed transition.apply_new_proxy
    pure (active, proxy_outcome)

-- What the planning of a start has found (src/core/runtime_generation/assets.rs), without the plan
-- and the paths of old runtimes.
pub record PreparedRuntime : Type 0 where
  pub clash_config : ClashConfig

-- The state that a request acts on: the core manager, the disk, the settings of the system's proxy,
-- and the runtime that the request has prepared.
pub record ServiceWorld (P : Type 0) : Type 0 where
  pub core : CoreWorld
  pub disk : Disk
  pub settings : P
  pub prepared_runtime : Option PreparedRuntime

unsupported : Option MacosProxyConfig → Result AnyError ProxyApplyOutcome
unsupported none = ok not_requested
unsupported (some config) = err anyhow

module _ {P : Type 0} where
  abbrev pub on_core :
      {A : Type 0} → Action AnyError CoreWorld A → Action AnyError (ServiceWorld P) A
  on_core m w = ((m w.core).0, record w { core = (m w.core).1 })

  abbrev pub on_disk : {A : Type 0} → Action AnyError Disk A → Action AnyError (ServiceWorld P) A
  on_disk m w = ((m w.disk).0, record w { disk = (m w.disk).1 })

  abbrev pub on_settings : {A : Type 0} → Action AnyError P A → Action AnyError (ServiceWorld P) A
  on_settings m w = ((m w.settings).0, record w { settings = (m w.settings).1 })

  abbrev pub in_context :
      {A : Type 0} → Action AnyError (ServiceWorld P) A → Action AnyError (ServiceWorld P) A
  in_context m w = (map_err context (m w).0, (m w).1)

  abbrev set_fatal : ServiceWorld P → ServiceWorld P
  set_fatal w = record w { core = set_state fatal w.core }

  -- Both files were tried; two failures leave the core in the fatal state.
  both_results :
      Result AnyError DesiredState → Result AnyError Unit → Action AnyError (ServiceWorld P) Unit
  both_results (ok _) (ok _) w = (ok tt, w)
  both_results (err desired_error) (ok _) w = (err desired_error, w)
  both_results (ok _) (err active_error) w = (err active_error, w)
  both_results (err desired_error) (err active_error) w = (err anyhow, set_fatal w)

  after_rollback_stop :
      AuthenticatedOwner → Result AnyError Unit → Action AnyError (ServiceWorld P) Unit
  unfolding both_results
  after_rollback_stop owner (ok _) w =
      inspect (on_disk (persist_owner_core_stopped owner))
        (λ desired_result. inspect (on_disk clear_active_owner) (both_results desired_result)) w
  after_rollback_stop owner (err stop_error) w = (err anyhow, set_fatal w)

  unfoldable pub rollback_started_owner : AuthenticatedOwner → Action AnyError (ServiceWorld P) Unit
  unfolding after_rollback_stop
  rollback_started_owner owner = inspect (on_core stop_core) (after_rollback_stop owner)

  after_rollback : AnyError → Result AnyError Unit → ServiceWorld P → AnyError × ServiceWorld P
  after_rollback error (ok _) w = (error, record w { prepared_runtime = none })
  after_rollback error (err rollback_error) w = (anyhow, w)

  unfoldable pub rollback_commit_failure :
      {A : Type 0} → AuthenticatedOwner → AnyError → Action AnyError (ServiceWorld P) A
  unfolding after_rollback
  rollback_commit_failure owner error w =
      let (e, w') =
        after_rollback error (rollback_started_owner owner w).0
          (rollback_started_owner owner w).1 in
      (err e, w')

  persist_previous_stopped : Option ActiveOwnerState → Action AnyError (ServiceWorld P) Unit
  persist_previous_stopped none = pure tt
  persist_previous_stopped (some previous_owner) = do
    in_context (on_disk (persist_owner_core_stopped_by_key previous_owner.owner_key))
    pure tt

  unfoldable pub stop_previous_core :
      Option ActiveOwnerState → Action AnyError (ServiceWorld P) Unit
  unfolding persist_previous_stopped
  stop_previous_core previous_owner = do
    on_core stop_core
    persist_previous_stopped previous_owner
    in_context (on_disk clear_active_owner)

  -- A start that failed is answered by a stop that confirms the end of the rejected core.
  after_failed_start :
      AuthenticatedOwner → AnyError → Result AnyError Unit → Action AnyError (ServiceWorld P) Unit
  after_failed_start owner error (ok _) w =
      (err error, (on_disk (persist_owner_core_stopped owner) w).1)
  after_failed_start owner error (err stop_error) w = (err anyhow, w)

  after_start : AuthenticatedOwner → Result AnyError Unit → Action AnyError (ServiceWorld P) Unit
  unfolding after_failed_start
  after_start owner (ok _) w = (ok tt, w)
  after_start owner (err error) w = inspect (on_core stop_core) (after_failed_start owner error) w

  start_prepared :
      AuthenticatedOwner → Option PreparedRuntime → Action AnyError (ServiceWorld P) Unit
  unfolding after_start
  start_prepared owner none = fail anyhow
  start_prepared owner (some prepared) = do
    in_context (on_core attempt)
    inspect (on_core (start_core prepared.clash_config)) (after_start owner)

  -- `materialize` is one call that may fail, before the core starts.
  unfoldable pub start_new_core : AuthenticatedOwner → Action AnyError (ServiceWorld P) Unit
  unfolding start_prepared
  start_new_core owner w = start_prepared owner w.prepared_runtime w

  after_session :
      AuthenticatedOwner
      → Result AnyError ActiveOwnerState
      → Action AnyError (ServiceWorld P) ActiveOwnerState
  after_session owner (ok active) w = (ok active, record w { prepared_runtime = none })
  after_session owner (err error) w = rollback_commit_failure owner error w

  after_started :
      (Text → Text)
      → AuthenticatedOwner
      → Text
      → Result AnyError DesiredState
      → Action AnyError (ServiceWorld P) ActiveOwnerState
  unfolding after_session
  after_started digest owner token (ok _) =
      inspect (on_disk (commit_active_owner_session digest owner token)) (after_session owner)
  after_started digest owner token (err error) = rollback_commit_failure owner error

  commit_prepared :
      (Text → Text)
      → AuthenticatedOwner
      → Text
      → Option PreparedRuntime
      → Action AnyError (ServiceWorld P) ActiveOwnerState
  unfolding after_started
  commit_prepared digest owner token none = fail anyhow
  commit_prepared digest owner token (some prepared) =
      inspect (on_disk (persist_owner_core_started owner prepared.clash_config))
        (after_started digest owner token)

  unfoldable pub commit_new_owner :
      (Text → Text) → AuthenticatedOwner → Text → Action AnyError (ServiceWorld P) ActiveOwnerState
  unfolding commit_prepared
  commit_new_owner digest owner token w = commit_prepared digest owner token w.prepared_runtime w

  -- `live` is `SERVICE_PROXY_IS_LIVE`: the build for macOS.
  unfoldable pub clear_service_proxy :
      Bool → Parsers → ProxyBackend P → Action AnyError (ServiceWorld P) Unit
  clear_service_proxy live parsers backend w =
      if live then on_settings (clear_proxy parsers backend) w else (ok tt, w)

  unfoldable pub compensate_service_proxy :
      Bool → Parsers → ProxyBackend P → Action AnyError (ServiceWorld P) Unit
  compensate_service_proxy live parsers backend w =
      if live then on_settings (apply_proxy parsers backend disabled) w else (ok tt, w)

  unfoldable pub apply_service_proxy_or_direct :
      Bool
      → Parsers
      → ProxyBackend P
      → Option MacosProxyConfig
      → Action AnyError (ServiceWorld P) ProxyApplyOutcome
  unfolding unsupported
  apply_service_proxy_or_direct live parsers backend config w =
      if live
      then on_settings (apply_proxy_or_direct_with parsers (apply_with_backend backend) config) w
      else (unsupported config, w)

  unfoldable pub after_service_clear :
      Bool
      → Parsers
      → ProxyBackend P
      → Result AnyError Unit
      → Action ServiceError (ServiceWorld P) Unit
  after_service_clear live parsers backend (ok _) w = (ok tt, w)
  after_service_clear live parsers backend (err clear_error) w =
      (err proxy_clear_failed, (compensate_service_proxy live parsers backend w).1)

  unfoldable pub clear_proxy_with_direct_compensation :
      Bool → Parsers → ProxyBackend P → Action ServiceError (ServiceWorld P) Unit
  unfolding after_service_clear
  clear_proxy_with_direct_compensation live parsers backend =
      inspect (clear_service_proxy live parsers backend) (after_service_clear live parsers backend)

-- `StartOwnerTransition`, without the prepared runtime, which the state holds.
pub record StartRequest : Type 0 where
  pub previous_owner : Option ActiveOwnerState
  pub owner : AuthenticatedOwner
  pub proposed_session_token : Text
  pub macos_proxy : Option MacosProxyConfig

unfoldable pub start_owner_transition :
    {P : Type 0}
    → (Text → Text)
    → Bool
    → Parsers
    → ProxyBackend P
    → StartRequest
    → OwnerProxyTransition (ServiceWorld P)
start_owner_transition digest live parsers backend request = record {
  clear_previous_proxy = clear_service_proxy live parsers backend;
  compensate_direct = compensate_service_proxy live parsers backend;
  stop_previous_core = stop_previous_core request.previous_owner;
  start_new_core = start_new_core request.owner;
  commit_new_owner = commit_new_owner digest request.owner request.proposed_session_token;
  apply_new_proxy = apply_service_proxy_or_direct live parsers backend request.macos_proxy;
}
