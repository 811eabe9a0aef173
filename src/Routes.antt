-- ===== src/Routes.antt =====
-- The requests of the IPC server (src/core/server.rs, `create_ipc_router`), on Unix: the status, the
-- stop, the writer and the proxy. The start and the staging are under Transition and Generation.
pub mod Authorized
pub mod Stops
use clash_verge_service_ipc.Prelude.{
  ℕ, Bool, true, false, if◌then◌else◌, Option, none, some, Text, bytes, Result, ok, err, map_err,
  and_then, Action, pure, fail, modify, resume, ◌>>=◌, ◌>>◌, inspect,
}
use clash_verge_service_ipc.AnyError.{AnyError}
use clash_verge_service_ipc.ServiceErrorCode.{ServiceErrorCode, code_value}
use clash_verge_service_ipc.ServiceError.{ServiceError, invalid_proxy_config, proxy_apply_failed}
use clash_verge_service_ipc.Structure.{
  OwnerIdentity, OwnerCredentials, AuthenticatedOwner, OwnerSessionProof, WriterConfig,
  MacosProxyConfig, ProxyApplyOutcome,
}
use clash_verge_service_ipc.Lifecycle.{fatal}
use clash_verge_service_ipc.Protocol.{ProtocolInfo, current_info, require_protocol_version}
use clash_verge_service_ipc.Auth.{DataRoot, authenticate_owner, ipc_request_context_to_auth_context}
use clash_verge_service_ipc.Gate.{
  OwnerLifecycleGate, unchecked, active_session, enter_owner_lifecycle,
}
use clash_verge_service_ipc.Desired.{
  persist_owner_core_stopped, persist_owner_writer_config, clear_active_owner,
}
use clash_verge_service_ipc.Manager.{attempt, set_state, stop_core}
use clash_verge_service_ipc.Proxy.{Parsers, ProxyBackend, validate_proxy_config}
use clash_verge_service_ipc.Status.{ServiceStatusSnapshot, service_status_snapshot}
use clash_verge_service_ipc.Transition.{
  ServiceWorld, on_core, on_disk, clear_proxy_with_direct_compensation,
  apply_service_proxy_or_direct,
}

-- src/core/structure.rs
pub record AuthenticatedRequest (T : Type 0) : Type 0 where
  pub credentials : OwnerCredentials
  pub payload : T

pub record AuthenticatedSessionRequest (T : Type 0) : Type 0 where
  pub credentials : OwnerCredentials
  pub session : OwnerSessionProof
  pub payload : T

-- What the transport hands over: two headers, the kernel's credentials of the peer, and the body,
-- absent where it is not the JSON of the envelope.
pub record RequestContext (E : Type 0) : Type 0 where
  pub magic : Option Text
  pub protocol : Option Text
  pub peer : Option (ℕ × ℕ)
  pub json : Option E

pub data Body : Type 0 where
  empty : Body
  text : Text → Body
  protocol_info : ProtocolInfo → Body
  snapshot : ServiceStatusSnapshot → Body
  proxy_outcome : ProxyApplyOutcome → Body

-- The HTTP status, and the code and the data of the JSON body.
pub record HttpResponse : Type 0 where
  pub status : ℕ
  pub code : ℕ
  pub body : Body

abbrev pub ok_json : Body → HttpResponse
ok_json body = record { status = 200; code = 0; body = body }

abbrev pub ok_empty : HttpResponse
ok_empty = ok_json empty

abbrev pub service_unavailable : HttpResponse
service_unavailable = record { status = 503; code = 1; body = empty }

abbrev pub bad_request : HttpResponse
bad_request = record { status = 400; code = 400; body = empty }

abbrev status_of : ServiceErrorCode → ℕ
status_of ServiceErrorCode.unauthorized_owner = 401
status_of ServiceErrorCode.not_active = 409
status_of _ = 422

unfoldable pub service_error : ServiceError → HttpResponse
service_error error = record {
  status = status_of error.code;
  code = code_value error.code;
  body = empty;
}

-- What the requests use of the build and of the system: SHA-256, the build for macOS, the parsers,
-- the system's proxy settings, the directories that the file system shows, the directory of an
-- owner's logs, and the version of the build.
pub record Service (P : Type 0) : Type 0 where
  pub digest : Text → Text
  pub live : Bool
  pub parsers : Parsers
  pub backend : ProxyBackend P
  pub roots : Text → Option DataRoot
  pub logs_dir : OwnerIdentity → Text
  pub build_version : Text

abbrev pub require_json : {E : Type 0} → Option E → Result HttpResponse E
require_json none = err bad_request
require_json (some request) = ok request

module _ {P : Type 0} (service : Service P) where
  abbrev pub owner_of_request :
      {E : Type 0}
      → (E → OwnerCredentials)
      → Option (ℕ × ℕ)
      → E
      → Result HttpResponse (E × AuthenticatedOwner)
  owner_of_request credentials peer request =
      and_then
        (map_err service_error
          (authenticate_owner service.digest service.roots peer (credentials request)))
        λ owner. ok (request, owner)

  unfoldable pub authenticate_request :
      {E : Type 0}
      → (E → OwnerCredentials)
      → RequestContext E
      → Result HttpResponse (E × AuthenticatedOwner)
  unfolding service_error authenticate_owner require_protocol_version
  authenticate_request credentials ctx =
      and_then (map_err service_error (require_protocol_version ctx.protocol))
        λ _. and_then (require_json ctx.json) (owner_of_request credentials ctx.peer)

  -- A step whose failure is a response.
  abbrev pub or_respond :
      {E A : Type 0}
      → (E → HttpResponse)
      → Action E (ServiceWorld P) A
      → Action HttpResponse (ServiceWorld P) A
  or_respond respond step w = (map_err respond (step w).0, (step w).1)

  -- A step of the disk whose failure leaves the core in the fatal state.
  abbrev pub fatal_unless :
      {A : Type 0} → Result AnyError A → Action HttpResponse (ServiceWorld P) Unit
  fatal_unless (ok _) = pure tt
  fatal_unless (err e) = λ w. (err service_unavailable, record w { core = set_state fatal w.core })

  unfoldable pub enter :
      AuthenticatedOwner → OwnerLifecycleGate → Action HttpResponse (ServiceWorld P) Unit
  unfolding enter_owner_lifecycle service_error
  enter owner gate w =
      let (r, d) = enter_owner_lifecycle service.digest owner gate w.disk in
      (map_err service_error r, record w { disk = d })

  -- The bodies of the requests, behind their gates.
  unfoldable pub stop_clash : AuthenticatedOwner → Action HttpResponse (ServiceWorld P) HttpResponse
  unfolding clear_proxy_with_direct_compensation stop_core persist_owner_core_stopped
      clear_active_owner service_error
  stop_clash owner = do
    or_respond service_error
        (clear_proxy_with_direct_compensation service.live service.parsers service.backend)
    or_respond (λ e. service_unavailable) (on_core stop_core)
    inspect (on_disk (persist_owner_core_stopped owner)) fatal_unless
    inspect (on_disk clear_active_owner) fatal_unless
    pure ok_empty

  -- The client does not choose the directory. `set_or_update_writer` is a call that may fail.
  unfoldable pub update_writer :
      AuthenticatedOwner → WriterConfig → Action HttpResponse (ServiceWorld P) HttpResponse
  unfolding attempt persist_owner_writer_config
  update_writer owner payload = do
    let writer_config = record payload { directory = service.logs_dir owner.identity }
    or_respond (λ e. service_unavailable) (on_core attempt)
    or_respond (λ e. service_unavailable)
        (on_disk (persist_owner_writer_config owner writer_config))
    pure ok_empty

  unfoldable pub set_system_proxy :
      MacosProxyConfig → Action HttpResponse (ServiceWorld P) HttpResponse
  unfolding validate_proxy_config apply_service_proxy_or_direct service_error
  set_system_proxy payload = do
    or_respond (λ e. service_error invalid_proxy_config)
        (λ w. (validate_proxy_config service.parsers payload, w))
    outcome ←
        or_respond (λ e. service_error proxy_apply_failed)
          (apply_service_proxy_or_direct service.live service.parsers service.backend
            (some payload))
    pure (ok_json (proxy_outcome outcome))

  abbrev pub answered :
      Result HttpResponse HttpResponse × ServiceWorld P → HttpResponse × ServiceWorld P
  answered (ok response, w) = (response, w)
  answered (err response, w) = (response, w)

-- The requests that need the proof of a session, with their payloads.
pub data SessionCommand : Type 0 where
  stop : SessionCommand
  writer : WriterConfig → SessionCommand
  proxy : MacosProxyConfig → SessionCommand

abbrev pub session_credentials : AuthenticatedSessionRequest SessionCommand → OwnerCredentials
session_credentials request = request.credentials

abbrev pub owner_credentials : AuthenticatedRequest Unit → OwnerCredentials
owner_credentials request = request.credentials

module _ {P : Type 0} (service : Service P) where
  abbrev pub session_body :
      SessionCommand → AuthenticatedOwner → Action HttpResponse (ServiceWorld P) HttpResponse
  session_body stop owner = stop_clash service owner
  session_body (writer config) owner = update_writer service owner config
  session_body (proxy config) owner = set_system_proxy service config

  abbrev pub behind_session :
      Result HttpResponse (AuthenticatedSessionRequest SessionCommand × AuthenticatedOwner)
      → ServiceWorld P
      → HttpResponse × ServiceWorld P
  behind_session (err response) w = (response, w)
  behind_session (ok (request, owner)) w = answered service (
      (enter service owner (active_session request.session) >>= λ _.
      session_body request.payload owner)
        w)

  -- `StopClash`, `UpdateWriter` and `SetSystemProxy`.
  unfoldable pub session_route :
      RequestContext (AuthenticatedSessionRequest SessionCommand)
      → ServiceWorld P
      → HttpResponse × ServiceWorld P
  unfolding authenticate_request enter stop_clash update_writer set_system_proxy
  session_route ctx w = behind_session (authenticate_request service session_credentials ctx) w

  abbrev status_response : Result AnyError ServiceStatusSnapshot → HttpResponse
  status_response (ok status) = ok_json (snapshot status)
  status_response (err error) = service_unavailable

  abbrev status_for : AuthenticatedOwner → Action HttpResponse (ServiceWorld P) HttpResponse
  status_for owner w =
      let (r, d) = service_status_snapshot owner w.core.manager w.core.cells w.disk in
      (ok (status_response r), record w { disk = d })

  abbrev behind_owner :
      Result HttpResponse (AuthenticatedRequest Unit × AuthenticatedOwner)
      → ServiceWorld P
      → HttpResponse × ServiceWorld P
  behind_owner (err response) w = (response, w)
  behind_owner (ok (request, owner)) w =
      answered service ((enter service owner unchecked >>= λ _. status_for owner) w)

  -- `Status`.
  unfoldable pub status_route :
      RequestContext (AuthenticatedRequest Unit) → ServiceWorld P → HttpResponse × ServiceWorld P
  unfolding authenticate_request enter service_status_snapshot
  status_route ctx w = behind_owner (authenticate_request service owner_credentials ctx) w

  -- `Magic` and `GetVersion`; without the magic header the transport answers 401.
  unfoldable pub magic_route : {E : Type 0} → RequestContext E → Result ℕ HttpResponse
  unfolding ipc_request_context_to_auth_context
  magic_route ctx =
      if ipc_request_context_to_auth_context ctx.magic
      then ok (ok_json (text (bytes "Tunglies!")))
      else err 401

  unfoldable pub version_route : {E : Type 0} → RequestContext E → Result ℕ HttpResponse
  unfolding ipc_request_context_to_auth_context
  version_route ctx =
      if ipc_request_context_to_auth_context ctx.magic
      then ok (ok_json (protocol_info (current_info service.build_version)))
      else err 401
