-- ===== src/Routes/Authorized.antt =====
-- Which requests reach the state (src/core/server.rs: the protocol, the owner and the session).
use clash_verge_service_ipc.Prelude.{
  same_value, ℕ, ◌≡◌, refl, sym, ◌∙◌, ap, ◌⊎◌, inl, inr, Bool, true, false, ◌==◌, ◌||◌, not,
  if◌then◌else◌, Option, none, some, Text, Result, ok, err, map_err, and_then, resume, pure, ==→≡,
}
use mathlib.Core.Path.{ap₂, subst}
use clash_verge_service_ipc.ServiceErrorCode.{ServiceErrorCode}
use clash_verge_service_ipc.ServiceError.{ServiceError, unauthorized, stale_owner_session}
use clash_verge_service_ipc.Structure.{
  OwnerIdentity, unix, windows, owner_key, OwnerCredentials, AuthenticatedOwner, OwnerSessionProof,
}
use clash_verge_service_ipc.Auth.{
  DataRoot, is_controlled, with_metadata, with_root, validate_unix_identity, authenticate_owner,
}
use clash_verge_service_ipc.Protocol.{require_protocol_version}
use clash_verge_service_ipc.Session.{hash_session_token, constant_time_eq}
use clash_verge_service_ipc.Disk.{ActiveOwnerState, content, Disk}
use clash_verge_service_ipc.Desired.Owners.{load_active_owner-IsQuiet}
use clash_verge_service_ipc.Gate.{require_active_session, enter_owner_lifecycle}
use clash_verge_service_ipc.Gate.Sessions.{
  require_active_session_cases, require_active_session-stored, require_active_session-owner,
}
use clash_verge_service_ipc.Transition.{ServiceWorld}
use clash_verge_service_ipc.Routes.{
  AuthenticatedSessionRequest, RequestContext, HttpResponse, service_error, bad_request, Service,
  SessionCommand, session_credentials, authenticate_request, require_json, owner_of_request, enter,
  session_body, behind_session, session_route, answered,
}

-- A request that may act: its protocol is supported, its body parses, the identity that it declares
-- is the kernel's of the peer, and its session is the stored one, of this owner, with the stored
-- generation and with a token whose hash is the stored one.
pub record IsAuthorized {P : Type 0} (service : Service P)
    (ctx : RequestContext (AuthenticatedSessionRequest SessionCommand)) (d : Disk) : Type 0 where
  pub request : AuthenticatedSessionRequest SessionCommand
  pub uid : ℕ
  pub gid : ℕ
  pub active : ActiveOwnerState
  pub supported : require_protocol_version ctx.protocol ≡ ok tt
  pub parsed : ctx.json ≡ some request
  pub declared : request.credentials.identity ≡ unix uid gid
  pub peer : ctx.peer ≡ some (uid, gid)
  pub stored : d.files.active_owner ≡ content active
  pub own : active.owner_key ≡ owner_key service.digest request.credentials.identity
  pub current : active.generation ≡ request.session.generation
  pub proved :
      (hash : Text) × (hash_session_token service.digest request.session.token ≡ ok hash)
      × (constant_time_eq active.session_token_hash hash ≡ true)

-- A request that is turned away: the answer is no success, and nothing has changed but the calls of
-- the disk that were made.
pub record IsRefused {P : Type 0} (w : ServiceWorld P) (answer : HttpResponse × ServiceWorld P)
    : Type 0 where
  pub no_success : (answer.0.status == 200) ≡ false
  pub core_same : answer.1.core ≡ w.core
  pub settings_same : answer.1.settings ≡ w.settings
  pub files_same : answer.1.disk.files ≡ w.disk.files
  pub prepared_same : answer.1.prepared_runtime ≡ w.prepared_runtime

error_status : (error : ServiceError) → ((service_error error).status == 200) ≡ false
unfolding service_error
error_status error = by_code error.code
  where
    by_code :
        (code : ServiceErrorCode) → ((service_error (record { code = code })).status == 200) ≡ false
    by_code ServiceErrorCode.unauthorized_owner = refl
    by_code ServiceErrorCode.not_active = refl
    by_code _ = refl

identity-declared :
    (identity : OwnerIdentity) (peer : Option (ℕ × ℕ))
    → validate_unix_identity identity peer ≡ ok tt
    → (uid : ℕ) × (gid : ℕ) × (identity ≡ unix uid gid) × (peer ≡ some (uid, gid))
unfolding validate_unix_identity
identity-declared (windows sid) peer e = cc (e)
identity-declared (unix uid gid) none e = cc (e)
identity-declared (unix uid gid) (some (peer_uid, peer_gid)) e =
    let (same_uid, same_gid) = both (uid == peer_uid) (gid == peer_gid) e in
    (
      uid,
      gid,
      refl,
      ap₂ (λ a b. some (a, b)) (sym (==→≡ uid peer_uid same_uid))
          (sym (==→≡ gid peer_gid same_gid)),
    )
  where
    both :
        (b c : Bool)
        → (if not b || not c then err unauthorized else ok tt) ≡ ok tt
        → (b ≡ true) × (c ≡ true)
    both true true e = (refl, refl)
    both true false e = cc (e)
    both false c e = cc (e)

key_of :
    {owner other : AuthenticatedOwner}
    → ◌≡◌ {A = Result ServiceError AuthenticatedOwner} (ok other) (ok owner)
    → owner.key ≡ other.key
key_of e = ap AuthenticatedOwner.key (sym (same_value e))

-- An owner that is authenticated is the one of the credentials.
root-owner :
    (digest : Text → Text) (identity : OwnerIdentity) (root : Option DataRoot)
    (owner : AuthenticatedOwner)
    → with_root digest identity root ≡ ok owner
    → owner.key ≡ owner_key digest identity
root-owner digest identity none owner e = cc (e)
root-owner digest identity (some root) owner e = by_metadata root.metadata e
  where
    by_control :
        (b : Bool)
        → (if not b
            then err unauthorized
            else ok (record {
              key = owner_key digest identity;
              identity = identity;
              app_data_root = root.canonical;
            }))
          ≡ ok owner
        → owner.key ≡ owner_key digest identity
    by_control true e = key_of e
    by_control false e = cc (e)

    by_metadata :
        (m : Option (Bool × ℕ))
        → with_metadata digest identity root.canonical m ≡ ok owner
        → owner.key ≡ owner_key digest identity
    by_metadata none e = cc (e)
    by_metadata (some m) e = by_control (is_controlled identity m) e

authenticate_owner-facts :
    (digest : Text → Text) (roots : Text → Option DataRoot) (peer : Option (ℕ × ℕ))
    (credentials : OwnerCredentials) (owner : AuthenticatedOwner)
    → authenticate_owner digest roots peer credentials ≡ ok owner
    → (validate_unix_identity credentials.identity peer ≡ ok tt)
      × (owner.key ≡ owner_key digest credentials.identity)
unfolding authenticate_owner
authenticate_owner-facts digest roots peer credentials owner =
    by_identity (validate_unix_identity credentials.identity peer)
  where
    by_identity :
        (r : Result ServiceError Unit)
        → and_then r (λ _. with_root digest credentials.identity (roots credentials.app_data_dir))
          ≡ ok owner
        → (r ≡ ok tt) × (owner.key ≡ owner_key digest credentials.identity)
    by_identity (err x) e = cc (e)
    by_identity (ok u) e =
        (refl, root-owner digest credentials.identity (roots credentials.app_data_dir) owner e)

-- The session gate reads only.
gate-files :
    (digest : Text → Text) (owner : AuthenticatedOwner) (proof : OwnerSessionProof) (d : Disk)
    → (require_active_session digest owner proof d).1.files ≡ d.files
unfolding require_active_session
gate-files digest owner proof d = load_active_owner-IsQuiet.files_kept d

module _ {P : Type 0} (service : Service P)
    (ctx : RequestContext (AuthenticatedSessionRequest SessionCommand)) (w : ServiceWorld P) where
  IsRefused-at_once :
      (response : HttpResponse) → (response.status == 200) ≡ false → IsRefused w (response, w)
  IsRefused-at_once response e = record {
    no_success = e;
    core_same = refl;
    settings_same = refl;
    files_same = refl;
    prepared_same = refl;
  }

  abbrev Gated : HttpResponse × ServiceWorld P → Type 0
  Gated answer = IsAuthorized service ctx w.disk ⊎ IsRefused w answer

  -- The session of a request whose owner is authenticated.
  module _ (request : AuthenticatedSessionRequest SessionCommand) (owner : AuthenticatedOwner)
      (supported : require_protocol_version ctx.protocol ≡ ok tt) (parsed : ctx.json ≡ some request)
      (authenticated : authenticate_owner service.digest service.roots ctx.peer request.credentials
        ≡ ok owner) where
    passed :
        (found : ActiveOwnerState)
        → (require_active_session service.digest owner request.session w.disk).0 ≡ ok found
        → IsAuthorized service ctx w.disk
    passed found e =
        let (valid, key) =
          authenticate_owner-facts service.digest service.roots ctx.peer request.credentials owner
            authenticated in
        let (uid, gid, declared, peer) =
          identity-declared request.credentials.identity ctx.peer valid in
        let (stored, current, hash, hashed, same) =
          require_active_session-stored service.digest owner request.session found w.disk e in
        record {
          request = request;
          uid = uid;
          gid = gid;
          active = found;
          supported = supported;
          parsed = parsed;
          declared = declared;
          peer = peer;
          stored = stored;
          own =
              require_active_session-owner service.digest owner request.session found w.disk e
              ∙ key;
          current = current;
          proved = (hash, hashed, same);
        }

    gate : Result ServiceError ActiveOwnerState × Disk
    gate = require_active_session service.digest owner request.session w.disk

    behind : Result ServiceError ActiveOwnerState → HttpResponse × ServiceWorld P
    behind r =
        let (s, d) = resume r (λ _. pure tt) gate.1 in
        answered service (
          resume (map_err service_error s) (λ _. session_body service request.payload owner)
            (record w { disk = d }))

    session-Gated : Gated (behind_session service (ok (request, owner)) w)
    unfolding enter enter_owner_lifecycle gate behind
    session-Gated =
        elim (require_active_session_cases service.digest owner request.session w.disk) [
          | inl (found, e) ↦ inl (passed found e)
          | inr e ↦ inr (
              subst (λ r. IsRefused w (behind r)) (sym e)
                (record {
                  no_success = error_status stale_owner_session;
                  core_same = refl;
                  settings_same = refl;
                  files_same = gate-files service.digest owner request.session w.disk;
                  prepared_same = refl;
                }))
        ]

-- A request for a stop, for another writer or for another proxy either is authorised: its protocol
-- version is supported, its body parses, the identity that it declares is the kernel's of the peer,
-- and its session is the stored one, of this owner, with the stored generation and a token that
-- hashes to the stored hash; or it is turned away: the answer is no success, and the core, the
-- settings of the proxy and the state files are as before.
pub session_route-Gated :
    {P : Type 0} (service : Service P)
    (ctx : RequestContext (AuthenticatedSessionRequest SessionCommand)) (w : ServiceWorld P)
    → IsAuthorized service ctx w.disk ⊎ IsRefused w (session_route service ctx w)
unfolding session_route authenticate_request
session_route-Gated {P = P} service ctx w = by_version (require_protocol_version ctx.protocol) refl
  where
    answer_for :
        Result ServiceError Unit
        → Option (AuthenticatedSessionRequest SessionCommand)
        → HttpResponse × ServiceWorld P
    answer_for r json =
        behind_session service
          (and_then (map_err service_error r) λ _.
            and_then (require_json json) (owner_of_request service session_credentials ctx.peer))
          w

    by_owner :
        (request : AuthenticatedSessionRequest SessionCommand)
        → require_protocol_version ctx.protocol ≡ ok tt
        → ctx.json ≡ some request
        → (r : Result ServiceError AuthenticatedOwner)
        → authenticate_owner service.digest service.roots ctx.peer request.credentials ≡ r
        → IsAuthorized service ctx w.disk
          ⊎ IsRefused w (
              behind_session service
                (and_then (map_err service_error r) λ owner. ok (request, owner))
                w)
    by_owner request supported parsed (err x) e =
        inr (IsRefused-at_once service ctx w (service_error x) (error_status x))
    by_owner request supported parsed (ok owner) e =
        session-Gated service ctx w request owner supported parsed e

    by_json :
        (json : Option (AuthenticatedSessionRequest SessionCommand))
        → require_protocol_version ctx.protocol ≡ ok tt
        → ctx.json ≡ json
        → IsAuthorized service ctx w.disk ⊎ IsRefused w (answer_for (ok tt) json)
    by_json none supported parsed = inr (IsRefused-at_once service ctx w bad_request refl)
    by_json (some request) supported parsed =
        by_owner request supported parsed
          (authenticate_owner service.digest service.roots ctx.peer request.credentials) refl

    by_version :
        (r : Result ServiceError Unit)
        → require_protocol_version ctx.protocol ≡ r
        → IsAuthorized service ctx w.disk ⊎ IsRefused w (answer_for r ctx.json)
    by_version (err x) e = inr (IsRefused-at_once service ctx w (service_error x) (error_status x))
    by_version (ok u) e = by_json ctx.json e refl
