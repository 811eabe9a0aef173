-- ===== src/Gate.antt =====
-- Who may do what, by the state of the disk (src/core/server.rs: `require_active_owner`,
-- `require_active_session`, `OwnerLifecycleGate`, `enter_owner_lifecycle`).
pub mod Sessions
use clash_verge_service_ipc.Prelude.{
  ℕ, Bool, true, false, ◌||◌, not, ◌==◌, if◌then◌else◌, Option, none, some, Text, text_eq, Result,
  ok, err, Action, pure, fail, resume, ◌>>=◌, ◌>>◌, inspect,
}
use clash_verge_service_ipc.AnyError.{AnyError}
use clash_verge_service_ipc.ServiceError.{ServiceError, not_active, stale_owner_session}
use clash_verge_service_ipc.Structure.{AuthenticatedOwner, OwnerSessionProof}
use clash_verge_service_ipc.Session.{hash_session_token, constant_time_eq}
use clash_verge_service_ipc.Disk.{ActiveOwnerState, Disk}
use clash_verge_service_ipc.Desired.{load_active_owner}

-- `is_some_and(|active| active.owner_key == owner.key)`
abbrev pub is_active_owner : AuthenticatedOwner → Option ActiveOwnerState → Bool
is_active_owner owner none = false
is_active_owner owner (some active) = text_eq active.owner_key owner.key

-- What the loaded state answers; a failure to load it is one more refusal.
abbrev owner_check :
    AuthenticatedOwner → Result AnyError (Option ActiveOwnerState) → Result ServiceError Unit
owner_check owner (err e) = err not_active
owner_check owner (ok active) = if is_active_owner owner active then ok tt else err not_active

unfoldable pub require_active_owner : AuthenticatedOwner → Action ServiceError Disk Unit
require_active_owner owner d = (owner_check owner (load_active_owner d).0, (load_active_owner d).1)

-- The three ways in which a proof can differ from the active session.
abbrev differs : AuthenticatedOwner → OwnerSessionProof → Text → ActiveOwnerState → Bool
differs owner proof supplied_hash active =
    not (text_eq active.owner_key owner.key)
    || not (active.generation == proof.generation)
    || not (constant_time_eq active.session_token_hash supplied_hash)

abbrev hash_check :
    AuthenticatedOwner
    → OwnerSessionProof
    → ActiveOwnerState
    → Result AnyError Text
    → Result ServiceError ActiveOwnerState
hash_check owner proof active (err e) = err stale_owner_session
hash_check owner proof active (ok supplied_hash) =
    if differs owner proof supplied_hash active then err stale_owner_session else ok active

abbrev session_check :
    (Text → Text)
    → AuthenticatedOwner
    → OwnerSessionProof
    → Result AnyError (Option ActiveOwnerState)
    → Result ServiceError ActiveOwnerState
session_check digest owner proof (err e) = err stale_owner_session
session_check digest owner proof (ok none) = err stale_owner_session
session_check digest owner proof (ok (some active)) =
    hash_check owner proof active (hash_session_token digest proof.token)

unfoldable pub require_active_session :
    (Text → Text)
    → AuthenticatedOwner
    → OwnerSessionProof
    → Action ServiceError Disk ActiveOwnerState
require_active_session digest owner proof d =
    (session_check digest owner proof (load_active_owner d).0, (load_active_owner d).1)

pub data OwnerLifecycleGate : Type 0 where
  unchecked : OwnerLifecycleGate
  active_owner : OwnerLifecycleGate
  active_session : OwnerSessionProof → OwnerLifecycleGate

-- The gate is applied while the lifecycle lock is held.
unfoldable pub enter_owner_lifecycle :
    (Text → Text) → AuthenticatedOwner → OwnerLifecycleGate → Action ServiceError Disk Unit
enter_owner_lifecycle digest owner unchecked = pure tt
enter_owner_lifecycle digest owner active_owner = require_active_owner owner
enter_owner_lifecycle digest owner (active_session proof) =
    require_active_session digest owner proof >> pure tt
