-- ===== src/Auth.antt =====
-- Who sends a request (src/core/auth.rs, on Unix): the magic header, the kernel's credentials of the
-- peer, and the directory of the application's data.
use clash_verge_service_ipc.Prelude.{
  ℕ, Bool, false, ◌&&◌, ◌||◌, not, ◌==◌, if◌then◌else◌, Option, none, some, Text, bytes, text_eq,
  Result, ok, err, and_then,
}
use clash_verge_service_ipc.ServiceError.{ServiceError, unauthorized}
use clash_verge_service_ipc.Structure.{
  OwnerIdentity, unix, windows, owner_key, OwnerCredentials, AuthenticatedOwner,
}

-- src/lib.rs
abbrev pub ipc_auth_expect : Text
ipc_auth_expect =
    bytes
      "A thing of beauty is a joy for ever. Its loveliness increases; it will never pass into nothingness."

-- Whether the value of `X-IPC-Magic` is the expected one.
unfoldable pub ipc_request_context_to_auth_context : Option Text → Bool
ipc_request_context_to_auth_context none = false
ipc_request_context_to_auth_context (some token) = text_eq token ipc_auth_expect

unfoldable pub validate_unix_identity : OwnerIdentity → Option (ℕ × ℕ) → Result ServiceError Unit
validate_unix_identity (windows sid) peer = err unauthorized
validate_unix_identity (unix uid gid) none = err unauthorized
validate_unix_identity (unix uid gid) (some (peer_uid, peer_gid)) =
    if not (uid == peer_uid) || not (gid == peer_gid) then err unauthorized else ok tt

-- What `canonicalize` and then `metadata` show of a directory; either may fail.
pub record DataRoot : Type 0 where
  pub canonical : Text
  pub metadata : Option (Bool × ℕ)  -- whether it is a directory, and its owner's uid

abbrev pub is_controlled : OwnerIdentity → Bool × ℕ → Bool
is_controlled (unix uid gid) (is_dir, owner_uid) = is_dir && owner_uid == uid
is_controlled (windows sid) metadata = false

abbrev pub with_metadata :
    (Text → Text)
    → OwnerIdentity
    → Text
    → Option (Bool × ℕ)
    → Result ServiceError AuthenticatedOwner
with_metadata digest identity app_data_root none = err unauthorized
with_metadata digest identity app_data_root (some metadata) =
    if not (is_controlled identity metadata)
    then err unauthorized
    else ok (record {
      key = owner_key digest identity;
      identity = identity;
      app_data_root = app_data_root;
    })

abbrev pub with_root :
    (Text → Text) → OwnerIdentity → Option DataRoot → Result ServiceError AuthenticatedOwner
with_root digest identity none = err unauthorized
with_root digest identity (some root) = with_metadata digest identity root.canonical root.metadata

-- `roots` is what the file system shows at the time.
unfoldable pub authenticate_owner :
    (Text → Text)
    → (Text → Option DataRoot)
    → Option (ℕ × ℕ)
    → OwnerCredentials
    → Result ServiceError AuthenticatedOwner
unfolding validate_unix_identity owner_key
authenticate_owner digest roots peer credentials =
    and_then (validate_unix_identity credentials.identity peer)
      λ _. with_root digest credentials.identity (roots credentials.app_data_dir)
