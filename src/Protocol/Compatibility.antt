-- ===== src/Protocol/Compatibility.antt =====
-- Which clients the server takes, and which services a client may use.
use clash_verge_service_ipc.Prelude.{
  ◌≤◌, ◌≡◌, refl, ◌↔◌, true, Option, some, arith, Text, ok, option_then, Option-cases, inl, inr,
}
use mathlib.Core.Option.{some-injective}
use clash_verge_service_ipc.Protocol.{
  ProtocolVersion, ProtocolInfo, FitsU16, current, current_info, header_value, parse_header,
  supports_client, supports_runtime_staging, require_protocol_version,
  min_required_service_revision, protocol_epoch, protocol_revision, min_supported_client_revision,
}
use clash_verge_service_ipc.Protocol.Header.{parse_header-header_value}

-- The server takes a request exactly when its header parses to a version of the current epoch
-- whose revision is at least the lowest supported one.
pub require_protocol_version_iff :
    (header : Option Text)
    → (require_protocol_version header ≡ ok tt) ↔ (
        (v : ProtocolVersion) × (option_then header parse_header ≡ some v)
        × (v.epoch ≡ protocol_epoch)
        × (min_supported_client_revision ≤ v.revision))
unfolding require_protocol_version
require_protocol_version_iff header = elim (Option-cases (option_then header parse_header)) [
  | inl (v, e) ↦ rw e (
    λ h. (v, refl, ground arith, ground arith),
    λ h. ground (arith, some-injective h.1, h.2, h.3),
  )
  | inr e ↦ rw e (λ h. cc, λ h. cc (h.1))
]

-- A service that supports runtime staging and whose lowest client revision is not past the current
-- one is a service that the current client can talk to.
pub supports_runtime_staging-supports_client :
    (info : ProtocolInfo)
    → info.min_client_revision ≤ protocol_revision
    → supports_runtime_staging info ≡ true
    → supports_client info current min_required_service_revision ≡ true
unfolding supports_runtime_staging supports_client
supports_runtime_staging-supports_client info m h = ground arith

-- For a client that prints its own version, the server's check of the header and the client's
-- check of the service's published information agree: the request is taken exactly when
-- `supports_client` holds of the current service.
pub require_protocol_version-supports_client :
    (build : Text) (client : ProtocolVersion)
    → FitsU16 client
    → (require_protocol_version (some (header_value client)) ≡ ok tt)
      ↔ (supports_client (current_info build) client min_required_service_revision ≡ true)
unfolding require_protocol_version supports_client
require_protocol_version-supports_client build client h =
    rw (parse_header-header_value client h) (λ e. ground arith, λ e. ground arith)
