-- ===== src/Protocol.antt =====
-- The version of the IPC protocol (src/core/structure.rs, constants of src/lib.rs), and the check
-- that the server makes of each request's header (src/core/server.rs, `require_protocol_version`).
pub mod Header
pub mod Compatibility
use clash_verge_service_ipc.Prelude.{
  ℕ, ◌^◌, ◌-◌, ◌≤◌, Bool, ◌&&◌, Option, none, some, ◌∷◌, ◌++◌, leb, ◌==◌, if◌then◌else◌, Text,
  Result, ok, err, option_then, require_some,
}
use clash_verge_service_ipc.Prelude.Decimal.{decimal, parse_uint}
use clash_verge_service_ipc.Prelude.Split.{split_once}
use clash_verge_service_ipc.ServiceError.{ServiceError, protocol_mismatch}

abbrev pub u16_max : ℕ
u16_max = 65535

-- src/lib.rs
abbrev pub protocol_epoch : ℕ
protocol_epoch = 2

abbrev pub protocol_revision : ℕ
protocol_revision = 2

abbrev pub min_supported_client_revision : ℕ
min_supported_client_revision = 1

abbrev pub min_required_service_revision : ℕ
min_required_service_revision = 1

abbrev pub min_service_revision_for_runtime_staging : ℕ
min_service_revision_for_runtime_staging = 2

pub record ProtocolVersion : Type 0 where
  pub epoch : ℕ  -- u16
  pub revision : ℕ  -- u16

-- The fields are `u16`.
pub record FitsU16 (v : ProtocolVersion) : Type 0 where
  pub epoch_fits : v.epoch ≤ u16_max
  pub revision_fits : v.revision ≤ u16_max

abbrev pub current : ProtocolVersion
current = record { epoch = protocol_epoch; revision = protocol_revision }

unfoldable pub header_value : ProtocolVersion → Text
header_value v = decimal v.epoch ++ (b'.' ∷ decimal v.revision)

unfoldable pub parse_header : Text → Option ProtocolVersion
parse_header value = option_then (split_once b'.' value) λ parts.
    option_then (parse_uint u16_max parts.0) λ epoch.
      option_then (parse_uint u16_max parts.1)
        λ revision. some (record { epoch = epoch; revision = revision })

pub record ProtocolInfo : Type 0 where
  pub build_version : Text
  pub protocol : ProtocolVersion
  pub min_client_revision : ℕ

-- `ProtocolInfo::current`; the build version is a string of the build.
abbrev pub current_info : Text → ProtocolInfo
current_info version = record {
  build_version = version;
  protocol = current;
  min_client_revision = min_supported_client_revision;
}

unfoldable pub supports_client : ProtocolInfo → ProtocolVersion → ℕ → Bool
supports_client info client min_service_revision =
    info.protocol.epoch == client.epoch
    && leb min_service_revision info.protocol.revision
    && leb info.min_client_revision client.revision

unfoldable pub supports_runtime_staging : ProtocolInfo → Bool
supports_runtime_staging info =
    info.protocol.epoch == current.epoch
    && leb min_service_revision_for_runtime_staging info.protocol.revision

-- The header is `none` where it is missing or no readable text.
unfoldable pub require_protocol_version : Option Text → Result ServiceError Unit
require_protocol_version header =
    require_some (option_then header parse_header) protocol_mismatch λ supplied.
      if supplied.epoch == current.epoch && leb min_supported_client_revision supplied.revision
      then ok tt
      else err protocol_mismatch
