-- ===== src/ServiceError.antt =====
-- The errors that a request ends with (src/core/auth.rs, `ServiceError`). The message texts are
-- left out; the code is what a client acts on.
use clash_verge_service_ipc.ServiceErrorCode.{ServiceErrorCode}

pub record ServiceError : Type 0 where
  pub code : ServiceErrorCode

abbrev pub unauthorized : ServiceError
unauthorized = record { code = ServiceErrorCode.unauthorized_owner }

abbrev pub not_active : ServiceError
not_active = record { code = ServiceErrorCode.not_active }

abbrev pub owner_switch_failed : ServiceError
owner_switch_failed = record { code = ServiceErrorCode.owner_switch_failed }

abbrev pub protocol_mismatch : ServiceError
protocol_mismatch = record { code = ServiceErrorCode.protocol_mismatch }

abbrev pub stale_owner_session : ServiceError
stale_owner_session = record { code = ServiceErrorCode.stale_owner_session }

abbrev pub invalid_proxy_config : ServiceError
invalid_proxy_config = record { code = ServiceErrorCode.invalid_proxy_config }

abbrev pub proxy_clear_failed : ServiceError
proxy_clear_failed = record { code = ServiceErrorCode.proxy_clear_failed }

abbrev pub proxy_apply_failed : ServiceError
proxy_apply_failed = record { code = ServiceErrorCode.proxy_apply_failed }

abbrev pub invalid_install_location : ServiceError
invalid_install_location = record { code = ServiceErrorCode.invalid_install_location }

-- src/core/runtime_generation/assets.rs
abbrev pub invalid_asset : ServiceError
invalid_asset = record { code = ServiceErrorCode.invalid_runtime_asset }
