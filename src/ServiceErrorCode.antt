-- ===== src/ServiceErrorCode.antt =====
-- The stable error codes that a client sees (src/core/structure.rs).
use clash_verge_service_ipc.Prelude.{ℕ}

pub data ServiceErrorCode : Type 0 where
  unauthorized_owner not_active invalid_install_location invalid_runtime_asset : ServiceErrorCode
  legacy_cleanup_failed owner_switch_failed protocol_mismatch stale_owner_session : ServiceErrorCode
  invalid_proxy_config proxy_clear_failed proxy_apply_failed : ServiceErrorCode

-- `code as u16`
unfoldable pub code_value : ServiceErrorCode → ℕ
code_value unauthorized_owner = 1001
code_value not_active = 1002
code_value invalid_install_location = 1003
code_value invalid_runtime_asset = 1004
code_value legacy_cleanup_failed = 1005
code_value owner_switch_failed = 1006
code_value protocol_mismatch = 1007
code_value stale_owner_session = 1008
code_value invalid_proxy_config = 1009
code_value proxy_clear_failed = 1010
code_value proxy_apply_failed = 1011
