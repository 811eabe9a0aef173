-- ===== src/Structure.antt =====
-- The data that requests, the disk and the core manager share (src/core/structure.rs,
-- src/core/auth.rs). Texts and paths are lists of bytes.
use clash_verge_service_ipc.Prelude.{ℕ, Option, Text}
use clash_verge_service_ipc.Prelude.Decimal.{decimal}
use clash_verge_service_ipc.Prelude.Hex.{to_hex}

pub data OwnerIdentity : Type 0 where
  unix : ℕ → ℕ → OwnerIdentity  -- uid and gid, both u32
  windows : Text → OwnerIdentity  -- sid

-- SHA-256 is a function of another crate: a parameter, from bytes to bytes.
unfoldable pub owner_key : (Text → Text) → OwnerIdentity → Text
owner_key digest (unix uid gid) = decimal uid
owner_key digest (windows sid) = to_hex (digest sid)

pub record OwnerCredentials : Type 0 where
  pub identity : OwnerIdentity
  pub app_data_dir : Text
  pub token : Option Text

-- src/core/auth.rs
pub record AuthenticatedOwner : Type 0 where
  pub key : Text
  pub identity : OwnerIdentity
  pub app_data_root : Text

pub record OwnerSessionProof : Type 0 where
  pub generation : ℕ  -- u64
  pub token : Text

pub record WriterConfig : Type 0 where
  pub directory : Text
  pub max_log_size : ℕ  -- u64
  pub max_log_files : ℕ

pub record CoreConfig : Type 0 where
  pub core_path : Text
  pub core_ipc_path : Text
  pub config_path : Text
  pub config_dir : Text

pub record ClashConfig : Type 0 where
  pub core_config : CoreConfig
  pub log_config : WriterConfig

pub data MacosProxyConfig : Type 0 where
  disabled : MacosProxyConfig
  global : Text → ℕ → Text → MacosProxyConfig  -- host, port (u16), bypass
  pac : Text → MacosProxyConfig  -- url

pub data ProxyApplyOutcome : Type 0 where
  not_requested applied direct_fallback : ProxyApplyOutcome
