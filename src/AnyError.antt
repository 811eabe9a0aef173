-- ===== src/AnyError.antt =====
-- `anyhow::Error` as the chain of its causes, the outermost first. The texts are left out: what
-- the code inspects is whether an I/O error of a kind, or the absence of a network service, is in
-- the chain.
use clash_verge_service_ipc.Prelude.{Bool, true, false, ◌||◌, List, [], ◌∷◌}

pub data IoErrorKind : Type 0 where
  not_found would_block permission_denied already_exists other_kind : IoErrorKind

pub data Cause : Type 0 where
  io_error : IoErrorKind → Cause
  no_active_network_service : Cause
  message : Cause

abbrev pub AnyError : Type 0
AnyError = List Cause

-- `anyhow!("…")`: a fresh error, whose text may quote others but whose chain does not hold them.
abbrev pub anyhow : AnyError
anyhow = message ∷ []

-- `.context("…")`
abbrev pub context : AnyError → AnyError
context error = message ∷ error

abbrev pub of_io : IoErrorKind → AnyError
of_io kind = io_error kind ∷ []

abbrev is_not_found : Cause → Bool
is_not_found (io_error not_found) = true
is_not_found _ = false

-- src/core/desired.rs
unfoldable pub is_not_found_error : AnyError → Bool
is_not_found_error [] = false
is_not_found_error (cause ∷ chain) = is_not_found cause || is_not_found_error chain

abbrev is_no_service : Cause → Bool
is_no_service no_active_network_service = true
is_no_service _ = false

-- src/core/proxy.rs, on macOS
unfoldable pub is_no_active_network_service : AnyError → Bool
is_no_active_network_service [] = false
is_no_active_network_service (cause ∷ chain) =
    is_no_service cause || is_no_active_network_service chain
