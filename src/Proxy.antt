-- ===== src/Proxy.antt =====
-- The macOS system proxy (src/core/proxy.rs): which configurations are accepted, and how one is
-- applied, with the fall back to direct mode. The parsers of IP addresses and URLs and the calls
-- that set the proxies are other crates': they are parameters.
pub mod Settings
use clash_verge_service_ipc.Prelude.{
  ℕ, ◌<◌, ◌≤◌, Bool, true, false, ◌||◌, ◌&&◌, not, Option, none, some, List, [], ◌∷◌, ◌==◌, leb,
  if◌then◌else◌, Text, bytes, text_eq, member, length, is_empty, Result, ok, err, Action, pure,
  fail, resume, ◌>>=◌, ◌>>◌, inspect,
}
use clash_verge_service_ipc.Prelude.Split.{split_once, rsplit_once, strip_prefix}
use clash_verge_service_ipc.Prelude.Decimal.{parse_uint}
use clash_verge_service_ipc.AnyError.{AnyError, anyhow, context, is_no_active_network_service}
use clash_verge_service_ipc.Structure.{
  MacosProxyConfig, disabled, global, pac, ProxyApplyOutcome, not_requested, applied,
  direct_fallback,
}

-- What the URL parser returns; the host is an address, loopback or not, or a domain.
pub data Host : Type 0 where
  address : Bool → Host
  domain : Host

pub record Url : Type 0 where
  pub scheme : Text
  pub username : Text
  pub password : Option Text
  pub query : Option Text
  pub fragment : Option Text
  pub path : Text
  pub host : Option Host
  pub host_str : Option Text

-- `parse_ip` says of a text that is an address whether it is loopback.
pub record Parsers : Type 0 where
  pub parse_ip : Text → Option Bool
  pub parse_url : Text → Option Url

abbrev max_host_len : ℕ
max_host_len = 64

abbrev max_bypass_len : ℕ
max_bypass_len = 8192

abbrev max_pac_url_len : ℕ
max_pac_url_len = 256

abbrev contains : ℕ → Text → Bool
contains c [] = false
contains c (d ∷ rest) = d == c || contains c rest

-- `ensure!`
abbrev ensure : Bool → Result AnyError Unit → Result AnyError Unit
ensure true rest = rest
ensure false rest = err anyhow

abbrev is_none : Option Text → Bool
is_none none = true
is_none (some t) = false

abbrev has_loopback : Option Bool → Bool
has_loopback (some loopback) = loopback
has_loopback none = false

-- The first `separator`, and the text after it.
after_first : Text → Text → Option Text
after_first separator [] = strip_prefix separator []
after_first separator (c ∷ rest) =
    let later = after_first separator rest in
    elim (strip_prefix separator (c ∷ rest)) [ some t ↦ some t | none ↦ later ]

-- `.split(['/', '?', '#']).next()`
until_delimiter : Text → Text
until_delimiter [] = []
until_delimiter (c ∷ rest) =
    let first = until_delimiter rest in if c == 47 || c == 63 || c == 35 then [] else c ∷ first

after_bracket : Option (Text × Text) → Option Text
after_bracket none = none
after_bracket (some (host, remainder)) = strip_prefix (bytes ":") remainder

after_colon : Option (Text × Text) → Option Text
after_colon none = none
after_colon (some (host, port)) = some port

-- The text of the port: after the bracket of an IPv6 host, or after the last colon.
port_text : Text → Option Text
unfolding after_bracket after_colon
port_text [] = none
port_text (c ∷ rest) =
    if c == 91
    then after_bracket (split_once 93 (c ∷ rest))
    else after_colon (rsplit_once 58 (c ∷ rest))

parse_port : Option Text → Result AnyError ℕ
parse_port none = err anyhow
parse_port (some []) = err anyhow
parse_port (some (c ∷ rest)) = elim (parse_uint 65535 (c ∷ rest)) [
  | none ↦ err anyhow
  | some port ↦ ok port
]

unfoldable pub explicit_port : Text → Result AnyError ℕ
unfolding port_text parse_port
explicit_port authority = parse_port (port_text authority)

abbrev is_nonzero : Result AnyError ℕ → Bool
is_nonzero (ok port) = not (port == 0)
is_nonzero (err e) = false

abbrev is_short : Option Text → Bool
is_short none = false
is_short (some host) = leb (length host) max_host_len

abbrev is_loopback_host : Option Host → Bool
is_loopback_host (some (address loopback)) = loopback
is_loopback_host _ = false

check_authority : Option Text → Url → Result AnyError Unit
unfolding until_delimiter
check_authority none url = err anyhow
check_authority (some remainder) url =
    let authority = until_delimiter remainder in
    ensure (not (contains 64 authority)) (
      ensure (is_nonzero (explicit_port authority))
        (ensure (is_short url.host_str) (ensure (is_loopback_host url.host) (ok tt))))

check_url : Text → Option Url → Result AnyError Unit
unfolding check_authority after_first
check_url raw none = err anyhow
check_url raw (some url) = ensure (text_eq url.scheme (bytes "http")) (
    ensure (is_empty url.username) (
      ensure (is_none url.password) (
        ensure (is_none url.query) (
          ensure (is_none url.fragment) (
            ensure (text_eq url.path (bytes "/commands/pac"))
              (check_authority (after_first (bytes "://") raw) url))))))

validate_pac_url : Parsers → Text → Result AnyError Unit
unfolding check_url
validate_pac_url parsers raw =
    ensure (leb (length raw) max_pac_url_len)
      (ensure (not (contains 0 raw)) (check_url raw (parsers.parse_url raw)))

unfoldable pub validate_proxy_config : Parsers → MacosProxyConfig → Result AnyError Unit
unfolding validate_pac_url
validate_proxy_config parsers disabled = ok tt
validate_proxy_config parsers (global host port bypass) = ensure (leb (length host) max_host_len) (
    ensure (leb (length bypass) max_bypass_len) (
      ensure (not (contains 0 host)) (
        ensure (not (contains 0 bypass))
          (ensure (not (port == 0)) (ensure (has_loopback (parsers.parse_ip host)) (ok tt))))))
validate_proxy_config parsers (pac url) = validate_pac_url parsers url

pub record SystemProxy : Type 0 where
  pub host : Text
  pub port : ℕ  -- u16
  pub bypass : Text
  pub enable : Bool

pub record AutoProxy : Type 0 where
  pub url : Text
  pub enable : Bool

abbrev pub no_system_proxy : SystemProxy
no_system_proxy = record { host = []; port = 0; bypass = []; enable = false }

abbrev pub no_auto_proxy : AutoProxy
no_auto_proxy = record { url = []; enable = false }

-- `ProxyBackend`, over the state `W` of the system.
pub record ProxyBackend (W : Type 0) : Type 0 where
  pub set_system_proxy : SystemProxy → Action AnyError W Unit
  pub set_auto_proxy : AutoProxy → Action AnyError W Unit

module _ {W : Type 0} where
  unfoldable pub apply_with_backend : ProxyBackend W → MacosProxyConfig → Action AnyError W Unit
  apply_with_backend backend disabled = do
    backend.set_system_proxy no_system_proxy
    backend.set_auto_proxy no_auto_proxy
  apply_with_backend backend (global host port bypass) = do
    backend.set_auto_proxy no_auto_proxy
    backend.set_system_proxy (record { host = host; port = port; bypass = bypass; enable = true })
  apply_with_backend backend (pac url) = do
    backend.set_system_proxy no_system_proxy
    backend.set_auto_proxy (record { url = url; enable = true })

  -- The direct mode after `apply_error`. With no network service at both calls there was nothing
  -- to undo.
  compensated : AnyError → Result AnyError Unit → Action AnyError W ProxyApplyOutcome
  compensated apply_error (ok _) w = (ok direct_fallback, w)
  compensated apply_error (err error) w =
      if is_no_active_network_service apply_error && is_no_active_network_service error
      then (ok direct_fallback, w)
      else (err (context error), w)

  after_apply :
      (MacosProxyConfig → Action AnyError W Unit)
      → Result AnyError Unit
      → Action AnyError W ProxyApplyOutcome
  unfolding compensated
  after_apply apply (ok _) w = (ok applied, w)
  after_apply apply (err error) w = inspect (apply disabled) (compensated error) w

  validated :
      Result AnyError Unit
      → (MacosProxyConfig → Action AnyError W Unit)
      → MacosProxyConfig
      → Action AnyError W ProxyApplyOutcome
  unfolding after_apply
  validated (ok _) apply config w = inspect (apply config) (after_apply apply) w
  validated (err e) apply config w = (err e, w)

  unfoldable pub apply_proxy_or_direct_with :
      Parsers
      → (MacosProxyConfig → Action AnyError W Unit)
      → Option MacosProxyConfig
      → Action AnyError W ProxyApplyOutcome
  unfolding validated
  apply_proxy_or_direct_with parsers apply none w = (ok not_requested, w)
  apply_proxy_or_direct_with parsers apply (some config) w =
      validated (validate_proxy_config parsers config) apply config w

  -- `apply_proxy` on macOS.
  unfoldable pub apply_proxy : Parsers → ProxyBackend W → MacosProxyConfig → Action AnyError W Unit
  apply_proxy parsers backend config w =
      resume (validate_proxy_config parsers config) (λ _. apply_with_backend backend config) w

  cleared : Result AnyError Unit → Action AnyError W Unit
  cleared (ok u) w = (ok u, w)
  cleared (err error) w = if is_no_active_network_service error then (ok tt, w) else (err error, w)

  unfoldable pub clear_proxy : Parsers → ProxyBackend W → Action AnyError W Unit
  unfolding cleared
  clear_proxy parsers backend = inspect (apply_proxy parsers backend disabled) cleared
