-- ===== src/Proxy/Settings.antt =====
-- What the settings of the system are after a proxy configuration is applied
-- (src/core/proxy.rs).
use clash_verge_service_ipc.Prelude.{
  ◌≡◌, refl, ◌∙◌, Bool, true, false, ◌&&◌, some, if◌then◌else◌, Result, ok, err, Action, resume,
  and_iff,
}
use clash_verge_service_ipc.AnyError.{AnyError, context, is_no_active_network_service}
use clash_verge_service_ipc.Structure.{
  MacosProxyConfig, disabled, global, pac, ProxyApplyOutcome, applied, direct_fallback,
}
use clash_verge_service_ipc.Proxy.{
  Parsers, SystemProxy, AutoProxy, no_system_proxy, no_auto_proxy, ProxyBackend, apply_with_backend,
  compensated, after_apply, validated, validate_proxy_config, apply_proxy_or_direct_with,
}

-- A backend whose calls do what they say: a call that succeeds has set its proxy, and no call
-- touches the other one.
pub record IsBackend {W : Type 0} (backend : ProxyBackend W) (system : W → SystemProxy)
    (auto : W → AutoProxy) : Type 0 where
  pub system_set :
      (p : SystemProxy) (w : W)
      → (backend.set_system_proxy p w).0 ≡ ok tt
      → system (backend.set_system_proxy p w).1 ≡ p
  pub auto_set :
      (p : AutoProxy) (w : W)
      → (backend.set_auto_proxy p w).0 ≡ ok tt
      → auto (backend.set_auto_proxy p w).1 ≡ p
  pub auto_kept : (p : SystemProxy) (w : W) → auto (backend.set_system_proxy p w).1 ≡ auto w
  pub system_kept : (p : AutoProxy) (w : W) → system (backend.set_auto_proxy p w).1 ≡ system w

-- The settings that a configuration asks for: at most one of the two proxies is on.
abbrev pub wanted_system : MacosProxyConfig → SystemProxy
wanted_system (global host port bypass) = record {
  host = host;
  port = port;
  bypass = bypass;
  enable = true;
}
wanted_system _ = no_system_proxy

abbrev pub wanted_auto : MacosProxyConfig → AutoProxy
wanted_auto (pac url) = record { url = url; enable = true }
wanted_auto _ = no_auto_proxy

module _ {W : Type 0} (parsers : Parsers) (backend : ProxyBackend W) (system : W → SystemProxy)
    (auto : W → AutoProxy) where
  abbrev pub Shows : MacosProxyConfig → W → Type 0
  Shows config w = (system w ≡ wanted_system config) × (auto w ≡ wanted_auto config)

  abbrev system_then_auto : SystemProxy → AutoProxy → Action AnyError W Unit
  system_then_auto s a w =
      resume (backend.set_system_proxy s w).0 (λ _. backend.set_auto_proxy a)
        (backend.set_system_proxy s w).1

  abbrev auto_then_system : AutoProxy → SystemProxy → Action AnyError W Unit
  auto_then_system a s w =
      resume (backend.set_auto_proxy a w).0 (λ _. backend.set_system_proxy s)
        (backend.set_auto_proxy a w).1

  system_then_auto-ok :
      IsBackend backend system auto
      → (s : SystemProxy) (a : AutoProxy) (w : W) → (system_then_auto s a w).0 ≡ ok tt
      → (system (system_then_auto s a w).1 ≡ s) × (auto (system_then_auto s a w).1 ≡ a)
  system_then_auto-ok b s a w = by_first (backend.set_system_proxy s w).0 refl
    where
      w1 : W
      w1 = (backend.set_system_proxy s w).1

      after : Result AnyError Unit → Result AnyError Unit × W
      after r = resume r (λ _. backend.set_auto_proxy a) w1

      by_first :
          (r : Result AnyError Unit)
          → (backend.set_system_proxy s w).0 ≡ r
          → (after r).0 ≡ ok tt
          → (system (after r).1 ≡ s) × (auto (after r).1 ≡ a)
      by_first (ok u) e f = (b.system_kept a w1 ∙ b.system_set s w e, b.auto_set a w1 f)
      by_first (err x) e f = cc (f)

  auto_then_system-ok :
      IsBackend backend system auto
      → (a : AutoProxy) (s : SystemProxy) (w : W) → (auto_then_system a s w).0 ≡ ok tt
      → (system (auto_then_system a s w).1 ≡ s) × (auto (auto_then_system a s w).1 ≡ a)
  auto_then_system-ok b a s w = by_first (backend.set_auto_proxy a w).0 refl
    where
      w1 : W
      w1 = (backend.set_auto_proxy a w).1

      after : Result AnyError Unit → Result AnyError Unit × W
      after r = resume r (λ _. backend.set_system_proxy s) w1

      by_first :
          (r : Result AnyError Unit)
          → (backend.set_auto_proxy a w).0 ≡ r
          → (after r).0 ≡ ok tt
          → (system (after r).1 ≡ s) × (auto (after r).1 ≡ a)
      by_first (ok u) e f = (b.system_set s w1 f, b.auto_kept s w1 ∙ b.auto_set a w e)
      by_first (err x) e f = cc (f)

  -- On a backend whose calls do what they say: if both calls of an application succeed, the settings
  -- are those that were asked for, and the other kind of proxy is off.
  pub apply_with_backend-Shows :
      IsBackend backend system auto
      → (config : MacosProxyConfig) (w : W) → (apply_with_backend backend config w).0 ≡ ok tt
      → Shows config (apply_with_backend backend config w).1
  unfolding apply_with_backend
  apply_with_backend-Shows b disabled w = system_then_auto-ok b no_system_proxy no_auto_proxy w
  apply_with_backend-Shows b (global host port bypass) w =
      auto_then_system-ok b no_auto_proxy (wanted_system (global host port bypass)) w
  apply_with_backend-Shows b (pac url) w =
      system_then_auto-ok b no_system_proxy (wanted_auto (pac url)) w

  -- How the application with a fall back ends.
  pub data Ends (config : MacosProxyConfig) (w : W)
      : Result AnyError ProxyApplyOutcome → W → Type 0 where
    rejected :
        {r : Result AnyError ProxyApplyOutcome} {w' : W} (e : AnyError)
        → validate_proxy_config parsers config ≡ err e
        → r ≡ err e
        → w' ≡ w
        → Ends config w r w'
    configured :
        {r : Result AnyError ProxyApplyOutcome} {w' : W}
        → validate_proxy_config parsers config ≡ ok tt
        → r ≡ ok applied
        → Shows config w'
        → Ends config w r w'
    direct :
        {r : Result AnyError ProxyApplyOutcome} {w' : W} (e : AnyError)
        → validate_proxy_config parsers config ≡ ok tt
        → (apply_with_backend backend config w).0 ≡ err e
        → r ≡ ok direct_fallback
        → Shows disabled w'
        → Ends config w r w'
    no_network :
        {r : Result AnyError ProxyApplyOutcome} {w' : W} (e f : AnyError)
        → validate_proxy_config parsers config ≡ ok tt
        → r ≡ ok direct_fallback
        → (apply_with_backend backend config w).0 ≡ err e
        → (apply_with_backend backend disabled (apply_with_backend backend config w).1).0 ≡ err f
        → is_no_active_network_service e ≡ true
        → is_no_active_network_service f ≡ true
        → Ends config w r w'
    unconfirmed :
        {r : Result AnyError ProxyApplyOutcome} {w' : W} (e f : AnyError)
        → validate_proxy_config parsers config ≡ ok tt
        → r ≡ err (context f)
        → (apply_with_backend backend config w).0 ≡ err e
        → (apply_with_backend backend disabled (apply_with_backend backend config w).1).0 ≡ err f
        → (is_no_active_network_service e && is_no_active_network_service f) ≡ false
        → Ends config w r w'

  compensated-Ends :
      (config : MacosProxyConfig) (w : W) (e : AnyError)
      → validate_proxy_config parsers config ≡ ok tt
      → (apply_with_backend backend config w).0 ≡ err e
      → (r : Result AnyError Unit) (w' : W)
      → (apply_with_backend backend disabled (apply_with_backend backend config w).1).0 ≡ r
      → (r ≡ ok tt → Shows disabled w')
      → Ends config w (compensated e r w').0 (compensated e r w').1
  unfolding compensated
  compensated-Ends config w e v failed (ok u) w' a h = direct e v failed refl (h refl)
  compensated-Ends config w e v failed (err f) w' a h =
      by_both (is_no_active_network_service e && is_no_active_network_service f) refl
    where
      after : Bool → Result AnyError ProxyApplyOutcome × W
      after both = if both then (ok direct_fallback, w') else (err (context f), w')

      by_both :
          (both : Bool)
          → (is_no_active_network_service e && is_no_active_network_service f) ≡ both
          → Ends config w (after both).0 (after both).1
      by_both true g =
          let (g1, g2) =
            (and_iff (is_no_active_network_service e) (is_no_active_network_service f)).0 g in
          no_network e f v refl failed a g1 g2
      by_both false g = unconfirmed e f v refl failed a g

  -- On a backend whose calls do what they say: an application with a fall back of a configuration
  -- that the validation rejects fails with the validation's error and leaves the system as it was.
  -- For a valid configuration, if it returns `applied`, the settings are those of the
  -- configuration; if it returns `direct_fallback`, the application failed, and both proxies are
  -- off or the network service was absent at both attempts; and it fails only if the direct mode
  -- failed too.
  pub apply_proxy_or_direct_with-Ends :
      IsBackend backend system auto
      → (config : MacosProxyConfig) (w : W)
      → Ends config w
          (apply_proxy_or_direct_with parsers (apply_with_backend backend) (some config) w).0
          (apply_proxy_or_direct_with parsers (apply_with_backend backend) (some config) w).1
  unfolding apply_proxy_or_direct_with validated after_apply
  apply_proxy_or_direct_with-Ends b config w = by_valid (validate_proxy_config parsers config) refl
    where
      run : MacosProxyConfig → Action AnyError W Unit
      run = apply_with_backend backend

      by_run :
          (r : Result AnyError Unit)
          → validate_proxy_config parsers config ≡ ok tt
          → (run config w).0 ≡ r
          → Ends config w
              (after_apply run r (run config w).1).0
              (after_apply run r (run config w).1).1
      by_run (ok u) v e = configured v refl (apply_with_backend-Shows b config w e)
      by_run (err x) v e =
          let w1 = (run config w).1 in
          compensated-Ends config w x v e (run disabled w1).0 (run disabled w1).1 refl
            (apply_with_backend-Shows b disabled w1)

      by_valid :
          (r : Result AnyError Unit)
          → validate_proxy_config parsers config ≡ r
          → Ends config w (validated r run config w).0 (validated r run config w).1
      by_valid (ok u) v = by_run (run config w).0 v refl
      by_valid (err x) v = rejected x v refl refl
