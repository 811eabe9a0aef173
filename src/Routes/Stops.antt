-- ===== src/Routes/Stops.antt =====
-- What a stop that succeeds leaves (src/core/server.rs, `StopClash`).
use clash_verge_service_ipc.Prelude.{
  After, After-ok, After-resume, ℕ, ◌≡◌, refl, sym, Bool, true, false, if◌then◌else◌, Result, ok,
  err, map_err, inspect,
}
use mathlib.Core.Path.{subst}
use clash_verge_service_ipc.AnyError.{AnyError}
use clash_verge_service_ipc.ServiceError.{ServiceError}
use clash_verge_service_ipc.Structure.{AuthenticatedOwner, disabled}
use clash_verge_service_ipc.Proxy.{clear_proxy, apply_proxy}
use clash_verge_service_ipc.Disk.{DesiredState, missing}
use clash_verge_service_ipc.Desired.{persist_owner_core_stopped, clear_active_owner}
use clash_verge_service_ipc.Desired.Owners.{clear_active_owner-missing}
use clash_verge_service_ipc.Manager.{CoreWorld, stop_core}
use clash_verge_service_ipc.Manager.Held.{Holds}
use clash_verge_service_ipc.Manager.Stop.{Stopped, stop_core-Stopped}
use clash_verge_service_ipc.Transition.{
  ServiceWorld, on_core, on_disk, on_settings, after_service_clear, clear_service_proxy,
  compensate_service_proxy, clear_proxy_with_direct_compensation,
}
use clash_verge_service_ipc.Routes.{
  Service, HttpResponse, service_error, service_unavailable, or_respond, fatal_unless, ok_empty,
  stop_clash,
}

module _ {P : Type 0} (service : Service P) (core : CoreWorld) where
  abbrev HasCore : ServiceWorld P → Type 0
  HasCore w = w.core ≡ core

  abbrev clears : Bool → ServiceWorld P → Result AnyError Unit × ServiceWorld P
  clears live w =
      if live then on_settings (clear_proxy service.parsers service.backend) w else (ok tt, w)

  abbrev compensates : Bool → ServiceWorld P → Result AnyError Unit × ServiceWorld P
  compensates live w =
      if live
      then on_settings (apply_proxy service.parsers service.backend disabled) w
      else (ok tt, w)

  cleared-HasCore : (live : Bool) (w : ServiceWorld P) → HasCore w → HasCore (clears live w).1
  cleared-HasCore true w e = e
  cleared-HasCore false w e = e

  compensated-HasCore :
      (live : Bool) (w : ServiceWorld P) → HasCore w → HasCore (compensates live w).1
  compensated-HasCore true w e = e
  compensated-HasCore false w e = e

  -- The proxy is the system's, not the core's.
  proxy-HasCore :
      (w : ServiceWorld P)
      → HasCore w
      → HasCore
          (clear_proxy_with_direct_compensation service.live service.parsers service.backend w).1
  unfolding clear_proxy_with_direct_compensation clear_service_proxy compensate_service_proxy
      after_service_clear
  proxy-HasCore w e =
      by_result (clears service.live w).0 (clears service.live w).1
        (cleared-HasCore service.live w e)
    where
      by_result :
          (r : Result AnyError Unit) (v : ServiceWorld P)
          → HasCore v
          → HasCore (after_service_clear service.live service.parsers service.backend r v).1
      by_result (ok u) v e = e
      by_result (err x) v e = compensated-HasCore service.live v e

module _ {P : Type 0} (service : Service P) (owner : AuthenticatedOwner) (p : ℕ) where
  abbrev pub Anything : ServiceWorld P → Type 0
  Anything w = Unit

  abbrev CoreStopped : ServiceWorld P → Type 0
  CoreStopped w = Stopped p w.core

  -- The core does not run, and no owner is active.
  abbrev AllStopped : HttpResponse → ServiceWorld P → Type 0
  AllStopped response w = Stopped p w.core × (w.disk.files.active_owner ≡ missing)

  stop-After :
      (w : ServiceWorld P)
      → Holds p w.core
      → After
          (λ _. CoreStopped)
          Anything
          (or_respond service {E = AnyError} {A = Unit}
            (λ e. service_unavailable)
            (on_core stop_core)
            w).0
          (or_respond service {E = AnyError} {A = Unit}
            (λ e. service_unavailable)
            (on_core stop_core)
            w).1
  stop-After w h = by_result (stop_core w.core).0 refl
    where
      by_result :
          (r : Result AnyError Unit)
          → (stop_core w.core).0 ≡ r
          → After
              (λ _. CoreStopped)
              Anything
              (map_err (λ e. service_unavailable) r)
              (record w { core = (stop_core w.core).1 })
      by_result (ok u) e = stop_core-Stopped p w.core h e
      by_result (err x) e = tt

  persist-After :
      (w : ServiceWorld P)
      → CoreStopped w
      → After
          (λ _. CoreStopped)
          Anything
          (inspect (on_disk (persist_owner_core_stopped owner)) (fatal_unless service) w).0
          (inspect (on_disk (persist_owner_core_stopped owner)) (fatal_unless service) w).1
  persist-After w stopped = by_result (persist_owner_core_stopped owner w.disk).0
    where
      w' : ServiceWorld P
      w' = record w { disk = (persist_owner_core_stopped owner w.disk).1 }

      by_result :
          (r : Result AnyError DesiredState)
          → After
              (λ _. CoreStopped)
              Anything
              (fatal_unless service r w').0
              (fatal_unless service r w').1
      by_result (ok u) = stopped
      by_result (err x) = tt

  forget-After :
      (w : ServiceWorld P)
      → CoreStopped w
      → After
          (λ _. AllStopped ok_empty)
          Anything
          (inspect (on_disk clear_active_owner) (fatal_unless service) w).0
          (inspect (on_disk clear_active_owner) (fatal_unless service) w).1
  forget-After w stopped = by_result (clear_active_owner w.disk).0 refl
    where
      w' : ServiceWorld P
      w' = record w { disk = (clear_active_owner w.disk).1 }

      by_result :
          (r : Result AnyError Unit)
          → (clear_active_owner w.disk).0 ≡ r
          → After
              (λ _. AllStopped ok_empty)
              Anything
              (fatal_unless service r w').0
              (fatal_unless service r w').1
      by_result (ok u) e = (stopped, clear_active_owner-missing w.disk e)
      by_result (err x) e = tt

-- If the manager holds the core whenever it runs, and a failed child is held only once the watchdog
-- has returned or is absent, then a stop that is answered with a success leaves no core process and
-- an empty manager, and the disk names no active owner.
pub stop_clash-Stopped :
    {P : Type 0} (service : Service P) (owner : AuthenticatedOwner) (p : ℕ) (w : ServiceWorld P)
    (response : HttpResponse)
    → Holds p w.core
    → (stop_clash service owner w).0 ≡ ok response
    → Stopped p (stop_clash service owner w).1.core
      × ((stop_clash service owner w).1.disk.files.active_owner ≡ missing)
unfolding stop_clash
stop_clash-Stopped {P = P} service owner p w response h =
    After-ok (AllStopped service owner p) (Anything service owner p) (stop_clash service owner w).0
      (stop_clash service owner w).1 response
      (After-resume (λ _ v. v.core ≡ w.core) (AllStopped service owner p) (Anything service owner p)
        (map_err service_error (proxied w).0) _ (proxied w).1
        (by_proxy (proxied w).0 (proxied w).1 (proxy-HasCore service w.core w refl))
        λ _ v same.
          After-resume (λ _. CoreStopped service owner p) (AllStopped service owner p)
            (Anything service owner p) (stopping v).0 _ (stopping v).1
            (stop-After service owner p v (subst (Holds p) (sym same) h))
            λ _ u stopped.
              After-resume (λ _. CoreStopped service owner p) (AllStopped service owner p)
                (Anything service owner p) (persisting u).0 _ (persisting u).1
                (persist-After service owner p u stopped)
                λ _ t still.
                  After-resume (λ _. AllStopped service owner p ok_empty)
                    (AllStopped service owner p) (Anything service owner p) (forgetting t).0 _
                    (forgetting t).1 (forget-After service owner p t still) λ _ s done. done)
  where
    proxied : ServiceWorld P → Result ServiceError Unit × ServiceWorld P
    proxied = clear_proxy_with_direct_compensation service.live service.parsers service.backend

    stopping : ServiceWorld P → Result HttpResponse Unit × ServiceWorld P
    stopping =
        or_respond service {E = AnyError} {A = Unit} (λ e. service_unavailable) (on_core stop_core)

    persisting : ServiceWorld P → Result HttpResponse Unit × ServiceWorld P
    persisting = inspect (on_disk (persist_owner_core_stopped owner)) (fatal_unless service)

    forgetting : ServiceWorld P → Result HttpResponse Unit × ServiceWorld P
    forgetting = inspect (on_disk clear_active_owner) (fatal_unless service)

    by_proxy :
        (r : Result ServiceError Unit) (v : ServiceWorld P)
        → v.core ≡ w.core
        → After (λ _ v. v.core ≡ w.core) (Anything service owner p) (map_err service_error r) v
    by_proxy (ok u) v e = e
    by_proxy (err x) v e = tt
