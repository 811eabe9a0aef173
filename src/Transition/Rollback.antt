-- ===== src/Transition/Rollback.antt =====
-- What the rollback of a start leaves (src/core/server.rs, `rollback_started_owner`).
use clash_verge_service_ipc.Prelude.{ℕ, ◌≡◌, refl, sym, ◌∙◌, ap, Result, ok, err}
use mathlib.Core.Path.{subst}
use clash_verge_service_ipc.AnyError.{AnyError}
use clash_verge_service_ipc.Structure.{AuthenticatedOwner}
use clash_verge_service_ipc.Disk.{DesiredState, missing}
use clash_verge_service_ipc.Desired.Owners.{clear_active_owner-missing}
use clash_verge_service_ipc.Desired.{clear_active_owner, persist_owner_core_stopped}
use clash_verge_service_ipc.Manager.{stop_core}
use clash_verge_service_ipc.Manager.Held.{Holds}
use clash_verge_service_ipc.Manager.Stop.{Stopped, stop_core-Stopped}
use clash_verge_service_ipc.Transition.{
  ServiceWorld, both_results, after_rollback_stop, rollback_started_owner,
}

module _ {P : Type 0} (owner : AuthenticatedOwner) where
  by_results :
      (r : Result AnyError DesiredState) (s : Result AnyError Unit) (w : ServiceWorld P)
      → (both_results r s w).0 ≡ ok tt
      → (s ≡ ok tt) × ((both_results r s w).1 ≡ w)
  unfolding both_results
  by_results (ok a) (ok u) w e = (refl, refl)
  by_results (err x) (ok u) w e = cc (e)
  by_results (ok a) (err y) w e = cc (e)
  by_results (err x) (err y) w e = cc (e)

  after_stop :
      (r : Result AnyError Unit) (w : ServiceWorld P)
      → (after_rollback_stop owner r w).0 ≡ ok tt
      → (r ≡ ok tt)
        × ((after_rollback_stop owner r w).1.disk.files.active_owner ≡ missing)
        × ((after_rollback_stop owner r w).1.core ≡ w.core)
  unfolding after_rollback_stop
  after_stop (err x) w e = cc (e)
  after_stop (ok u) w e =
      let (r, d) = persist_owner_core_stopped owner w.disk in
      let (s, d2) = clear_active_owner d in
      let w2 : ServiceWorld P = record w { disk = d2 } in
      let (cleared_ok, same) = by_results r s w2 e in
      (
        refl,
        ap (λ v. v.disk.files.active_owner) same ∙ clear_active_owner-missing d cleared_ok,
        ap (λ v. v.core) same,
      )

  -- If the manager holds the core whenever it runs, a failed child is held only once the watchdog
  -- has returned or is absent, and the rollback returns a success, then the
  -- core does not run any more, the manager is empty, and the disk names no active owner.
  pub rollback_started_owner-Stopped :
      (p : ℕ) (w : ServiceWorld P)
      → Holds p w.core
      → (rollback_started_owner owner w).0 ≡ ok tt
      → Stopped p (rollback_started_owner owner w).1.core
        × ((rollback_started_owner owner w).1.disk.files.active_owner ≡ missing)
  unfolding rollback_started_owner
  rollback_started_owner-Stopped p w h e =
      let (r, c) = stop_core w.core in
      let (stopped, gone, core) = after_stop r (record w { core = c }) e in
      (subst (Stopped p) (sym core) (stop_core-Stopped p w.core h stopped), gone)
