-- ===== src/Transition/Owner.antt =====
-- What a start of an owner's core leaves on the disk (src/core/server.rs,
-- `StartOwnerTransition`).
use clash_verge_service_ipc.Prelude.{
  ◌≡◌, refl, sym, ◌∙◌, ap, inl, inr, Bool, true, false, saturating_add, Option, none, some, Text,
  Result, ok, err,
}
use mathlib.Core.Path.{subst}
use clash_verge_service_ipc.AnyError.{AnyError}
use clash_verge_service_ipc.Structure.{AuthenticatedOwner, MacosProxyConfig, ProxyApplyOutcome}
use clash_verge_service_ipc.Session.{hash_session_token}
use clash_verge_service_ipc.Disk.{ActiveOwnerState, DesiredState, content, Files, Disk}
use clash_verge_service_ipc.Desired.{
  u64_max, new_session, persist_owner_core_started, commit_active_owner_session,
}
use clash_verge_service_ipc.Desired.Commit.{
  Commits, committed, refused, generation_only, session_unconfirmed,
  commit_active_owner_session-Commits,
}
use clash_verge_service_ipc.Proxy.{Parsers, ProxyBackend}
use clash_verge_service_ipc.Transition.{
  PreparedRuntime, ServiceWorld, after_session, after_started, commit_prepared, commit_new_owner,
  rollback_commit_failure, apply_service_proxy_or_direct, StartRequest, start_owner_transition,
  owner_proxy_transition,
}
use clash_verge_service_ipc.Transition.Order
use clash_verge_service_ipc.Transition.Order.{started, owner_proxy_transition-Ends, Ends-completed}

-- The disk names `active` as the active owner, for this owner and this token.
pub record IsActive (digest : Text → Text) (owner : AuthenticatedOwner) (token : Text)
    (active : ActiveOwnerState) (files : Files) : Type 0 where
  pub on_disk_now : files.active_owner ≡ content active
  pub same_key : active.owner_key ≡ owner.key
  pub same_hash : hash_session_token digest token ≡ ok active.session_token_hash

Commits-IsActive :
    {digest : Text → Text} {owner : AuthenticatedOwner} {token hash : Text} {before after : Files}
    {r : Result AnyError ActiveOwnerState} (active : ActiveOwnerState)
    → hash_session_token digest token ≡ ok hash
    → Commits owner hash before r after
    → r ≡ ok active
    → IsActive digest owner token active after
Commits-IsActive {owner = owner} {hash = hash} active h (committed n k e f) g =
    let same : new_session owner hash (saturating_add u64_max n 1) ≡ active = cc (e, g) in
    record {
      on_disk_now = ap (λ f. f.active_owner) f ∙ ap content same;
      same_key = sym (ap (λ a. a.owner_key) same);
      same_hash = h ∙ ap (λ a. ok a.session_token_hash) same;
    }
Commits-IsActive active h (refused x e f) g = cc (e, g)
Commits-IsActive active h (generation_only x n k e f) g = cc (e, g)
Commits-IsActive active h (session_unconfirmed x n k e f) g = cc (e, g)

commit_active_owner_session-IsActive :
    (digest : Text → Text) (owner : AuthenticatedOwner) (token : Text) (d : Disk)
    (active : ActiveOwnerState)
    → (commit_active_owner_session digest owner token d).0 ≡ ok active
    → IsActive digest owner token active (commit_active_owner_session digest owner token d).1.files
commit_active_owner_session-IsActive digest owner token d active e =
    elim (commit_active_owner_session-Commits digest owner token d) [
      | inl (hash, h, c) ↦ Commits-IsActive active h c e
      | inr (x, h, f) ↦ cc
    ]

module _ {P : Type 0} (digest : Text → Text) (owner : AuthenticatedOwner) (token : Text) where
  rollback-err :
      (error : AnyError) (w : ServiceWorld P) (active : ActiveOwnerState) {A : Type 0}
      → (rollback_commit_failure owner error w).0 ≡ ok active
      → A
  unfolding rollback_commit_failure
  rollback-err error w active e = cc (e)

  after_session-IsActive :
      (active : ActiveOwnerState) (r : Result AnyError ActiveOwnerState) (w : ServiceWorld P)
      → (r ≡ ok active → IsActive digest owner token active w.disk.files)
      → (after_session owner r w).0 ≡ ok active
      → IsActive digest owner token active (after_session owner r w).1.disk.files
  unfolding after_session
  after_session-IsActive active (ok a) w h e = h e
  after_session-IsActive active (err x) w h e = rollback-err x w active e

  after_started-IsActive :
      (active : ActiveOwnerState) (r : Result AnyError DesiredState) (w : ServiceWorld P)
      → (after_started digest owner token r w).0 ≡ ok active
      → IsActive digest owner token active (after_started digest owner token r w).1.disk.files
  unfolding after_started
  after_started-IsActive active (ok u) w e =
      let (r, d) = commit_active_owner_session digest owner token w.disk in
      after_session-IsActive active r (record w { disk = d })
        (commit_active_owner_session-IsActive digest owner token w.disk active) e
  after_started-IsActive active (err x) w e = rollback-err x w active e

  commit_prepared-IsActive :
      (active : ActiveOwnerState) (prepared : Option PreparedRuntime) (w : ServiceWorld P)
      → (commit_prepared digest owner token prepared w).0 ≡ ok active
      → IsActive digest owner token active
          (commit_prepared digest owner token prepared w).1.disk.files
  unfolding commit_prepared
  commit_prepared-IsActive active none w e = cc (e)
  commit_prepared-IsActive active (some p) w e =
      let (r, d) = persist_owner_core_started owner p.clash_config w.disk in
      after_started-IsActive active r (record w { disk = d }) e

  commit_new_owner-IsActive :
      (w : ServiceWorld P) (active : ActiveOwnerState)
      → (commit_new_owner digest owner token w).0 ≡ ok active
      → IsActive digest owner token active (commit_new_owner digest owner token w).1.disk.files
  unfolding commit_new_owner
  commit_new_owner-IsActive w active = commit_prepared-IsActive active w.prepared_runtime w

-- The application of the proxy does not touch the disk.
apply_service_proxy_or_direct-disk :
    {P : Type 0} (live : Bool) (parsers : Parsers) (backend : ProxyBackend P)
    (config : Option MacosProxyConfig) (w : ServiceWorld P)
    → (apply_service_proxy_or_direct live parsers backend config w).1.disk ≡ w.disk
unfolding apply_service_proxy_or_direct
apply_service_proxy_or_direct-disk true parsers backend config w = refl
apply_service_proxy_or_direct-disk false parsers backend config w = refl

-- If the change to a new owner succeeds, the disk names the returned session as the active one: it
-- carries the owner's key and the hash of the token that the client proposed.
pub start_owner_transition-IsActive :
    {P : Type 0} (digest : Text → Text) (live : Bool) (parsers : Parsers) (backend : ProxyBackend P)
    (request : StartRequest) (w : ServiceWorld P) (active : ActiveOwnerState)
    (outcome : ProxyApplyOutcome)
    → (owner_proxy_transition (start_owner_transition digest live parsers backend request) w).0
      ≡ ok (active, outcome)
    → IsActive digest request.owner request.proposed_session_token active
        (owner_proxy_transition
          (start_owner_transition digest live parsers backend request)
          w).1.disk.files
unfolding start_owner_transition
start_owner_transition-IsActive digest live parsers backend request w active outcome e =
    let t = start_owner_transition digest live parsers backend request in
    let (c, same) = Ends-completed t w (owner_proxy_transition-Ends t w) active outcome e in
    let kept =
      apply_service_proxy_or_direct-disk live parsers backend request.macos_proxy
        (Order.committed t w) in
    subst (λ d. IsActive digest request.owner request.proposed_session_token active d.files)
      (sym (ap (λ v. v.disk) same ∙ kept))
      (commit_new_owner-IsActive digest request.owner request.proposed_session_token (started t w)
        active c)
