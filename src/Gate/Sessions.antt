-- ===== src/Gate/Sessions.antt =====
-- The session gate against the sessions that were committed.
use clash_verge_service_ipc.Prelude.{
  ◌<◌, ◌≡◌, refl, sym, ◌↔◌, ◌⊎◌, inl, inr, true, false, Option, none, some, List, [], Text,
  text_eq_iff, Result, ok, err, Bool-cases, arith, length,
}
use mathlib.Core.Path.{subst}
use clash_verge_service_ipc.AnyError.{AnyError}
use clash_verge_service_ipc.ServiceError.{stale_owner_session}
use clash_verge_service_ipc.Structure.{AuthenticatedOwner, OwnerSessionProof}
use clash_verge_service_ipc.Session.{is_session_token, hash_session_token, constant_time_eq}
use clash_verge_service_ipc.Prelude.Hex.{to_hex, to_hex-bytes, length-to_hex}
use clash_verge_service_ipc.Session.Comparison.{AreBytes, constant_time_eq_iff}
use clash_verge_service_ipc.Disk.{ActiveOwnerState, Stored, missing, corrupt, content, Disk}
use clash_verge_service_ipc.Desired.{u64_max, load_active_owner, commit_active_owner_session}
use clash_verge_service_ipc.Desired.Owners.{owner_of, load_active_owner-ok}
use clash_verge_service_ipc.Desired.Generations.{
  DiskOp, run_ops, Since, commit-Since, run_ops-Since,
}
use clash_verge_service_ipc.Gate.{differs, hash_check, session_check, require_active_session}

hash_check-ok :
    (owner : AuthenticatedOwner) (proof : OwnerSessionProof) (active found : ActiveOwnerState)
    (r : Result AnyError Text)
    → hash_check owner proof active r ≡ ok found
    → (found ≡ active) × (hash : Text) × (r ≡ ok hash) × (differs owner proof hash active ≡ false)
hash_check-ok owner proof active found (err e) h = cc
hash_check-ok owner proof active found (ok hash) h =
    elim (Bool-cases (differs owner proof hash active)) [
      | inl d ↦ cc (rw d at h)
      | inr d ↦ (cc (rw d at h), hash, refl, d)
    ]

session_check-ok :
    (digest : Text → Text) (owner : AuthenticatedOwner) (proof : OwnerSessionProof)
    (found : ActiveOwnerState) (r : Result AnyError (Option ActiveOwnerState))
    → session_check digest owner proof r ≡ ok found
    → (r ≡ ok (some found))
      × (hash : Text) × (hash_session_token digest proof.token ≡ ok hash)
      × (differs owner proof hash found ≡ false)
session_check-ok digest owner proof found (err e) h = cc
session_check-ok digest owner proof found (ok none) h = cc
session_check-ok digest owner proof found (ok (some active)) h =
    let (same, hash, e, d) =
      hash_check-ok owner proof active found (hash_session_token digest proof.token) h in
    rw same (refl, hash, e, d)

hash_check-cases :
    (owner : AuthenticatedOwner) (proof : OwnerSessionProof) (active : ActiveOwnerState)
    (r : Result AnyError Text)
    → ((found : ActiveOwnerState) × (hash_check owner proof active r ≡ ok found))
      ⊎ (hash_check owner proof active r ≡ err stale_owner_session)
hash_check-cases owner proof active (err e) = inr refl
hash_check-cases owner proof active (ok hash) =
    elim (Bool-cases (differs owner proof hash active)) [
      | inl d ↦ inr (rw d)
      | inr d ↦ inl (active, rw d)
    ]

session_check-cases :
    (digest : Text → Text) (owner : AuthenticatedOwner) (proof : OwnerSessionProof)
    (r : Result AnyError (Option ActiveOwnerState))
    → ((found : ActiveOwnerState) × (session_check digest owner proof r ≡ ok found))
      ⊎ (session_check digest owner proof r ≡ err stale_owner_session)
session_check-cases digest owner proof (err e) = inr refl
session_check-cases digest owner proof (ok none) = inr refl
session_check-cases digest owner proof (ok (some active)) =
    hash_check-cases owner proof active (hash_session_token digest proof.token)

-- The session gate passes a request with the stored session or answers that the session is stale.
pub require_active_session_cases :
    (digest : Text → Text) (owner : AuthenticatedOwner) (proof : OwnerSessionProof) (d : Disk)
    → ((found : ActiveOwnerState) × ((require_active_session digest owner proof d).0 ≡ ok found))
      ⊎ ((require_active_session digest owner proof d).0 ≡ err stale_owner_session)
unfolding require_active_session
require_active_session_cases digest owner proof d =
    session_check-cases digest owner proof (load_active_owner d).0

-- A request that passes the gate proves the generation of the session that is stored.
pub require_active_session-stored :
    (digest : Text → Text) (owner : AuthenticatedOwner) (proof : OwnerSessionProof)
    (found : ActiveOwnerState) (d : Disk)
    → (require_active_session digest owner proof d).0 ≡ ok found
    → (d.files.active_owner ≡ content found)
      × (found.generation ≡ proof.generation)
      × (hash : Text) × (hash_session_token digest proof.token ≡ ok hash)
      × (constant_time_eq found.session_token_hash hash ≡ true)
unfolding require_active_session
require_active_session-stored digest owner proof found d h =
    let (e, hash, hashed, same) =
      session_check-ok digest owner proof found (load_active_owner d).0 h in
    (
      stored d.files.active_owner (load_active_owner-ok d (some found) e).1,
      ground arith,
      hash,
      hashed,
      ground arith,
    )
  where
    stored : (s : Stored ActiveOwnerState) → owner_of s ≡ some found → s ≡ content found
    stored missing e = cc
    stored corrupt e = cc
    stored (content a) e = cc

-- Once a later session is committed, no proof of an earlier session's generation passes the gate
-- again, whatever the token, the owner, the operations in between and after, and the calls that
-- fail: the sessions are committed on disks whose generation file reads as a `u64`, and the first
-- one's generation is not the last of the counter.
pub earlier_session_stale :
    (digest : Text → Text) (first second claimant : AuthenticatedOwner) (token token' : Text)
    (between after : List DiskOp) (d : Disk) (s s' : ActiveOwnerState) (proof : OwnerSessionProof)
    → Since 0 d.files
    → (commit_active_owner_session digest first token d).0 ≡ ok s
    → s.generation < u64_max
    → let d' = run_ops digest between (commit_active_owner_session digest first token d).1 in
      (commit_active_owner_session digest second token' d').0 ≡ ok s'
      → proof.generation ≡ s.generation
      → (require_active_session digest claimant proof
          (run_ops digest after (commit_active_owner_session digest second token' d').1)).0
        ≡ err stale_owner_session
earlier_session_stale digest first second claimant token token' between after d s s' proof since h
      small h' g =
    let one = commit-Since digest first token d s since (omega arith) h in
    let d' = run_ops digest between (commit_active_owner_session digest first token d).1 in
    let two =
      commit-Since digest second token' d' s' (run_ops-Since digest between _ one.1) small h' in
    let later = run_ops digest after (commit_active_owner_session digest second token' d').1 in
    let since' = run_ops-Since digest after _ two.1 in
    elim (require_active_session_cases digest claimant proof later) [
      | inl (found, passed) ↦
          let parts = require_active_session-stored digest claimant proof found later passed in
          absurd (omega (arith, since'.session_since found parts.0))
      | inr stale ↦ stale
    ]

-- What the code relies on of SHA-256: 32 bytes come out.
pub record IsDigest (digest : Text → Text) : Type 0 where
  pub digest_bytes : (s : Text) → AreBytes (digest s)
  pub digest_length : (s : Text) → length (digest s) ≡ 32

module _ (digest : Text → Text) (sha : IsDigest digest) where
  -- A hash is the hexadecimal form of a digest.
  hash_form :
      (token hash : Text)
      → hash_session_token digest token ≡ ok hash
      → (is_session_token token ≡ true) × (hash ≡ to_hex (digest token))
  unfolding hash_session_token
  hash_form token hash h = elim (Bool-cases (is_session_token token)) [
    | inl b ↦ (b, cc (rw b at h))
    | inr b ↦ cc (rw b at h)
  ]

  hash-AreBytes : (token hash : Text) → hash_session_token digest token ≡ ok hash → AreBytes hash
  hash-AreBytes token hash h =
      rw (hash_form token hash h).1 (to_hex-bytes (digest token) (sha.digest_bytes token))

  empty_hash_differs :
      (token hash : Text)
      → hash_session_token digest token ≡ ok hash
      → constant_time_eq [] hash ≡ false
  unfolding constant_time_eq
  empty_hash_differs token hash h =
      rw (hash_form token hash h).1
        (ground (arith, length-to_hex (digest token), sha.digest_length token))

  -- The session gate lets a request pass with the session `found` exactly when the stored session
  -- loads as `found`, it is the owner's, its generation is the proof's, and its hash is the hash
  -- of the proof's token. The stored hash consists of bytes, and the digest is 32 bytes.
  pub require_active_session_iff :
      (owner : AuthenticatedOwner) (proof : OwnerSessionProof) (found : ActiveOwnerState) (d : Disk)
      → AreBytes found.session_token_hash
      → ((require_active_session digest owner proof d).0 ≡ ok found) ↔ (
          ((load_active_owner d).0 ≡ ok (some found))
          × (found.owner_key ≡ owner.key)
          × (found.generation ≡ proof.generation)
          × (hash_session_token digest proof.token ≡ ok found.session_token_hash))
  unfolding require_active_session
  require_active_session_iff owner proof found d bytes =
      (accepted, λ h. rw h.0 (rw h.3 (passes h.1 h.2)))
    where
      same_parts :
          (hash : Text)
          → hash_session_token digest proof.token ≡ ok hash
          → differs owner proof hash found ≡ false
          → (found.owner_key ≡ owner.key)
            × (found.generation ≡ proof.generation)
            × (hash_session_token digest proof.token ≡ ok found.session_token_hash)
      same_parts hash e d = (
        (text_eq_iff found.owner_key owner.key).0 (ground arith),
        ground arith,
        rw
            ((constant_time_eq_iff found.session_token_hash hash bytes
                (hash-AreBytes proof.token hash e)).0
              (ground arith))
            e,
      )

      passes :
          found.owner_key ≡ owner.key
          → found.generation ≡ proof.generation
          → hash_check owner proof found (ok found.session_token_hash) ≡ ok found
      passes k g =
          let same_key = (text_eq_iff found.owner_key owner.key).1 k in
          let same_hash =
            (constant_time_eq_iff found.session_token_hash found.session_token_hash bytes bytes).1
              refl in
          ground arith

      accepted :
          session_check digest owner proof (load_active_owner d).0 ≡ ok found
          → ((load_active_owner d).0 ≡ ok (some found))
            × (found.owner_key ≡ owner.key)
            × (found.generation ≡ proof.generation)
            × (hash_session_token digest proof.token ≡ ok found.session_token_hash)
      accepted h =
          let (e, hash, hashed, same) =
            session_check-ok digest owner proof found (load_active_owner d).0 h in
          let (k, g, s) = same_parts hash hashed same in (e, k, g, s)

  -- A session whose stored hash is empty, as that of a state file without session fields, lets no
  -- proof pass.
  pub legacy_session_rejected :
      (owner : AuthenticatedOwner) (proof : OwnerSessionProof) (found : ActiveOwnerState) (d : Disk)
      → found.session_token_hash ≡ []
      → d.files.active_owner ≡ content found
      → (require_active_session digest owner proof d).0 ≡ err stale_owner_session
  legacy_session_rejected owner proof found d empty stored =
      elim (require_active_session_cases digest owner proof d) [
        | inl (other, h) ↦
            let parts = require_active_session-stored digest owner proof other d h in
            let same : found ≡ other = cc (sym stored, parts.0) in
            let none_set : other.session_token_hash ≡ [] =
              subst (λ a. a.session_token_hash ≡ []) same empty in
            cc (rw none_set at parts.4, empty_hash_differs proof.token parts.2 parts.3)
        | inr h ↦ h
      ]

-- A request that passes the gate comes from the owner of the stored session.
pub require_active_session-owner :
    (digest : Text → Text) (owner : AuthenticatedOwner) (proof : OwnerSessionProof)
    (found : ActiveOwnerState) (d : Disk)
    → (require_active_session digest owner proof d).0 ≡ ok found
    → found.owner_key ≡ owner.key
unfolding require_active_session
require_active_session-owner digest owner proof found d h =
    let (e, hash, hashed, same) =
      session_check-ok digest owner proof found (load_active_owner d).0 h in
    (text_eq_iff found.owner_key owner.key).0 (ground arith)
