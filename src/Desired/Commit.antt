-- ===== src/Desired/Commit.antt =====
-- What committing a session leaves on the disk.
use clash_verge_service_ipc.Prelude.{
  ℕ, ◌≡◌, refl, ap, ◌⊎◌, inl, inr, Option, none, some, Text, saturating_add, Result, ok, err,
  Action, pure, resume, ◌>>=◌, Result-cases, arith,
}
use mathlib.Core.Path.{subst}
use clash_verge_service_ipc.AnyError.{AnyError, IoErrorKind}
use clash_verge_service_ipc.Structure.{AuthenticatedOwner}
use clash_verge_service_ipc.Session.{hash_session_token}
use clash_verge_service_ipc.Disk.{
  ActiveOwnerState, Stored, missing, corrupt, content, Files, Disk, io_step, write_json_atomic,
  with_context,
}
use clash_verge_service_ipc.Disk.Steps.{
  IsQuiet, io_step-IsQuiet, read-IsQuiet, bind-IsQuiet, with_context-IsQuiet, Reads, found,
  unparsed, absent, failed, read-Reads,
}
use clash_verge_service_ipc.Disk.Write.{
  Ends, written, untouched, unconfirmed, write_json_atomic-Ends,
}
use clash_verge_service_ipc.Desired.{
  u64_max, read_generation, generation_of, place_generation, place_active, put_generation,
  put_active, new_session, commit_hashed, commit_active_owner_session,
}

-- The generation that a file stands for: an absent file for 0, and one that does not parse for
-- none.
abbrev pub readable : Stored ℕ → Option ℕ
readable missing = some 0
readable corrupt = none
readable (content n) = some n

pub read_generation-IsQuiet : IsQuiet read_generation
unfolding read_generation
read_generation-IsQuiet =
    bind-IsQuiet _
      (λ _. record {
        files_kept = (read-IsQuiet (λ files. files.owner_generation)).files_kept;
        now_kept = (read-IsQuiet (λ files. files.owner_generation)).now_kept;
      })
      (with_context io_step) (with_context-IsQuiet io_step io_step-IsQuiet)

generation_of-ok :
    {stored : Stored ℕ} (r : Result IoErrorKind (Option ℕ)) (n : ℕ)
    → Reads stored r
    → generation_of r ≡ ok n
    → readable stored ≡ some n
unfolding generation_of
generation_of-ok r n (found m s e) h = ground (arith)
generation_of-ok r n (unparsed s e) h = cc (e)
generation_of-ok r n (absent s e) h = ground arith
generation_of-ok r n (failed k present e) h = ground (arith, present)

read_generation-ok :
    (d : Disk) (n : ℕ) → (read_generation d).0 ≡ ok n → readable d.files.owner_generation ≡ some n
unfolding read_generation
read_generation-ok d n h = elim (Result-cases (io_step d).0) [
  | inl (u, e) ↦ rw (← ap (λ f. f.owner_generation) (io_step-IsQuiet.files_kept d)) (
      generation_of-ok _ n (read-Reads (λ files. files.owner_generation) (io_step d).1) (rw e at h))
  | inr (k, e) ↦ cc
]

-- How a commit ends, with the generation `n` that was readable before: with the session in place
-- and returned; with an error and nothing changed; with an error and only the generation raised;
-- with an error after the session file was replaced.
pub data Commits (owner : AuthenticatedOwner) (hash : Text) (before : Files)
    : Result AnyError ActiveOwnerState → Files → Type 0 where
  committed :
      {r : Result AnyError ActiveOwnerState} {f : Files} (n : ℕ)
      → readable before.owner_generation ≡ some n
      → r ≡ ok (new_session owner hash (saturating_add u64_max n 1))
      → f
        ≡ put_active
            (new_session owner hash (saturating_add u64_max n 1))
            (put_generation (saturating_add u64_max n 1) before)
      → Commits owner hash before r f
  refused :
      {r : Result AnyError ActiveOwnerState} {f : Files} (e : AnyError)
      → r ≡ err e
      → f ≡ before
      → Commits owner hash before r f
  generation_only :
      {r : Result AnyError ActiveOwnerState} {f : Files} (e : AnyError) (n : ℕ)
      → readable before.owner_generation ≡ some n
      → r ≡ err e
      → f ≡ put_generation (saturating_add u64_max n 1) before
      → Commits owner hash before r f
  session_unconfirmed :
      {r : Result AnyError ActiveOwnerState} {f : Files} (e : AnyError) (n : ℕ)
      → readable before.owner_generation ≡ some n
      → r ≡ err e
      → f
        ≡ put_active
            (new_session owner hash (saturating_add u64_max n 1))
            (put_generation (saturating_add u64_max n 1) before)
      → Commits owner hash before r f

module _ (owner : AuthenticatedOwner) (hash : Text) (before : Files) (n : ℕ)
    (known : readable before.owner_generation ≡ some n) where
  abbrev next : ℕ
  next = saturating_add u64_max n 1

  abbrev session : ActiveOwnerState
  session = new_session owner hash next

  finish : Action AnyError Disk ActiveOwnerState
  finish = pure session

  after_active :
      (r : Result AnyError Unit) (d : Disk)
      → Ends
          (put_generation next before)
          (put_active session (put_generation next before))
          r
          d.files
      → Commits owner hash before (resume r (λ _. finish) d).0 (resume r (λ _. finish) d).1.files
  unfolding finish
  after_active (ok u) d (written e f) = committed n known refl f
  after_active (ok u) d (untouched x e f) = cc (e)
  after_active (ok u) d (unconfirmed x e f) = cc (e)
  after_active (err x) d (written e f) = cc (e)
  after_active (err x) d (untouched y e f) = generation_only x n known refl f
  after_active (err x) d (unconfirmed y e f) = session_unconfirmed x n known refl f

  write_session : Action AnyError Disk ActiveOwnerState
  unfolding finish
  write_session = write_json_atomic place_active session >>= λ _. finish

  after_generation :
      (r : Result AnyError Unit) (d : Disk)
      → Ends before (put_generation next before) r d.files
      → Commits owner hash before
          (resume r (λ _. write_session) d).0
          (resume r (λ _. write_session) d).1.files
  unfolding write_session
  after_generation (ok u) d (written e f) =
      after_active (write_json_atomic place_active session d).0
        (write_json_atomic place_active session d).1
        (subst
          (λ g.
            Ends g (put_active session g) (write_json_atomic place_active session d).0
              (write_json_atomic place_active session d).1.files)
          f (write_json_atomic-Ends place_active session d))
  after_generation (ok u) d (untouched x e f) = cc (e)
  after_generation (ok u) d (unconfirmed x e f) = cc (e)
  after_generation (err x) d (written e f) = cc (e)
  after_generation (err x) d (untouched y e f) = refused x refl f
  after_generation (err x) d (unconfirmed y e f) = generation_only x n known refl f

commit_hashed-Commits :
    (owner : AuthenticatedOwner) (hash : Text) (d : Disk)
    → Commits owner hash d.files (commit_hashed owner hash d).0 (commit_hashed owner hash d).1.files
unfolding commit_hashed write_session
commit_hashed-Commits owner hash d =
    after_read (read_generation d).0 (read_generation d).1 refl
      (read_generation-IsQuiet.files_kept d)
  where
    write_both : ℕ → Action AnyError Disk ActiveOwnerState
    write_both n = write_json_atomic place_generation (saturating_add u64_max n 1) >>= λ _.
        write_json_atomic place_active (new_session owner hash (saturating_add u64_max n 1))
        >>= λ _. pure (new_session owner hash (saturating_add u64_max n 1))

    after_read :
        (r : Result AnyError ℕ) (d' : Disk)
        → (read_generation d).0 ≡ r
        → d'.files ≡ d.files
        → Commits owner hash d.files (resume r write_both d').0 (resume r write_both d').1.files
    after_read (err e) d' h f = refused e refl f
    after_read (ok n) d' h f =
        let level = saturating_add u64_max n 1 in
        after_generation owner hash d.files n (read_generation-ok d n h)
          (write_json_atomic place_generation level d').0
          (write_json_atomic place_generation level d').1
          (subst
            (λ g.
              Ends g (put_generation level g) (write_json_atomic place_generation level d').0
                (write_json_atomic place_generation level d').1.files)
            f (write_json_atomic-Ends place_generation level d'))

-- A commit with a token of the right form ends in one of the four ways, and one with another token
-- is refused before the disk is read.
pub commit_active_owner_session-Commits :
    (digest : Text → Text) (owner : AuthenticatedOwner) (token : Text) (d : Disk)
    → ((hash : Text) × (hash_session_token digest token ≡ ok hash)
        × Commits owner hash d.files
            (commit_active_owner_session digest owner token d).0
            (commit_active_owner_session digest owner token d).1.files)
      ⊎ ((e : AnyError) × (hash_session_token digest token ≡ err e)
          × (commit_active_owner_session digest owner token d ≡ (err e, d)))
unfolding commit_active_owner_session
commit_active_owner_session-Commits digest owner token d =
    by_hash (hash_session_token digest token) refl
  where
    by_hash :
        (r : Result AnyError Text)
        → hash_session_token digest token ≡ r
        → ((hash : Text) × (hash_session_token digest token ≡ ok hash)
            × Commits owner hash d.files
                (resume r (commit_hashed owner) d).0
                (resume r (commit_hashed owner) d).1.files)
          ⊎ ((e : AnyError) × (hash_session_token digest token ≡ err e)
              × (resume r (commit_hashed owner) d ≡ (err e, d)))
    by_hash (ok hash) h = inl (hash, h, commit_hashed-Commits owner hash d)
    by_hash (err e) h = inr (e, h, refl)
