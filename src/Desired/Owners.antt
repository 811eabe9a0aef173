-- ===== src/Desired/Owners.antt =====
-- The files of one owner and the others, and the load of the active owner (src/core/desired.rs).
use clash_verge_service_ipc.Prelude.{
  ℕ, ◌≡◌, refl, sym, ◌∙◌, ap, ◌≢◌, inl, inr, false, Option, none, some, Text, text_eq, Result, ok,
  err, resume, Result-cases, arith,
}
use mathlib.Core.Path.{subst}
use clash_verge_service_ipc.AnyError.{
  AnyError, IoErrorKind, not_found, would_block, permission_denied, already_exists, other_kind,
}
use clash_verge_service_ipc.Disk.{
  DesiredState, ActiveOwnerState, Stored, missing, corrupt, content, Files, Disk, io_step,
  write_json_atomic, with_context,
}
use clash_verge_service_ipc.Disk.Steps.{
  IsQuiet, io_step-present, io_step-IsQuiet, read-IsQuiet, bind-IsQuiet, with_context-IsQuiet,
  Reads, found, unparsed, absent, failed, read-Reads,
}
use clash_verge_service_ipc.Disk.Write.{written, untouched, unconfirmed, write_json_atomic-Ends}
use clash_verge_service_ipc.Desired.{
  cleared, without_owner, removed, remove_active_owner, clear_active_owner, load_active_owner,
  active_of, put_desired, quarantine_corrupt_owner_desired_state, parsed_or_default,
  secured_or_default, read_owner_desired_state_resilient, update_owner_desired_state, stamped,
}

pub load_active_owner-IsQuiet : IsQuiet load_active_owner
unfolding load_active_owner
load_active_owner-IsQuiet =
    bind-IsQuiet _
      (λ _. record {
        files_kept = (read-IsQuiet (λ files. files.active_owner)).files_kept;
        now_kept = (read-IsQuiet (λ files. files.active_owner)).now_kept;
      })
      (with_context io_step) (with_context-IsQuiet io_step io_step-IsQuiet)

-- What the active-owner file stands for, if it parses.
abbrev pub owner_of : Stored ActiveOwnerState → Option ActiveOwnerState
owner_of missing = none
owner_of corrupt = none
owner_of (content active) = some active

active_of-ok :
    {stored : Stored ActiveOwnerState} (r : Result IoErrorKind (Option ActiveOwnerState))
    (o : Option ActiveOwnerState)
    → Reads stored r
    → active_of r ≡ ok o
    → (stored ≢ corrupt) × (owner_of stored ≡ o)
unfolding active_of
active_of-ok r o (found m s e) h = (λ c. cc, ground arith)
active_of-ok r o (unparsed s e) h = cc
active_of-ok r o (absent s e) h = (λ c. cc, ground arith)
active_of-ok r o (failed k present e) h = ground (arith, present)

-- A load that succeeds gives what the file stands for, and then the file parses or is absent.
pub load_active_owner-ok :
    (d : Disk) (o : Option ActiveOwnerState)
    → (load_active_owner d).0 ≡ ok o
    → (d.files.active_owner ≢ corrupt) × (owner_of d.files.active_owner ≡ o)
unfolding load_active_owner
load_active_owner-ok d o h = elim (Result-cases (io_step d).0) [
  | inl (u, e) ↦
      subst (λ s. (s ≢ corrupt) × (owner_of s ≡ o))
        (ap (λ f. f.active_owner) (io_step-IsQuiet.files_kept d))
        (active_of-ok _ o (read-Reads (λ files. files.active_owner) (io_step d).1) (rw e at h))
  | inr (k, e) ↦ cc
]

-- The only files that an owner's update touches are that owner's.
pub record Apart (key : Text) (before after : Files) : Type 0 where
  pub same_active : after.active_owner ≡ before.active_owner
  pub same_generation : after.owner_generation ≡ before.owner_generation
  pub same_others : (j : Text) → text_eq key j ≡ false → after.desired j ≡ before.desired j

Apart-refl : (key : Text) (f g : Files) → g ≡ f → Apart key f g
Apart-refl key f g e = record {
  same_active = ap (λ x. x.active_owner) e;
  same_generation = ap (λ x. x.owner_generation) e;
  same_others = λ j _. ap (λ x. x.desired j) e;
}

Apart-trans : {key : Text} {f g h : Files} → Apart key f g → Apart key g h → Apart key f h
Apart-trans p q = record {
  same_active = q.same_active ∙ p.same_active;
  same_generation = q.same_generation ∙ p.same_generation;
  same_others = λ j n. q.same_others j n ∙ p.same_others j n;
}

put_desired-Apart :
    (key : Text) (s : Stored DesiredState) (f : Files) → Apart key f (put_desired key s f)
put_desired-Apart key s f = record {
  same_active = refl;
  same_generation = refl;
  same_others = λ j n. rw n;
}

quarantine-Apart :
    (key : Text) (d : Disk)
    → Apart key d.files (quarantine_corrupt_owner_desired_state key d).1.files
unfolding quarantine_corrupt_owner_desired_state
quarantine-Apart key d = by_result (io_step d).0
  where
    by_result :
        (r : Result IoErrorKind Unit)
        → Apart key d.files
            (resume {E = IoErrorKind} r
              (λ _ s. (ok tt, record s { files = put_desired key missing s.files }))
              (io_step d).1).1.files
    by_result (ok u) =
        Apart-trans (Apart-refl key d.files _ (io_step-IsQuiet.files_kept d))
          (put_desired-Apart key missing _)
    by_result (err e) = Apart-refl key d.files _ (io_step-IsQuiet.files_kept d)

parsed-Apart :
    (key : Text) (r : Result IoErrorKind (Option DesiredState)) (d : Disk)
    → Apart key d.files (parsed_or_default key r d).1.files
unfolding parsed_or_default
parsed-Apart key (ok (some s)) d = Apart-refl key d.files d.files refl
parsed-Apart key (ok none) d = quarantine-Apart key d
parsed-Apart key (err k) d = Apart-refl key d.files d.files refl

secured-Apart :
    (key : Text) (r : Result IoErrorKind Unit) (d : Disk)
    → Apart key d.files (secured_or_default key r d).1.files
unfolding secured_or_default
secured-Apart key (err k) d = Apart-refl key d.files d.files refl
secured-Apart key (ok u) d =
    Apart-trans
      (Apart-refl key d.files _ ((read-IsQuiet (λ files. files.desired key)).files_kept d))
      (parsed-Apart key _ _)

pub read_resilient-Apart :
    (key : Text) (d : Disk) → Apart key d.files (read_owner_desired_state_resilient key d).1.files
unfolding read_owner_desired_state_resilient
read_resilient-Apart key d =
    Apart-trans (Apart-refl key d.files _ (io_step-IsQuiet.files_kept d)) (secured-Apart key _ _)

parsed_total :
    (key : Text) (r : Result IoErrorKind (Option DesiredState)) (d : Disk)
    → (s : DesiredState) × ((parsed_or_default key r d).0 ≡ ok s)
unfolding parsed_or_default
parsed_total key (ok (some s)) d = (s, refl)
parsed_total key (ok none) d = (_, refl)
parsed_total key (err k) d = (_, refl)

secured_total :
    (key : Text) (r : Result IoErrorKind Unit) (d : Disk)
    → (s : DesiredState) × ((secured_or_default key r d).0 ≡ ok s)
unfolding secured_or_default
secured_total key (err k) d = (_, refl)
secured_total key (ok u) d = parsed_total key _ _

pub read_resilient_total :
    (key : Text) (d : Disk)
    → (s : DesiredState) × ((read_owner_desired_state_resilient key d).0 ≡ ok s)
unfolding read_owner_desired_state_resilient
read_resilient_total key d = secured_total key _ _

write-Apart :
    (key : Text) (s : DesiredState) (d : Disk)
    → Apart key d.files (write_json_atomic (put_desired key) s d).1.files
write-Apart key s d = elim (write_json_atomic-Ends (put_desired key) s d) [
  | written e f ↦ at_put f
  | untouched x e f ↦ Apart-refl key d.files _ f
  | unconfirmed x e f ↦ at_put f
]
  where
    at_put : {g : Files} → g ≡ put_desired key (content s) d.files → Apart key d.files g
    at_put f = subst (λ g. Apart key d.files g) (sym f) (put_desired-Apart key (content s) d.files)

-- An update of one owner's desired state succeeds whatever the disk does, returns the state that
-- was read with the update and the stamp applied, and touches neither another owner's desired
-- state, nor the active owner, nor the generation.
pub update_owner_desired_state-Apart :
    (key : Text) (update : DesiredState → DesiredState) (d : Disk)
    → ((before : DesiredState) × (now : ℕ) × ((read_owner_desired_state_resilient key d).0
          ≡ ok before)
        × ((update_owner_desired_state key update d).0 ≡ ok (stamped now (update before))))
      × Apart key d.files (update_owner_desired_state key update d).1.files
unfolding update_owner_desired_state
update_owner_desired_state-Apart key update d =
    let (before, e) = read_resilient_total key d in
    (
      (before, (read_owner_desired_state_resilient key d).1.now, e, rw e),
      rw e (Apart-trans (read_resilient-Apart key d) (write-Apart key _ _)),
    )

-- How a removal of the active owner ends, by what the file held before.
pub data Clears (before : Files) : Result AnyError Unit → Files → Type 0 where
  emptied :
      {r : Result AnyError Unit} {f : Files}
      → r ≡ ok tt
      → f ≡ without_owner before
      → Clears before r f
  absent_already :
      {r : Result AnyError Unit} {f : Files}
      → before.active_owner ≡ missing
      → r ≡ ok tt
      → f ≡ before
      → Clears before r f
  kept :
      {r : Result AnyError Unit} {f : Files} (e : AnyError)
      → r ≡ err e
      → f ≡ before
      → Clears before r f

-- Once the call goes through, the file decides.
removed-Clears :
    (before : Files) (stored : Stored ActiveOwnerState) (d : Disk)
    → d.files ≡ before
    → before.active_owner ≡ stored
    → Clears before
        (cleared (removed stored d).0 (removed stored d).1).0
        (cleared (removed stored d).0 (removed stored d).1).1.files
unfolding cleared removed
removed-Clears before missing d e h = absent_already h refl e
removed-Clears before corrupt d e h = emptied refl (ap without_owner e)
removed-Clears before (content a) d e h = emptied refl (ap without_owner e)

pub clear_active_owner-Clears :
    (d : Disk) → Clears d.files (clear_active_owner d).0 (clear_active_owner d).1.files
unfolding clear_active_owner remove_active_owner cleared
clear_active_owner-Clears d =
    by_step (io_step d).0 (io_step d).1 refl (io_step-IsQuiet.files_kept d)
  where
    rest : Result IoErrorKind Unit → Disk → Result IoErrorKind Unit × Disk
    rest r d' = resume r (λ _ s. removed s.files.active_owner s) d'

    by_step :
        (r : Result IoErrorKind Unit) (d' : Disk)
        → (io_step d).0 ≡ r
        → d'.files ≡ d.files
        → Clears d.files
            (cleared (rest r d').0 (rest r d').1).0
            (cleared (rest r d').0 (rest r d').1).1.files
    by_step (ok u) d' e f =
        removed-Clears d.files d'.files.active_owner d' f (sym (ap (λ x. x.active_owner) f))
    by_step (err not_found) d' e f = elim (io_step-present d e) [ ]
    by_step (err would_block) d' e f = kept _ refl f
    by_step (err permission_denied) d' e f = kept _ refl f
    by_step (err already_exists) d' e f = kept _ refl f
    by_step (err other_kind) d' e f = kept _ refl f

-- A removal that succeeds leaves no active owner on the disk.
pub clear_active_owner-missing :
    (d : Disk)
    → (clear_active_owner d).0 ≡ ok tt
    → (clear_active_owner d).1.files.active_owner ≡ missing
clear_active_owner-missing d h = elim (clear_active_owner-Clears d) [
  | emptied e f ↦ ap (λ x. x.active_owner) f
  | absent_already b e f ↦ ap (λ x. x.active_owner) f ∙ b
  | kept x e f ↦ cc (e, h)
]
