-- ===== src/Disk/Steps.antt =====
-- What a step leaves as it was.
use clash_verge_service_ipc.Prelude.{
  ℕ, zero, suc, ◌≡◌, refl, ◌∙◌, Option, none, some, List, [], ◌∷◌, Result, ok, err, Action, pure,
  resume, ◌>>=◌, ap, ◌≢◌,
}
use clash_verge_service_ipc.AnyError.{IoErrorKind, not_found}
use clash_verge_service_ipc.Disk.{
  Disk, Fault, denied, exists, other_fault, Files, Stored, missing, corrupt, content, bytes_of,
  with_context, io_step, after_outcome, steps, read,
}

-- The action changes no file and not the clock, whether it fails or not.
pub record IsQuiet {E A : Type 0} (m : Action E Disk A) : Type 0 where
  pub files_kept : (d : Disk) → (m d).1.files ≡ d.files
  pub now_kept : (d : Disk) → (m d).1.now ≡ d.now

pub io_step-IsQuiet : IsQuiet io_step
unfolding io_step after_outcome
io_step-IsQuiet = record { files_kept = λ d. kept d d.outcomes; now_kept = λ d. clock d d.outcomes }
  where
    kept : (d : Disk) (o : List (Option Fault)) → (after_outcome o d).1.files ≡ d.files
    kept d [] = refl
    kept d (none ∷ o) = refl
    kept d (some k ∷ o) = refl

    clock : (d : Disk) (o : List (Option Fault)) → (after_outcome o d).1.now ≡ d.now
    clock d [] = refl
    clock d (none ∷ o) = refl
    clock d (some k ∷ o) = refl

pub pure-IsQuiet : {E A : Type 0} (a : A) → IsQuiet {E = E} (pure a)
pure-IsQuiet a = record { files_kept = λ d. refl; now_kept = λ d. refl }

module _ {E A B : Type 0} (f : A → Action E Disk B) (quiet : (a : A) → IsQuiet (f a)) where
  resume_files : (r : Result E A) (d : Disk) → (resume r f d).1.files ≡ d.files
  resume_files (ok a) d = (quiet a).files_kept d
  resume_files (err e) d = refl

  resume_now : (r : Result E A) (d : Disk) → (resume r f d).1.now ≡ d.now
  resume_now (ok a) d = (quiet a).now_kept d
  resume_now (err e) d = refl

  pub bind-IsQuiet : (m : Action E Disk A) → IsQuiet m → IsQuiet (m >>= f)
  bind-IsQuiet m q = record {
    files_kept = λ d. resume_files (m d).0 (m d).1 ∙ q.files_kept d;
    now_kept = λ d. resume_now (m d).0 (m d).1 ∙ q.now_kept d;
  }

pub steps-IsQuiet : (n : ℕ) → IsQuiet (steps n)
unfolding steps
steps-IsQuiet zero = pure-IsQuiet tt
steps-IsQuiet (suc n) = bind-IsQuiet (λ _. steps n) (λ _. steps-IsQuiet n) io_step io_step-IsQuiet

pub read-IsQuiet : {A : Type 0} (file : Files → Stored A) → IsQuiet (read file)
unfolding read
read-IsQuiet file =
    bind-IsQuiet _ (λ _. record { files_kept = λ d. refl; now_kept = λ d. refl }) io_step
      io_step-IsQuiet

-- A failing call does not report that its file is absent.
pub io_step-present : (d : Disk) → (io_step d).0 ≢ err not_found
unfolding io_step after_outcome
io_step-present d = present d d.outcomes
  where
    present : (d : Disk) (o : List (Option Fault)) → (after_outcome o d).0 ≢ err not_found
    present d [] = λ h. cc
    present d (none ∷ o) = λ h. cc
    present d (some denied ∷ o) = λ h. cc
    present d (some exists ∷ o) = λ h. cc
    present d (some other_fault ∷ o) = λ h. cc

-- With no failure to come a call succeeds and leaves the disk as it is.
pub io_step-fine : (d : Disk) → d.outcomes ≡ [] → io_step d ≡ (ok tt, d)
unfolding io_step after_outcome
io_step-fine d h = rw (h, after_outcome)

pub steps-fine : (n : ℕ) (d : Disk) → d.outcomes ≡ [] → steps n d ≡ (ok tt, d)
unfolding steps
steps-fine zero d h = refl
steps-fine (suc n) d h = rw (io_step-fine d h) (steps-fine n d h)

pub with_context-IsQuiet :
    {A : Type 0} (m : Action IoErrorKind Disk A) → IsQuiet m → IsQuiet (with_context m)
with_context-IsQuiet m q = record { files_kept = q.files_kept; now_kept = q.now_kept }

-- How a read ends: by what the file holds, unless the call fails.
pub data Reads {A : Type 0} (stored : Stored A) (r : Result IoErrorKind (Option A)) : Type 0 where
  found : (a : A) → stored ≡ content a → r ≡ ok (some a) → Reads stored r
  unparsed : stored ≡ corrupt → r ≡ ok none → Reads stored r
  absent : stored ≡ missing → r ≡ err not_found → Reads stored r
  failed : (k : IoErrorKind) → k ≢ not_found → r ≡ err k → Reads stored r

bytes_of-Reads : {A : Type 0} (stored : Stored A) → Reads stored (bytes_of stored)
unfolding bytes_of
bytes_of-Reads missing = absent refl refl
bytes_of-Reads corrupt = unparsed refl refl
bytes_of-Reads (content a) = found a refl refl

pub read-Reads :
    {A : Type 0} (file : Files → Stored A) (d : Disk) → Reads (file d.files) (read file d).0
unfolding read
read-Reads {A} file d = by_result (io_step d).0 (io_step d).1 refl (io_step-IsQuiet.files_kept d)
  where
    by_result :
        (r : Result IoErrorKind Unit) (d' : Disk)
        → (io_step d).0 ≡ r
        → d'.files ≡ d.files
        → Reads (file d.files) (resume r (λ _ s. (bytes_of (file s.files), s)) d').0
    by_result (ok u) d' h e = rw (ap (λ f. bytes_of (file f)) e) (bytes_of-Reads (file d.files))
    by_result (err k) d' h e = failed k (λ n. io_step-present d (h ∙ ap err n)) refl
