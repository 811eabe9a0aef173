-- ===== src/Disk/Calls.antt =====
-- The calls of an atomic write, one after another, and how the write ends.
use clash_verge_service_ipc.Prelude.{
  ℕ, zero, suc, ◌+◌, ◌≡◌, refl, sym, ◌∙◌, ap, Option, none, some, List, [], ◌∷◌, Result, ok, err,
  Action, resume, ◌>>◌, arith,
}
use mathlib.Core.Path.{subst}
use clash_verge_service_ipc.AnyError.{IoErrorKind}
use clash_verge_service_ipc.Disk.{
  Disk, Fault, Files, Temporary, io_step, after_outcome, steps, on_temporary,
}
use clash_verge_service_ipc.Disk.Steps.{IsQuiet, bind-IsQuiet, io_step-IsQuiet}

-- The next `n` calls succeed.
abbrev pub Passes : ℕ → List (Option Fault) → Type 0
Passes n [] = Unit
Passes zero (o ∷ later) = Unit
Passes (suc n) (none ∷ later) = Passes n later
Passes (suc n) (some fault ∷ later) = ⊥

-- The result and the files of a write, with the content before and the content that is written, the
-- number of the calls up to the replacement, and the outcomes of the calls to come.
pub data Writes {E : Type 0} (calls : ℕ) (outcomes : List (Option Fault)) (before after : Files)
    : Result E Unit → Files → Type 0 where
  written :
      {r : Result E Unit} {f : Files}
      → Passes (suc calls) outcomes
      → r ≡ ok tt
      → f ≡ after
      → Writes calls outcomes before after r f
  untouched :
      {r : Result E Unit} {f : Files} (e : E)
      → ¬ Passes calls outcomes
      → r ≡ err e
      → f ≡ before
      → Writes calls outcomes before after r f
  unconfirmed :
      {r : Result E Unit} {f : Files} (e : E)
      → Passes calls outcomes
      → ¬ Passes (suc calls) outcomes
      → r ≡ err e
      → f ≡ after
      → Writes calls outcomes before after r f

-- How one call ends.
pub data Call (d : Disk) : Result IoErrorKind Unit → Disk → Type 1 where
  passed :
      {r : Result IoErrorKind Unit} {d' : Disk}
      → ((n : ℕ) → Passes n d'.outcomes ≡ Passes (suc n) d.outcomes)
      → r ≡ ok tt
      → d'.files ≡ d.files
      → d'.temporary ≡ d.temporary
      → Call d r d'
  refused :
      {r : Result IoErrorKind Unit} {d' : Disk} (e : IoErrorKind)
      → ((n : ℕ) → ¬ Passes (suc n) d.outcomes)
      → r ≡ err e
      → d'.files ≡ d.files
      → Call d r d'

pub io_step-Call : (d : Disk) → Call d (io_step d).0 (io_step d).1
unfolding io_step after_outcome
io_step-Call d = by_outcomes d.outcomes refl
  where
    by_outcomes :
        (o : List (Option Fault))
        → d.outcomes ≡ o
        → Call d (after_outcome o d).0 (after_outcome o d).1
    by_outcomes [] e = passed (λ n. ap (Passes n) e ∙ sym (ap (Passes (suc n)) e)) refl refl refl
    by_outcomes (none ∷ later) e = passed (λ n. sym (ap (Passes (suc n)) e)) refl refl refl
    by_outcomes (some fault ∷ later) e =
        refused _ (λ n h. subst (λ o. Passes (suc n) o) e h) refl refl

module _ {E : Type 0} {n : ℕ} {before after : Files} where
  -- One more call before the others.
  pub Writes-later :
      {o later : List (Option Fault)} {r : Result E Unit} {f : Files}
      → ((k : ℕ) → Passes k later ≡ Passes (suc k) o)
      → Writes n later before after r f
      → Writes (suc n) o before after r f
  Writes-later same (written h e f) = written (subst (λ T. T) (same (suc n)) h) e f
  Writes-later same (untouched x h e f) = untouched x (λ p. h (subst (λ T. T) (sym (same n)) p)) e f
  Writes-later same (unconfirmed x h g e f) =
      unconfirmed x (subst (λ T. T) (same n) h) (λ p. g (subst (λ T. T) (sym (same (suc n))) p)) e f

-- A call on the temporary file changes no other file.
pub on_temporary-IsQuiet : (f : Option Temporary → Option Temporary) → IsQuiet (on_temporary f)
unfolding on_temporary
on_temporary-IsQuiet f =
    bind-IsQuiet _ (λ _. record { files_kept = λ d. refl; now_kept = λ d. refl }) io_step
      io_step-IsQuiet

module _ (n : ℕ) (before after : Files) (k : Action IoErrorKind Disk Unit) where
  -- What `k` does where the temporary file is `t`.
  abbrev pub WritesFrom : ℕ → Option Temporary → Action IoErrorKind Disk Unit → Type 0
  WritesFrom calls t m =
      (d : Disk)
      → d.files ≡ before
      → d.temporary ≡ t
      → Writes calls d.outcomes before after (m d).0 (m d).1.files

  pub on_temporary-Writes :
      (f : Option Temporary → Option Temporary) (t : Option Temporary)
      → WritesFrom n (f t) k
      → WritesFrom (suc n) t (on_temporary f >> k)
  unfolding on_temporary
  on_temporary-Writes f t rest d e h = by_call _ _ (io_step-Call d)
    where
      run : Result IoErrorKind Unit → Disk → Result IoErrorKind Unit × Disk
      run r d' =
          let done = resume r (λ _ s. (ok tt, record s { temporary = f s.temporary })) d' in
          resume done.0 (λ _. k) done.1

      by_call :
          (r : Result IoErrorKind Unit) (d' : Disk)
          → Call d r d'
          → Writes (suc n) d.outcomes before after (run r d').0 (run r d').1.files
      by_call (ok u) d' (passed same x e' h') =
          Writes-later same
            (rest (record d' { temporary = f d'.temporary }) (e' ∙ e) (ap f (h' ∙ h)))
      by_call (ok u) d' (refused x g y e') = cc (y)
      by_call (err x) d' (passed same y e' h') = cc (y)
      by_call (err x) d' (refused y g z e') = untouched x (g n) refl (e' ∙ e)

  pub io_step-Writes :
      (t : Option Temporary) → WritesFrom n t k → WritesFrom (suc n) t (io_step >> k)
  io_step-Writes t rest d e h = by_call _ _ (io_step-Call d)
    where
      by_call :
          (r : Result IoErrorKind Unit) (d' : Disk)
          → Call d r d'
          → Writes
              (suc n)
              d.outcomes
              before
              after
              (resume r (λ _. k) d').0
              (resume r (λ _. k) d').1.files
      by_call (ok u) d' (passed same x e' h') = Writes-later same (rest d' (e' ∙ e) (h' ∙ h))
      by_call (ok u) d' (refused x g y e') = cc (y)
      by_call (err x) d' (passed same y e' h') = cc (y)
      by_call (err x) d' (refused y g z e') = untouched x (g n) refl (e' ∙ e)

none_needed : (o : List (Option Fault)) → Passes 0 o
none_needed [] = tt
none_needed (x ∷ o) = tt

-- Securing the file after it was replaced.
pub secured_Writes :
    (before after : Files) (d : Disk)
    → d.files ≡ after
    → Writes 0 d.outcomes before after (io_step d).0 (io_step d).1.files
secured_Writes before after d e = by_call _ _ (io_step-Call d)
  where
    by_call :
        (r : Result IoErrorKind Unit) (d' : Disk)
        → Call d r d'
        → Writes 0 d.outcomes before after r d'.files
    by_call r d' (passed same x e' h') =
        written (subst (λ T. T) (same 0) (none_needed d'.outcomes)) x (e' ∙ e)
    by_call r d' (refused x g y e') = unconfirmed x (none_needed d.outcomes) (g 0) y (e' ∙ e)

module _ (before after : Files) (k : Action IoErrorKind Disk Unit) (n : ℕ) where
  -- The calls for the directories stand before all others.
  pub steps-Writes :
      (m : ℕ)
      → ((d : Disk) → d.files ≡ before → Writes n d.outcomes before after (k d).0 (k d).1.files)
      → (d : Disk) → d.files ≡ before
      → Writes (m + n) d.outcomes before after ((steps m >> k) d).0 ((steps m >> k) d).1.files
  unfolding steps
  steps-Writes zero rest d e =
      subst (λ c. Writes c d.outcomes before after (k d).0 (k d).1.files) (omega arith) (rest d e)
  steps-Writes (suc m) rest d e = by_call (steps-Writes m rest) _ _ (io_step-Call d)
    where
      Rest : Type 0
      Rest =
          (s : Disk)
          → s.files ≡ before
          → Writes (m + n) s.outcomes before after ((steps m >> k) s).0 ((steps m >> k) s).1.files

      run : Result IoErrorKind Unit → Disk → Result IoErrorKind Unit × Disk
      run r d' = let done = resume r (λ _. steps m) d' in resume done.0 (λ _. k) done.1

      counted :
          {r : Result IoErrorKind Unit} {f : Files}
          → Writes (suc (m + n)) d.outcomes before after r f
          → Writes (suc m + n) d.outcomes before after r f
      counted {r} {f} h = subst (λ c. Writes c d.outcomes before after r f) (omega arith) h

      by_call :
          Rest
          → (r : Result IoErrorKind Unit) (d' : Disk) → Call d r d'
          → Writes (suc m + n) d.outcomes before after (run r d').0 (run r d').1.files
      by_call later (ok u) d' (passed same x e' h') =
          counted (Writes-later same (later d' (e' ∙ e)))
      by_call later (ok u) d' (refused x g y e') = cc (y)
      by_call later (err x) d' (passed same y e' h') = cc (y)
      by_call later (err x) d' (refused y g z e') = counted (untouched x (g (m + n)) refl (e' ∙ e))
