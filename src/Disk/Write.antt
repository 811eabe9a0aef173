-- ===== src/Disk/Write.antt =====
-- How an atomic write ends.
use clash_verge_service_ipc.Prelude.{
  ℕ, ◌≡◌, refl, sym, ◌∙◌, ap, Option, none, some, List, Result, ok, err, resume, ◌>>◌, map_err,
}
use mathlib.Core.Path.{subst}
use clash_verge_service_ipc.AnyError.{AnyError, IoErrorKind}
use clash_verge_service_ipc.Disk.{
  Disk, Fault, Files, Stored, corrupt, content, Temporary, Progress, created, flushed, synced,
  io_step, on_temporary, create_temporary, after_write, after_flush, after_sync, advanced, advance,
  placed, install, replace, fill_and_replace, clean_up, remove_temporary, write_json_atomic,
}
use clash_verge_service_ipc.Disk
use clash_verge_service_ipc.Disk.Calls
use clash_verge_service_ipc.Disk.Calls.{
  Writes, Call, passed, refused, Writes-later, io_step-Call, on_temporary-IsQuiet,
  on_temporary-Writes, io_step-Writes, secured_Writes, steps-Writes,
}

module _ (whole torn : Files → Files) (before : Files) where
  abbrev filled : Progress → Option Temporary
  filled p = some (record { progress = p; whole = whole; torn = torn })

  -- Only a temporary file that is synced may replace the target.
  install-Writes :
      (t : Option Temporary) (d : Disk)
      → d.files ≡ before
      → t ≡ filled synced
      → Writes 0 d.outcomes before
          (whole before)
          ((install t >> io_step) d).0
          ((install t >> io_step) d).1.files
  unfolding install
  install-Writes none d e h = cc (h)
  install-Writes (some t) d e h =
      secured_Writes before (whole before)
        (record d { files = placed t.progress t d.files; temporary = none })
        (ap (λ g. g d.files) (placed_whole t h) ∙ ap whole e)
    where
      from_some : {s t : Temporary} → some s ≡ some t → s ≡ t
      from_some h = cc (h)

      placed_whole : (t : Temporary) → some t ≡ filled synced → placed t.progress t ≡ whole
      placed_whole t h = ap (λ s. placed s.progress s) (from_some h)

  replace-Writes :
      (d : Disk)
      → d.files ≡ before
      → d.temporary ≡ filled synced
      → Writes 1 d.outcomes before
          (whole before)
          ((replace >> io_step) d).0
          ((replace >> io_step) d).1.files
  unfolding replace
  replace-Writes d e h = by_call _ _ (io_step-Call d)
    where
      run : Result IoErrorKind Unit → Disk → Result IoErrorKind Unit × Disk
      run r d' =
          let done = resume r (λ _ s. install s.temporary s) d' in
          resume done.0 (λ _. io_step) done.1

      by_call :
          (r : Result IoErrorKind Unit) (d' : Disk)
          → Call d r d'
          → Writes 1 d.outcomes before (whole before) (run r d').0 (run r d').1.files
      by_call (ok u) d' (passed same x e' h') =
          Writes-later same (install-Writes d'.temporary d' (e' ∙ e) (h' ∙ h))
      by_call (ok u) d' (refused x g y e') = cc (y)
      by_call (err x) d' (passed same y e' h') = cc (y)
      by_call (err x) d' (refused y g z e') = Calls.untouched x (g 0) refl (e' ∙ e)

  fill_and_replace-Writes :
      (d : Disk)
      → d.files ≡ before
      → Writes 6 d.outcomes before
          (whole before)
          (fill_and_replace whole torn d).0
          (fill_and_replace whole torn d).1.files
  unfolding fill_and_replace create_temporary advance
  fill_and_replace-Writes d e =
      let after = whole before in
      on_temporary-Writes 5 before after _ (λ _. filled created) d.temporary
        (on_temporary-Writes 4 before after _ (advanced after_write) (filled created) (
          on_temporary-Writes 3 before after _ (advanced after_flush) (filled Disk.written) (
            on_temporary-Writes 2 before after _ (advanced after_sync) (filled flushed)
              (io_step-Writes 1 before after _ (filled synced) replace-Writes))))
        d e refl

-- The removal of the temporary file hides no failure and changes no file.
clean_up-Writes :
    {n : ℕ} {o : List (Option Fault)} {before after : Files} (r : Result IoErrorKind Unit)
    (d : Disk)
    → Writes n o before after r d.files
    → Writes n o before after (clean_up r d).0 (clean_up r d).1.files
unfolding clean_up remove_temporary
clean_up-Writes (ok u) d h = h
clean_up-Writes {n} {o} {before} {after} (err k) d h =
    subst (λ f. Writes n o before after (err k) f)
      (sym ((on_temporary-IsQuiet (λ _. none)).files_kept d)) h

map_err-Writes :
    {E F : Type 0} {n : ℕ} {o : List (Option Fault)} {before after : Files} (g : E → F)
    {r : Result E Unit} {f : Files}
    → Writes n o before after r f
    → Writes n o before after (map_err g r) f
map_err-Writes g (Calls.written h e f) = Calls.written h (ap (map_err g) e) f
map_err-Writes g (Calls.untouched x h e f) = Calls.untouched (g x) h (ap (map_err g) e) f
map_err-Writes g (Calls.unconfirmed x h i e f) = Calls.unconfirmed (g x) h i (ap (map_err g) e) f

-- A write of a state file makes thirteen calls, the twelfth of which replaces the file. Whatever calls
-- fail, it ends in one of three ways: all calls have succeeded, so has the write, and the new content
-- is in place; or one of the first twelve has failed, the write fails, and the old content is there;
-- or the first twelve have succeeded and the last has not, the write fails, and the new content is in
-- place. A torn text is never left in the place of the file.
pub write_json_atomic-Writes :
    {A : Type 0} (place : Stored A → Files → Files) (value : A) (d : Disk)
    → Writes 12 d.outcomes d.files
        (place (content value) d.files)
        (write_json_atomic place value d).0
        (write_json_atomic place value d).1.files
unfolding write_json_atomic
write_json_atomic-Writes place value d =
    let after = place (content value) d.files in
    map_err-Writes _ (
      steps-Writes d.files after _ 7 5
        (steps-Writes d.files after _ 6 1 (λ d1 e.
          clean_up-Writes _ _
            (fill_and_replace-Writes (place (content value)) (place corrupt) d.files d1 e)))
        d refl)

-- The result and the files of a write, for those that do not ask which call has failed.
pub data Ends {E : Type 0} (before after : Files) : Result E Unit → Files → Type 0 where
  written : {r : Result E Unit} {f : Files} → r ≡ ok tt → f ≡ after → Ends before after r f
  untouched :
      {r : Result E Unit} {f : Files} (e : E) → r ≡ err e → f ≡ before → Ends before after r f
  unconfirmed :
      {r : Result E Unit} {f : Files} (e : E) → r ≡ err e → f ≡ after → Ends before after r f

Writes-Ends :
    {n : ℕ} {o : List (Option Fault)} {before after f : Files} {r : Result AnyError Unit}
    → Writes n o before after r f
    → Ends before after r f
Writes-Ends (Calls.written h e p) = written e p
Writes-Ends (Calls.untouched x h e p) = untouched x e p
Writes-Ends (Calls.unconfirmed x h i e p) = unconfirmed x e p

pub write_json_atomic-Ends :
    {A : Type 0} (place : Stored A → Files → Files) (value : A) (d : Disk)
    → Ends d.files
        (place (content value) d.files)
        (write_json_atomic place value d).0
        (write_json_atomic place value d).1.files
write_json_atomic-Ends place value d = Writes-Ends (write_json_atomic-Writes place value d)
