-- ===== src/Prelude/Rules.antt =====
-- What holds after an action, by its result, and the rule of a sequence.
use mathlib.Core.Path.{◌≡◌, subst}
use clash_verge_service_ipc.Prelude.Outcome.{Result, ok, err, Action, resume}

-- What holds after an action: one thing of its value and the state, another after an error.
abbrev pub After : {E A S : Type 0} → (A → S → Type 0) → (S → Type 0) → Result E A → S → Type 0
After post failed (ok a) s = post a s
After post failed (err e) s = failed s

module _ {E A S : Type 0} where
  pub After-same : (P : S → Type 0) (r : Result E A) (s : S) → P s → After (λ _. P) P r s
  After-same P (ok a) s p = p
  After-same P (err e) s p = p

module _ {E A B S : Type 0} (mid : A → S → Type 0) (post : B → S → Type 0)
    (failed : S → Type 0) where
  -- The rule of a sequence.
  pub After-resume :
      (r : Result E A) (k : A → Action E S B) (s : S)
      → After mid failed r s
      → ((a : A) (t : S) → mid a t → After post failed (k a t).0 (k a t).1)
      → After post failed (resume r k s).0 (resume r k s).1
  After-resume (ok a) k s h f = f a s h
  After-resume (err e) k s h f = h

pub same_value : {E A : Type 0} {a b : A} → ◌≡◌ {A = Result E A} (ok b) (ok a) → b ≡ a
same_value e = cc (e)

-- What holds after an action holds of the value that it has returned.
pub After-ok :
    {E A S : Type 0} (post : A → S → Type 0) (failed : S → Type 0) (r : Result E A) (s : S) (a : A)
    → After post failed r s
    → r ≡ ok a
    → post a s
After-ok post failed (ok b) s a p e = subst (λ c. post c s) (same_value e) p
After-ok post failed (err x) s a p e = cc (e)
