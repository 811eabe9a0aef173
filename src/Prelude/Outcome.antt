-- ===== src/Prelude/Outcome.antt =====
-- Results, and actions that change a state and may fail: what was written before a failure stays
-- written, so the state comes back beside the error too.
use mathlib.Core.Path.{◌≡◌, refl}
use mathlib.Core.Logic.{◌⊎◌, inl, inr}
use mathlib.Core.Option.{Option, none, some}

pub data Result {ℓ} (E A : Type ℓ) : Type ℓ where
  ok : A → Result E A
  err : E → Result E A

pub Result-cases {ℓ} :
    {E A : Type ℓ} (r : Result E A) → ((a : A) × (r ≡ ok a)) ⊎ ((e : E) × (r ≡ err e))
Result-cases (ok a) = inl (a, refl)
Result-cases (err e) = inr (e, refl)

abbrev pub map_err {ℓ} : {E F A : Type ℓ} → (E → F) → Result E A → Result F A
map_err f (ok a) = ok a
map_err f (err e) = err (f e)

-- `?` on a plain result.
abbrev pub and_then {ℓ} : {E A B : Type ℓ} → Result E A → (A → Result E B) → Result E B
and_then (ok a) f = f a
and_then (err e) f = err e

abbrev pub Action {ℓ} : Type ℓ → Type ℓ → Type ℓ → Type ℓ
Action E S A = S → Result E A × S

module _ {ℓ} {E S A : Type ℓ} where
  abbrev pub pure : A → Action E S A
  pure a s = (ok a, s)

  abbrev pub fail : E → Action E S A
  fail e s = (err e, s)

  abbrev pub modify : (S → S) → A → Action E S A
  modify f a s = (ok a, f s)

module _ {ℓ} {E S A B : Type ℓ} where
  abbrev pub resume : Result E A → (A → Action E S B) → Action E S B
  resume (ok a) f s = f a s
  resume (err e) f s = (err e, s)

  infixl 5 ◌>>=◌ ◌>>◌
  abbrev pub ◌>>=◌ : Action E S A → (A → Action E S B) → Action E S B
  ◌>>=◌ m f s = resume (m s).0 f (m s).1

  abbrev pub ◌>>◌ : Action E S A → Action E S B → Action E S B
  m >> k = m >>= λ _. k

-- The result of an action, as a value, decides what is done next.
abbrev pub inspect {ℓ} :
    {E F S A B : Type ℓ} → Action E S A → (Result E A → Action F S B) → Action F S B
inspect m f s = f (m s).0 (m s).1

-- `?` on an option.
abbrev pub option_then {ℓ κ} : {A : Type ℓ} {B : Type κ} → Option A → (A → Option B) → Option B
option_then none f = none
option_then (some a) f = f a

-- `ok_or` followed by `?`.
abbrev pub require_some {ℓ} : {E A B : Type ℓ} → Option A → E → (A → Result E B) → Result E B
require_some none e f = err e
require_some (some a) e f = f a
