-- ===== src/Prelude/Split.antt =====
-- Splitting a text, as `str::split_once`, `str::rsplit_once` and `str::strip_prefix` do.
use Prim.Native.Nat.{ℕ}
use mathlib.Core.Path.{◌≡◌, refl}
use mathlib.Core.Logic.{inl, inr}
use mathlib.Core.Bool.{false}
use mathlib.Core.Option.{Option, none, some}
use mathlib.Core.List.{List, [], ◌∷◌, ◌++◌}
use native.Mathlib.Omega.{arith}
use clash_verge_service_ipc.Prelude.Tests.{◌==◌, if◌then◌else◌, Bool-cases}
use clash_verge_service_ipc.Prelude.Lists.{All}
use clash_verge_service_ipc.Prelude.Bytes.{Text}

abbrev prepend : ℕ → Option (Text × Text) → Option (Text × Text)
prepend c none = none
prepend c (some (s, t)) = some (c ∷ s, t)

unfoldable pub split_once : ℕ → Text → Option (Text × Text)
split_once sep [] = none
split_once sep (c ∷ s) =
    let later = split_once sep s in if c == sep then some ([], s) else prepend c later

unfoldable pub rsplit_once : ℕ → Text → Option (Text × Text)
rsplit_once sep [] = none
rsplit_once sep (c ∷ s) =
    let later = rsplit_once sep s in
    elim later [ some (t, u) ↦ some (c ∷ t, u) | none ↦ if c == sep then some ([], s) else none ]

unfoldable pub strip_prefix : Text → Text → Option Text
strip_prefix [] s = some s
strip_prefix (p ∷ ps) [] = none
strip_prefix (p ∷ ps) (c ∷ s) = let later = strip_prefix ps s in if p == c then later else none

-- `rsplit_once` for a separator of several bytes: the last place where it begins.
unfoldable pub rsplit_once_at : Text → Text → Option (Text × Text)
unfolding strip_prefix
rsplit_once_at sep [] = none
rsplit_once_at sep (c ∷ s) =
    let later = rsplit_once_at sep s in
    elim later [
      | some (t, u) ↦ some (c ∷ t, u)
      | none ↦ elim (strip_prefix sep (c ∷ s)) [ some u ↦ some ([], u) | none ↦ none ]
    ]

-- The first separator ends the first part.
pub split_once-append :
    (sep : ℕ) (s t : Text)
    → All (λ c. (c == sep) ≡ false) s
    → split_once sep (s ++ (sep ∷ t)) ≡ some (s, t)
unfolding split_once
split_once-append sep [] t h = ground arith
split_once-append sep (c ∷ s) t h = rw (h.0, split_once-append sep s t h.1) refl

abbrev glue : ℕ → List Text → List Text
glue c [] = (c ∷ []) ∷ []
glue c (piece ∷ pieces) = (c ∷ piece) ∷ pieces

-- The pieces between the separators; there is always one.
unfoldable pub split : ℕ → Text → List Text
split sep [] = [] ∷ []
split sep (c ∷ s) = let later = split sep s in if c == sep then [] ∷ later else glue c later

unfoldable pub join : ℕ → List Text → Text
join sep [] = []
join sep (piece ∷ []) = piece
join sep (piece ∷ next ∷ pieces) = piece ++ (sep ∷ join sep (next ∷ pieces))

split_last : (sep : ℕ) (s : Text) → All (λ c. (c == sep) ≡ false) s → split sep s ≡ s ∷ []
unfolding split
split_last sep [] h = refl
split_last sep (c ∷ s) h = rw (h.0, split_last sep s h.1) refl

split_first :
    (sep : ℕ) (s t : Text)
    → All (λ c. (c == sep) ≡ false) s
    → split sep (s ++ (sep ∷ t)) ≡ s ∷ split sep t
unfolding split
split_first sep [] t h = ground arith
split_first sep (c ∷ s) t h = rw (h.0, split_first sep s t h.1) refl

-- Pieces that do not hold the separator come back.
pub split-join :
    (sep : ℕ) (piece : Text) (pieces : List Text)
    → All (λ s. All (λ c. (c == sep) ≡ false) s) (piece ∷ pieces)
    → split sep (join sep (piece ∷ pieces)) ≡ piece ∷ pieces
unfolding join
split-join sep piece [] h = split_last sep piece h.0
split-join sep piece (next ∷ pieces) h =
    rw (split_first sep piece (join sep (next ∷ pieces)) h.0, split-join sep next pieces h.1)

-- No piece holds the separator.
pub split_pieces : (sep : ℕ) (s : Text) → All (λ p. All (λ c. (c == sep) ≡ false) p) (split sep s)
unfolding split
split_pieces sep [] = (tt, tt)
split_pieces sep (c ∷ s) = elim (Bool-cases (c == sep)) [
  | inl e ↦ rw (e, All) (tt, split_pieces sep s)
  | inr e ↦ rw (e, All) (glued (split sep s) (split_pieces sep s) e)
]
  where
    glued :
        (pieces : List Text)
        → All (λ p. All (λ c. (c == sep) ≡ false) p) pieces
        → (c == sep) ≡ false
        → All (λ p. All (λ c. (c == sep) ≡ false) p) (glue c pieces)
    glued [] h e = ((e, tt), tt)
    glued (p ∷ ps) h e = ((e, h.0), h.1)
