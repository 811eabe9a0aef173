-- ===== src/Prelude/TextMap.antt =====
-- `BTreeMap<String, V>` and `BTreeSet<String>`: an association list in the order of its keys.
use Prim.Native.Nat.{Ordering}
use mathlib.Core.Path.{◌≡◌, refl}
use mathlib.Core.Bool.{Bool, true, false}
use mathlib.Core.Option.{Option, none, some}
use mathlib.Core.List.{List, [], ◌∷◌}
use native.Mathlib.Omega.{arith}
use clash_verge_service_ipc.Prelude.Tests.{if◌then◌else◌}
use clash_verge_service_ipc.Prelude.Bytes.{Text, text_eq, text_eq_iff, text_compare}

abbrev pub TextMap {ℓ} : Type ℓ → Type ℓ
TextMap V = List (Text × V)

module _ {ℓ} {V : Type ℓ} where
  abbrev pub lookup : Text → TextMap V → Option V
  lookup k [] = none
  lookup k ((j, v) ∷ m) = if text_eq j k then some v else lookup k m

  abbrev pub is_found : Option V → Bool
  is_found none = false
  is_found (some v) = true

  abbrev pub contains_key : Text → TextMap V → Bool
  contains_key k m = is_found (lookup k m)

  -- Where an entry goes beside the first one, by the order of their keys.
  abbrev place : Ordering → Text → V → Text → V → TextMap V → TextMap V → TextMap V
  place Ordering.lt k v j w m later = (k, v) ∷ (j, w) ∷ m
  place Ordering.eq k v j w m later = (k, v) ∷ m
  place Ordering.gt k v j w m later = (j, w) ∷ later

  unfoldable pub insert : Text → V → TextMap V → TextMap V
  insert k v [] = (k, v) ∷ []
  insert k v ((j, w) ∷ m) = let later = insert k v m in place (text_compare k j) k v j w m later

  unfoldable pub remove : Text → TextMap V → TextMap V
  remove k [] = []
  remove k ((j, w) ∷ m) = let rest = remove k m in if text_eq j k then rest else (j, w) ∷ rest

  abbrev pub keys : TextMap V → List Text
  keys [] = []
  keys ((j, w) ∷ m) = j ∷ keys m

text_compare_eq : (s t : Text) → text_compare s t ≡ Ordering.eq → text_eq s t ≡ true
text_compare_eq [] [] h = refl
text_compare_eq [] (b ∷ t) h = cc
text_compare_eq (a ∷ s) [] h = cc
text_compare_eq (a ∷ s) (b ∷ t) h = ground (arith, text_compare_eq s t)

text_compare_gt : (s t : Text) → text_compare s t ≡ Ordering.gt → text_eq s t ≡ false
text_compare_gt [] [] h = cc
text_compare_gt [] (b ∷ t) h = cc
text_compare_gt (a ∷ s) [] h = refl
text_compare_gt (a ∷ s) (b ∷ t) h = ground (arith, text_compare_gt s t)

module _ {ℓ} {V : Type ℓ} where
  -- What is found after an insertion.
  pub lookup-insert :
      (k j : Text) (v : V) (m : TextMap V)
      → lookup j (insert k v m) ≡ (if text_eq k j then some v else lookup j m)
  unfolding insert
  lookup-insert k j v [] = refl
  lookup-insert k j v ((i, w) ∷ m) = ground (
    arith,
    text_compare_eq k i,
    text_compare_gt k i,
    text_eq_iff k i,
    text_eq_iff k j,
    text_eq_iff i j,
    lookup-insert k j v m,
  )

  pub lookup-remove :
      (k j : Text) (m : TextMap V)
      → lookup j (remove k m) ≡ (if text_eq k j then none else lookup j m)
  unfolding remove
  lookup-remove k j [] = ground arith
  lookup-remove k j ((i, w) ∷ m) =
      ground (arith, text_eq_iff i k, text_eq_iff i j, text_eq_iff k j, lookup-remove k j m)
