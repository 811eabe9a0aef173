-- ===== src/Destination/Keys.antt =====
-- The keys that destinations resolve to (src/core/runtime_generation/assets.rs).
use clash_verge_service_ipc.Prelude.{
  ◌≡◌, refl, sym, ◌∙◌, ◌≢◌, inl, inr, Bool, true, false, Option, none, some, List, [], ◌∷◌, map,
  ◌==◌, all, All, is_empty, arith, Text, text_eq, ok, and_then, Result-cases, Bool-cases,
}
use mathlib.Core.Path.{subst}
use clash_verge_service_ipc.Prelude.Split.{split, join, split-join, split_pieces}
use clash_verge_service_ipc.Destination.{
  Component, root_dir, cur_dir, parent_dir, normal, dot, dot_dot, component_of, components_from,
  keep_some, components, is_absolute, is_normal, validate_destination, is_staging_temporary,
  is_service_owned, key_parts, joined_key, destination_key, resolve_key,
}

-- A part names an entry of its directory: it is not empty, it does not go up or stay, it holds no
-- slash, and it is no name of a temporary.
pub record IsSafePart (part : Text) : Type 0 where
  pub not_empty : is_empty part ≡ false
  pub not_here : text_eq part dot ≡ false
  pub not_up : text_eq part dot_dot ≡ false
  pub no_slash : All (λ c. (c == b'/') ≡ false) part
  pub not_temporary : is_staging_temporary part ≡ false

-- The parts of a key: one or more, all safe, and a part alone is not a name of the service.
pub record IsKey (parts : List Text) (key : Text) : Type 0 where
  pub joined : key ≡ join b'/' parts
  pub some_part : is_empty parts ≡ false
  pub parts_safe : All IsSafePart parts
  pub not_owned : (only : Text) → parts ≡ only ∷ [] → is_service_owned only ≡ false

component-normal :
    (first : Bool) (piece part : Text)
    → component_of first piece ≡ some (normal part)
    → (part ≡ piece)
      × (is_empty piece ≡ false)
      × (text_eq piece dot ≡ false)
      × (text_eq piece dot_dot ≡ false)
unfolding component_of
component-normal first piece part h = ground arith

-- Where the parts are taken, the head is a safe part.
key_parts-cons :
    (part : Text) (rest : List Component) (parts : List Text)
    → key_parts (normal part ∷ rest) ≡ ok parts
    → (is_staging_temporary part ≡ false)
      × (later : List Text) × (key_parts rest ≡ ok later)
      × (parts ≡ part ∷ later)
unfolding key_parts
key_parts-cons part rest parts h = elim (Bool-cases (is_staging_temporary part)) [
  | inl t ↦ cc (rw t at h)
  | inr t ↦ elim (Result-cases (key_parts rest)) [
    | inl (later, e) ↦ (t, later, e, cc (rw (t, e) at h))
    | inr (x, e) ↦ cc (rw (t, e) at h)
  ]
]

only_normal :
    (c : Component) (rest : List Component) (parts : List Text)
    → is_normal c ≡ false
    → key_parts (c ∷ rest) ≢ ok parts
unfolding key_parts
only_normal root_dir rest parts n = λ h. cc
only_normal cur_dir rest parts n = λ h. cc
only_normal parent_dir rest parts n = λ h. cc
only_normal (normal part) rest parts n = λ h. cc

-- One piece in front of pieces whose parts are safe.
safe_step :
    (first : Bool) (piece : Text) (rest : List Component) (parts : List Text)
    → All (λ c. (c == b'/') ≡ false) piece
    → ((later : List Text) → key_parts rest ≡ ok later → All IsSafePart later)
    → (o : Option Component) → component_of first piece ≡ o
    → key_parts (keep_some o rest) ≡ ok parts
    → All IsSafePart parts
safe_step first piece rest parts s ih none e k = ih parts k
safe_step first piece rest parts s ih (some root_dir) e k =
    absurd (only_normal root_dir rest parts refl k)
safe_step first piece rest parts s ih (some cur_dir) e k =
    absurd (only_normal cur_dir rest parts refl k)
safe_step first piece rest parts s ih (some parent_dir) e k =
    absurd (only_normal parent_dir rest parts refl k)
safe_step first piece rest parts s ih (some (normal part)) e k =
    let (t, later, h, cons) = key_parts-cons part rest parts k in
    let (same, ne, nd, nu) = component-normal first piece part e in
    subst (All IsSafePart) (sym cons) (
      subst IsSafePart (sym same) (record {
        not_empty = ne;
        not_here = nd;
        not_up = nu;
        no_slash = s;
        not_temporary = subst (λ p. is_staging_temporary p ≡ false) same t;
      }),
      ih later h,
    )

nil_parts : (parts : List Text) → key_parts [] ≡ ok parts → parts ≡ []
unfolding key_parts
nil_parts parts h = cc

parts_safe_from :
    (first : Bool) (pieces parts : List Text)
    → All (λ p. All (λ c. (c == b'/') ≡ false) p) pieces
    → key_parts (components_from first pieces) ≡ ok parts
    → All IsSafePart parts
unfolding components_from
parts_safe_from first [] parts s h = subst (All IsSafePart) (sym (nil_parts parts h)) tt
parts_safe_from first (piece ∷ pieces) parts s h =
    safe_step first piece (components_from false pieces) parts s.0
      (λ later. parts_safe_from false pieces later s.1) (component_of first piece) refl h

-- The parts of a whole path.
parts_safe :
    (path : Text) (parts : List Text)
    → key_parts (components path) ≡ ok parts
    → All IsSafePart parts
unfolding components
parts_safe path parts h = elim (Bool-cases (is_absolute path)) [
  | inl a ↦ absurd (only_normal root_dir _ parts refl (rw a at h))
  | inr a ↦ parts_safe_from true (split b'/' path) parts (split_pieces b'/' path) (rw a at h)
]

joined_key-ok :
    (parts : List Text) (key : Text)
    → All IsSafePart parts
    → joined_key parts ≡ ok key
    → IsKey parts key
unfolding joined_key join
joined_key-ok [] key s h = cc
joined_key-ok (only ∷ []) key s h = elim (Bool-cases (is_service_owned only)) [
  | inl o ↦ cc (rw o at h)
  | inr o ↦ record {
    joined = cc (rw o at h);
    some_part = refl;
    parts_safe = s;
    not_owned = λ other e. subst (λ p. is_service_owned p ≡ false) (only_one e) o;
  }
]
  where
    only_one : {other : Text} → only ∷ [] ≡ other ∷ [] → only ≡ other
    only_one e = cc
joined_key-ok (part ∷ next ∷ parts) key s h = record {
  joined = cc;
  some_part = refl;
  parts_safe = s;
  not_owned = λ other e. cc;
}

-- A destination that resolves gives a key of one or more parts joined by slashes: no part is
-- empty, `.` or `..`, holds a slash or is the name of a staging temporary, and a part that stands
-- alone is neither the configuration's nor the manifest's name in any case of its letters.
pub resolve_key-IsKey :
    (destination key : Text)
    → resolve_key destination ≡ ok key
    → (parts : List Text) × IsKey parts key
unfolding resolve_key destination_key
resolve_key-IsKey destination key h = elim (Result-cases (validate_destination destination)) [
  | inl (path, e) ↦ by_parts path (rw e at h)
  | inr (x, e) ↦ cc (rw e at h)
]
  where
    by_parts :
        (path : Text)
        → and_then (key_parts (components path)) joined_key ≡ ok key
        → (parts : List Text) × IsKey parts key
    by_parts path k = elim (Result-cases (key_parts (components path))) [
      | inl (parts, e) ↦ (parts, joined_key-ok parts key (parts_safe path parts e) (rw e at k))
      | inr (x, e) ↦ cc (rw e at k)
    ]

-- The pieces of safe parts are those parts.
component_of-safe :
    (first : Bool) (part : Text) → IsSafePart part → component_of first part ≡ some (normal part)
unfolding component_of
component_of-safe first part s = ground arith

components_from-safe :
    (first : Bool) (parts : List Text)
    → All IsSafePart parts
    → components_from first parts ≡ map normal parts
unfolding components_from
components_from-safe first [] s = refl
components_from-safe first (part ∷ parts) s =
    rw (component_of-safe first part s.0, components_from-safe false parts s.1) refl

All-no_slash :
    (parts : List Text) → All IsSafePart parts → All (λ p. All (λ c. (c == b'/') ≡ false) p) parts
All-no_slash [] s = tt
All-no_slash (part ∷ parts) s = (s.0.no_slash, All-no_slash parts s.1)

all_normal : (parts : List Text) → all is_normal (map normal parts) ≡ true
all_normal [] = refl
all_normal (part ∷ parts) = all_normal parts

key_parts-safe :
    (parts : List Text) → All IsSafePart parts → key_parts (map normal parts) ≡ ok parts
unfolding key_parts
key_parts-safe [] s = refl
key_parts-safe (part ∷ parts) s = rw (s.0.not_temporary, key_parts-safe parts s.1) refl

-- A key begins with a byte of its first part.
key_start :
    (part : Text) (parts : List Text)
    → IsSafePart part
    → (is_empty (join b'/' (part ∷ parts)) ≡ false)
      × (is_absolute (join b'/' (part ∷ parts)) ≡ false)
unfolding join is_absolute
key_start [] parts s = absurd (true_is_false s.not_empty)
  where
    true_is_false : true ≡ false → ⊥
    true_is_false e = cc
key_start (c ∷ part) [] s = (refl, s.no_slash.0)
key_start (c ∷ part) (next ∷ parts) s = (refl, s.no_slash.0)

components-key :
    (part : Text) (parts : List Text)
    → All IsSafePart (part ∷ parts)
    → components (join b'/' (part ∷ parts)) ≡ map normal (part ∷ parts)
unfolding components
components-key part parts s = rw (key_start part parts s.0).1 (
    rw (split-join b'/' part parts (All-no_slash (part ∷ parts) s))
      (components_from-safe true (part ∷ parts) s))

joined_key-safe : (parts : List Text) (key : Text) → IsKey parts key → joined_key parts ≡ ok key
unfolding joined_key join
joined_key-safe [] key k = cc (k.some_part)
joined_key-safe (only ∷ []) key k = rw (k.not_owned only refl) (cc (k.joined))
joined_key-safe (part ∷ next ∷ parts) key k = cc (k.joined)

destination_key-join :
    (part : Text) (parts : List Text)
    → All IsSafePart (part ∷ parts)
    → destination_key (join b'/' (part ∷ parts)) ≡ joined_key (part ∷ parts)
unfolding destination_key
destination_key-join part parts s =
    rw (components-key part parts s) (rw (key_parts-safe (part ∷ parts) s) refl)

resolve_join :
    (part : Text) (parts : List Text) (key : Text)
    → IsKey (part ∷ parts) key
    → resolve_key (join b'/' (part ∷ parts)) ≡ ok key
unfolding resolve_key validate_destination
resolve_join part parts key k = rw (key_start part parts k.parts_safe.0).0 (
    rw (key_start part parts k.parts_safe.0).1 (
      rw (components-key part parts k.parts_safe) (
        rw (all_normal (part ∷ parts))
          (destination_key-join part parts k.parts_safe ∙ joined_key-safe (part ∷ parts) key k))))

-- A key that a destination resolves to resolves to itself: what a manifest records is found again.
pub resolve_key_idem :
    (destination key : Text) → resolve_key destination ≡ ok key → resolve_key key ≡ ok key
resolve_key_idem destination key h =
    let (parts, k) = resolve_key-IsKey destination key h in by_parts parts k
  where
    by_parts : (parts : List Text) → IsKey parts key → resolve_key key ≡ ok key
    by_parts [] k = cc (k.some_part)
    by_parts (part ∷ parts) k =
        subst (λ s. resolve_key s ≡ ok key) (sym k.joined) (resolve_join part parts key k)
