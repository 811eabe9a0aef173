-- ===== src/Generation/Effects/Owned.antt =====
-- The service's own files of a generation, the configuration and the manifest, which no destination
-- resolves to (src/core/runtime_generation/assets.rs, `destination_key`).
use clash_verge_service_ipc.Prelude.{
  true, false, ◌≡◌, refl, sym, ◌∙◌, ap, List, [], ◌∷◌, ◌++◌, ==_refl, Text, text_eq, text_eq_iff,
  All, Bool-cases, inl, inr, Result, ok, err, arith, and_then,
}
use clash_verge_service_ipc.Prelude.Split
use clash_verge_service_ipc.ServiceError.{ServiceError}
use clash_verge_service_ipc.Destination.{
  resolve_key, resolve_in_generation, is_service_owned, eq_ignore_ascii_case, is_staging_temporary,
  runtime_config_file_name, manifest_file_name,
}
use clash_verge_service_ipc.Destination.Keys.{IsKey, resolve_key-IsKey}
use clash_verge_service_ipc.Generation.{has_slash}
use clash_verge_service_ipc.Generation.Names.{Ordinary, has_slash-join, file_name-join, absurd_bool}
use clash_verge_service_ipc.Generation.Write.{join}
use clash_verge_service_ipc.Generation.Effects.Plans.{IsClear, Clear}

-- A name that the service owns, without a slash and not a temporary's.
pub record IsOwned (name : Text) : Type 0 where
  pub owned : is_service_owned name ≡ true
  pub plain : has_slash name ≡ false
  pub not_temporary : is_staging_temporary name ≡ false

pub config-IsOwned : IsOwned runtime_config_file_name
unfolding is_service_owned eq_ignore_ascii_case is_staging_temporary Split.strip_prefix
config-IsOwned = record { owned = refl; plain = refl; not_temporary = refl }

pub manifest-IsOwned : IsOwned manifest_file_name
unfolding is_service_owned eq_ignore_ascii_case is_staging_temporary Split.strip_prefix
    Split.rsplit_once_at
manifest-IsOwned = record { owned = refl; plain = refl; not_temporary = refl }

pub join-Ordinary : (generation name : Text) → IsOwned name → Ordinary (join generation name)
join-Ordinary generation name o =
    ap is_staging_temporary (file_name-join generation name o.plain) ∙ o.not_temporary

key_apart :
    (name key : Text) (parts : List Text)
    → IsOwned name
    → IsKey parts key
    → text_eq key name ≡ false
unfolding Split.join
key_apart name key [] o k = cc (k.some_part)
key_apart name key (only ∷ []) o k = elim (Bool-cases (text_eq key name)) [
  | inl same ↦
      absurd_bool (ap is_service_owned (sym k.joined ∙ (text_eq_iff key name).0 same) ∙ o.owned)
        (k.not_owned only refl)
  | inr apart ↦ apart
]
key_apart name key (part ∷ next ∷ parts) o k = elim (Bool-cases (text_eq key name)) [
  | inl same ↦
      absurd_bool
        (ap has_slash (sym ((text_eq_iff key name).0 same) ∙ k.joined)
          ∙ has_slash-join part (Split.join b'/' (next ∷ parts)))
        o.plain
  | inr apart ↦ apart
]

pub text_eq-join :
    (generation s t : Text) → text_eq (join generation s) (join generation t) ≡ text_eq s t
text_eq-join [] s t = ground arith
text_eq-join (c ∷ generation) s t = ground (arith, ==_refl c, text_eq-join generation s t)

pub owned-Clear :
    (generation name destination : Text)
    → IsOwned name
    → Clear (join generation name) generation destination
unfolding resolve_in_generation
owned-Clear generation name destination o = by_key (resolve_key destination) refl
  where
    by_key :
        (r : Result ServiceError Text)
        → resolve_key destination ≡ r
        → IsClear (join generation name) (and_then r (λ key. ok (generation ++ (b'/' ∷ key))))
    by_key (ok key) e =
        let (parts, k) = resolve_key-IsKey destination key e in
        text_eq-join generation key name ∙ key_apart name key parts o k
    by_key (err x) e = tt

pub owned-Clear-All :
    (generation name : Text)
    → IsOwned name
    → (destinations : List Text) → All (Clear (join generation name) generation) destinations
owned-Clear-All generation name o [] = tt
owned-Clear-All generation name o (destination ∷ later) =
    (owned-Clear generation name destination o, owned-Clear-All generation name o later)
