-- ===== src/Plan/Sweep.antt =====
-- The files that are swept after a commit: recorded before and not declared now.
use clash_verge_service_ipc.Prelude.{
  ◌≡◌, refl, ◌∙◌, ap, true, ◌&&◌, ◌||◌, not, List, [], ◌∷◌, ◌++◌, map, Text, text_eq, text_eq_iff,
  member, member-append, Bool-cases, inl, inr, arith,
}
use mathlib.Core.Path.{ap₂}
use clash_verge_service_ipc.Prelude.TextMap.{TextMap, contains_key, insert, keys, lookup-insert}
use clash_verge_service_ipc.Plan.{
  RuntimeManifest, AssetSource, RemoteProvider, default_manifest, identity_of, record_asset,
  record_remote, is_declared, undeclared, insert_sorted, sort, push_new, dedup, plan_stage,
}
use clash_verge_service_ipc.Plan.Sources.{
  destination_of, provider_destination, record_assets, record_remotes, plan_stage_parts,
}

member-insert_sorted :
    (k j : Text) (l : List Text) → member k (insert_sorted j l) ≡ (text_eq j k || member k l)
unfolding insert_sorted
member-insert_sorted k j [] = refl
member-insert_sorted k j (i ∷ l) = ground (arith, member-insert_sorted k j l)

member-sort : (k : Text) (l : List Text) → member k (sort l) ≡ member k l
unfolding sort
member-sort k [] = refl
member-sort k (j ∷ l) =
    member-insert_sorted k j (sort l) ∙ ap (λ b. text_eq j k || b) (member-sort k l)

member-push_new :
    (k j : Text) (l : List Text) → member k (push_new j l) ≡ (text_eq j k || member k l)
member-push_new k j [] = refl
member-push_new k j (i ∷ l) = ground (arith, text_eq_iff j i)

member-dedup : (k : Text) (l : List Text) → member k (dedup l) ≡ member k l
unfolding dedup
member-dedup k [] = refl
member-dedup k (j ∷ l) =
    member-push_new k j (dedup l) ∙ ap (λ b. text_eq j k || b) (member-dedup k l)

is_declared-eq :
    (m : RuntimeManifest) (j k : Text) → text_eq j k ≡ true → is_declared m j ≡ is_declared m k
is_declared-eq m j k h = ap (is_declared m) ((text_eq_iff j k).0 h)

member-undeclared :
    (m : RuntimeManifest) (k : Text) (l : List Text)
    → member k (undeclared m l) ≡ (member k l && not (is_declared m k))
unfolding undeclared
member-undeclared m k [] = refl
member-undeclared m k (j ∷ l) = ground (arith, is_declared-eq m j k, member-undeclared m k l)

module _ {ℓ} {V : Type ℓ} where
  member-keys : (k : Text) (m : TextMap V) → member k (keys m) ≡ contains_key k m
  member-keys k [] = refl
  member-keys k ((j, v) ∷ m) = ground (arith, member-keys k m)

  contains_key-insert :
      (j k : Text) (v : V) (m : TextMap V)
      → contains_key k (insert j v m) ≡ (text_eq j k || contains_key k m)
  contains_key-insert j k v m = elim (Bool-cases (text_eq j k)) [
    | inl e ↦ rw (lookup-insert j k v m) (rw e)
    | inr e ↦ rw (lookup-insert j k v m) (rw e)
  ]

-- What a plan's manifest declares.
contains_key-record_assets :
    (k : Text) (sources : List AssetSource) (m : RuntimeManifest)
    → contains_key k (record_assets sources m).assets
      ≡ (member k (map destination_of sources) || contains_key k m.assets)
contains_key-record_assets k [] m = refl
contains_key-record_assets k (s ∷ sources) m = ground (
  arith,
  contains_key-record_assets k sources (record_asset s m),
  contains_key-insert s.asset.destination k (identity_of s) m.assets,
)

contains_key-record_remotes :
    (k : Text) (remote : List RemoteProvider) (m : RuntimeManifest)
    → contains_key k (record_remotes remote m).remote_providers
      ≡ (member k (map provider_destination remote) || contains_key k m.remote_providers)
contains_key-record_remotes k [] m = refl
contains_key-record_remotes k (p ∷ remote) m = ground (
  arith,
  contains_key-record_remotes k remote (record_remote p m),
  contains_key-insert p.destination k p.url m.remote_providers,
)

pub assets-record_remotes :
    (remote : List RemoteProvider) (m : RuntimeManifest)
    → (record_remotes remote m).assets ≡ m.assets
assets-record_remotes [] m = refl
assets-record_remotes (p ∷ remote) m = assets-record_remotes remote (record_remote p m)

pub remote-record_assets :
    (sources : List AssetSource) (m : RuntimeManifest)
    → (record_assets sources m).remote_providers ≡ m.remote_providers
remote-record_assets [] m = refl
remote-record_assets (s ∷ sources) m = remote-record_assets sources (record_asset s m)

is_declared-planned :
    (k : Text) (sources : List AssetSource) (remote : List RemoteProvider)
    → is_declared (record_remotes remote (record_assets sources default_manifest)) k
      ≡ (member k (map destination_of sources) || member k (map provider_destination remote))
is_declared-planned k sources remote =
    let m = record_assets sources default_manifest in
    rw (assets-record_remotes remote m) (
      rw (contains_key-record_remotes k remote m) (
        rw (remote-record_assets sources default_manifest)
          (rw (contains_key-record_assets k sources default_manifest) (ground arith))))

module _ (previous : RuntimeManifest) (sources : List AssetSource)
    (remote : List RemoteProvider) where
  -- A file is swept exactly if the previous manifest records it and neither an asset nor a
  -- provider of the bundle declares it.
  pub hygiene_deletes_exact :
      (k : Text)
      → member k (plan_stage previous sources remote).hygiene_deletes ≡ (
          (contains_key k previous.assets || contains_key k previous.remote_providers)
          && not
              (member k (map destination_of sources) || member k (map provider_destination remote)))
  unfolding plan_stage
  hygiene_deletes_exact k =
      let planned = plan_stage previous sources remote in
      let recorded = keys previous.assets ++ keys previous.remote_providers in
      member-dedup k (sort (undeclared planned.manifest recorded))
      ∙ member-sort k (undeclared planned.manifest recorded)
      ∙ member-undeclared planned.manifest k recorded
      ∙ ap₂ (λ a b. a && not b)
          (member-append k (keys previous.assets) (keys previous.remote_providers)
            ∙ ap₂ (λ a b. a || b) (member-keys k previous.assets)
                (member-keys k previous.remote_providers))
          (ap (λ m. is_declared m k) (plan_stage_parts previous sources remote).3
            ∙ is_declared-planned k sources remote)
