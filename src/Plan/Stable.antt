-- ===== src/Plan/Stable.antt =====
-- A bundle that is planned again, against what its first plan recorded (`plan_stage` of
-- src/core/runtime_generation/staging.rs).
use clash_verge_service_ipc.Prelude.{
  ◌≡◌, refl, ◌∙◌, ap, true, false, Option, none, some, List, [], ◌∷◌, map, ==_refl, All, Text,
  text_eq_refl, member, arith, keep, omit,
}
use clash_verge_service_ipc.Prelude.TextMap.{lookup, lookup-insert}
use clash_verge_service_ipc.Plan.{
  RuntimeManifest, SourceIdentity, AssetSource, RemoteProvider, default_manifest, identity_of,
  is_fresh, has_provenance, is_some, identity_eq, still_matches, copy_of, record_asset,
  record_remote, plan_stage, option_eq,
}
use clash_verge_service_ipc.Plan.Sources.{
  destination_of, provider_destination, record_assets, record_remotes, plan_stage_parts,
}
use clash_verge_service_ipc.Plan.Sweep.{assets-record_remotes}

-- No text stands in the list twice.
abbrev pub AllDifferent : List Text → Type 0
AllDifferent [] = Unit
AllDifferent (k ∷ rest) = (member k rest ≡ false) × AllDifferent rest

-- A later insertion at other keys keeps what is found.
lookup-record_assets :
    (k : Text) (sources : List AssetSource) (m : RuntimeManifest)
    → member k (map destination_of sources) ≡ false
    → lookup k (record_assets sources m).assets ≡ lookup k m.assets
lookup-record_assets k [] m h = refl
lookup-record_assets k (s ∷ sources) m h =
    lookup-record_assets k sources (record_asset s m) (ground arith)
    ∙ lookup-insert s.asset.destination k (identity_of s) m.assets
    ∙ ground arith

lookup-record_remotes :
    (k : Text) (remote : List RemoteProvider) (m : RuntimeManifest)
    → member k (map provider_destination remote) ≡ false
    → lookup k (record_remotes remote m).remote_providers ≡ lookup k m.remote_providers
lookup-record_remotes k [] m h = refl
lookup-record_remotes k (p ∷ remote) m h =
    lookup-record_remotes k remote (record_remote p m) (ground arith)
    ∙ lookup-insert p.destination k p.url m.remote_providers
    ∙ ground arith

option_eq_refl : (o : Option _) → option_eq o o ≡ true
option_eq_refl none = refl
option_eq_refl (some a) = ==_refl a

pub identity_matches : (i : SourceIdentity) → is_some i.mtime_ns ≡ true → still_matches i i ≡ true
unfolding still_matches identity_eq
identity_matches i h =
    rw h (rw (text_eq_refl i.source) (rw (==_refl i.len) (option_eq_refl i.mtime_ns)))

-- Every source is found as recorded.
abbrev HasTime : AssetSource → Type 0
HasTime s = is_some s.mtime_ns ≡ true

All-fresh :
    (sources : List AssetSource) (m : RuntimeManifest) (final : RuntimeManifest)
    → AllDifferent (map destination_of sources)
    → All HasTime sources
    → final.assets ≡ (record_assets sources m).assets
    → (omit (is_fresh final) sources ≡ []) × (keep (is_fresh final) sources ≡ sources)
All-fresh [] m final u t e = (refl, refl)
All-fresh (s ∷ sources) m final u t e =
    let found : lookup s.asset.destination final.assets ≡ some (identity_of s) =
      ap (lookup s.asset.destination) e
      ∙ lookup-record_assets s.asset.destination sources (record_asset s m) u.0
      ∙ lookup-insert s.asset.destination s.asset.destination (identity_of s) m.assets
      ∙ rw (text_eq_refl s.asset.destination) refl in
    let fresh : is_fresh final s ≡ true = rw found (identity_matches (identity_of s) t.0) in
    let (none_left, all_kept) = All-fresh sources (record_asset s m) final u.1 t.1 e in
    (rw fresh none_left, rw fresh (ap (λ r. s ∷ r) all_kept))

all_provided :
    (remote : List RemoteProvider) (m : RuntimeManifest) (final : RuntimeManifest)
    → AllDifferent (map provider_destination remote)
    → final.remote_providers ≡ (record_remotes remote m).remote_providers
    → omit (has_provenance final) remote ≡ []
all_provided [] m final u e = refl
all_provided (p ∷ remote) m final u e =
    let found : lookup p.destination final.remote_providers ≡ some p.url =
      ap (lookup p.destination) e
      ∙ lookup-record_remotes p.destination remote (record_remote p m) u.0
      ∙ lookup-insert p.destination p.destination p.url m.remote_providers
      ∙ rw (text_eq_refl p.destination) refl in
    let known : has_provenance final p ≡ true = rw found (text_eq_refl p.url) in
    rw known (all_provided remote (record_remote p m) final u.1 e)

-- Planning a bundle against the manifest of its own plan copies nothing, keeps every asset and
-- discards no cache: for assets with different destinations and known modification times, and
-- providers with different destinations.
pub plan_stage_stable :
    (previous : RuntimeManifest) (sources : List AssetSource) (remote : List RemoteProvider)
    → AllDifferent (map destination_of sources)
    → AllDifferent (map provider_destination remote)
    → All HasTime sources
    → let again = plan_stage (plan_stage previous sources remote).manifest sources remote in
      (again.copies ≡ [])
      × (again.skipped ≡ map destination_of sources)
      × (again.required_deletes ≡ [])
plan_stage_stable previous sources remote u v t =
    let first = (plan_stage_parts previous sources remote).3 in
    let final = (plan_stage previous sources remote).manifest in
    let parts = plan_stage_parts final sources remote in
    let fresh = All-fresh sources default_manifest final u t (
      ap (λ m. m.assets) first
      ∙ assets-record_remotes remote (record_assets sources default_manifest)) in
    let provided =
      all_provided remote (record_assets sources default_manifest) final v
        (ap (λ m. m.remote_providers) first) in
    (
      parts.0 ∙ ap (map copy_of) fresh.0,
      parts.1 ∙ ap (map destination_of) fresh.1,
      parts.2 ∙ ap (map provider_destination) provided,
    )
