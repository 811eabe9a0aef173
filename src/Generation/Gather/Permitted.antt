-- ===== src/Generation/Gather/Permitted.antt =====
-- Which files a bundle may be gathered from (src/core/runtime_generation/assets.rs,
-- `gather_bundle`).
use clash_verge_service_ipc.Prelude.{
  After, After-ok, After-resume, Bool, true, false, ◌≡◌, refl, Option, List, [], ◌∷◌, if◌then◌else◌,
  member, not, map, Text, All, Result, ok, err, and_then, pure, fail, text_eq_iff, arith,
}
use clash_verge_service_ipc.ServiceError.{ServiceError, invalid_asset}
use clash_verge_service_ipc.Structure.{AuthenticatedOwner}
use clash_verge_service_ipc.Destination.{Component, components, resolve_key}
use clash_verge_service_ipc.Plan.{
  RuntimeAsset, RemoteProvider, AssetSource, declared_remote_providers,
}
use clash_verge_service_ipc.Plan.Stable.{AllDifferent}
use clash_verge_service_ipc.Plan.Sources.{destination_of}
use clash_verge_service_ipc.Generation.{Os, Host, SourceFile, metadata}
use clash_verge_service_ipc.Generation.Gather.{
  RuntimeBundle, GatheredBundle, or_invalid, canonical_regular_file, path_eq, lies_under,
  checked_source, validate_source, source_of, gather_asset, gather_assets, application_bundle_root,
  gather_bundle,
}

abbrev Nothing : Host → Type 0
Nothing h = Unit

anything : {A : Type 0} (r : Result ServiceError A) (h : Host) → After (λ _. Nothing) Nothing r h
anything (ok a) h = tt
anything (err e) h = tt

-- A gathered source: its path lies under the owner's application data or under the application of
-- the core, and its destination is the key of a destination that resolves.
pub record IsPermitted (owner : AuthenticatedOwner) (root : Option (List Component))
    (s : AssetSource) : Type 0 where
  pub inside : lies_under owner root s.asset.source ≡ true
  pub declared : Text
  pub resolves : resolve_key declared ≡ ok s.asset.destination

-- What one round gives, beside keys that are taken.
record IsGathered (owner : AuthenticatedOwner) (root : Option (List Component)) (keys : List Text)
    (s : AssetSource) : Type 0 where
  permitted : IsPermitted owner root s
  not_taken : member s.asset.destination keys ≡ false

abbrev AreGathered :
    AuthenticatedOwner → Option (List Component) → List Text → List AssetSource → Type 0
AreGathered owner root keys sources =
    All (IsPermitted owner root) sources
    × All (λ s. member s.asset.destination keys ≡ false) sources
    × AllDifferent (map destination_of sources)

-- Sources whose keys are not among more keys.
untaken :
    (d : Text) (keys : List Text) (sources : List AssetSource)
    → All (λ s. member s.asset.destination (d ∷ keys) ≡ false) sources
    → (member d (map destination_of sources) ≡ false)
      × All (λ s. member s.asset.destination keys ≡ false) sources
untaken d keys [] h = (refl, tt)
untaken d keys (s ∷ sources) (here, h) =
    let (free, rest) = untaken d keys sources h in
    (
      ground
          (arith, here, free, text_eq_iff d s.asset.destination, text_eq_iff s.asset.destination d),
      (ground (arith, here), rest),
    )

module _ (owner : AuthenticatedOwner) (root : Option (List Component)) where
  checked_source-inside :
      (source canonical : Text) (h : Host)
      → After
          (λ c _. lies_under owner root c ≡ true)
          Nothing
          (checked_source owner root source canonical h).0
          (checked_source owner root source canonical h).1
  checked_source-inside source canonical h =
      by_path (not (path_eq (components canonical) (components source)))
        (lies_under owner root canonical) refl
    where
      run : Bool → Bool → Result ServiceError Text × Host
      run differs inside =
          (if differs
              then fail invalid_asset
              else if not inside
              then fail invalid_asset
              else pure canonical)
            h

      by_path :
          (differs inside : Bool)
          → lies_under owner root canonical ≡ inside
          → After
              (λ c _. lies_under owner root c ≡ true)
              Nothing
              (run differs inside).0
              (run differs inside).1
      by_path true inside e = tt
      by_path false false e = tt
      by_path false true e = e

  gather_asset-IsGathered :
      (keys : List Text) (asset : RuntimeAsset) (h : Host)
      → After
          (λ s _. IsGathered owner root keys s)
          Nothing
          (gather_asset owner root keys asset h).0
          (gather_asset owner root keys asset h).1
  unfolding gather_asset validate_source
  gather_asset-IsGathered keys asset h =
      let validated = validate_source owner root asset.source in
      After-resume (λ c _. lies_under owner root c ≡ true) (λ s _. IsGathered owner root keys s)
        Nothing (validated h).0 _ (validated h).1
        (After-resume (λ _. Nothing) (λ c _. lies_under owner root c ≡ true) Nothing
          (canonical_regular_file asset.source h).0 _ (canonical_regular_file asset.source h).1
          (anything _ (canonical_regular_file asset.source h).1)
          (λ canonical s _. checked_source-inside asset.source canonical s))
        λ source s inside.
          After-resume (λ d _. resolve_key asset.destination ≡ ok d)
            (λ s _. IsGathered owner root keys s) Nothing (resolve_key asset.destination) _ s
            (same (resolve_key asset.destination) s)
            λ destination t resolves.
              After-resume (λ _. Nothing) (λ s _. IsGathered owner root keys s) Nothing
                (or_invalid (metadata source) t).0 _ (or_invalid (metadata source) t).1
                (anything _ (or_invalid (metadata source) t).1)
                λ file u _.
                  by_key source destination file u inside resolves (member destination keys) refl
    where
      same : (r : Result ServiceError Text) (s : Host) → After (λ d _. r ≡ ok d) Nothing r s
      same (ok d) s = refl
      same (err e) s = tt

      run : Text → Text → SourceFile → Bool → Host → Result ServiceError AssetSource × Host
      run source destination file taken =
          if taken then fail invalid_asset else pure (source_of source destination file)

      by_key :
          (source destination : Text) (file : SourceFile) (u : Host)
          → lies_under owner root source ≡ true
          → resolve_key asset.destination ≡ ok destination
          → (taken : Bool) → member destination keys ≡ taken
          → After
              (λ s _. IsGathered owner root keys s)
              Nothing
              (run source destination file taken u).0
              (run source destination file taken u).1
      by_key source destination file u inside resolves true e = tt
      by_key source destination file u inside resolves false e = record {
        permitted = record { inside = inside; declared = asset.destination; resolves = resolves };
        not_taken = e;
      }

  gather_assets-AreGathered :
      (keys : List Text) (assets : List RuntimeAsset) (h : Host)
      → After
          (λ sources _. AreGathered owner root keys sources)
          Nothing
          (gather_assets owner root keys assets h).0
          (gather_assets owner root keys assets h).1
  unfolding gather_assets
  gather_assets-AreGathered keys [] h = (tt, tt, tt)
  gather_assets-AreGathered keys (asset ∷ assets) h =
      After-resume (λ s _. IsGathered owner root keys s)
        (λ sources _. AreGathered owner root keys sources) Nothing
        (gather_asset owner root keys asset h).0 _ (gather_asset owner root keys asset h).1
        (gather_asset-IsGathered keys asset h)
        λ s t first.
          After-resume (λ sources _. AreGathered owner root (s.asset.destination ∷ keys) sources)
            (λ sources _. AreGathered owner root keys sources) Nothing
            (gather_assets owner root (s.asset.destination ∷ keys) assets t).0 _
            (gather_assets owner root (s.asset.destination ∷ keys) assets t).1
            (gather_assets-AreGathered (s.asset.destination ∷ keys) assets t)
            λ sources u (permitted, others, different).
              let (free, rest) = untaken s.asset.destination keys sources others in
              ((first.permitted, permitted), (first.not_taken, rest), (free, different))

-- When a bundle is gathered, the path of every source lies under the application data of the owner
-- or under the application of the core, every destination of a source is the key of a destination
-- that resolves inside a generation, and no two sources have the same destination.
pub gather_bundle-IsPermitted :
    (os : Os) (owner : AuthenticatedOwner) (bundle : RuntimeBundle) (core_path : Text) (h : Host)
    (gathered : GatheredBundle)
    → (gather_bundle os owner bundle core_path h).0 ≡ ok gathered
    → All (IsPermitted owner (application_bundle_root os core_path)) gathered.sources
      × AllDifferent (map destination_of gathered.sources)
unfolding gather_bundle
gather_bundle-IsPermitted os owner bundle core_path h gathered =
    After-ok (λ g _. Goal g) Nothing (gather_bundle os owner bundle core_path h).0
      (gather_bundle os owner bundle core_path h).1 gathered
      (After-resume (λ sources _. AreGathered owner root [] sources) (λ g _. Goal g) Nothing
        (gather_assets owner root [] bundle.assets h).0 _
        (gather_assets owner root [] bundle.assets h).1
        (gather_assets-AreGathered owner root [] bundle.assets h)
        λ sources s (permitted, _, different).
          beside sources (permitted, different)
            (declared_remote_providers bundle.remote_providers
              (λ d. member d (map destination_of sources)))
            s)
  where
    root : Option (List Component)
    root = application_bundle_root os core_path

    Goal : GatheredBundle → Type 0
    Goal g = All (IsPermitted owner root) g.sources × AllDifferent (map destination_of g.sources)

    beside :
        (sources : List AssetSource)
        → All (IsPermitted owner root) sources × AllDifferent (map destination_of sources)
        → (r : Result ServiceError (List RemoteProvider)) (s : Host)
        → After
            (λ g _. Goal g)
            Nothing
            (and_then r (λ remote. ok (record { sources = sources; remote = remote })))
            s
    beside sources good (ok remote) s = good
    beside sources good (err e) s = tt
