-- ===== src/Generation/Effects/Gathering.antt =====
-- The checks of a bundle read only (src/core/runtime_generation/assets.rs, `gather_bundle`).
use clash_verge_service_ipc.Prelude.{
  After, After-same, After-resume, Bool, true, false, Option, none, some, List, [], ◌∷◌,
  if◌then◌else◌, member, not, Text, Result, map_err, Action, pure, fail, resume,
}
use clash_verge_service_ipc.ServiceError.{ServiceError, invalid_asset}
use clash_verge_service_ipc.Structure.{AuthenticatedOwner}
use clash_verge_service_ipc.Destination.{Component, is_absolute, components, resolve_key}
use clash_verge_service_ipc.Plan.{RuntimeAsset}
use clash_verge_service_ipc.Generation.{
  Os, linux, macos, windows, IoError, Host, SourceFile, call, metadata, inspected,
}
use clash_verge_service_ipc.Generation.Gather.{
  RuntimeBundle, or_invalid, is_ordinary, seen_ordinary, canonicalized, inspect_path,
  canonical_regular_file, checked_core, validate_core_path, path_eq, lies_under, checked_source,
  validate_source, gather_asset, gather_assets, application_bundle_root, gather_bundle, source_of,
  declared_beside,
}
use clash_verge_service_ipc.Generation.Effects.{At, call-At, chain}
use clash_verge_service_ipc.Generation.Effects.Commits.{Kept-state}

module _ (q : Text) (v : Option Text) where
  -- The path is left alone, whatever the result.
  abbrev pub Reads : {A : Type 0} → Result ServiceError A → Host → Type 0
  Reads r h = After (λ _. At q v) (At q v) r h

  -- An action that reads only.
  abbrev pub IsRead : {A : Type 0} → Action ServiceError Host A → Type 0
  IsRead m = (h : Host) → At q v h → Reads (m h).0 (m h).1

  pub then-IsRead :
      {A B : Type 0} (m : Action ServiceError Host A) (k : A → Action ServiceError Host B)
      → IsRead m
      → ((a : A) → IsRead (k a))
      → (h : Host) → At q v h
      → Reads (resume (m h).0 k (m h).1).0 (resume (m h).0 k (m h).1).1
  then-IsRead m k first later h p =
      After-resume (λ _. At q v) (λ _. At q v) (At q v) (m h).0 k (m h).1 (first h p)
        (λ a s at. later a s at)

  fixed-IsRead : {A : Type 0} (r : Result ServiceError A) → IsRead (λ h. (r, h))
  fixed-IsRead r h p = After-same (At q v) r h p

  or_invalid-IsRead :
      {A : Type 0} (m : Action IoError Host A)
      → ((h : Host) → At q v h → At q v (m h).1)
      → IsRead (or_invalid m)
  or_invalid-IsRead m kept h p = After-same (At q v) (map_err _ (m h).0) (m h).1 (kept h p)

  call-state : (h : Host) → At q v h → At q v (call h).1
  call-state h p = Kept-state q v (call h).0 (call h).1 (call-At q v h p)

  metadata-state : (source : Text) (h : Host) → At q v h → At q v (metadata source h).1
  unfolding metadata
  metadata-state source h p =
      Kept-state q v (metadata source h).0 (metadata source h).1
        (chain q v call _ h (call-At q v h p) λ _ s at. by_file (s.sources source) s at)
    where
      by_file :
          (f : Option SourceFile) (s : Host)
          → At q v s
          → After (λ _. At q v) (At q v) (inspected f s).0 (inspected f s).1
      by_file none s at = at
      by_file (some file) s at = at

  if-IsRead :
      {A : Type 0} (b : Bool) (m k : Action ServiceError Host A)
      → IsRead m
      → IsRead k
      → IsRead (if b then m else k)
  if-IsRead true m k on_true on_false = on_true
  if-IsRead false m k on_true on_false = on_false

  seen-IsRead : (f : Option SourceFile) → IsRead (seen_ordinary f)
  seen-IsRead none = λ h p. p
  seen-IsRead (some file) =
      if-IsRead (is_ordinary file.kind) (pure tt) (fail invalid_asset) (λ h p. p) (λ h p. p)

  canonicalized-IsRead : (f : Option SourceFile) → IsRead (canonicalized f)
  canonicalized-IsRead none h p = p
  canonicalized-IsRead (some file) h p = p

  canonical_regular_file-IsRead : (path : Text) → IsRead (canonical_regular_file path)
  unfolding canonical_regular_file
  canonical_regular_file-IsRead path =
      if-IsRead (is_absolute path) (inspect_path path) (fail invalid_asset)
        (then-IsRead (or_invalid call) _ (or_invalid-IsRead call call-state) λ _.
          then-IsRead (λ h. seen_ordinary (h.sources path) h) _
            (λ h. seen-IsRead (h.sources path) h)
            λ _.
              then-IsRead (or_invalid call) _ (or_invalid-IsRead call call-state)
                λ _ h. canonicalized-IsRead (h.sources path) h)
        (λ h p. p)

  checked_core-IsRead :
      (os : Os) (owner : AuthenticatedOwner) (canonical : Text)
      → IsRead (checked_core os owner canonical)
  checked_core-IsRead linux owner canonical = λ h p. p
  checked_core-IsRead macos owner canonical =
      if-IsRead _ (pure canonical) (fail _) (λ h p. p) (λ h p. p)
  checked_core-IsRead (windows codes) owner canonical = λ h p. p

  pub validate_core_path-IsRead :
      (os : Os) (owner : AuthenticatedOwner) (core_path : Text)
      → IsRead (validate_core_path os owner core_path)
  unfolding validate_core_path
  validate_core_path-IsRead os owner core_path =
      then-IsRead (canonical_regular_file core_path) (checked_core os owner)
        (canonical_regular_file-IsRead core_path) (checked_core-IsRead os owner)

  checked_source-IsRead :
      (owner : AuthenticatedOwner) (root : Option (List Component)) (source canonical : Text)
      → IsRead (checked_source owner root source canonical)
  checked_source-IsRead owner root source canonical =
      if-IsRead (not (path_eq (components canonical) (components source))) (fail invalid_asset) _
        (λ h p. p)
        (if-IsRead (not (lies_under owner root canonical)) (fail invalid_asset) (pure canonical)
          (λ h p. p) (λ h p. p))

  gather_asset-IsRead :
      (owner : AuthenticatedOwner) (root : Option (List Component)) (keys : List Text)
      (asset : RuntimeAsset)
      → IsRead (gather_asset owner root keys asset)
  unfolding gather_asset validate_source
  gather_asset-IsRead owner root keys asset =
      then-IsRead (validate_source owner root asset.source) _
        (then-IsRead (canonical_regular_file asset.source) (checked_source owner root asset.source)
          (canonical_regular_file-IsRead asset.source)
          (checked_source-IsRead owner root asset.source))
        λ source.
          then-IsRead (λ h. (resolve_key asset.destination, h)) _
            (fixed-IsRead (resolve_key asset.destination))
            λ destination.
              then-IsRead (or_invalid (metadata source)) _
                (or_invalid-IsRead (metadata source) (metadata-state source))
                λ file.
                  if-IsRead (member destination keys) (fail invalid_asset)
                    (pure (source_of source destination file)) (λ h p. p) (λ h p. p)

  gather_assets-IsRead :
      (owner : AuthenticatedOwner) (root : Option (List Component)) (keys : List Text)
      (assets : List RuntimeAsset)
      → IsRead (gather_assets owner root keys assets)
  unfolding gather_assets
  gather_assets-IsRead owner root keys [] = λ h p. p
  gather_assets-IsRead owner root keys (asset ∷ assets) =
      then-IsRead (gather_asset owner root keys asset) _ (gather_asset-IsRead owner root keys asset)
        λ source.
          then-IsRead (gather_assets owner root (source.asset.destination ∷ keys) assets) _
            (gather_assets-IsRead owner root (source.asset.destination ∷ keys) assets)
            λ sources h p. p

  pub gather_bundle-IsRead :
      (os : Os) (owner : AuthenticatedOwner) (bundle : RuntimeBundle) (core_path : Text)
      → IsRead (gather_bundle os owner bundle core_path)
  unfolding gather_bundle
  gather_bundle-IsRead os owner bundle core_path =
      then-IsRead (gather_assets owner (application_bundle_root os core_path) [] bundle.assets) _
        (gather_assets-IsRead owner (application_bundle_root os core_path) [] bundle.assets)
        λ sources. fixed-IsRead (declared_beside bundle.remote_providers sources)
