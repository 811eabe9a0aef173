-- ===== src/Generation/Gather.antt =====
-- The bundle of a request, checked against the application's files
-- (src/core/runtime_generation/assets.rs, `gather_bundle`). Paths are those of Unix.
pub mod Permitted
use clash_verge_service_ipc.Prelude.{
  ℕ, Bool, true, false, ◌&&◌, ◌||◌, not, Option, none, some, List, [], ◌∷◌, ◌++◌, map, length,
  if◌then◌else◌, is_empty, member, Text, bytes, text_eq, Result, ok, err, map_err, and_then, Action,
  pure, fail, resume, ◌>>=◌, ◌>>◌,
}
use clash_verge_service_ipc.Prelude.Split.{rsplit_once_at}
use clash_verge_service_ipc.ServiceError.{ServiceError, invalid_asset, invalid_install_location}
use clash_verge_service_ipc.Structure.{AuthenticatedOwner}
use clash_verge_service_ipc.Destination.{
  Component, root_dir, cur_dir, parent_dir, normal, components, is_absolute, resolve_key,
}
use clash_verge_service_ipc.Plan.{
  RuntimeAsset, RemoteProvider, AssetSource, declared_remote_providers,
}
use clash_verge_service_ipc.Plan.Sources.{destination_of}
use clash_verge_service_ipc.Generation.{
  Os, linux, macos, windows, IoError, FileKind, ordinary, symlink, directory, SourceFile, Host,
  call, metadata,
}

-- src/core/structure.rs
pub record RuntimeBundle : Type 0 where
  pub yaml : Text
  pub core_path : Text
  pub assets : List RuntimeAsset
  pub remote_providers : List RemoteProvider

-- `==` and `starts_with` on paths go by their components.
abbrev pub component_eq : Component → Component → Bool
component_eq root_dir root_dir = true
component_eq cur_dir cur_dir = true
component_eq parent_dir parent_dir = true
component_eq (normal s) (normal t) = text_eq s t
component_eq _ _ = false

abbrev pub starts_with : List Component → List Component → Bool
starts_with path [] = true
starts_with [] (c ∷ root) = false
starts_with (d ∷ path) (c ∷ root) = component_eq d c && starts_with path root

abbrev pub path_eq : List Component → List Component → Bool
path_eq [] [] = true
path_eq (c ∷ s) (d ∷ t) = component_eq c d && path_eq s t
path_eq _ _ = false

abbrev reverse_onto : List Component → List Component → List Component
reverse_onto [] onto = onto
reverse_onto (c ∷ path) onto = reverse_onto path (c ∷ onto)

-- `Path::extension` is `app`: what follows the last dot of a name, which is not its first byte.
abbrev is_app_extension : Option (Text × Text) → Bool
is_app_extension none = false
is_app_extension (some (stem, extension)) = not (is_empty stem) && text_eq extension (bytes "app")

unfoldable pub has_app_extension : Component → Bool
has_app_extension (normal name) = is_app_extension (rsplit_once_at (bytes ".") name)
has_app_extension _ = false

-- The first ancestor that is an application, from the end of the path, which comes reversed.
unfoldable pub app_ancestor : List Component → Option (List Component)
unfolding has_app_extension
app_ancestor [] = none
app_ancestor (c ∷ before) =
    let outer = app_ancestor before in
    if has_app_extension c then some (reverse_onto (c ∷ before) []) else outer

-- `Path::parent`, of a reversed path.
abbrev parent_of : List Component → Option (List Component)
parent_of [] = none
parent_of (root_dir ∷ before) = none
parent_of (_ ∷ before) = some (reverse_onto before [])

unfoldable pub application_bundle_root : Os → Text → Option (List Component)
unfolding app_ancestor
application_bundle_root macos core_path = app_ancestor (reverse_onto (components core_path) [])
application_bundle_root _ core_path = parent_of (reverse_onto (components core_path) [])

-- The `Applications` beside the first `Library` among the ancestors, from the end of the path.
abbrev is_library : Component → Bool
is_library (normal name) = text_eq name (bytes "Library")
is_library _ = false

unfoldable pub home_applications : List Component → Option (List Component)
home_applications [] = none
home_applications (c ∷ before) =
    let outer = home_applications before in
    if is_library c then some (reverse_onto before (normal (bytes "Applications") ∷ [])) else outer

abbrev pub is_under : List Component → Option (List Component) → Bool
is_under path none = false
is_under path (some root) = starts_with path root

unfoldable pub is_permitted_macos_core_location : List Component → Option (List Component) → Bool
is_permitted_macos_core_location canonical home =
    starts_with canonical (components (bytes "/Applications")) || is_under canonical home

-- A call whose failure is an invalid asset.
abbrev pub or_invalid : {A : Type 0} → Action IoError Host A → Action ServiceError Host A
or_invalid step h = (map_err (λ _. invalid_asset) (step h).0, (step h).1)

abbrev pub is_ordinary : FileKind → Bool
is_ordinary ordinary = true
is_ordinary _ = false

-- `symlink_metadata` shows the kind of the file itself.
abbrev pub seen_ordinary : Option SourceFile → Action ServiceError Host Unit
seen_ordinary none = fail invalid_asset
seen_ordinary (some file) = if is_ordinary file.kind then pure tt else fail invalid_asset

abbrev pub canonicalized : Option SourceFile → Action ServiceError Host Text
canonicalized none = fail invalid_asset
canonicalized (some file) = pure file.canonical

abbrev pub inspect_path : Text → Action ServiceError Host Text
inspect_path path = do
  or_invalid call
  λ h. seen_ordinary (h.sources path) h
  or_invalid call
  λ h. canonicalized (h.sources path) h

unfoldable pub canonical_regular_file : Text → Action ServiceError Host Text
unfolding call
canonical_regular_file path = if is_absolute path then inspect_path path else fail invalid_asset

abbrev pub checked_core : Os → AuthenticatedOwner → Text → Action ServiceError Host Text
checked_core macos owner canonical =
    if is_permitted_macos_core_location (components canonical)
      (home_applications (reverse_onto (components owner.app_data_root) []))
    then pure canonical
    else fail invalid_install_location
checked_core _ owner canonical = pure canonical

unfoldable pub validate_core_path : Os → AuthenticatedOwner → Text → Action ServiceError Host Text
unfolding canonical_regular_file is_permitted_macos_core_location home_applications
validate_core_path os owner core_path = canonical_regular_file core_path >>= checked_core os owner

abbrev pub lies_under : AuthenticatedOwner → Option (List Component) → Text → Bool
lies_under owner app_bundle_root canonical =
    starts_with (components canonical) (components owner.app_data_root)
    || is_under (components canonical) app_bundle_root

abbrev pub checked_source :
    AuthenticatedOwner → Option (List Component) → Text → Text → Action ServiceError Host Text
checked_source owner app_bundle_root source canonical =
    if not (path_eq (components canonical) (components source))
    then fail invalid_asset
    else if not (lies_under owner app_bundle_root canonical)
    then fail invalid_asset
    else pure canonical

unfoldable pub validate_source :
    AuthenticatedOwner → Option (List Component) → Text → Action ServiceError Host Text
unfolding canonical_regular_file
validate_source owner app_bundle_root source =
    canonical_regular_file source >>= checked_source owner app_bundle_root source

-- The source that is planned for an asset, if its destination is not taken yet.
abbrev pub source_of : Text → Text → SourceFile → AssetSource
source_of source destination file = record {
  asset = record { source = source; destination = destination };
  len = length file.contents;
  mtime_ns = file.mtime_ns;
}

abbrev pub lifted : {A : Type 0} → Result ServiceError A → Action ServiceError Host A
lifted result h = (result, h)

abbrev pub unless_taken : List Text → AssetSource → Action ServiceError Host AssetSource
unless_taken keys source =
    if member source.asset.destination keys then fail invalid_asset else pure source

-- One round of the loop: the source, its destination, its metadata, and the test on the keys.
unfoldable pub gather_asset :
    AuthenticatedOwner
    → Option (List Component)
    → List Text
    → RuntimeAsset
    → Action ServiceError Host AssetSource
unfolding validate_source metadata
gather_asset owner root keys asset = do
  source ← validate_source owner root asset.source
  destination ← lifted (resolve_key asset.destination)
  file ← or_invalid (metadata source)
  unless_taken keys (source_of source destination file)

unfoldable pub gather_assets :
    AuthenticatedOwner
    → Option (List Component)
    → List Text
    → List RuntimeAsset
    → Action ServiceError Host (List AssetSource)
unfolding gather_asset
gather_assets owner root keys [] = pure []
gather_assets owner root keys (asset ∷ assets) = do
  source ← gather_asset owner root keys asset
  sources ← gather_assets owner root (source.asset.destination ∷ keys) assets
  pure (source ∷ sources)

pub record GatheredBundle : Type 0 where
  pub sources : List AssetSource
  pub remote : List RemoteProvider

abbrev pub declared_beside :
    List RemoteProvider → List AssetSource → Result ServiceError GatheredBundle
declared_beside providers sources =
    and_then (declared_remote_providers providers (λ d. member d (map destination_of sources)))
      λ remote. ok (record { sources = sources; remote = remote })

-- `core_path` is the canonical one.
unfoldable pub gather_bundle :
    Os → AuthenticatedOwner → RuntimeBundle → Text → Action ServiceError Host GatheredBundle
unfolding gather_assets application_bundle_root
gather_bundle os owner bundle core_path = do
  sources ← gather_assets owner (application_bundle_root os core_path) [] bundle.assets
  lifted (declared_beside bundle.remote_providers sources)
