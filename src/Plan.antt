-- ===== src/Plan.antt =====
-- Which files a staging deletes, copies and keeps (src/core/runtime_generation/staging.rs).
pub mod Sources
pub mod Sweep
pub mod Stable
pub mod Declared
pub mod Planned
use clash_verge_service_ipc.Prelude.{
  ℕ, Bool, true, false, ◌&&◌, ◌||◌, not, Option, none, some, List, [], ◌∷◌, ◌++◌, ◌==◌, leb,
  if◌then◌else◌, Text, text_eq, text_compare, Result, ok, err, and_then,
}
use Prim.Native.Nat.{Ordering}
use clash_verge_service_ipc.Prelude.TextMap.{TextMap, lookup, contains_key, insert, keys}
use clash_verge_service_ipc.ServiceError.{ServiceError, invalid_asset}
use clash_verge_service_ipc.Destination.{resolve_key}

pub record SourceIdentity : Type 0 where
  pub source : Text
  pub len : ℕ  -- u64
  pub mtime_ns : Option ℕ  -- u128

abbrev pub option_eq : Option ℕ → Option ℕ → Bool
option_eq none none = true
option_eq (some a) (some b) = a == b
option_eq _ _ = false

abbrev is_some : Option ℕ → Bool
is_some none = false
is_some (some a) = true

-- The derived `==`.
unfoldable pub identity_eq : SourceIdentity → SourceIdentity → Bool
identity_eq a b = text_eq a.source b.source && a.len == b.len && option_eq a.mtime_ns b.mtime_ns

unfoldable pub still_matches : SourceIdentity → SourceIdentity → Bool
unfolding identity_eq
still_matches recorded current = is_some recorded.mtime_ns && identity_eq recorded current

pub record RuntimeManifest : Type 0 where
  pub assets : TextMap SourceIdentity
  pub remote_providers : TextMap Text

abbrev pub default_manifest : RuntimeManifest
default_manifest = record { assets = []; remote_providers = [] }

pub record PlannedCopy : Type 0 where
  pub source : Text
  pub destination : Text
  pub identity : SourceIdentity

pub record StagePlan : Type 0 where
  pub required_deletes : List Text
  pub copies : List PlannedCopy
  pub skipped : List Text
  pub hygiene_deletes : List Text
  pub manifest : RuntimeManifest

abbrev pub default_plan : StagePlan
default_plan = record {
  required_deletes = [];
  copies = [];
  skipped = [];
  hygiene_deletes = [];
  manifest = default_manifest;
}

-- src/core/structure.rs
pub record RuntimeAsset : Type 0 where
  pub source : Text
  pub destination : Text

pub record RemoteProvider : Type 0 where
  pub destination : Text
  pub url : Text

pub record AssetSource : Type 0 where
  pub asset : RuntimeAsset
  pub len : ℕ
  pub mtime_ns : Option ℕ

abbrev pub identity_of : AssetSource → SourceIdentity
identity_of s = record { source = s.asset.source; len = s.len; mtime_ns = s.mtime_ns }

-- `is_some_and(|recorded| recorded.still_matches(&identity))`
abbrev recorded_matches : Option SourceIdentity → SourceIdentity → Bool
recorded_matches none identity = false
recorded_matches (some recorded) identity = still_matches recorded identity

abbrev pub is_fresh : RuntimeManifest → AssetSource → Bool
is_fresh previous s = recorded_matches (lookup s.asset.destination previous.assets) (identity_of s)

abbrev pub copy_of : AssetSource → PlannedCopy
copy_of s = record {
  source = s.asset.source;
  destination = s.asset.destination;
  identity = identity_of s;
}

abbrev record_asset : AssetSource → RuntimeManifest → RuntimeManifest
record_asset s m = record m { assets = insert s.asset.destination (identity_of s) m.assets }

abbrev record_remote : RemoteProvider → RuntimeManifest → RuntimeManifest
record_remote p m = record m { remote_providers = insert p.destination p.url m.remote_providers }

-- One round of the first loop.
abbrev plan_source : RuntimeManifest → AssetSource → StagePlan → StagePlan
plan_source previous s plan =
    if is_fresh previous s
    then record plan {
      skipped = plan.skipped ++ (s.asset.destination ∷ []);
      manifest = record_asset s plan.manifest;
    }
    else record plan {
      copies = plan.copies ++ (copy_of s ∷ []);
      manifest = record_asset s plan.manifest;
    }

unfoldable pub plan_sources : RuntimeManifest → List AssetSource → StagePlan → StagePlan
plan_sources previous [] plan = plan
plan_sources previous (s ∷ sources) plan =
    plan_sources previous sources (plan_source previous s plan)

abbrev url_eq : Option Text → Text → Bool
url_eq none url = false
url_eq (some recorded) url = text_eq recorded url

-- The recorded source of the cache is this one.
abbrev pub has_provenance : RuntimeManifest → RemoteProvider → Bool
has_provenance previous p = url_eq (lookup p.destination previous.remote_providers) p.url

-- One round of the second loop.
abbrev plan_provider : RuntimeManifest → RemoteProvider → StagePlan → StagePlan
plan_provider previous p plan =
    if has_provenance previous p
    then record plan { manifest = record_remote p plan.manifest }
    else record plan {
      required_deletes = plan.required_deletes ++ (p.destination ∷ []);
      manifest = record_remote p plan.manifest;
    }

unfoldable pub plan_remote : RuntimeManifest → List RemoteProvider → StagePlan → StagePlan
plan_remote previous [] plan = plan
plan_remote previous (p ∷ remote) plan = plan_remote previous remote (plan_provider previous p plan)

abbrev pub is_declared : RuntimeManifest → Text → Bool
is_declared manifest key =
    contains_key key manifest.assets || contains_key key manifest.remote_providers

-- The third loop, over the recorded keys.
unfoldable pub undeclared : RuntimeManifest → List Text → List Text
undeclared manifest [] = []
undeclared manifest (key ∷ recorded) =
    let later = undeclared manifest recorded in
    if is_declared manifest key then later else key ∷ later

-- `sort` and `dedup` of a `Vec<String>`.
abbrev before_first : Ordering → Text → Text → List Text → List Text → List Text
before_first Ordering.gt k j rest later = j ∷ later
before_first _ k j rest later = k ∷ j ∷ rest

unfoldable pub insert_sorted : Text → List Text → List Text
insert_sorted k [] = k ∷ []
insert_sorted k (j ∷ rest) =
    let later = insert_sorted k rest in before_first (text_compare k j) k j rest later

unfoldable pub sort : List Text → List Text
unfolding insert_sorted
sort [] = []
sort (k ∷ rest) = insert_sorted k (sort rest)

abbrev push_new : Text → List Text → List Text
push_new k [] = k ∷ []
push_new k (j ∷ rest) = if text_eq k j then j ∷ rest else k ∷ j ∷ rest

unfoldable pub dedup : List Text → List Text
dedup [] = []
dedup (k ∷ rest) = push_new k (dedup rest)

unfoldable pub plan_stage : RuntimeManifest → List AssetSource → List RemoteProvider → StagePlan
unfolding plan_sources plan_remote undeclared sort dedup
plan_stage previous sources remote =
    let declared = plan_remote previous remote (plan_sources previous sources default_plan) in
    record declared {
      hygiene_deletes = dedup (
          sort (
            undeclared declared.manifest (keys previous.assets ++ keys previous.remote_providers)));
    }

-- One provider, beside those already seen.
abbrev declare : Text → Text → Option Text → TextMap Text → Result ServiceError (TextMap Text)
declare destination url none seen = ok (insert destination url seen)
declare destination url (some known) seen = if text_eq known url then ok seen else err invalid_asset

unfoldable pub declare_all :
    List RemoteProvider → (Text → Bool) → TextMap Text → Result ServiceError (TextMap Text)
declare_all [] is_asset seen = ok seen
declare_all (p ∷ declared) is_asset seen = and_then (resolve_key p.destination) λ destination.
    if is_asset destination
    then err invalid_asset
    else and_then (declare destination p.url (lookup destination seen) seen)
        (declare_all declared is_asset)

abbrev as_providers : TextMap Text → List RemoteProvider
as_providers [] = []
as_providers ((destination, url) ∷ seen) =
    record { destination = destination; url = url } ∷ as_providers seen

-- `asset_destinations.contains`
unfoldable pub declared_remote_providers :
    List RemoteProvider → (Text → Bool) → Result ServiceError (List RemoteProvider)
unfolding declare_all
declared_remote_providers declared is_asset =
    and_then (declare_all declared is_asset []) λ seen. ok (as_providers seen)
