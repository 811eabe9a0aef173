-- ===== src/Plan/Declared.antt =====
-- What the manifest of a plan holds for a destination (`plan_stage` of
-- src/core/runtime_generation/staging.rs), told from what is declared.
use clash_verge_service_ipc.Prelude.{
  ◌≡◌, refl, ◌∙◌, ap, Bool, true, false, Option, none, some, List, [], ◌∷◌, Text, text_eq,
  if◌then◌else◌,
}
use clash_verge_service_ipc.Prelude.TextMap.{lookup, lookup-insert}
use clash_verge_service_ipc.Plan.{
  SourceIdentity, RuntimeManifest, RemoteProvider, AssetSource, identity_of, record_asset,
  record_remote,
}
use clash_verge_service_ipc.Plan.Sources.{record_assets, record_remotes}

abbrev pub or_else : {A : Type 0} → Option A → Option A → Option A
or_else none o = o
or_else (some a) o = some a

-- What is declared for a destination: a later entry takes the place of an earlier one.
abbrev pub declared_asset : Text → List AssetSource → Option SourceIdentity
declared_asset k [] = none
declared_asset k (s ∷ sources) = or_else (declared_asset k sources) (
    if text_eq s.asset.destination k
    then some (record { source = s.asset.source; len = s.len; mtime_ns = s.mtime_ns })
    else none)

abbrev pub declared_url : Text → List RemoteProvider → Option Text
declared_url k [] = none
declared_url k (p ∷ remote) =
    or_else (declared_url k remote) (if text_eq p.destination k then some p.url else none)

or_else-if :
    {A : Type 0} (o : Option A) (b : Bool) (a : A) (m : Option A)
    → or_else o (if b then some a else m) ≡ or_else (or_else o (if b then some a else none)) m
or_else-if none true a m = refl
or_else-if none false a m = refl
or_else-if (some x) b a m = refl

pub lookup-record_assets :
    (k : Text) (sources : List AssetSource) (m : RuntimeManifest)
    → lookup k (record_assets sources m).assets
      ≡ or_else (declared_asset k sources) (lookup k m.assets)
lookup-record_assets k [] m = refl
lookup-record_assets k (s ∷ sources) m =
    lookup-record_assets k sources (record_asset s m)
    ∙ ap (or_else (declared_asset k sources))
        (lookup-insert s.asset.destination k (identity_of s) m.assets)
    ∙ or_else-if (declared_asset k sources) (text_eq s.asset.destination k) (identity_of s)
        (lookup k m.assets)

pub lookup-record_remotes :
    (k : Text) (remote : List RemoteProvider) (m : RuntimeManifest)
    → lookup k (record_remotes remote m).remote_providers
      ≡ or_else (declared_url k remote) (lookup k m.remote_providers)
lookup-record_remotes k [] m = refl
lookup-record_remotes k (p ∷ remote) m =
    lookup-record_remotes k remote (record_remote p m)
    ∙ ap (or_else (declared_url k remote)) (lookup-insert p.destination k p.url m.remote_providers)
    ∙ or_else-if (declared_url k remote) (text_eq p.destination k) p.url
        (lookup k m.remote_providers)

pub or_else-none : {A : Type 0} (o : Option A) → or_else o none ≡ o
or_else-none none = refl
or_else-none (some a) = refl
