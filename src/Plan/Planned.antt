-- ===== src/Plan/Planned.antt =====
-- What a plan does with every source and every provider (`plan_stage` of
-- src/core/runtime_generation/staging.rs), told without the plan's own tests and records.
use clash_verge_service_ipc.Prelude.{
  ℕ, ◌≡◌, refl, sym, ◌∙◌, ap, ◌≢◌, Bool, true, false, Option, none, some, List, [], ◌∷◌, map, keep,
  omit, Text, text_eq_iff, ==→≡, and_iff, ◌↔◌, if◌then◌else◌,
}
use mathlib.Core.Path.{subst}
use clash_verge_service_ipc.Prelude.TextMap.{lookup}
use clash_verge_service_ipc.Plan.{
  SourceIdentity, RuntimeManifest, PlannedCopy, StagePlan, RemoteProvider, AssetSource,
  default_manifest, identity_of, option_eq, is_some, identity_eq, still_matches, recorded_matches,
  is_fresh, copy_of, url_eq, has_provenance, plan_stage,
}
use clash_verge_service_ipc.Plan.Declared.{
  or_else, declared_asset, declared_url, lookup-record_assets, lookup-record_remotes, or_else-none,
}
use clash_verge_service_ipc.Plan.Sources.{
  destination_of, provider_destination, record_assets, plan_stage_parts,
}
use clash_verge_service_ipc.Plan.Stable.{identity_matches}
use clash_verge_service_ipc.Plan.Sweep.{assets-record_remotes, remote-record_assets}

-- The previous manifest records this source for the destination, with its length and its time, and
-- the time is known.
pub record IsUnchanged (previous : RuntimeManifest) (s : AssetSource) : Type 0 where
  pub recorded : SourceIdentity
  pub found : lookup s.asset.destination previous.assets ≡ some recorded
  pub same_source : recorded.source ≡ s.asset.source
  pub same_len : recorded.len ≡ s.len
  pub same_time : recorded.mtime_ns ≡ s.mtime_ns
  pub time_known : s.mtime_ns ≢ none

-- Which sources are copied, and which destinations are kept, both in order.
pub data Sorts (previous : RuntimeManifest)
    : List AssetSource → List PlannedCopy → List Text → Type 0 where
  sorted : Sorts previous [] [] []
  keeps :
      {s : AssetSource} {sources : List AssetSource} {copies : List PlannedCopy} {kept : List Text}
      → IsUnchanged previous s
      → Sorts previous sources copies kept
      → Sorts previous (s ∷ sources) copies (s.asset.destination ∷ kept)
  copied :
      {s : AssetSource} {sources : List AssetSource} {copies : List PlannedCopy} {kept : List Text}
      → ¬ IsUnchanged previous s
      → Sorts previous sources copies kept
      → Sorts previous
          (s ∷ sources)
          (record {
            source = s.asset.source;
            destination = s.asset.destination;
            identity = record { source = s.asset.source; len = s.len; mtime_ns = s.mtime_ns };
          }
            ∷ copies)
          kept

-- Which caches of providers are discarded, in order.
pub data Discards (previous : RuntimeManifest) : List RemoteProvider → List Text → Type 0 where
  discarded : Discards previous [] []
  reuses :
      {p : RemoteProvider} {remote : List RemoteProvider} {stale : List Text}
      → lookup p.destination previous.remote_providers ≡ some p.url
      → Discards previous remote stale
      → Discards previous (p ∷ remote) stale
  discards :
      {p : RemoteProvider} {remote : List RemoteProvider} {stale : List Text}
      → lookup p.destination previous.remote_providers ≢ some p.url
      → Discards previous remote stale
      → Discards previous (p ∷ remote) (p.destination ∷ stale)

pub record IsPlanned (previous : RuntimeManifest) (sources : List AssetSource)
    (remote : List RemoteProvider) (plan : StagePlan) : Type 0 where
  pub sources_sorted : Sorts previous sources plan.copies plan.skipped
  pub caches_discarded : Discards previous remote plan.required_deletes
  pub assets_recorded : (k : Text) → lookup k plan.manifest.assets ≡ declared_asset k sources
  pub urls_recorded : (k : Text) → lookup k plan.manifest.remote_providers ≡ declared_url k remote

option_eq_iff : (a b : Option ℕ) → option_eq a b ≡ true → a ≡ b
option_eq_iff none none h = refl
option_eq_iff none (some b) h = cc
option_eq_iff (some a) none h = cc
option_eq_iff (some a) (some b) h = ap some (==→≡ a b h)

is_some-ne_none : (o : Option ℕ) → is_some o ≡ true → o ≢ none
is_some-ne_none none h = λ e. cc
is_some-ne_none (some n) h = λ e. cc

ne_none-is_some : (o : Option ℕ) → o ≢ none → is_some o ≡ true
ne_none-is_some none h = absurd (h refl)
ne_none-is_some (some n) h = refl

module _ (previous : RuntimeManifest) (s : AssetSource) where
  -- What the test of the plan finds is what the predicate says.
  fresh-IsUnchanged :
      (o : Option SourceIdentity)
      → lookup s.asset.destination previous.assets ≡ o
      → recorded_matches o (identity_of s) ≡ true
      → IsUnchanged previous s
  unfolding still_matches identity_eq
  fresh-IsUnchanged none e h = cc (h)
  fresh-IsUnchanged (some i) e h =
      let (known, same) = (and_iff _ _).0 h in
      let (first, time) = (and_iff _ _).0 same in
      let (source, len) = (and_iff _ _).0 first in
      let same_time = option_eq_iff i.mtime_ns s.mtime_ns time in
      record {
        recorded = i;
        found = e;
        same_source = (text_eq_iff i.source s.asset.source).0 source;
        same_len = ==→≡ i.len s.len len;
        same_time = same_time;
        time_known = subst (λ t. t ≢ none) same_time (is_some-ne_none i.mtime_ns known);
      }

  identity_is : (u : IsUnchanged previous s) → u.recorded ≡ identity_of s
  identity_is u = cc (u.same_source, u.same_len, u.same_time)

  stale-not-IsUnchanged : is_fresh previous s ≡ false → ¬ IsUnchanged previous s
  stale-not-IsUnchanged h u =
      let matches = identity_matches (identity_of s) (ne_none-is_some s.mtime_ns u.time_known) in
      let found = u.found ∙ ap some (identity_is u) in
      cc (sym h ∙ ap (λ o. recorded_matches o (identity_of s)) found ∙ matches)

sources-Sorts :
    (previous : RuntimeManifest) (sources : List AssetSource)
    → Sorts previous sources
        (map copy_of (omit (is_fresh previous) sources))
        (map destination_of (keep (is_fresh previous) sources))
sources-Sorts previous [] = sorted
sources-Sorts previous (s ∷ sources) =
    by_fresh (sources-Sorts previous sources) (is_fresh previous s) refl
  where
    Rest : Type 0
    Rest =
        Sorts previous sources (map copy_of (omit (is_fresh previous) sources))
          (map destination_of (keep (is_fresh previous) sources))

    by_fresh :
        Rest
        → (fresh : Bool) → is_fresh previous s ≡ fresh
        → Sorts previous
            (s ∷ sources)
            (map copy_of (
              if fresh
              then omit (is_fresh previous) sources
              else s ∷ omit (is_fresh previous) sources))
            (map destination_of (
              if fresh
              then s ∷ keep (is_fresh previous) sources
              else keep (is_fresh previous) sources))
    by_fresh rest true e = keeps (fresh-IsUnchanged previous s _ refl e) rest
    by_fresh rest false e = copied (stale-not-IsUnchanged previous s e) rest

url_eq_iff : (o : Option Text) (url : Text) → (url_eq o url ≡ true) ↔ (o ≡ some url)
url_eq_iff none url = (λ h. cc, λ h. cc)
url_eq_iff (some known) url =
    (λ h. ap some ((text_eq_iff known url).0 h), λ h. (text_eq_iff known url).1 (from_some h))
  where
    from_some : {s t : Text} → some s ≡ some t → s ≡ t
    from_some h = cc (h)

remote-Discards :
    (previous : RuntimeManifest) (remote : List RemoteProvider)
    → Discards previous remote (map provider_destination (omit (has_provenance previous) remote))
remote-Discards previous [] = discarded
remote-Discards previous (p ∷ remote) =
    by_known (remote-Discards previous remote) (has_provenance previous p) refl
  where
    Rest : Type 0
    Rest =
        Discards previous remote (map provider_destination (omit (has_provenance previous) remote))

    known_iff :
        (has_provenance previous p ≡ true)
        ↔ (lookup p.destination previous.remote_providers ≡ some p.url)
    known_iff = url_eq_iff (lookup p.destination previous.remote_providers) p.url

    by_known :
        Rest
        → (known : Bool) → has_provenance previous p ≡ known
        → Discards previous (p ∷ remote) (
            map provider_destination (
              if known
              then omit (has_provenance previous) remote
              else p ∷ omit (has_provenance previous) remote))
    by_known rest true e = reuses (known_iff.0 e) rest
    by_known rest false e = discards (λ h. cc (sym e ∙ known_iff.1 h)) rest

-- A plan sorts the sources in order: it copies, with its present identity, exactly each one that the
-- previous manifest does not record with the same source, the same length and the same known time,
-- and keeps the destinations of the others. It discards, in order, the cache of exactly each provider
-- whose URL the previous manifest does not record. Its manifest holds for every destination the
-- identity of the last source and the URL of the last provider that are declared for it, and nothing
-- for a destination that is not declared.
pub plan_stage-IsPlanned :
    (previous : RuntimeManifest) (sources : List AssetSource) (remote : List RemoteProvider)
    → IsPlanned previous sources remote (plan_stage previous sources remote)
plan_stage-IsPlanned previous sources remote =
    let plan = plan_stage previous sources remote in
    let parts = plan_stage_parts previous sources remote in
    let assets = record_assets sources default_manifest in
    record {
      sources_sorted =
          subst (λ c. Sorts previous sources c plan.skipped) (sym parts.0)
            (subst (λ d. Sorts previous sources (map copy_of (omit (is_fresh previous) sources)) d)
              (sym parts.1) (sources-Sorts previous sources));
      caches_discarded =
          subst (Discards previous remote) (sym parts.2) (remote-Discards previous remote);
      assets_recorded = λ k.
          ap (λ m. lookup k m.assets) parts.3
          ∙ ap (lookup k) (assets-record_remotes remote assets)
          ∙ lookup-record_assets k sources default_manifest
          ∙ or_else-none (declared_asset k sources);
      urls_recorded = λ k.
          ap (λ m. lookup k m.remote_providers) parts.3
          ∙ lookup-record_remotes k remote assets
          ∙ ap (λ m. or_else (declared_url k remote) (lookup k m))
              (remote-record_assets sources default_manifest)
          ∙ or_else-none (declared_url k remote);
    }
