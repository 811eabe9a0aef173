-- ===== src/Plan/Sources.antt =====
-- What is copied, kept and discarded, against a description by filters.
use clash_verge_service_ipc.Prelude.{
  ◌≡◌, refl, sym, ◌∙◌, ap, List, [], ◌∷◌, ◌++◌, map, keep, omit, Text, Bool-cases, inl, inr,
}
use mathlib.Core.List.{append-nil, append_assoc}
use clash_verge_service_ipc.Plan.{
  RuntimeManifest, StagePlan, AssetSource, RemoteProvider, default_plan, is_fresh, copy_of,
  record_asset, record_remote, plan_source, plan_sources, has_provenance, plan_provider,
  plan_remote, plan_stage,
}

abbrev pub destination_of : AssetSource → Text
destination_of s = s.asset.destination

abbrev pub provider_destination : RemoteProvider → Text
provider_destination p = p.destination

abbrev pub record_assets : List AssetSource → RuntimeManifest → RuntimeManifest
record_assets [] m = m
record_assets (s ∷ sources) m = record_assets sources (record_asset s m)

abbrev pub record_remotes : List RemoteProvider → RuntimeManifest → RuntimeManifest
record_remotes [] m = m
record_remotes (p ∷ remote) m = record_remotes remote (record_remote p m)

-- The first loop leaves a plan with these parts.
record SourcesPlanned (previous : RuntimeManifest) (sources : List AssetSource)
    (before after : StagePlan) : Type 0 where
  pub copied : after.copies ≡ before.copies ++ map copy_of (omit (is_fresh previous) sources)
  pub kept : after.skipped ≡ before.skipped ++ map destination_of (keep (is_fresh previous) sources)
  pub same_deletes : after.required_deletes ≡ before.required_deletes
  pub recorded : after.manifest ≡ record_assets sources before.manifest

plan_sources-SourcesPlanned :
    (previous : RuntimeManifest) (sources : List AssetSource) (plan : StagePlan)
    → SourcesPlanned previous sources plan (plan_sources previous sources plan)
unfolding plan_sources
plan_sources-SourcesPlanned previous [] plan = record {
  copied = sym (append-nil plan.copies);
  kept = sym (append-nil plan.skipped);
  same_deletes = refl;
  recorded = refl;
}
plan_sources-SourcesPlanned previous (s ∷ sources) plan =
    let ih = plan_sources-SourcesPlanned previous sources (plan_source previous s plan) in
    elim (Bool-cases (is_fresh previous s)) [
      | inl fresh ↦ record {
        copied = ih.copied ∙ rw fresh;
        kept = ih.kept ∙ rw fresh (append_assoc plan.skipped _ _);
        same_deletes = ih.same_deletes ∙ rw fresh;
        recorded = ih.recorded ∙ rw fresh;
      }
      | inr stale ↦ record {
        copied = ih.copied ∙ rw stale (append_assoc plan.copies _ _);
        kept = ih.kept ∙ rw stale;
        same_deletes = ih.same_deletes ∙ rw stale;
        recorded = ih.recorded ∙ rw stale;
      }
    ]

record RemotePlanned (previous : RuntimeManifest) (remote : List RemoteProvider)
    (before after : StagePlan) : Type 0 where
  pub same_copies : after.copies ≡ before.copies
  pub same_skipped : after.skipped ≡ before.skipped
  pub discarded :
      after.required_deletes
      ≡ before.required_deletes ++ map provider_destination (omit (has_provenance previous) remote)
  pub recorded : after.manifest ≡ record_remotes remote before.manifest

plan_remote-RemotePlanned :
    (previous : RuntimeManifest) (remote : List RemoteProvider) (plan : StagePlan)
    → RemotePlanned previous remote plan (plan_remote previous remote plan)
unfolding plan_remote
plan_remote-RemotePlanned previous [] plan = record {
  same_copies = refl;
  same_skipped = refl;
  discarded = sym (append-nil plan.required_deletes);
  recorded = refl;
}
plan_remote-RemotePlanned previous (p ∷ remote) plan =
    let ih = plan_remote-RemotePlanned previous remote (plan_provider previous p plan) in
    elim (Bool-cases (has_provenance previous p)) [
      | inl known ↦ record {
        same_copies = ih.same_copies ∙ rw known;
        same_skipped = ih.same_skipped ∙ rw known;
        discarded = ih.discarded ∙ rw known;
        recorded = ih.recorded ∙ rw known;
      }
      | inr changed ↦ record {
        same_copies = ih.same_copies ∙ rw changed;
        same_skipped = ih.same_skipped ∙ rw changed;
        discarded = ih.discarded ∙ rw changed (append_assoc plan.required_deletes _ _);
        recorded = ih.recorded ∙ rw changed;
      }
    ]

module _ (previous : RuntimeManifest) (sources : List AssetSource)
    (remote : List RemoteProvider) where
  -- The lists of a plan are filters of the sources and the providers by the tests of its two loops,
  -- and its manifest is that of recording them one after another.
  pub plan_stage_parts :
      ((plan_stage previous sources remote).copies ≡ map copy_of (omit (is_fresh previous) sources))
      × ((plan_stage previous sources remote).skipped
          ≡ map destination_of (keep (is_fresh previous) sources))
      × ((plan_stage previous sources remote).required_deletes
          ≡ map provider_destination (omit (has_provenance previous) remote))
      × ((plan_stage previous sources remote).manifest
          ≡ record_remotes remote (record_assets sources default_plan.manifest))
  unfolding plan_stage
  plan_stage_parts =
      let first = plan_sources-SourcesPlanned previous sources default_plan in
      let second =
        plan_remote-RemotePlanned previous remote (plan_sources previous sources default_plan) in
      (
        second.same_copies ∙ first.copied,
        second.same_skipped ∙ first.kept,
        second.discarded
            ∙ ap (λ d. d ++ map provider_destination (omit (has_provenance previous) remote))
                first.same_deletes,
        second.recorded ∙ ap (record_remotes remote) first.recorded,
      )
