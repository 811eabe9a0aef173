-- ===== src/Generation/Effects/Untouched.antt =====
-- The files of a generation that a plan does not name (src/core/runtime_generation/assets.rs,
-- `materialize_plan`), such as those that the core keeps there.
use clash_verge_service_ipc.Prelude.{
  After, After-resume, false, ◌≡◌, refl, Option, none, some, Text, text_eq, All, map, Result, ok,
  err,
}
use clash_verge_service_ipc.ServiceError.{ServiceError}
use clash_verge_service_ipc.Destination.{runtime_config_file_name, manifest_file_name}
use clash_verge_service_ipc.Plan.{RuntimeManifest, StagePlan}
use clash_verge_service_ipc.Generation.{Os, Host}
use clash_verge_service_ipc.Generation.Names.{Ordinary}
use clash_verge_service_ipc.Generation.Write.{
  Serde, join, write_atomically, commit_encoded, commit_staged_config,
}
use clash_verge_service_ipc.Generation.Materialize.{
  Answers, remove_required, copy_all, commit, start_answers, materialize_plan,
}
use clash_verge_service_ipc.Generation.Effects.{At, Kept, chain}
use clash_verge_service_ipc.Generation.Effects.Commits.{write_atomically-At}
use clash_verge_service_ipc.Generation.Effects.Plans.{
  Clear, copy_destination, Leaves, remove_required-At, copy_all-At, sweep-At,
}
use clash_verge_service_ipc.Generation.Effects.Outcomes.{or_forget-After}

-- A path that neither the plan names nor the service uses: no configuration, manifest or temporary,
-- and nothing that a destination of the plan resolves to.
pub record IsUnnamed (generation : Text) (plan : StagePlan) (q : Text) : Type 0 where
  pub ordinary : Ordinary q
  pub no_config : text_eq (join generation runtime_config_file_name) q ≡ false
  pub no_manifest : text_eq (join generation manifest_file_name) q ≡ false
  pub not_removed : All (Clear q generation) plan.required_deletes
  pub not_copied : All (Clear q generation) (map copy_destination plan.copies)
  pub not_swept : All (Clear q generation) plan.hygiene_deletes

module _ {E : Type 0} (answers : Answers E) (os : Os) (serde : Serde) (generation yaml : Text)
    (q : Text) (v : Option Text) where
  encoded-At :
      (encoded : Option Text) (h : Host)
      → Ordinary q
      → text_eq (join generation runtime_config_file_name) q ≡ false
      → text_eq (join generation manifest_file_name) q ≡ false
      → At q v h
      → Kept q v
          (commit_encoded os generation (join generation runtime_config_file_name) yaml encoded h).0
          (commit_encoded os generation (join generation runtime_config_file_name) yaml encoded h).1
  encoded-At none h ordinary config manifest p = p
  encoded-At (some contents) h ordinary config manifest p =
      chain q v (write_atomically os (join generation manifest_file_name) contents) _ h
        (write_atomically-At q v os (join generation manifest_file_name) contents h ordinary
          manifest p)
        λ _ s at.
          write_atomically-At q v os (join generation runtime_config_file_name) yaml s ordinary
            config at

  pub commit-At :
      (recorded : RuntimeManifest) (h : Host)
      → Ordinary q
      → text_eq (join generation runtime_config_file_name) q ≡ false
      → text_eq (join generation manifest_file_name) q ≡ false
      → At q v h
      → Leaves answers q v os generation
          (commit answers os serde generation
            (join generation runtime_config_file_name)
            yaml
            recorded
            h).0
          (commit answers os serde generation
            (join generation runtime_config_file_name)
            yaml
            recorded
            h).1
  unfolding commit commit_staged_config
  commit-At recorded h ordinary config manifest p =
      let m =
        commit_encoded os generation (join generation runtime_config_file_name) yaml
          (serde.to_vec recorded) in
      or_forget-After answers os generation q v manifest (λ _. At q v) (m h).0 (m h).1
        (encoded-At (serde.to_vec recorded) h ordinary config manifest p)

-- A start leaves every file alone that its plan does not name and that is not the service's own,
-- also when it fails half-way.
pub materialize_plan-Untouched :
    (os : Os) (serde : Serde) (generation yaml : Text) (plan : StagePlan) (h : Host) (q : Text)
    → IsUnnamed generation plan q
    → (materialize_plan os serde generation plan yaml h).1.files q ≡ h.files q
unfolding materialize_plan At
materialize_plan-Untouched os serde generation yaml plan h q unnamed =
    state (materialize_plan os serde generation plan yaml h).0
      (materialize_plan os serde generation plan yaml h).1 kept
  where
    v : Option Text
    v = h.files q

    state : (r : Result ServiceError Unit) (s : Host) → After (λ _. At q v) (At q v) r s → At q v s
    state (ok u) s k = k
    state (err e) s k = k

    copying : Host → Result ServiceError RuntimeManifest × Host
    copying = copy_all start_answers os generation plan.copies plan.manifest

    removal : Host → Result ServiceError Unit × Host
    removal = remove_required start_answers os generation plan.required_deletes

    committing : RuntimeManifest → Host → Result ServiceError Unit × Host
    committing =
        commit start_answers os serde generation (join generation runtime_config_file_name) yaml

    kept :
        After
          (λ _. At q v)
          (At q v)
          (materialize_plan os serde generation plan yaml h).0
          (materialize_plan os serde generation plan yaml h).1
    kept =
        After-resume (λ _. At q v) (λ _. At q v) (At q v) (removal h).0 _ (removal h).1
          (remove_required-At start_answers q v os generation plan.required_deletes h
            unnamed.not_removed refl)
          λ _ s at.
            After-resume (λ _. At q v) (λ _. At q v) (At q v) (copying s).0 _ (copying s).1
              (copy_all-At start_answers q v os generation plan.copies plan.manifest s
                unnamed.ordinary unnamed.not_copied at)
              λ manifest t at_t.
                After-resume (λ _. At q v) (λ _. At q v) (At q v) (committing manifest t).0 _
                  (committing manifest t).1
                  (commit-At start_answers os serde generation yaml q v manifest t unnamed.ordinary
                    unnamed.no_config unnamed.no_manifest at_t)
                  λ _ u at_u.
                    sweep-At q v os generation plan.hygiene_deletes u unnamed.not_swept at_u
