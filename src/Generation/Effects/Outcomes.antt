-- ===== src/Generation/Effects/Outcomes.antt =====
-- What a start and a staging leave of the generation (src/core/runtime_generation): the
-- configuration changes only where all has succeeded, and files that the plan does not name stay.
use clash_verge_service_ipc.Prelude.{
  After, After-resume, false, ◌≡◌, refl, Option, none, some, Text, text_eq, map, Result, ok, err,
}
use clash_verge_service_ipc.Destination.{runtime_config_file_name, manifest_file_name}
use clash_verge_service_ipc.Plan.{RuntimeManifest, StagePlan}
use clash_verge_service_ipc.Generation.{Os, IoError, Host}
use clash_verge_service_ipc.Generation.Write.{
  Serde, join, write_atomically, commit_encoded, commit_staged_config, remove_staged_file,
}
use clash_verge_service_ipc.Generation.Materialize.{
  Answers, remove_required, copy_all, or_forget, commit, start_answers, materialize_plan,
}
use clash_verge_service_ipc.Generation.Effects.{At}
use clash_verge_service_ipc.Generation.Effects.Commits.{
  Kept-state, remove_staged_file-At, write_atomically-At, write_atomically-Replaced,
}
use clash_verge_service_ipc.Generation.Effects.Plans.{
  copy_destination, remove_required-At, copy_all-At, sweep-At,
}
use clash_verge_service_ipc.Generation.Effects.Owned.{
  config-IsOwned, join-Ordinary, text_eq-join, owned-Clear-All,
}

module _ {E : Type 0} (answers : Answers E) (os : Os) (generation : Text) (q : Text)
    (v : Option Text) (apart : text_eq (join generation manifest_file_name) q ≡ false) where
  -- Forgetting the manifest leaves every other path alone.
  pub or_forget-After :
      (post : Unit → Host → Type 0) (r : Result IoError Unit) (h : Host)
      → After post (At q v) r h
      → After post
          (At q v)
          (or_forget answers os generation r h).0
          (or_forget answers os generation r h).1
  or_forget-After post (ok u) h p = p
  or_forget-After post (err e) h p =
      let path = join generation manifest_file_name in
      Kept-state q v (remove_staged_file os path h).0 (remove_staged_file os path h).1
        (remove_staged_file-At q v os path h apart p)

module _ (os : Os) (serde : Serde) (generation yaml : Text) (old : Option Text) where
  -- The new configuration after a success, the old one after an error.
  abbrev pub Configured : {E A : Type 0} → Result E A → Host → Type 0
  Configured r h =
      After (λ _. At (join generation runtime_config_file_name) (some yaml))
        (At (join generation runtime_config_file_name) old) r h

  abbrev path : Text
  path = join generation runtime_config_file_name

  apart : text_eq (join generation manifest_file_name) path ≡ false
  apart = text_eq-join generation manifest_file_name runtime_config_file_name

  committed :
      (encoded : Option Text) (h : Host)
      → At path old h
      → Configured
          (commit_encoded os generation path yaml encoded h).0
          (commit_encoded os generation path yaml encoded h).1
  committed none h p = p
  committed (some encoded) h p =
      let manifest = join generation manifest_file_name in
      let ordinary = join-Ordinary generation runtime_config_file_name config-IsOwned in
      After-resume (λ _. At path old) (λ _. At path (some yaml)) (At path old)
        (write_atomically os manifest encoded h).0 _ (write_atomically os manifest encoded h).1
        (write_atomically-At path old os manifest encoded h ordinary apart p)
        (λ _ s at. write_atomically-Replaced path yaml old os s ordinary at)

  pub commit-Configured :
      {E : Type 0} (answers : Answers E) (manifest : RuntimeManifest) (h : Host)
      → At path old h
      → Configured
          (commit answers os serde generation path yaml manifest h).0
          (commit answers os serde generation path yaml manifest h).1
  unfolding commit commit_staged_config
  commit-Configured answers manifest h p =
      let m = commit_encoded os generation path yaml (serde.to_vec manifest) in
      or_forget-After answers os generation path old apart (λ _. At path (some yaml)) (m h).0
        (m h).1 (committed (serde.to_vec manifest) h p)

-- A start that writes its runtime either succeeds, and then the configuration of the generation is
-- the new one, or fails, and then it is the one that was there before; whatever the calls do, and
-- whatever the plan says.
pub materialize_plan-Configured :
    (os : Os) (serde : Serde) (generation yaml : Text) (plan : StagePlan) (h : Host)
    → Configured os serde generation yaml
        (h.files (join generation runtime_config_file_name))
        (materialize_plan os serde generation plan yaml h).0
        (materialize_plan os serde generation plan yaml h).1
unfolding materialize_plan At
materialize_plan-Configured os serde generation yaml plan h =
    let path = join generation runtime_config_file_name in
    let old = h.files path in
    let ordinary = join-Ordinary generation runtime_config_file_name config-IsOwned in
    let clear = owned-Clear-All generation runtime_config_file_name config-IsOwned in
    let removal = remove_required start_answers os generation plan.required_deletes in
    let copying = copy_all start_answers os generation plan.copies plan.manifest in
    let committing = commit start_answers os serde generation path yaml in
    After-resume (λ _. At path old) (λ _. At path (some yaml)) (At path old) (removal h).0 _
      (removal h).1
      (remove_required-At start_answers path old os generation plan.required_deletes h
        (clear plan.required_deletes) refl)
      λ _ s at.
        After-resume (λ _. At path old) (λ _. At path (some yaml)) (At path old) (copying s).0 _
          (copying s).1
          (copy_all-At start_answers path old os generation plan.copies plan.manifest s ordinary
            (clear (map copy_destination plan.copies)) at)
          λ manifest t at_t.
            After-resume (λ _. At path (some yaml)) (λ _. At path (some yaml)) (At path old)
              (committing manifest t).0 _ (committing manifest t).1
              (commit-Configured os serde generation yaml old start_answers manifest t at_t)
              λ _ u at_u.
                sweep-At path (some yaml) os generation plan.hygiene_deletes u
                  (clear plan.hygiene_deletes) at_u
