-- ===== src/Generation/Effects/Plans.antt =====
-- What the loops over a plan leave at a path that none of its destinations resolves to
-- (src/core/runtime_generation/assets.rs and staging.rs).
use clash_verge_service_ipc.Prelude.{
  After, After-same, After-resume, false, ◌≡◌, Option, none, some, List, [], ◌∷◌, Text, text_eq,
  All, map, Result, ok, err, map_err, Action,
}
use clash_verge_service_ipc.ServiceError.{ServiceError}
use clash_verge_service_ipc.Destination.{resolve_in_generation}
use clash_verge_service_ipc.Plan.{RuntimeManifest, PlannedCopy}
use clash_verge_service_ipc.Generation.{Os, IoError, Host, metadata, inspected, SourceFile, call}
use clash_verge_service_ipc.Generation.Names.{Ordinary}
use clash_verge_service_ipc.Generation.Write.{
  remove_staged_file, copy_staged_file, source_identity_changed,
}
use clash_verge_service_ipc.Generation.Materialize.{
  Answers, or_io, at_target, remove_required, recorded_after, copy_planned, copy_all, swept, sweep,
}
use clash_verge_service_ipc.Generation.Effects.{At, Kept, call-At, chain}
use clash_verge_service_ipc.Generation.Effects.Commits.{
  Kept-state, remove_staged_file-At, copy_staged_file-At,
}

-- What a destination resolves to is another path.
abbrev pub IsClear : Text → Result ServiceError Text → Type 0
IsClear q (ok target) = text_eq target q ≡ false
IsClear q (err error) = Unit

abbrev pub Clear : Text → Text → Text → Type 0
Clear q generation destination = IsClear q (resolve_in_generation generation destination)

abbrev pub copy_destination : PlannedCopy → Text
copy_destination copy = copy.destination

module _ {E : Type 0} (answers : Answers E) (q : Text) (v : Option Text) (os : Os)
    (generation : Text) where
  -- The path is left alone, whatever the result.
  abbrev pub Leaves : {A : Type 0} → Result E A → Host → Type 0
  Leaves r h = After (λ _. At q v) (At q v) r h

  or_io-Leaves :
      {A : Type 0} (r : Result IoError A) (h : Host)
      → Kept q v r h
      → Leaves (map_err answers.of_io r) h
  or_io-Leaves (ok a) h k = k
  or_io-Leaves (err e) h k = k

  at_target-Leaves :
      {A : Type 0} (r : Result ServiceError Text) (k : Text → Action E Host A) (h : Host)
      → IsClear q r
      → At q v h
      → ((target : Text) → text_eq target q ≡ false → Leaves (k target h).0 (k target h).1)
      → Leaves (at_target answers r k h).0 (at_target answers r k h).1
  at_target-Leaves (ok target) k h clear p f = f target clear
  at_target-Leaves (err error) k h clear p f = p

  pub remove_required-At :
      (destinations : List Text) (h : Host)
      → All (Clear q generation) destinations
      → At q v h
      → Leaves
          (remove_required answers os generation destinations h).0
          (remove_required answers os generation destinations h).1
  unfolding remove_required
  remove_required-At [] h clear p = p
  remove_required-At (destination ∷ later) h (here, clear) p =
      let step =
        at_target answers (resolve_in_generation generation destination)
          (λ target. or_io answers (remove_staged_file os target)) in
      After-resume (λ _. At q v) (λ _. At q v) (At q v) (step h).0
        (λ _. remove_required answers os generation later) (step h).1
        (at_target-Leaves (resolve_in_generation generation destination) _ h here p λ target apart.
          or_io-Leaves (remove_staged_file os target h).0 (remove_staged_file os target h).1
            (remove_staged_file-At q v os target h apart p))
        (λ _ s at. remove_required-At later s clear at)

  identity-At : (source : Text) (h : Host) → At q v h → At q v (metadata source h).1
  unfolding metadata
  identity-At source h p =
      Kept-state q v (metadata source h).0 (metadata source h).1
        (chain q v call _ h (call-At q v h p) λ _ s at. by_file (s.sources source) s at)
    where
      by_file :
          (f : Option SourceFile) (s : Host)
          → At q v s
          → Kept q v (inspected f s).0 (inspected f s).1
      by_file none s at = at
      by_file (some file) s at = at

  copy_planned-At :
      (copy : PlannedCopy) (manifest : RuntimeManifest) (h : Host)
      → Ordinary q
      → Clear q generation copy.destination
      → At q v h
      → Leaves
          (copy_planned answers os generation copy manifest h).0
          (copy_planned answers os generation copy manifest h).1
  unfolding copy_planned source_identity_changed
  copy_planned-At copy manifest h ordinary here p =
      let step =
        at_target answers (resolve_in_generation generation copy.destination)
          (λ target. or_io answers (copy_staged_file os copy.source target)) in
      After-resume (λ _. At q v) (λ _. At q v) (At q v) (step h).0 _ (step h).1
        (at_target-Leaves (resolve_in_generation generation copy.destination) _ h here p
          λ target apart.
            or_io-Leaves (copy_staged_file os copy.source target h).0
              (copy_staged_file os copy.source target h).1
              (copy_staged_file-At q v os copy.source target h ordinary apart p))
        (λ _ s at.
          After-same (At q v) (recorded_after answers copy manifest _) _
            (identity-At copy.source s at))

  pub copy_all-At :
      (copies : List PlannedCopy) (manifest : RuntimeManifest) (h : Host)
      → Ordinary q
      → All (Clear q generation) (map copy_destination copies)
      → At q v h
      → Leaves
          (copy_all answers os generation copies manifest h).0
          (copy_all answers os generation copies manifest h).1
  unfolding copy_all
  copy_all-At [] manifest h ordinary clear p = p
  copy_all-At (copy ∷ later) manifest h ordinary (here, clear) p =
      After-resume (λ _. At q v) (λ _. At q v) (At q v)
        (copy_planned answers os generation copy manifest h).0 _
        (copy_planned answers os generation copy manifest h).1
        (copy_planned-At copy manifest h ordinary here p)
        (λ m s at. copy_all-At later m s ordinary clear at)

module _ (q : Text) (v : Option Text) (os : Os) (generation : Text) where
  swept-At :
      (r : Result ServiceError Text) (h : Host) → IsClear q r → At q v h → At q v (swept os r h)
  swept-At (ok target) h clear p =
      Kept-state q v (remove_staged_file os target h).0 (remove_staged_file os target h).1
        (remove_staged_file-At q v os target h clear p)
  swept-At (err error) h clear p = p

  pub sweep-At :
      (destinations : List Text) (h : Host)
      → All (Clear q generation) destinations
      → At q v h
      → At q v (sweep os generation destinations h)
  unfolding sweep
  sweep-At [] h clear p = p
  sweep-At (destination ∷ later) h (here, clear) p =
      sweep-At later (swept os (resolve_in_generation generation destination) h) clear
        (swept-At (resolve_in_generation generation destination) h here p)
