-- ===== src/Generation/Effects/Commits.antt =====
-- The replacement of one file (src/core/runtime_generation/staging.rs, `write_atomically` and
-- `copy_staged_file`): the old contents or the new ones.
use clash_verge_service_ipc.Prelude.{
  After, After-same, After-resume, false, ◌≡◌, ◌∙◌, Option, none, some, [], Text, text_eq, Result,
  ok, err,
}
use clash_verge_service_ipc.Generation.{
  Os, IoError, Host, call, arrive, as_result, fault_of, part_of, put, remove_file, replace, renamed,
  write_to, written, write_temp, copy_file, staging_temp_path, next_sequence,
}
use clash_verge_service_ipc.Generation.Names.{Ordinary, staging_temp_path-apart}
use clash_verge_service_ipc.Generation.Retry.{while_the_core_lets_go}
use clash_verge_service_ipc.Generation.Write.{
  or_absent, remove_staged_file, or_discard, replace_staged_file, settle, copy_staged_file,
  write_atomically,
}
use clash_verge_service_ipc.Generation.Effects.{
  while_the_core_lets_go-After, At, Kept, put-At, put-At-same, call-At, remove_file-At, write_to-At,
  write_temp-At, copy_file-At, chain,
}

-- An action that keeps a path keeps it once its result is read as the caller does.
pub Kept-state :
    (q : Text) (v : Option Text) {A : Type 0} (r : Result IoError A) (h : Host)
    → Kept q v r h
    → At q v h
Kept-state q v (ok a) h k = k
Kept-state q v (err e) h k = k

module _ (q : Text) (v : Option Text) where
  pub remove_staged_file-At :
      (os : Os) (path : Text) (h : Host)
      → text_eq path q ≡ false
      → At q v h
      → Kept q v (remove_staged_file os path h).0 (remove_staged_file os path h).1
  unfolding remove_staged_file
  remove_staged_file-At os path h apart =
      while_the_core_lets_go-After (At q v) (At q v) os
        (λ s. (or_absent (remove_file path s).0, (remove_file path s).1))
        (λ s p. After-same (At q v) (or_absent (remove_file path s).0) (remove_file path s).1 (
          Kept-state q v (remove_file path s).0 (remove_file path s).1
            (remove_file-At q v path s apart p)))
        h

  or_discard-At :
      (staged : Text) (r : Result IoError Unit) (h : Host)
      → text_eq staged q ≡ false
      → Kept q v r h
      → Kept q v (or_discard staged r h).0 (or_discard staged r h).1
  or_discard-At staged (ok u) h apart p = p
  or_discard-At staged (err e) h apart p =
      Kept-state q v (remove_file staged h).0 (remove_file staged h).1
        (remove_file-At q v staged h apart p)

  replace-At :
      (source destination : Text) (h : Host)
      → text_eq source q ≡ false
      → text_eq destination q ≡ false
      → At q v h
      → Kept q v (replace source destination h).0 (replace source destination h).1
  unfolding replace
  replace-At source destination h apart other p =
      chain q v call _ h (call-At q v h p) λ _ s at. by_contents (s.files source) s at
    where
      by_contents :
          (c : Option Text) (s : Host)
          → At q v s
          → Kept q v (renamed source destination c s).0 (renamed source destination c s).1
      by_contents none s at = at
      by_contents (some c) s at =
          put-At q v destination (some c) (put source none s) other
            (put-At q v source none s apart at)

  replace_staged_file-At :
      (os : Os) (staged destination : Text) (h : Host)
      → text_eq staged q ≡ false
      → text_eq destination q ≡ false
      → At q v h
      → Kept q v
          (replace_staged_file os staged destination h).0
          (replace_staged_file os staged destination h).1
  unfolding replace_staged_file
  replace_staged_file-At os staged destination h apart other p =
      let m = while_the_core_lets_go os (replace staged destination) in
      or_discard-At staged (m h).0 (m h).1 apart (
        while_the_core_lets_go-After (At q v) (At q v) os (replace staged destination)
          (λ s. replace-At staged destination s apart other) h p)

  settle-At :
      (os : Os) (staged destination : Text) (r : Result IoError Unit) (h : Host)
      → text_eq staged q ≡ false
      → text_eq destination q ≡ false
      → Kept q v r h
      → Kept q v (settle os staged destination r h).0 (settle os staged destination r h).1
  settle-At os staged destination (ok u) h apart other p =
      replace_staged_file-At os staged destination h apart other p
  settle-At os staged destination (err e) h apart other p = or_discard-At staged (err e) h apart p

  -- A copy and a write leave every other path alone, but for the names of temporaries.
  pub copy_staged_file-At :
      (os : Os) (source destination : Text) (h : Host)
      → Ordinary q
      → text_eq destination q ≡ false
      → At q v h
      → Kept q v
          (copy_staged_file os source destination h).0
          (copy_staged_file os source destination h).1
  unfolding copy_staged_file At
  copy_staged_file-At os source destination h ordinary other p =
      chain q v call _ h (call-At q v h p) λ _ s at.
        let staged = staging_temp_path destination s in
        let apart = staging_temp_path-apart destination q s ordinary in
        settle-At os staged destination (copy_file source staged (next_sequence s)).0
          (copy_file source staged (next_sequence s)).1 apart other
          (copy_file-At q v source staged (next_sequence s) apart at)

  pub write_atomically-At :
      (os : Os) (destination contents : Text) (h : Host)
      → Ordinary q
      → text_eq destination q ≡ false
      → At q v h
      → Kept q v
          (write_atomically os destination contents h).0
          (write_atomically os destination contents h).1
  unfolding write_atomically At
  write_atomically-At os destination contents h ordinary other p =
      let staged = staging_temp_path destination h in
      let apart = staging_temp_path-apart destination q h ordinary in
      settle-At os staged destination (write_temp staged contents (next_sequence h)).0
        (write_temp staged contents (next_sequence h)).1 apart other
        (write_temp-At q v staged contents (next_sequence h) apart p)

-- The temporary holds the new contents and the destination the old ones.
record Staged (staged destination : Text) (contents : Text) (old : Option Text) (h : Host)
    : Type 0 where
  new : At staged (some contents) h
  kept : At destination old h

module _ (destination contents : Text) (old : Option Text) where
  -- The new contents after a success, the old ones after an error.
  abbrev pub Replaced : Result IoError Unit → Host → Type 0
  Replaced r h = After (λ _. At destination (some contents)) (At destination old) r h

  module _ (staged : Text) (apart : text_eq staged destination ≡ false) where
    abbrev IsStaged : Host → Type 0
    IsStaged h = Staged staged destination contents old h

    write_to-Staged :
        (h : Host)
        → At destination old h
        → After
            (λ _. IsStaged)
            (At destination old)
            (write_to staged contents h).0
            (write_to staged contents h).1
    unfolding write_to At
    write_to-Staged h p = by_fault (fault_of h.turns)
      where
        by_fault :
            (fault : Option IoError)
            → After
                (λ _. IsStaged)
                (At destination old)
                (written staged contents (part_of h.turns) fault (arrive h)).0
                (written staged contents (part_of h.turns) fault (arrive h)).1
        by_fault none = record {
          new = put-At-same staged (some contents) (arrive h);
          kept = put-At destination old staged (some contents) (arrive h) apart p;
        }
        by_fault (some e) =
            put-At destination old staged (some (part_of h.turns)) (arrive h) apart p

    call-Staged : (h : Host) → IsStaged h → After (λ _. IsStaged) IsStaged (call h).0 (call h).1
    unfolding call At
    call-Staged h p =
        After-same IsStaged (as_result (fault_of h.turns)) (arrive h)
          (record { new = p.new; kept = p.kept })

    write_temp-Staged :
        (h : Host)
        → At destination old h
        → After
            (λ _. IsStaged)
            (At destination old)
            (write_temp staged contents h).0
            (write_temp staged contents h).1
    unfolding write_temp
    write_temp-Staged h p =
        After-resume (λ _. At destination old) (λ _. IsStaged) (At destination old)
          (write_to staged [] h).0 _ (write_to staged [] h).1
          (write_to-At destination old staged [] h apart p)
          λ _ s at.
            After-resume (λ _. IsStaged) (λ _. IsStaged) (At destination old)
              (write_to staged contents s).0 _ (write_to staged contents s).1 (write_to-Staged s at)
              λ _ t st. weaker (call t).0 (call t).1 (call-Staged t st)
      where
        weaker :
            (r : Result IoError Unit) (s : Host)
            → After (λ _. IsStaged) IsStaged r s
            → After (λ _. IsStaged) (At destination old) r s
        weaker (ok u) s a = a
        weaker (err e) s a = a.kept

    -- A failed rename leaves both files, so that the next round can rename.
    replace-Replaced :
        (h : Host)
        → IsStaged h
        → After
            (λ _. At destination (some contents))
            IsStaged
            (replace staged destination h).0
            (replace staged destination h).1
    unfolding replace At
    replace-Replaced h p =
        After-resume (λ _. IsStaged) (λ _. At destination (some contents)) IsStaged (call h).0 _
          (call h).1 (call-Staged h p) λ _ s st. by_contents (s.files staged) s st st.new
      where
        by_contents :
            (c : Option Text) (s : Host)
            → IsStaged s
            → c ≡ some contents
            → After
                (λ _. At destination (some contents))
                IsStaged
                (renamed staged destination c s).0
                (renamed staged destination c s).1
        by_contents none s st e = cc (e)
        by_contents (some c) s st e = put-At-same destination (some c) (put staged none s) ∙ e

    replace_staged_file-Replaced :
        (os : Os) (h : Host)
        → IsStaged h
        → Replaced
            (replace_staged_file os staged destination h).0
            (replace_staged_file os staged destination h).1
    unfolding replace_staged_file
    replace_staged_file-Replaced os h p =
        let m = while_the_core_lets_go os (replace staged destination) in
        discarded (m h).0 (m h).1 (
          while_the_core_lets_go-After IsStaged (At destination (some contents)) os
            (replace staged destination) replace-Replaced h p)
      where
        discarded :
            (r : Result IoError Unit) (s : Host)
            → After (λ _. At destination (some contents)) IsStaged r s
            → Replaced (or_discard staged r s).0 (or_discard staged r s).1
        discarded (ok u) s a = a
        discarded (err e) s a =
            Kept-state destination old (remove_file staged s).0 (remove_file staged s).1
              (remove_file-At destination old staged s apart a.kept)

    settle-Replaced :
        (os : Os) (r : Result IoError Unit) (h : Host)
        → After (λ _. IsStaged) (At destination old) r h
        → Replaced (settle os staged destination r h).0 (settle os staged destination r h).1
    settle-Replaced os (ok u) h a = replace_staged_file-Replaced os h a
    settle-Replaced os (err e) h a =
        Kept-state destination old (remove_file staged h).0 (remove_file staged h).1
          (remove_file-At destination old staged h apart a)

  -- An atomic write: after a success the destination holds the new contents, and after an error the
  -- old ones.
  pub write_atomically-Replaced :
      (os : Os) (h : Host)
      → Ordinary destination
      → At destination old h
      → Replaced
          (write_atomically os destination contents h).0
          (write_atomically os destination contents h).1
  unfolding write_atomically At
  write_atomically-Replaced os h ordinary p =
      let staged = staging_temp_path destination h in
      let apart = staging_temp_path-apart destination destination h ordinary in
      settle-Replaced staged apart os (write_temp staged contents (next_sequence h)).0
        (write_temp staged contents (next_sequence h)).1
        (write_temp-Staged staged apart (next_sequence h) p)
