-- ===== src/Generation/Effects.antt =====
-- What the calls and the files' operations leave at one path
-- (src/core/runtime_generation/staging.rs).
pub mod Commits
pub mod Plans
pub mod Owned
pub mod Outcomes
pub mod Untouched
pub mod Gathering
pub mod Staging
use clash_verge_service_ipc.Prelude.{
  After, After-same, After-resume, After, After-same, After-resume, ℕ, zero, suc, ◌+◌, Bool, true,
  false, ◌≡◌, refl, Option, none, some, List, [], ◌∷◌, if◌then◌else◌, Text, text_eq, text_eq_refl,
  Result, ok, err, Action, resume,
}
use clash_verge_service_ipc.Generation.{
  Os, IoError, Host, SourceFile, call, arrive, as_result, fault_of, part_of, put, remove_file,
  removed, replace, renamed, write_to, written, write_temp, copy_file, copied, metadata, inspected,
  staging_temp_path, next_sequence,
}
use clash_verge_service_ipc.Generation.Retry.{
  another_round, delay_of, rounds_from, while_the_core_lets_go,
}
use clash_verge_service_ipc.Generation.Write.{
  or_absent, remove_staged_file, or_discard, replace_staged_file, settle, copy_through,
  copy_staged_file, write_through, write_atomically,
}

module _ {S : Type 0} (pre post : S → Type 0) (os : Os) (operation : Action IoError S Unit)
    (round : (s : S) → pre s → After (λ _. post) pre (operation s).0 (operation s).1) where
  -- The rule of the retries: a failed round leaves what the next one needs.
  rounds_from-After :
      (left i : ℕ) (s : S)
      → pre s
      → After
          (λ _. post)
          pre
          (rounds_from os operation left i s).0
          (rounds_from os operation left i s).1
  unfolding rounds_from
  rounds_from-After zero i s p = round s p
  rounds_from-After (suc left) i s p =
      by_result (operation s).0 (operation s).1 (round s p) (rounds_from-After left (i + 1))
    where
      again : S → Result IoError Unit × S
      again = rounds_from os operation left (i + 1)

      by_delay :
          (d : Option ℕ) (r : Result IoError Unit) (t : S)
          → After (λ _. post) pre r t
          → After (λ _. post) pre (again t).0 (again t).1
          → After (λ _. post) pre (another_round (r, t) d again).0 (another_round (r, t) d again).1
      by_delay none r t after later = after
      by_delay (some delay) r t after later = later

      by_result :
          (r : Result IoError Unit) (t : S)
          → After (λ _. post) pre r t
          → ((u : S) → pre u → After (λ _. post) pre (again u).0 (again u).1)
          → After
              (λ _. post)
              pre
              (another_round (r, t) (delay_of os r i) again).0
              (another_round (r, t) (delay_of os r i) again).1
      by_result (ok u) t after later = after
      by_result (err e) t after later =
          by_delay (delay_of os (err e) i) (err e) t after (later t after)

  pub while_the_core_lets_go-After :
      (s : S)
      → pre s
      → After
          (λ _. post)
          pre
          (while_the_core_lets_go os operation s).0
          (while_the_core_lets_go os operation s).1
  unfolding while_the_core_lets_go
  while_the_core_lets_go-After s p = rounds_from-After 6 0 s p

-- What stands at a path.
pub At : Text → Option Text → Host → Type 0
At q v h = h.files q ≡ v

pub put-At-same : (q : Text) (contents : Option Text) (h : Host) → At q contents (put q contents h)
unfolding At
put-At-same q contents h = rw (text_eq_refl q) refl

module _ (q : Text) (v : Option Text) where
  -- The path is left alone, whatever the result.
  abbrev pub Kept : {A : Type 0} → Result IoError A → Host → Type 0
  Kept r h = After (λ _. At q v) (At q v) r h

  pub chain :
      {A B : Type 0} (m : Action IoError Host A) (k : A → Action IoError Host B) (h : Host)
      → Kept (m h).0 (m h).1
      → ((a : A) (t : Host) → At q v t → Kept (k a t).0 (k a t).1)
      → Kept (resume (m h).0 k (m h).1).0 (resume (m h).0 k (m h).1).1
  chain m k h first later =
      After-resume (λ _. At q v) (λ _. At q v) (At q v) (m h).0 k (m h).1 first later

  pub put-At :
      (path : Text) (contents : Option Text) (h : Host)
      → text_eq path q ≡ false
      → At q v h
      → At q v (put path contents h)
  unfolding At
  put-At path contents h apart p = rw apart p

  pub call-At : (h : Host) → At q v h → Kept (call h).0 (call h).1
  unfolding call At
  call-At h p = After-same (At q v) (as_result (fault_of h.turns)) (arrive h) p

  pub remove_file-At :
      (path : Text) (h : Host)
      → text_eq path q ≡ false
      → At q v h
      → Kept (remove_file path h).0 (remove_file path h).1
  unfolding remove_file
  remove_file-At path h apart p =
      chain call _ h (call-At h p) λ _ s at. by_contents (s.files path) s at
    where
      by_contents :
          (c : Option Text) (s : Host) → At q v s → Kept (removed path c s).0 (removed path c s).1
      by_contents none s at = at
      by_contents (some c) s at = put-At path none s apart at

  pub write_to-At :
      (path contents : Text) (h : Host)
      → text_eq path q ≡ false
      → At q v h
      → Kept (write_to path contents h).0 (write_to path contents h).1
  unfolding write_to At
  write_to-At path contents h apart p = by_fault (fault_of h.turns)
    where
      by_fault :
          (fault : Option IoError)
          → Kept
              (written path contents (part_of h.turns) fault (arrive h)).0
              (written path contents (part_of h.turns) fault (arrive h)).1
      by_fault none = put-At path (some contents) (arrive h) apart p
      by_fault (some e) = put-At path (some (part_of h.turns)) (arrive h) apart p

  pub write_temp-At :
      (path contents : Text) (h : Host)
      → text_eq path q ≡ false
      → At q v h
      → Kept (write_temp path contents h).0 (write_temp path contents h).1
  unfolding write_temp
  write_temp-At path contents h apart p =
      chain (write_to path []) _ h (write_to-At path [] h apart p) λ _ s at.
        chain (write_to path contents) _ s (write_to-At path contents s apart at) λ _ t. call-At t

  pub copy_file-At :
      (source path : Text) (h : Host)
      → text_eq path q ≡ false
      → At q v h
      → Kept (copy_file source path h).0 (copy_file source path h).1
  unfolding copy_file
  copy_file-At source path h apart p =
      chain call _ h (call-At h p) λ _ s at. by_file (s.sources source) s at
    where
      by_file :
          (f : Option SourceFile) (s : Host)
          → At q v s
          → Kept (copied path f s).0 (copied path f s).1
      by_file none s at = at
      by_file (some file) s at = write_to-At path file.contents s apart at
