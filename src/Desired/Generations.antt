-- ===== src/Desired/Generations.antt =====
-- The owner generation over any sequence of operations on the disk, whatever calls fail
-- (src/core/desired.rs).
use clash_verge_service_ipc.Prelude.{
  ℕ, ◌≤◌, ◌<◌, ◌≡◌, refl, sym, ◌∙◌, ap, inl, inr, some, List, [], ◌∷◌, Text, saturating_add, Result,
  ok, arith,
}
use mathlib.Core.Path.{subst}
use native.Mathlib.Nat.{le_refl}
use clash_verge_service_ipc.AnyError.{AnyError}
use clash_verge_service_ipc.Structure.{AuthenticatedOwner, ClashConfig, WriterConfig}
use clash_verge_service_ipc.Disk.{ActiveOwnerState, content, Files, Disk}
use clash_verge_service_ipc.Desired.{
  u64_max, new_session, put_active, put_generation, commit_active_owner_session, clear_active_owner,
  without_owner, load_active_owner, load_owner_desired_state, persist_owner_core_started,
  persist_owner_core_stopped_by_key, persist_owner_writer_config, started, stopped, rewritten,
}
use clash_verge_service_ipc.Desired.Owners.{
  Apart, load_active_owner-IsQuiet, read_resilient-Apart, update_owner_desired_state-Apart, Clears,
  emptied, absent_already, kept, clear_active_owner-Clears,
}
use clash_verge_service_ipc.Desired.Commit.{
  readable, Commits, committed, refused, generation_only, session_unconfirmed,
  commit_active_owner_session-Commits,
}

-- Every operation that the service makes on the state files.
pub data DiskOp : Type 0 where
  commit : AuthenticatedOwner → Text → DiskOp
  clear : DiskOp
  start : AuthenticatedOwner → ClashConfig → DiskOp
  stop : Text → DiskOp
  write_log : AuthenticatedOwner → WriterConfig → DiskOp
  load_desired : Text → DiskOp
  load_active : DiskOp

module _ (digest : Text → Text) where
  unfoldable pub apply_op : DiskOp → Disk → Disk
  apply_op (commit owner token) d = (commit_active_owner_session digest owner token d).1
  apply_op clear d = (clear_active_owner d).1
  apply_op (start owner config) d = (persist_owner_core_started owner config d).1
  apply_op (stop key) d = (persist_owner_core_stopped_by_key key d).1
  apply_op (write_log owner config) d = (persist_owner_writer_config owner config d).1
  apply_op (load_desired key) d = (load_owner_desired_state key d).1
  apply_op load_active d = (load_active_owner d).1

  unfoldable pub run_ops : List DiskOp → Disk → Disk
  unfolding apply_op
  run_ops [] d = d
  run_ops (op ∷ ops) d = run_ops ops (apply_op op d)

-- The generation file reads as a `u64` that is at least `g`, and so is the generation of the
-- stored session, if there is one.
pub record Since (g : ℕ) (f : Files) : Type 0 where
  pub level : ℕ
  pub level_read : readable f.owner_generation ≡ some level
  pub level_fits : level ≤ u64_max
  pub level_since : g ≤ level
  pub session_since : (a : ActiveOwnerState) → f.active_owner ≡ content a → g ≤ a.generation

Since-of_Apart :
    {g : ℕ} {f h : Files}
    → Since g f
    → (h.active_owner ≡ f.active_owner)
    → (h.owner_generation ≡ f.owner_generation)
    → Since g h
Since-of_Apart s e e' = record {
  level = s.level;
  level_read = rw e' s.level_read;
  level_fits = s.level_fits;
  level_since = s.level_since;
  session_since = λ a h. s.session_since a (sym e ∙ h);
}

Since-same : {g : ℕ} {f h : Files} → Since g f → h ≡ f → Since g h
Since-same {g} s e = subst (Since g) (sym e) s

abbrev next : ℕ → ℕ
next n = saturating_add u64_max n 1

level_is :
    {g n : ℕ} {f : Files} → (s : Since g f) → readable f.owner_generation ≡ some n → n ≡ s.level
level_is s k = cc (sym k, s.level_read)

-- The level that a commit writes, with the session that was there.
Since-raised :
    {g n : ℕ} {f : Files}
    → Since g f
    → readable f.owner_generation ≡ some n
    → Since g (put_generation (next n) f)
Since-raised {g} {n} s k = record {
  level = next n;
  level_read = refl;
  level_fits = ground (arith, level_is s k);
  level_since = ground (arith, level_is s k);
  session_since = s.session_since;
}

-- The same with the new session.
Since-replaced :
    {g : ℕ} (owner : AuthenticatedOwner) (hash : Text) (n : ℕ) (f : Files)
    → g ≤ next n
    → Since g (put_active (new_session owner hash (next n)) (put_generation (next n) f))
Since-replaced {g} owner hash n f le = record {
  level = next n;
  level_read = refl;
  level_fits = ground arith;
  level_since = le;
  session_since = λ a h. ground (arith);
}

next-ge : {g n : ℕ} {f : Files} → Since g f → readable f.owner_generation ≡ some n → g ≤ next n
next-ge s k = ground (arith, level_is s k)

Since-commit :
    {g : ℕ} {owner : AuthenticatedOwner} {hash : Text} {f h : Files}
    {r : Result AnyError ActiveOwnerState}
    → Since g f
    → Commits owner hash f r h
    → Since g h
Since-commit {owner = owner} {hash = hash} {f = f} s (committed n k e p) =
    Since-same (Since-replaced owner hash n f (next-ge s k)) p
Since-commit s (refused x e p) = Since-same s p
Since-commit s (generation_only x n k e p) = Since-same (Since-raised s k) p
Since-commit {owner = owner} {hash = hash} {f = f} s (session_unconfirmed x n k e p) =
    Since-same (Since-replaced owner hash n f (next-ge s k)) p

Since-Clears :
    {g : ℕ} {f h : Files} {r : Result AnyError Unit} → Since g f → Clears f r h → Since g h
Since-Clears {f = f} s (emptied e p) =
    let emptied_Since : Since _ (without_owner f) = record {
      level = s.level;
      level_read = s.level_read;
      level_fits = s.level_fits;
      level_since = s.level_since;
      session_since = λ a h. cc;
    } in
    Since-same emptied_Since p
Since-Clears s (absent_already b e p) = Since-same s p
Since-Clears s (kept x e p) = Since-same s p

Since-Apart : {g : ℕ} {key : Text} {f h : Files} → Since g f → Apart key f h → Since g h
Since-Apart s p = Since-of_Apart s p.same_active p.same_generation

session_is :
    {r : Result AnyError ActiveOwnerState} {a b : ActiveOwnerState} → r ≡ ok a → r ≡ ok b → a ≡ b
session_is h k = cc

committed_Since :
    {g : ℕ} {owner : AuthenticatedOwner} {hash : Text} {f h : Files}
    {r : Result AnyError ActiveOwnerState} {active : ActiveOwnerState}
    → Since g f
    → g < u64_max
    → r ≡ ok active
    → Commits owner hash f r h
    → (g < active.generation) × Since active.generation h
committed_Since {owner = owner} {hash = hash} {f = f} {h = h} {active = active} s small o
      (committed n k e p) =
    (
      ground (arith, level_is s k),
      subst (λ a. Since a.generation h) (session_is e o)
          (Since-same (Since-replaced owner hash n f (le_refl (next n))) p),
    )
committed_Since s small o (refused x e p) = cc
committed_Since s small o (generation_only x n k e p) = cc
committed_Since s small o (session_unconfirmed x n k e p) = cc

module _ (digest : Text → Text) {g : ℕ} where
  pub apply_op-Since :
      (op : DiskOp) (d : Disk) → Since g d.files → Since g (apply_op digest op d).files
  unfolding apply_op persist_owner_core_started persist_owner_core_stopped_by_key
      persist_owner_writer_config load_owner_desired_state
  apply_op-Since (commit owner token) d s =
      elim (commit_active_owner_session-Commits digest owner token d) [
        | inl (hash, h, c) ↦ Since-commit s c
        | inr (e, h, same) ↦ Since-same s (ap (λ p. p.1.files) same)
      ]
  apply_op-Since clear d s = Since-Clears s (clear_active_owner-Clears d)
  apply_op-Since (start owner config) d s =
      Since-Apart s (update_owner_desired_state-Apart owner.key (started config) d).1
  apply_op-Since (stop key) d s = Since-Apart s (update_owner_desired_state-Apart key stopped d).1
  apply_op-Since (write_log owner config) d s =
      Since-Apart s (update_owner_desired_state-Apart owner.key (rewritten config) d).1
  apply_op-Since (load_desired key) d s = Since-Apart s (read_resilient-Apart key d)
  apply_op-Since load_active d s = Since-same s (load_active_owner-IsQuiet.files_kept d)

  pub run_ops-Since :
      (ops : List DiskOp) (d : Disk) → Since g d.files → Since g (run_ops digest ops d).files
  unfolding run_ops
  run_ops-Since [] d s = s
  run_ops-Since (op ∷ ops) d s = run_ops-Since ops (apply_op digest op d) (apply_op-Since op d s)

  -- A commit that succeeds takes a generation above every earlier one, as long as the counter has
  -- not reached its end, and from then on nothing on the disk is older than its session.
  pub commit-Since :
      (owner : AuthenticatedOwner) (token : Text) (d : Disk) (active : ActiveOwnerState)
      → Since g d.files
      → g < u64_max
      → (commit_active_owner_session digest owner token d).0 ≡ ok active
      → (g < active.generation)
        × Since active.generation (commit_active_owner_session digest owner token d).1.files
  commit-Since owner token d active s small h =
      elim (commit_active_owner_session-Commits digest owner token d) [
        | inl (hash, e, c) ↦ committed_Since s small h c
        | inr (x, e, same) ↦ cc (ap (λ p. p.0) same)
      ]
