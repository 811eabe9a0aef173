-- ===== src/Desired/Refinement.antt =====
-- The session store of src/core/desired.rs against an abstract one, which keeps only the level of
-- the generation and the session that is in force.
use clash_verge_service_ipc.Prelude.{
  ℕ, ◌≡◌, refl, sym, ◌∙◌, ap, inl, inr, Bool, true, false, Option, none, some, List, [], ◌∷◌, Text,
  saturating_add, Result, ok, err,
}
use mathlib.Core.Path.{subst}
use clash_verge_service_ipc.AnyError.{AnyError}
use clash_verge_service_ipc.Structure.{AuthenticatedOwner, ClashConfig, WriterConfig}
use clash_verge_service_ipc.Session.{hash_session_token}
use clash_verge_service_ipc.Disk.{ActiveOwnerState, Stored, missing, corrupt, content, Files, Disk}
use clash_verge_service_ipc.Desired.{
  u64_max, new_session, commit_active_owner_session, clear_active_owner, load_active_owner,
  load_owner_desired_state, persist_owner_core_started, persist_owner_core_stopped_by_key,
  persist_owner_writer_config, started, stopped, rewritten,
}
use clash_verge_service_ipc.Desired.Owners.{
  Apart, load_active_owner-IsQuiet, read_resilient-Apart, update_owner_desired_state-Apart, Clears,
  emptied, absent_already, kept, clear_active_owner-Clears,
}
use clash_verge_service_ipc.Desired.Commit.{
  readable, Commits, committed, refused, generation_only, session_unconfirmed,
  commit_active_owner_session-Commits,
}
use clash_verge_service_ipc.Desired.Generations.{
  DiskOp, commit, clear, start, stop, write_log, load_desired, load_active, apply_op, run_ops,
}

-- What the store promises to keep.
pub record Ledger : Type 0 where
  pub level : Option ℕ
  pub session : Option ActiveOwnerState

abbrev pub in_force : Stored ActiveOwnerState → Option ActiveOwnerState
in_force missing = none
in_force corrupt = none
in_force (content active) = some active

-- The ledger that the files stand for.
abbrev pub ledger : Files → Ledger
ledger files = record {
  level = readable files.owner_generation;
  session = in_force files.active_owner;
}

abbrev pub raised : ℕ → Ledger → Ledger
raised n l = record l { level = some (saturating_add u64_max n 1) }

abbrev pub granted : AuthenticatedOwner → Text → ℕ → Ledger → Ledger
granted owner hash n l = record {
  level = some (saturating_add u64_max n 1);
  session = some (new_session owner hash (saturating_add u64_max n 1));
}

abbrev pub revoked : Ledger → Ledger
revoked l = record l { session = none }

abbrev pub answer : {A : Type 0} → Result AnyError A → Bool
answer (ok _) = true
answer (err _) = false

module _ (digest : Text → Text) where
  -- Whether the operation reports a success to its caller.
  unfoldable pub reports : DiskOp → Disk → Bool
  reports (commit owner token) d = answer (commit_active_owner_session digest owner token d).0
  reports clear d = answer (clear_active_owner d).0
  reports (start owner config) d = answer (persist_owner_core_started owner config d).0
  reports (stop key) d = answer (persist_owner_core_stopped_by_key key d).0
  reports (write_log owner config) d = answer (persist_owner_writer_config owner config d).0
  reports (load_desired key) d = answer (load_owner_desired_state key d).0
  reports load_active d = answer (load_active_owner d).0

  unfoldable pub run_reports : List DiskOp → Disk → List Bool
  unfolding reports
  run_reports [] d = []
  run_reports (op ∷ ops) d = reports op d ∷ run_reports ops (apply_op digest op d)

  -- The moves of the abstract store. A commit that reports success grants a session at the next
  -- level; one that reports a failure leaves the ledger, raises its level or grants the session
  -- all the same. A clear revokes the session, or fails without a change. No other operation moves the ledger.
  pub data Allows : DiskOp → Bool → Ledger → Ledger → Type 0 where
    commits :
        {owner : AuthenticatedOwner} {token hash : Text} {l : Ledger} {answered : Bool} (n : ℕ)
        → hash_session_token digest token ≡ ok hash
        → l.level ≡ some n
        → Allows (commit owner token) answered l (granted owner hash n l)
    raises :
        {owner : AuthenticatedOwner} {token : Text} {l : Ledger} (n : ℕ)
        → l.level ≡ some n
        → Allows (commit owner token) false l (raised n l)
    refuses :
        {owner : AuthenticatedOwner} {token : Text} {l : Ledger}
        → Allows (commit owner token) false l l
    revokes : {l : Ledger} → Allows clear true l (revoked l)
    clear_fails : {l : Ledger} → Allows clear false l l
    start_keeps :
        {owner : AuthenticatedOwner} {config : ClashConfig} {l : Ledger} {answered : Bool}
        → Allows (start owner config) answered l l
    stop_keeps : {key : Text} {l : Ledger} {answered : Bool} → Allows (stop key) answered l l
    log_keeps :
        {owner : AuthenticatedOwner} {config : WriterConfig} {l : Ledger} {answered : Bool}
        → Allows (write_log owner config) answered l l
    desired_keeps :
        {key : Text} {l : Ledger} {answered : Bool} → Allows (load_desired key) answered l l
    active_keeps : {l : Ledger} {answered : Bool} → Allows load_active answered l l

  pub data Runs : List DiskOp → List Bool → Ledger → Ledger → Type 0 where
    finished : {l : Ledger} → Runs [] [] l l
    moves :
        {op : DiskOp} {ops : List DiskOp} {answered : Bool} {answers : List Bool} {l m k : Ledger}
        → Allows op answered l m
        → Runs ops answers m k
        → Runs (op ∷ ops) (answered ∷ answers) l k

-- An operation that leaves both files alone leaves the ledger.
ledger-Apart : {key : Text} {f h : Files} → Apart key f h → ledger h ≡ ledger f
ledger-Apart p = cc (p.same_active, p.same_generation)

module _ {digest : Text → Text} where
  -- A move whose end and answer are known by equations.
  Allows-at :
      {op : DiskOp} {a b : Bool} {l m k : Ledger}
      → a ≡ b
      → k ≡ m
      → Allows digest op b l m
      → Allows digest op a l k
  Allows-at {op} {b = b} {l} {k = k} e p h =
      subst (λ c. Allows digest op c l k) (sym e) (subst (Allows digest op b l) (sym p) h)

  commit-Allows :
      {owner : AuthenticatedOwner} {token hash : Text} {f h : Files}
      {r : Result AnyError ActiveOwnerState}
      → hash_session_token digest token ≡ ok hash
      → Commits owner hash f r h
      → Allows digest (commit owner token) (answer r) (ledger f) (ledger h)
  commit-Allows hashed (committed n k e p) = Allows-at refl (ap ledger p) (commits n hashed k)
  commit-Allows hashed (refused x e p) = Allows-at (ap answer e) (ap ledger p) refuses
  commit-Allows hashed (generation_only x n k e p) =
      Allows-at (ap answer e) (ap ledger p) (raises n k)
  commit-Allows hashed (session_unconfirmed x n k e p) =
      Allows-at refl (ap ledger p) (commits n hashed k)

  -- Where the file was absent, no session was in force.
  clear-Allows :
      {f h : Files} {r : Result AnyError Unit}
      → Clears f r h
      → Allows digest clear (answer r) (ledger f) (ledger h)
  clear-Allows (emptied e p) = Allows-at (ap answer e) (ap ledger p) revokes
  clear-Allows {f} (absent_already b e p) =
      Allows-at (ap answer e)
        (ap ledger p
          ∙ ap {B = Ledger}
              (λ s. record { level = readable f.owner_generation; session = in_force s }) b)
        revokes
  clear-Allows (kept x e p) = Allows-at (ap answer e) (ap ledger p) clear_fails

module _ (digest : Text → Text) where
  pub apply_op-Allows :
      (op : DiskOp) (d : Disk)
      → Allows digest op
          (reports digest op d)
          (ledger d.files)
          (ledger (apply_op digest op d).files)
  unfolding apply_op reports persist_owner_core_started persist_owner_core_stopped_by_key
      persist_owner_writer_config load_owner_desired_state
  apply_op-Allows (commit owner token) d =
      elim (commit_active_owner_session-Commits digest owner token d) [
        | inl (hash, h, c) ↦ commit-Allows h c
        | inr (e, h, same) ↦
            Allows-at (ap (λ p. answer p.0) same) (ap (λ p. ledger p.1.files) same) refuses
      ]
  apply_op-Allows clear d = clear-Allows (clear_active_owner-Clears d)
  apply_op-Allows (start owner config) d =
      Allows-at refl
        (ledger-Apart (update_owner_desired_state-Apart owner.key (started config) d).1) start_keeps
  apply_op-Allows (stop key) d =
      Allows-at refl (ledger-Apart (update_owner_desired_state-Apart key stopped d).1) stop_keeps
  apply_op-Allows (write_log owner config) d =
      Allows-at refl
        (ledger-Apart (update_owner_desired_state-Apart owner.key (rewritten config) d).1) log_keeps
  apply_op-Allows (load_desired key) d =
      Allows-at refl (ledger-Apart (read_resilient-Apart key d)) desired_keeps
  apply_op-Allows load_active d =
      Allows-at refl (ap ledger (load_active_owner-IsQuiet.files_kept d)) active_keeps

  -- Whatever calls of the system fail, a run of any operations on the state files is a run of the
  -- abstract store, from the ledger of the first files to the ledger of the last and with the
  -- answers that the operations report: a commit that reports success has granted the session of
  -- its token at the next level, a clear that reports success leaves no session in force and one
  -- that reports a failure leaves the ledger, only a commit brings a session into force, only a
  -- clear leaves none where one was, and no other operation moves the ledger.
  pub run_ops-Runs :
      (ops : List DiskOp) (d : Disk)
      → Runs digest ops
          (run_reports digest ops d)
          (ledger d.files)
          (ledger (run_ops digest ops d).files)
  unfolding run_ops run_reports
  run_ops-Runs [] d = finished
  run_ops-Runs (op ∷ ops) d = moves (apply_op-Allows op d) (run_ops-Runs ops (apply_op digest op d))
