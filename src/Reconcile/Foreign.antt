-- ===== src/Reconcile/Foreign.antt =====
-- A process that is not the recorded core is left alone (src/core/reconcile.rs).
use clash_verge_service_ipc.Prelude.{
  After, After-resume, ℕ, ◌≡◌, refl, sym, Bool, true, false, Option, none, some, List, [], ◌∷◌, All,
  Result, resume,
}
use mathlib.Core.Path.{subst}
use clash_verge_service_ipc.AnyError.{AnyError}
use clash_verge_service_ipc.Disk.{Stored, missing, corrupt, content}
use clash_verge_service_ipc.Reconcile.{
  ProcessIdentity, CoreRuntimeRecord, Processes, Turn, Machine, or_same, processes_of, later,
  fault_of, arrive, as_result, call, set_reconciled, read_record, read_core_runtime_record,
  is_running, is_process_alive, shown, read_identity, process_identity, is_core_socket_reachable,
  removed_socket, cleanup_core_socket, removed_record, remove_core_runtime_record, is_identity,
  clean_unless, leave_process, by_identity, reconcile_record, reconcile_service_startup,
}

-- The processes show another identity, or none, at the recorded PID.
abbrev pub IsForeign : CoreRuntimeRecord → Processes → Type 0
IsForeign r processes = is_identity (processes r.pid) r.identity ≡ false

abbrev pub IsForeignIf : CoreRuntimeRecord → Option Processes → Type 0
IsForeignIf r none = Unit
IsForeignIf r (some processes) = IsForeign r processes

abbrev pub StaysForeign : CoreRuntimeRecord → Turn → Type 0
StaysForeign r turn = IsForeignIf r turn.processes

-- The whole time.
pub record NeverRuns (r : CoreRuntimeRecord) (m : Machine) : Type 0 where
  pub now : IsForeign r m.processes
  pub then_on : All (StaysForeign r) m.turns

-- No signal was sent, and the service is not yet reconciled.
record Calm (r : CoreRuntimeRecord) (signals : List ℕ) (m : Machine) : Type 0 where
  never : NeverRuns r m
  same : m.signals ≡ signals
  unready : m.reconciled ≡ false

pub record Ended (signals : List ℕ) (m : Machine) : Type 0 where
  pub same : m.signals ≡ signals
  pub ready : m.reconciled ≡ true

pub record Failed (signals : List ℕ) (m : Machine) : Type 0 where
  pub same : m.signals ≡ signals
  pub unready : m.reconciled ≡ false

module _ (r : CoreRuntimeRecord) (signals : List ℕ) where
  Calm-Failed : {m : Machine} → Calm r signals m → Failed signals m
  Calm-Failed c = record { same = c.same; unready = c.unready }

  arrive-never :
      (turns : List Turn) (processes : Processes)
      → IsForeign r processes
      → All (StaysForeign r) turns
      → IsForeign r (processes_of turns processes) × All (StaysForeign r) (later turns)
  arrive-never [] processes now then_on = (now, tt)
  arrive-never (turn ∷ turns) processes now (first, rest) = (by_turn turn.processes first, rest)
    where
      by_turn :
          (others : Option Processes)
          → IsForeignIf r others
          → IsForeign r (or_same others processes)
      by_turn none first = now
      by_turn (some p) first = first

  arrive-Calm : (m : Machine) → Calm r signals m → Calm r signals (arrive m)
  arrive-Calm m c =
      let (now, then_on) = arrive-never m.turns m.processes c.never.now c.never.then_on in
      record { never = record { now = now; then_on = then_on }; same = c.same; unready = c.unready }

  -- An action that sends no signal; one that returns a value of which more is known.
  abbrev Calms : {A : Type 0} → (A → Type 0) → Result AnyError A → Machine → Type 0
  Calms known result m = After (λ a s. known a × Calm r signals s) (Failed signals) result m

  abbrev Anything : {A : Type 0} → A → Type 0
  Anything a = Unit

  call-Calms : (m : Machine) → Calm r signals m → Calms Anything (call m).0 (call m).1
  unfolding call
  call-Calms m c = by_fault (fault_of m.turns)
    where
      by_fault : (fault : Option AnyError) → Calms Anything (as_result fault) (arrive m)
      by_fault none = (tt, arrive-Calm m c)
      by_fault (some e) = Calm-Failed (arrive-Calm m c)

  abbrev OtherIdentity : Option ProcessIdentity → Type 0
  OtherIdentity current = is_identity current r.identity ≡ false

  shown-Calms :
      (current : Option ProcessIdentity) (m : Machine)
      → OtherIdentity current
      → Calm r signals m
      → Calms OtherIdentity (shown current m).0 (shown current m).1
  shown-Calms none m e c = Calm-Failed c
  shown-Calms (some identity) m e c = (e, c)

  -- The identity that is read is not the recorded one.
  process_identity-Calms :
      (m : Machine)
      → Calm r signals m
      → Calms OtherIdentity (process_identity r.pid m).0 (process_identity r.pid m).1
  unfolding process_identity is_process_alive is_identity
  process_identity-Calms m c = by_alive (is_running ((arrive m).processes r.pid))
    where
      by_alive :
          (alive : Bool)
          → Calms OtherIdentity
              (read_identity r.pid alive (arrive m)).0
              (read_identity r.pid alive (arrive m)).1
      by_alive true =
          After-resume (λ a s. Unit × Calm r signals s) (λ a s. OtherIdentity a × Calm r signals s)
            (Failed signals) (call (arrive m)).0 _ (call (arrive m)).1
            (call-Calms (arrive m) (arrive-Calm m c))
            λ _ s (_, calm). shown-Calms (s.processes r.pid) s calm.never.now calm
      by_alive false = (refl, arrive-Calm m c)

  reachable-Calms :
      (m : Machine)
      → Calm r signals m
      → Calms Anything
          (is_core_socket_reachable r.ipc_path m).0
          (is_core_socket_reachable r.ipc_path m).1
  unfolding is_core_socket_reachable
  reachable-Calms m c = (tt, arrive-Calm m c)

  cleanup-Calms :
      (m : Machine)
      → Calm r signals m
      → Calms Anything (cleanup_core_socket r.ipc_path m).0 (cleanup_core_socket r.ipc_path m).1
  unfolding cleanup_core_socket
  cleanup-Calms m c = (tt, by_fault (fault_of m.turns) (arrive-Calm m c))
    where
      by_fault :
          (fault : Option AnyError)
          → Calm r signals (arrive m)
          → Calm r signals (removed_socket r.ipc_path fault (arrive m))
      by_fault none d = record {
        never = record { now = d.never.now; then_on = d.never.then_on };
        same = d.same;
        unready = d.unready;
      }
      by_fault (some e) d = d

  clean-Calms :
      (reachable : Bool) (m : Machine)
      → Calm r signals m
      → Calms Anything
          (clean_unless reachable r.ipc_path m).0
          (clean_unless reachable r.ipc_path m).1
  clean-Calms true m c = (tt, c)
  clean-Calms false m c = cleanup-Calms m c

  removal-Ended :
      (m : Machine)
      → Calm r signals m
      → Ended signals (set_reconciled true (remove_core_runtime_record m).1)
  unfolding remove_core_runtime_record
  removal-Ended m c = by_fault (fault_of m.turns)
    where
      by_fault :
          (fault : Option AnyError)
          → Ended signals (set_reconciled true (removed_record fault (arrive m)))
      by_fault none = record { same = c.same; ready = refl }
      by_fault (some e) = record { same = c.same; ready = refl }

  leave-Ended :
      (reachable : Bool) (m : Machine)
      → Calm r signals m
      → After
          (λ _. Ended signals)
          (Failed signals)
          (leave_process r reachable m).0
          (leave_process r reachable m).1
  unfolding remove_core_runtime_record
  leave-Ended reachable m c =
      After-resume (λ _ s. Unit × Calm r signals s) (λ _. Ended signals) (Failed signals)
        (clean_unless reachable r.ipc_path m).0 _ (clean_unless reachable r.ipc_path m).1
        (clean-Calms reachable m c) λ _ s (_, calm). removal-Ended s calm

  by_identity-Ended :
      (same reachable : Bool) (m : Machine)
      → same ≡ false
      → Calm r signals m
      → After
          (λ _. Ended signals)
          (Failed signals)
          (by_identity r same reachable m).0
          (by_identity r same reachable m).1
  by_identity-Ended true reachable m e c = cc (e)
  by_identity-Ended false reachable m e c = leave-Ended reachable m c

  record-Ended :
      (m : Machine)
      → Calm r signals m
      → After
          (λ _. Ended signals)
          (Failed signals)
          (reconcile_record (some r) m).0
          (reconcile_record (some r) m).1
  unfolding process_identity is_core_socket_reachable is_identity
  record-Ended m c =
      After-resume (λ a s. OtherIdentity a × Calm r signals s) (λ _. Ended signals) (Failed signals)
        (process_identity r.pid m).0 _ (process_identity r.pid m).1 (process_identity-Calms m c)
        λ current s (other, calm).
          After-resume (λ _ t. Unit × Calm r signals t) (λ _. Ended signals) (Failed signals)
            (is_core_socket_reachable r.ipc_path s).0 _ (is_core_socket_reachable r.ipc_path s).1
            (reachable-Calms s calm)
            λ reachable t (_, still).
              by_identity-Ended (is_identity current r.identity) reachable t other still

  abbrev Named : Machine → Type 0
  Named m = m.runtime_record ≡ content r

  call-Named :
      (m : Machine)
      → Named m
      → Calm r signals m
      → After (λ _ s. Named s × Calm r signals s) (Failed signals) (call m).0 (call m).1
  unfolding call
  call-Named m named c = by_fault (fault_of m.turns)
    where
      by_fault :
          (fault : Option AnyError)
          → After (λ _ s. Named s × Calm r signals s) (Failed signals) (as_result fault) (arrive m)
      by_fault none = (named, arrive-Calm m c)
      by_fault (some e) = Calm-Failed (arrive-Calm m c)

  abbrev Found : Option CoreRuntimeRecord → Type 0
  Found a = a ≡ some r

  read-Calms :
      (stored : Stored CoreRuntimeRecord) (m : Machine)
      → stored ≡ content r
      → Calm r signals m
      → Calms Found (read_record stored m).0 (read_record stored m).1
  read-Calms missing m e c = cc (e)
  read-Calms corrupt m e c = cc (e)
  read-Calms (content q) m e c = (cc (e), c)

  read-Ended :
      (m : Machine)
      → m.runtime_record ≡ content r
      → Calm r signals m
      → After
          (λ _. Ended signals)
          (Failed signals)
          (resume (read_core_runtime_record m).0 reconcile_record (read_core_runtime_record m).1).0
          (resume (read_core_runtime_record m).0 reconcile_record (read_core_runtime_record m).1).1
  unfolding read_core_runtime_record
  read-Ended m named c =
      After-resume (λ a s. Found a × Calm r signals s) (λ _. Ended signals) (Failed signals)
        (read_core_runtime_record m).0 reconcile_record (read_core_runtime_record m).1
        (After-resume (λ _ s. Named s × Calm r signals s) (λ a s. Found a × Calm r signals s)
          (Failed signals) (call m).0 _ (call m).1 (call-Named m named c)
          λ _ s (e, calm). read-Calms s.runtime_record s e calm)
        λ found s (e, calm).
          subst
            (λ x.
              After (λ _. Ended signals) (Failed signals) (reconcile_record x s).0
                (reconcile_record x s).1)
            (sym e) (record-Ended s calm)

-- What the reconciliation leaves: no signal was sent; and the service may start a core if it ended
-- with a success, and may not if it ended with an error.
abbrev pub Reconciles : Machine → Result AnyError Unit → Machine → Type 0
Reconciles before result m = After (λ _. Ended before.signals) (Failed before.signals) result m

-- If the process at the recorded PID is another one than the recorded core, or there is none, at
-- the start and after everything that others do meanwhile, then the reconciliation sends no signal;
-- a core may be started if it succeeds, and none may be if it fails.
pub reconcile_service_startup-Reconciles :
    (r : CoreRuntimeRecord) (m : Machine)
    → m.runtime_record ≡ content r
    → NeverRuns r m
    → Reconciles m (reconcile_service_startup m).0 (reconcile_service_startup m).1
unfolding reconcile_service_startup
reconcile_service_startup-Reconciles r m named never =
    read-Ended r m.signals (set_reconciled false m) named (record {
      never = record { now = never.now; then_on = never.then_on };
      same = refl;
      unready = refl;
    })
