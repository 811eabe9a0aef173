-- ===== src/Reconcile.antt =====
-- The start-up reconciliation (src/core/reconcile.rs, with src/core/process.rs and
-- src/core/runtime.rs, on Unix): a core that an earlier service has left is stopped, and a process
-- that has got its ID is not. Others act before each call: processes come and go.
pub mod Foreign
use clash_verge_service_ipc.Prelude.{
  ℕ, zero, suc, Bool, true, false, ◌&&◌, not, ◌==◌, if◌then◌else◌, Option, none, some, List, [],
  ◌∷◌, Text, text_eq, Result, ok, err, Action, pure, fail, modify, resume, ◌>>=◌, ◌>>◌,
}
use clash_verge_service_ipc.AnyError.{AnyError, anyhow, context}
use clash_verge_service_ipc.Disk.{Stored, missing, corrupt, content}

pub record ProcessIdentity : Type 0 where
  pub executable : Text
  pub started_at : ℕ  -- u64

pub record CoreRuntimeRecord : Type 0 where
  pub pid : ℕ  -- u32
  pub ipc_path : Text
  pub identity : ProcessIdentity

abbrev pub Processes : Type 0
Processes = ℕ → Option ProcessIdentity

-- What others have done before a call, and whether the call fails.
pub record Turn : Type 0 where
  pub processes : Option Processes
  pub fault : Option AnyError

-- The machine: the processes that run, without zombies; the sockets, which accept a connection or
-- do not; and the signals that were sent.
pub record Machine : Type 0 where
  pub reconciled : Bool  -- `STARTUP_RECONCILED`
  pub runtime_record : Stored CoreRuntimeRecord
  pub processes : Processes
  pub sockets : Text → Option Bool
  pub signals : List ℕ
  pub turns : List Turn

abbrev pub or_same : Option Processes → Processes → Processes
or_same none processes = processes
or_same (some others) processes = others

abbrev pub processes_of : List Turn → Processes → Processes
processes_of [] processes = processes
processes_of (turn ∷ turns) processes = or_same turn.processes processes

abbrev pub later : List Turn → List Turn
later [] = []
later (turn ∷ turns) = turns

abbrev pub fault_of : List Turn → Option AnyError
fault_of [] = none
fault_of (turn ∷ turns) = turn.fault

abbrev pub arrive : Machine → Machine
arrive m = record m { processes = processes_of m.turns m.processes; turns = later m.turns }

abbrev pub as_result : Option AnyError → Result AnyError Unit
as_result none = ok tt
as_result (some error) = err error

unfoldable pub call : Action AnyError Machine Unit
call m = (as_result (fault_of m.turns), arrive m)

abbrev pub set_reconciled : Bool → Machine → Machine
set_reconciled b m = record m { reconciled = b }

abbrev pub read_record :
    Stored CoreRuntimeRecord → Action AnyError Machine (Option CoreRuntimeRecord)
read_record missing = pure none
read_record corrupt = fail (context anyhow)
read_record (content r) = pure (some r)

unfoldable pub read_core_runtime_record : Action AnyError Machine (Option CoreRuntimeRecord)
unfolding call
read_core_runtime_record = call >>= λ _ m. read_record m.runtime_record m

abbrev pub is_running : Option ProcessIdentity → Bool
is_running none = false
is_running (some identity) = true

unfoldable pub is_process_alive : ℕ → Action AnyError Machine Bool
is_process_alive pid m = (ok (is_running ((arrive m).processes pid)), arrive m)

-- The executable and the start time of a process that may have gone in the meantime.
abbrev pub shown : Option ProcessIdentity → Action AnyError Machine (Option ProcessIdentity)
shown none = fail anyhow
shown (some identity) = pure (some identity)

abbrev pub read_identity : ℕ → Bool → Action AnyError Machine (Option ProcessIdentity)
read_identity pid alive = if alive then (call >>= λ _ m. shown (m.processes pid) m) else pure none

unfoldable pub process_identity : ℕ → Action AnyError Machine (Option ProcessIdentity)
unfolding call is_process_alive
process_identity pid = is_process_alive pid >>= read_identity pid

-- `kill(2)`: no process is no failure here.
abbrev pub deliver : ℕ → Option ProcessIdentity → Option AnyError → Action AnyError Machine Unit
deliver pid none fault = pure tt
deliver pid (some identity) none = modify (λ m. record m { signals = pid ∷ m.signals }) tt
deliver pid (some identity) (some error) = fail error

unfoldable pub send_signal : ℕ → Action AnyError Machine Unit
send_signal pid m = deliver pid ((arrive m).processes pid) (fault_of m.turns) (arrive m)

-- The loop over so many looks; whether the process has gone.
unfoldable pub wait_gone : ℕ → ℕ → Action AnyError Machine Bool
unfolding is_process_alive
wait_gone zero pid = pure false
wait_gone (suc looks) pid =
    let again = wait_gone looks pid in
    is_process_alive pid >>= λ alive. if alive then again else pure true

abbrev pub kill_and_wait : ℕ → Bool → Action AnyError Machine Unit
kill_and_wait pid gone =
    if gone
    then pure tt
    else (send_signal pid >>= λ _.
        (wait_gone 10 pid >>= λ dead. if dead then pure tt else fail anyhow))

-- SIGTERM, ten looks, SIGKILL, ten looks.
unfoldable pub terminate_process : ℕ → Action AnyError Machine Unit
unfolding send_signal wait_gone
terminate_process pid = send_signal pid >>= λ _. (wait_gone 10 pid >>= kill_and_wait pid)

abbrev pub is_reachable : Option Bool → Bool
is_reachable none = false
is_reachable (some accepts) = accepts

unfoldable pub is_core_socket_reachable : Text → Action AnyError Machine Bool
is_core_socket_reachable path m = (ok (is_reachable ((arrive m).sockets path)), arrive m)

-- Failures of the two removals are ignored.
abbrev pub removed_socket : Text → Option AnyError → Machine → Machine
removed_socket path none m = record m {
  sockets = λ q. if text_eq path q then none else m.sockets q;
}
removed_socket path (some error) m = m

unfoldable pub cleanup_core_socket : Text → Action AnyError Machine Unit
cleanup_core_socket path m = (ok tt, removed_socket path (fault_of m.turns) (arrive m))

abbrev pub removed_record : Option AnyError → Machine → Machine
removed_record none m = record m { runtime_record = missing }
removed_record (some error) m = m

unfoldable pub remove_core_runtime_record : Action AnyError Machine Unit
remove_core_runtime_record m = (ok tt, removed_record (fault_of m.turns) (arrive m))

-- The derived `==`, of an identity that may be absent.
unfoldable pub is_identity : Option ProcessIdentity → ProcessIdentity → Bool
is_identity none recorded = false
is_identity (some current) recorded =
    text_eq current.executable recorded.executable && current.started_at == recorded.started_at

abbrev pub stop_previous : CoreRuntimeRecord → Action AnyError Machine Unit
stop_previous r = do
  terminate_process r.pid
  cleanup_core_socket r.ipc_path
  remove_core_runtime_record
  modify (set_reconciled true) tt

abbrev pub clean_unless : Bool → Text → Action AnyError Machine Unit
clean_unless reachable path = if not reachable then cleanup_core_socket path else pure tt

abbrev pub leave_process : CoreRuntimeRecord → Bool → Action AnyError Machine Unit
leave_process r reachable = do
  clean_unless reachable r.ipc_path
  remove_core_runtime_record
  modify (set_reconciled true) tt

abbrev pub by_identity : CoreRuntimeRecord → Bool → Bool → Action AnyError Machine Unit
by_identity r same reachable = if same then stop_previous r else leave_process r reachable

abbrev pub reconcile_record : Option CoreRuntimeRecord → Action AnyError Machine Unit
reconcile_record none = modify (set_reconciled true) tt
reconcile_record (some r) = do
  current ← process_identity r.pid
  reachable ← is_core_socket_reachable r.ipc_path
  by_identity r (is_identity current r.identity) reachable

unfoldable pub reconcile_service_startup : Action AnyError Machine Unit
unfolding read_core_runtime_record process_identity is_core_socket_reachable is_identity
    terminate_process cleanup_core_socket remove_core_runtime_record
reconcile_service_startup =
    modify (set_reconciled false) tt >>= λ _. (read_core_runtime_record >>= reconcile_record)
