-- ===== src/Lib.antt =====
-- The service of Clash Verge Rev (clash-verge-service-ipc): a privileged service that runs the proxy
-- core for one owner at a time, takes requests over a local socket, and survives failures of the
-- core and of its own files.
--
-- The parts and how they interact. When the service starts, it deals with a core that an earlier one
-- has left (Reconcile). A request (Routes) carries a protocol version (Protocol), the credentials of
-- its owner (Auth) and a session proof; the gates (Gate) compare the proof with the active session
-- that the state files hold (Disk, Desired). A start decides which files of the runtime to write
-- (Destination, Plan) and writes them (Generation), then changes the owner (Transition): the proxy is
-- cleared (Proxy), the core is stopped and started (Manager), the new session is committed (Desired),
-- and the proxy is applied. A staging writes the files beside the live core (Generation). The watchdog
-- (Manager/Watchdog) restarts a core that exits. The status (Status) reads all of it.
--
-- Files and sources:
--   Structure, Lifecycle, ServiceErrorCode, ServiceError: src/core/structure.rs, src/core/state.rs and
--     the errors of src/core/auth.rs. AnyError: `anyhow::Error` as the chain of its causes.
--   Protocol: `ProtocolVersion`, `ProtocolInfo` (src/core/structure.rs), `require_protocol_version`
--     (src/core/server.rs), the constants of src/lib.rs.
--   Auth: `authenticate_owner` (src/core/auth.rs) on Unix. Session: `hash_session_token` there,
--     `constant_time_eq` (src/core/server.rs).
--   Disk: the state files and `write_json_atomic` (src/core/desired.rs). Desired: the operations of
--     src/core/desired.rs, with an abstract store beside them (Refinement).
--     Gate: the gates of src/core/server.rs.
--   Routes: the requests of `create_ipc_router` (src/core/server.rs).
--   Destination: `validate_destination`, `destination_key`, `is_staging_temporary`
--     (src/core/runtime_generation/assets.rs). Plan: `plan_stage`
--     (src/core/runtime_generation/staging.rs).
--   Generation: the files of a runtime (src/core/runtime_generation): the checks of a bundle (Gather),
--     the retries (Retry), the writes (Write), `materialize_plan` (Materialize), `stage_runtime`
--     (Stage). Generation/Effects: what they leave at one path.
--   Manager: `CoreManager` (src/core/manager.rs). Manager/Held and Manager/Invariant: the processes
--     that it holds, through all its operations.
--   Reconcile: src/core/reconcile.rs, src/core/process.rs and src/core/runtime.rs on Unix.
--   Proxy: src/core/proxy.rs. Transition: the owner change of src/core/server.rs. Supervisor:
--     `run_ipc_supervisor_until_shutdown` there. Status: src/core/status.rs.
--   Prelude: shared helpers. Examples: the theorems at concrete inputs.
--
-- How the code is modelled. A function that changes state and may fail is an action: from a state
-- to a result and a state, so that what was written before a failure stays written. The failures to
-- come of the operating system's calls are a list in the state, one entry per call, and a theorem
-- holds for every list unless it says otherwise; in Generation and Reconcile an entry also says
-- what others did before the call. The temporary file of a state file counts as torn until it is
-- written, flushed and synced. Locks serialise the operations, so that an execution is a sequence
-- of them; a task that runs beside them, the watchdog, is a value of the state with one function
-- per event. Machine integers are natural numbers with the bound written out where the code depends
-- on it. Paths and texts are lists of bytes, and paths are those of Unix. The loops go over lists
-- or over a number of rounds that the code gives: ten looks at a process, and seven rounds of the
-- retries, since there are six delays. The loop of the watchdog is one round per call, and a run of
-- it goes over a list of events. The kill that a dropped guard leaves to a task of its own is a
-- step that may come at any time.
--
-- What is a parameter: SHA-256, the parsers of IP addresses and URLs, the calls that set the
-- system's proxies, the process IDs that the system gives, the JSON encoding of the manifest, the
-- codes of the Windows errors, and what the file system shows of a data directory.
--
-- Not modelled: the texts of messages and logs, the rights of files and sockets, the JSON texts, the
-- listener, the requests for logs, the creation of the owner's directories before a start, the
-- removal of the directories of old runtimes, the lock of the service's owner, the clean-up of old
-- versions, the installers, and Windows but for the retries. In Generation the files that the core
-- itself writes are not in the state. The attempt counter of the watchdog is a u32 in the code and
-- has no bound here.
pub mod AnyError
pub mod Auth
pub mod Desired
pub mod Destination
pub mod Disk
pub mod Examples
pub mod Gate
pub mod Generation
pub mod Lifecycle
pub mod Manager
pub mod Plan
pub mod Prelude
pub mod Protocol
pub mod Proxy
pub mod Reconcile
pub mod Routes
pub mod ServiceError
pub mod ServiceErrorCode
pub mod Session
pub mod Status
pub mod Structure
pub mod Supervisor
pub mod Transition
