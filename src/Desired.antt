-- ===== src/Desired.antt =====
-- The desired state of each owner and the session of the active owner (src/core/desired.rs).
-- Every function here runs under `DESIRED_STATE_LOCK` or only reads, so each is one action.
pub mod Owners
pub mod Commit
pub mod Generations
pub mod Refinement
use clash_verge_service_ipc.Prelude.{
  ℕ, ◌^◌, ◌-◌, Bool, true, false, Option, none, some, List, [], Text, text_eq, if◌then◌else◌,
  saturating_add, Result, ok, err, Action, pure, fail, resume, ◌>>=◌, ◌>>◌, inspect, map_err,
}
use clash_verge_service_ipc.AnyError.{AnyError, IoErrorKind, not_found, of_io, context, anyhow}
use clash_verge_service_ipc.Structure.{AuthenticatedOwner, ClashConfig, WriterConfig}
use clash_verge_service_ipc.Session.{hash_session_token}
use clash_verge_service_ipc.Disk.{
  DesiredState, default_desired, ActiveOwnerState, Stored, missing, corrupt, content, Files, Disk,
  io_step, read, write_json_atomic, with_context,
}

abbrev pub u64_max : ℕ
u64_max = 2 ^ 64 - 1

abbrev pub put_desired : Text → Stored DesiredState → Files → Files
put_desired key state files = record files {
  desired = λ k. if text_eq key k then state else files.desired k;
}

-- The rename of a file that does not parse: after it the file is gone.
quarantine_corrupt_owner_desired_state : Text → Action IoErrorKind Disk Unit
quarantine_corrupt_owner_desired_state key = do
  io_step
  λ d. (ok tt, record d { files = put_desired key missing d.files })

-- What the read gave decides the state; only a text that does not parse is set aside.
parsed_or_default :
    Text → Result IoErrorKind (Option DesiredState) → Action AnyError Disk DesiredState
unfolding quarantine_corrupt_owner_desired_state
parsed_or_default key (ok (some state)) = pure state
parsed_or_default key (ok none) =
    inspect (quarantine_corrupt_owner_desired_state key) λ _. pure default_desired
parsed_or_default key (err kind) = pure default_desired

secured_or_default : Text → Result IoErrorKind Unit → Action AnyError Disk DesiredState
unfolding parsed_or_default
secured_or_default key (err kind) = pure default_desired
secured_or_default key (ok _) = inspect (read (λ files. files.desired key)) (parsed_or_default key)

unfoldable pub read_owner_desired_state_resilient : Text → Action AnyError Disk DesiredState
unfolding secured_or_default
read_owner_desired_state_resilient key = inspect io_step (secured_or_default key)

unfoldable pub load_owner_desired_state : Text → Action AnyError Disk DesiredState
load_owner_desired_state key = read_owner_desired_state_resilient key

-- The generation and the time that every update sets.
abbrev pub stamped : ℕ → DesiredState → DesiredState
stamped now state = record state {
  generation = saturating_add u64_max state.generation 1;
  updated_at = now;
}

-- A failure of the write is only logged.
unfoldable pub update_owner_desired_state :
    Text → (DesiredState → DesiredState) → Action AnyError Disk DesiredState
update_owner_desired_state key update = do
  before ← read_owner_desired_state_resilient key
  λ d.
      let after = stamped d.now (update before) in
      (ok after, (write_json_atomic (put_desired key) after d).1)

abbrev pub started : ClashConfig → DesiredState → DesiredState
started config state = record state {
  core_should_be_running = true;
  last_clash_config = some config;
  last_writer_config = some config.log_config;
}

abbrev pub stopped : DesiredState → DesiredState
stopped state = record state { core_should_be_running = false }

abbrev relogged : WriterConfig → Option ClashConfig → Option ClashConfig
relogged config none = none
relogged config (some clash) = some (record clash { log_config = config })

abbrev pub rewritten : WriterConfig → DesiredState → DesiredState
rewritten config state = record state {
  last_writer_config = some config;
  last_clash_config = relogged config state.last_clash_config;
}

unfoldable pub persist_owner_core_started :
    AuthenticatedOwner → ClashConfig → Action AnyError Disk DesiredState
persist_owner_core_started owner config = update_owner_desired_state owner.key (started config)

unfoldable pub persist_owner_core_stopped_by_key : Text → Action AnyError Disk DesiredState
persist_owner_core_stopped_by_key key = update_owner_desired_state key stopped

unfoldable pub persist_owner_core_stopped : AuthenticatedOwner → Action AnyError Disk DesiredState
persist_owner_core_stopped owner = persist_owner_core_stopped_by_key owner.key

unfoldable pub persist_owner_writer_config :
    AuthenticatedOwner → WriterConfig → Action AnyError Disk DesiredState
persist_owner_writer_config owner config = update_owner_desired_state owner.key (rewritten config)

-- Of an absent file there is no owner; a text that does not parse is an error.
active_of : Result IoErrorKind (Option ActiveOwnerState) → Result AnyError (Option ActiveOwnerState)
active_of (ok (some active)) = ok (some active)
active_of (ok none) = err anyhow
active_of (err not_found) = ok none
active_of (err kind) = err (context (of_io kind))

unfoldable pub load_active_owner : Action AnyError Disk (Option ActiveOwnerState)
unfolding active_of
load_active_owner = do
  with_context io_step
  λ d. let (r, d') = read (λ files. files.active_owner) d in (active_of r, d')

-- `read_json_or_default` of the generation file.
generation_of : Result IoErrorKind (Option ℕ) → Result AnyError ℕ
generation_of (ok (some generation)) = ok generation
generation_of (ok none) = err anyhow
generation_of (err not_found) = ok 0
generation_of (err kind) = err (context (of_io kind))

unfoldable pub read_generation : Action AnyError Disk ℕ
unfolding generation_of
read_generation = do
  with_context io_step
  λ d. let (r, d') = read (λ files. files.owner_generation) d in (generation_of r, d')

abbrev pub place_generation : Stored ℕ → Files → Files
place_generation generation files = record files { owner_generation = generation }

abbrev pub place_active : Stored ActiveOwnerState → Files → Files
place_active active files = record files { active_owner = active }

abbrev pub put_generation : ℕ → Files → Files
put_generation generation = place_generation (content generation)

abbrev pub put_active : ActiveOwnerState → Files → Files
put_active active = place_active (content active)

abbrev pub new_session : AuthenticatedOwner → Text → ℕ → ActiveOwnerState
new_session owner hash generation = record {
  owner_key = owner.key;
  identity = owner.identity;
  app_data_root = owner.app_data_root;
  generation = generation;
  session_token_hash = hash;
}

-- The generation is on the disk before the session that carries it.
commit_hashed : AuthenticatedOwner → Text → Action AnyError Disk ActiveOwnerState
commit_hashed owner hash = do
  before ← read_generation
  let generation = saturating_add u64_max before 1
  write_json_atomic place_generation generation
  write_json_atomic place_active (new_session owner hash generation)
  pure (new_session owner hash generation)

unfoldable pub commit_active_owner_session :
    (Text → Text) → AuthenticatedOwner → Text → Action AnyError Disk ActiveOwnerState
unfolding commit_hashed
commit_active_owner_session digest owner token =
    resume (hash_session_token digest token) (commit_hashed owner)

abbrev pub without_owner : Files → Files
without_owner = place_active missing

-- `tokio::fs::remove_file` once the call itself goes through: the file decides.
removed : Stored ActiveOwnerState → Action IoErrorKind Disk Unit
removed missing d = (err not_found, d)
removed corrupt d = (ok tt, record d { files = without_owner d.files })
removed (content _) d = (ok tt, record d { files = without_owner d.files })

unfoldable pub remove_active_owner : Action IoErrorKind Disk Unit
unfolding removed
remove_active_owner = do io_step; λ d. removed d.files.active_owner d

-- The removal of an absent file succeeds like that of a present one.
cleared : Result IoErrorKind Unit → Action AnyError Disk Unit
cleared (ok _) d = (ok tt, d)
cleared (err not_found) d = (ok tt, d)
cleared (err kind) d = (err (context (of_io kind)), d)

unfoldable pub clear_active_owner : Action AnyError Disk Unit
unfolding cleared remove_active_owner
clear_active_owner = inspect remove_active_owner cleared
