-- ===== src/Disk.antt =====
-- The persistent state directory (src/core/desired.rs: the files that it reads and writes).
-- Every call of the operating system may fail: the outcomes of the calls to come are a list, so a
-- statement about every disk is a statement about every pattern of failures. Where the list ends
-- the calls succeed.
pub mod Steps
pub mod Calls
pub mod Write
use clash_verge_service_ipc.Prelude.{
  ℕ, zero, suc, Bool, false, Option, none, some, List, [], ◌∷◌, Text, Result, ok, err, Action, pure,
  resume, ◌>>=◌, ◌>>◌, inspect, map_err,
}
use clash_verge_service_ipc.AnyError.{
  AnyError, IoErrorKind, not_found, permission_denied, already_exists, other_kind, of_io, context,
  anyhow,
}
use clash_verge_service_ipc.Structure.{OwnerIdentity, ClashConfig, WriterConfig}

pub record DesiredState : Type 0 where
  pub core_should_be_running : Bool
  pub last_clash_config : Option ClashConfig
  pub last_writer_config : Option WriterConfig
  pub generation : ℕ  -- u64
  pub updated_at : ℕ  -- u64

-- `DesiredState::default()`
unfoldable pub default_desired : DesiredState
default_desired = record {
  core_should_be_running = false;
  last_clash_config = none;
  last_writer_config = none;
  generation = 0;
  updated_at = 0;
}

pub record ActiveOwnerState : Type 0 where
  pub owner_key : Text
  pub identity : OwnerIdentity
  pub app_data_root : Text
  pub generation : ℕ  -- u64
  pub session_token_hash : Text

-- A file of JSON: absent, present with a text that does not parse, or present with a value.
pub data Stored {ℓ} (A : Type ℓ) : Type ℓ where
  missing : Stored A
  corrupt : Stored A
  content : A → Stored A

pub record Files : Type 0 where
  pub active_owner : Stored ActiveOwnerState
  pub owner_generation : Stored ℕ
  pub desired : Text → Stored DesiredState  -- by owner key

-- A failure of a call that is not the absence of its file: that one the files decide.
pub data Fault : Type 0 where
  denied exists other_fault : Fault

abbrev pub kind_of : Fault → IoErrorKind
kind_of denied = permission_denied
kind_of exists = already_exists
kind_of other_fault = other_kind

-- How far the temporary file of a write has come.
pub data Progress : Type 0 where
  created written flushed synced : Progress

-- The temporary file, with what it makes of the files when it replaces its target: the whole text
-- is there once all of it is written, flushed and synced; before, what replaces the target is torn.
pub record Temporary : Type 0 where
  pub progress : Progress
  pub whole : Files → Files
  pub torn : Files → Files

pub record Disk : Type 0 where
  pub files : Files
  pub temporary : Option Temporary  -- of the write that goes on
  pub outcomes : List (Option Fault)
  pub now : ℕ  -- the clock, in seconds

-- One call of the operating system that changes no file read here.
after_outcome : List (Option Fault) → Disk → Result IoErrorKind Unit × Disk
after_outcome [] d = (ok tt, d)
after_outcome (none ∷ later) d = (ok tt, record d { outcomes = later })
after_outcome (some fault ∷ later) d = (err (kind_of fault), record d { outcomes = later })

unfoldable pub io_step : Action IoErrorKind Disk Unit
unfolding after_outcome
io_step d = after_outcome d.outcomes d

-- So many calls, one after another, each with `?`.
unfoldable pub steps : ℕ → Action IoErrorKind Disk Unit
steps zero = pure tt
steps (suc n) = io_step >> steps n

bytes_of : {A : Type 0} → Stored A → Result IoErrorKind (Option A)
bytes_of missing = err not_found
bytes_of corrupt = ok none
bytes_of (content a) = ok (some a)

-- `tokio::fs::read` and the parse of what was read: `none` where it does not parse.
unfoldable pub read : {A : Type 0} → (Files → Stored A) → Action IoErrorKind Disk (Option A)
unfolding bytes_of
read file = do io_step; λ d. (bytes_of (file d.files), d)

-- A call on the temporary file.
pub on_temporary : (Option Temporary → Option Temporary) → Action IoErrorKind Disk Unit
on_temporary f = do io_step; λ d. (ok tt, record d { temporary = f d.temporary })

-- The removal of the temporary file after a failure: its own failure is only logged.
abbrev ignoring : Action IoErrorKind Disk Unit → Action IoErrorKind Disk Unit
ignoring m d = (ok tt, (m d).1)

unfoldable pub remove_temporary : Action IoErrorKind Disk Unit
unfolding on_temporary
remove_temporary = ignoring (on_temporary λ _. none)

-- `create_new`: the file is there, and it is empty.
create_temporary : (Files → Files) → (Files → Files) → Action IoErrorKind Disk Unit
unfolding on_temporary
create_temporary whole torn =
    on_temporary λ _. some (record { progress = created; whole = whole; torn = torn })

-- Each of the three calls builds on the one before it.
abbrev after_write : Progress → Progress
after_write created = written
after_write p = p

abbrev after_flush : Progress → Progress
after_flush written = flushed
after_flush p = p

abbrev after_sync : Progress → Progress
after_sync flushed = synced
after_sync p = p

abbrev advanced : (Progress → Progress) → Option Temporary → Option Temporary
advanced f none = none
advanced f (some t) = some (record t { progress = f t.progress })

advance : (Progress → Progress) → Action IoErrorKind Disk Unit
unfolding on_temporary
advance f = on_temporary (advanced f)

abbrev placed : Progress → Temporary → Files → Files
placed synced t = t.whole
placed _ t = t.torn

-- The rename moves the temporary file, such as it is, into the place of its target.
install : Option Temporary → Action IoErrorKind Disk Unit
install none d = (err not_found, d)
install (some t) d = (ok tt, record d { files = placed t.progress t d.files; temporary = none })

replace : Action IoErrorKind Disk Unit
unfolding install
replace = do io_step; λ d. install d.temporary d

-- Create, write, flush and sync the temporary file and secure it; replace the file; secure it.
fill_and_replace : (Files → Files) → (Files → Files) → Action IoErrorKind Disk Unit
unfolding create_temporary advance replace
fill_and_replace whole torn = do
  create_temporary whole torn
  advance after_write
  advance after_flush
  advance after_sync
  io_step
  replace
  io_step

clean_up : Result IoErrorKind Unit → Action IoErrorKind Disk Unit
unfolding remove_temporary
clean_up (ok _) d = (ok tt, d)
clean_up (err kind) d = (err kind, (remove_temporary d).1)

-- `place` puts what the file holds in its place: a torn text does not parse. The layout of the state
-- directory is five calls; the parent of the file is one more.
unfoldable pub write_json_atomic :
    {A : Type 0} → (Stored A → Files → Files) → A → Action AnyError Disk Unit
unfolding fill_and_replace clean_up
write_json_atomic place value d =
    let (r, d') =
      (do
        steps 5
        steps 1
        inspect (fill_and_replace (place (content value)) (place corrupt)) clean_up)
        d in
    (map_err (λ kind. context (of_io kind)) r, d')

-- `with_context`: an I/O error becomes the cause below a message.
abbrev pub with_context : {A : Type 0} → Action IoErrorKind Disk A → Action AnyError Disk A
with_context m d = (map_err (λ kind. context (of_io kind)) (m d).0, (m d).1)
