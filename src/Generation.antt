-- ===== src/Generation.antt =====
-- The runtime generation on the disk (src/core/runtime_generation): its files, the files of the
-- application that it is copied from, and the calls of the operating system that read and write
-- them. Every call may fail, and before each call others may have changed the application's files
-- or replaced the core. The files that the core itself keeps in the generation are not in the state.
pub mod Names
pub mod Retry
pub mod Write
pub mod Gather
pub mod Materialize
pub mod Stage
pub mod Effects
use clash_verge_service_ipc.Prelude.{
  ℕ, ◌+◌, Bool, true, false, Option, none, some, List, [], ◌∷◌, ◌++◌, ◌==◌, if◌then◌else◌, length,
  Text, text_eq, Result, ok, err, Action, pure, fail, modify, ◌>>=◌, ◌>>◌,
}
use clash_verge_service_ipc.AnyError.{IoErrorKind, not_found}
use clash_verge_service_ipc.Destination.{staging_temp_name}
use clash_verge_service_ipc.Manager.{CoreManager}

-- The system that the service is built for; on Windows with the codes of the errors that a live file
-- handle causes, which are constants of another crate.
pub data Os : Type 0 where
  linux macos : Os
  windows : List ℕ → Os

-- `std::io::Error`
pub record IoError : Type 0 where
  pub kind : IoErrorKind
  pub raw_os_error : Option ℕ

pub data FileKind : Type 0 where
  ordinary symlink directory : FileKind

-- A file of the application: what `symlink_metadata`, `canonicalize`, `metadata` and a read show.
pub record SourceFile : Type 0 where
  pub kind : FileKind
  pub canonical : Text
  pub contents : Text
  pub mtime_ns : Option ℕ

-- What happens at one call: others act first, then the call fails or not; a write that fails has
-- written a part.
pub record Turn : Type 0 where
  pub sources : Option (Text → Option SourceFile)
  pub core : Option CoreManager
  pub fault : Option IoError
  pub part : Text

pub record Host : Type 0 where
  pub manager : CoreManager
  pub sources : Text → Option SourceFile
  pub files : Text → Option Text  -- by path, the service's own
  pub turns : List Turn  -- where the list ends, the calls succeed and nothing else happens
  pub sequence : ℕ  -- `STAGING_TEMP_SEQUENCE`
  pub pid : ℕ  -- `std::process::id()`

abbrev or_else {ℓ} : {A : Type ℓ} → Option A → A → A
or_else none a = a
or_else (some b) a = b

abbrev pub next_turns : List Turn → List Turn
next_turns [] = []
next_turns (turn ∷ turns) = turns

abbrev pub fault_of : List Turn → Option IoError
fault_of [] = none
fault_of (turn ∷ turns) = turn.fault

abbrev pub part_of : List Turn → Text
part_of [] = []
part_of (turn ∷ turns) = turn.part

abbrev pub sources_of : List Turn → (Text → Option SourceFile) → Text → Option SourceFile
sources_of [] sources = sources
sources_of (turn ∷ turns) sources = or_else turn.sources sources

abbrev pub core_of : List Turn → CoreManager → CoreManager
core_of [] manager = manager
core_of (turn ∷ turns) manager = or_else turn.core manager

-- What the others have done when the call comes.
abbrev pub arrive : Host → Host
arrive h = record h {
  manager = core_of h.turns h.manager;
  sources = sources_of h.turns h.sources;
  turns = next_turns h.turns;
}

abbrev pub as_result : Option IoError → Result IoError Unit
as_result none = ok tt
as_result (some error) = err error

-- One call without an effect on the files.
unfoldable pub call : Action IoError Host Unit
call h = (as_result (fault_of h.turns), arrive h)

abbrev pub absent : IoError
absent = record { kind = not_found; raw_os_error = some 2 }

abbrev pub put : Text → Option Text → Host → Host
put path contents h = record h { files = λ q. if text_eq path q then contents else h.files q }

-- `tokio::fs::remove_file`
abbrev removed : Text → Option Text → Action IoError Host Unit
removed path none = fail absent
removed path (some contents) = modify (put path none) tt

unfoldable pub remove_file : Text → Action IoError Host Unit
unfolding call
remove_file path = call >>= λ _ h. removed path (h.files path) h

-- `tokio::fs::rename`, and its counterpart on Windows (src/core/atomic_file.rs, `replace`).
abbrev renamed : Text → Text → Option Text → Action IoError Host Unit
renamed source destination none = fail absent
renamed source destination (some contents) =
    modify (λ h. put destination (some contents) (put source none h)) tt

unfoldable pub replace : Text → Text → Action IoError Host Unit
unfolding call
replace source destination = call >>= λ _ h. renamed source destination (h.files source) h

-- A write: its whole contents, or a part of them when it fails.
abbrev written : Text → Text → Text → Option IoError → Action IoError Host Unit
written path contents part none = modify (put path (some contents)) tt
written path contents part (some error) = λ h. (err error, put path (some part) h)

unfoldable pub write_to : Text → Text → Action IoError Host Unit
write_to path contents h = written path contents (part_of h.turns) (fault_of h.turns) (arrive h)

-- `File::create`, `write_all` and `sync_all`.
unfoldable pub write_temp : Text → Text → Action IoError Host Unit
unfolding call write_to
write_temp path contents = write_to path [] >>= λ _. (write_to path contents >>= λ _. call)

-- `tokio::fs::copy` from the application's files.
abbrev copied : Text → Option SourceFile → Action IoError Host Unit
copied path none = fail absent
copied path (some file) = write_to path file.contents

unfoldable pub copy_file : Text → Text → Action IoError Host Unit
unfolding call write_to
copy_file source path = call >>= λ _ h. copied path (h.sources source) h

-- `tokio::fs::metadata` of an application's file.
abbrev inspected : Option SourceFile → Action IoError Host SourceFile
inspected none = fail absent
inspected (some file) = pure file

unfoldable pub metadata : Text → Action IoError Host SourceFile
unfolding call
metadata source = call >>= λ _ h. inspected (h.sources source) h

-- A piece of a path: the text behind its last slash, and the text up to and with that slash.
abbrev pub has_slash : Text → Bool
has_slash [] = false
has_slash (c ∷ s) = if c == b'/' then true else has_slash s

unfoldable pub file_name : Text → Text
file_name [] = []
file_name (c ∷ s) = let later = file_name s in if has_slash (c ∷ s) then later else c ∷ s

unfoldable pub directory_of : Text → Text
directory_of [] = []
directory_of (c ∷ s) = let later = directory_of s in if has_slash (c ∷ s) then c ∷ later else []

-- The sequence is taken with `fetch_add`.
unfoldable pub staging_temp_path : Text → Host → Text
unfolding file_name directory_of staging_temp_name
staging_temp_path destination h =
    directory_of destination ++ staging_temp_name (file_name destination) h.pid h.sequence

abbrev pub next_sequence : Host → Host
next_sequence h = record h { sequence = h.sequence + 1 }
