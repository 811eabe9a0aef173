-- ===== src/Generation/Write.antt =====
-- What a staging does to one file of the generation (src/core/runtime_generation/staging.rs).
use clash_verge_service_ipc.Prelude.{
  Bool, true, ◌&&◌, not, Option, none, some, ◌==◌, length, Text, ◌++◌, ◌∷◌, Result, ok, err, Action,
  pure, fail, ◌>>=◌, inspect,
}
use clash_verge_service_ipc.AnyError.{IoErrorKind, not_found, other_kind}
use clash_verge_service_ipc.Destination.{manifest_file_name}
use clash_verge_service_ipc.Plan.{option_eq, SourceIdentity, RuntimeManifest, default_manifest}
use clash_verge_service_ipc.Generation.{
  Os, IoError, Host, SourceFile, call, remove_file, replace, write_temp, copy_file, metadata,
  staging_temp_path, next_sequence,
}
use clash_verge_service_ipc.Generation.Retry.{while_the_core_lets_go}

-- A file that is not there counts as removed.
abbrev pub or_absent : Result IoError Unit → Result IoError Unit
or_absent (ok u) = ok u
or_absent (err error) = unless_absent error error.kind
  where
    unless_absent : IoError → IoErrorKind → Result IoError Unit
    unless_absent error not_found = ok tt
    unless_absent error _ = err error

unfoldable pub remove_staged_file : Os → Text → Action IoError Host Unit
unfolding remove_file while_the_core_lets_go
remove_staged_file os path =
    while_the_core_lets_go os (λ h. (or_absent (remove_file path h).0, (remove_file path h).1))

-- A failure removes the temporary, if that is possible.
abbrev pub or_discard : Text → Result IoError Unit → Action IoError Host Unit
or_discard staged (ok _) = pure tt
or_discard staged (err error) = λ h. (err error, (remove_file staged h).1)

unfoldable pub replace_staged_file : Os → Text → Text → Action IoError Host Unit
unfolding while_the_core_lets_go replace remove_file
replace_staged_file os staged destination =
    inspect (while_the_core_lets_go os (replace staged destination)) (or_discard staged)

-- The temporary is there or not: it replaces the destination, or it is removed.
abbrev pub settle : Os → Text → Text → Result IoError Unit → Action IoError Host Unit
settle os staged destination (ok _) = replace_staged_file os staged destination
settle os staged destination (err error) = or_discard staged (err error)

abbrev pub copy_through : Os → Text → Text → Text → Action IoError Host Unit
copy_through os source destination staged =
    inspect (copy_file source staged) (settle os staged destination)

-- The call is `create_dir_all` for the parent directory.
unfoldable pub copy_staged_file : Os → Text → Text → Action IoError Host Unit
unfolding call copy_file replace_staged_file remove_file staging_temp_path
copy_staged_file os source destination = call >>= λ _ h.
    copy_through os source destination (staging_temp_path destination h) (next_sequence h)

abbrev pub write_through : Os → Text → Text → Text → Action IoError Host Unit
write_through os destination contents staged =
    inspect (write_temp staged contents) (settle os staged destination)

unfoldable pub write_atomically : Os → Text → Text → Action IoError Host Unit
unfolding write_temp replace_staged_file remove_file staging_temp_path
write_atomically os destination contents h =
    write_through os destination contents (staging_temp_path destination h) (next_sequence h)

-- `serde_json::to_vec` and `serde_json::from_slice` for the manifest.
pub record Serde : Type 0 where
  pub to_vec : RuntimeManifest → Option Text
  pub from_slice : Text → Option RuntimeManifest

-- `PathBuf::join` for one name.
abbrev pub join : Text → Text → Text
join directory name = directory ++ (b'/' ∷ name)

abbrev invalid_data : IoError
invalid_data = record { kind = other_kind; raw_os_error = none }

abbrev pub commit_encoded : Os → Text → Text → Text → Option Text → Action IoError Host Unit
commit_encoded os generation config_path yaml none = fail invalid_data
commit_encoded os generation config_path yaml (some encoded) =
    write_atomically os (join generation manifest_file_name) encoded >>= λ _.
    write_atomically os config_path yaml

unfoldable pub commit_staged_config :
    Os → Serde → Text → Text → Text → RuntimeManifest → Action IoError Host Unit
unfolding write_atomically
commit_staged_config os serde generation config_path yaml manifest =
    commit_encoded os generation config_path yaml (serde.to_vec manifest)

-- Whether the file that was copied still has the length and the time that the plan has noted.
abbrev changed : SourceIdentity → Result IoError SourceFile → Bool
changed recorded (err error) = true
changed recorded (ok file) =
    not (length file.contents == recorded.len && option_eq file.mtime_ns recorded.mtime_ns)

unfoldable pub source_identity_changed : Text → SourceIdentity → Host → Bool × Host
unfolding metadata
source_identity_changed source recorded h =
    (changed recorded (metadata source h).0, (metadata source h).1)

-- An error stands for a text that does not parse or a file that cannot be read.
abbrev parsed : Serde → Option Text → Result Unit RuntimeManifest
parsed serde none = ok default_manifest
parsed serde (some contents) = elim (serde.from_slice contents) [
  | none ↦ err tt
  | some manifest ↦ ok manifest
]

abbrev read_contents : Serde → Option Text → Result IoError Unit → Result Unit RuntimeManifest
read_contents serde contents (ok _) = parsed serde contents
read_contents serde contents (err error) = elim error.kind [
  | not_found ↦ ok default_manifest
  | _ ↦ err tt
]

unfoldable pub read_manifest : Serde → Text → Host → Result Unit RuntimeManifest × Host
unfolding call
read_manifest serde generation h =
    let (r, h') = call h in
    (read_contents serde (h'.files (join generation manifest_file_name)) r, h')
