-- ===== src/Examples/Sessions.antt =====
-- Sessions, gates and the protocol at concrete inputs.
use clash_verge_service_ipc.Prelude.{
  ℕ, ◌≤◌, ◌<◌, ◌≡◌, ◌≢◌, refl, ◌↔◌, ◌⊎◌, true, none, some, List, [], ◌∷◌, Text, bytes, option_then,
  ok, err, arith,
}
use clash_verge_service_ipc.AnyError.{AnyError}
use clash_verge_service_ipc.ServiceError.{stale_owner_session}
use clash_verge_service_ipc.Structure.{OwnerSessionProof}
use clash_verge_service_ipc.Session.{is_session_token, hash_session_token, constant_time_eq}
use clash_verge_service_ipc.Session.Comparison.{AreBytes, constant_time_eq_iff}
use clash_verge_service_ipc.Disk.{
  ActiveOwnerState, DesiredState, Disk, other_fault, content, corrupt, io_step, read, steps,
  write_json_atomic,
}
use clash_verge_service_ipc.Disk.Calls.{Writes}
use clash_verge_service_ipc.Disk.Write.{write_json_atomic-Writes}
use clash_verge_service_ipc.Desired.{
  read_generation, commit_active_owner_session, load_active_owner, new_session, place_generation,
  put_generation, stamped, stopped, update_owner_desired_state, read_owner_desired_state_resilient,
}
use clash_verge_service_ipc.Desired.Commit.{Commits, commit_active_owner_session-Commits}
use clash_verge_service_ipc.Desired.Owners.{
  Apart, owner_of, load_active_owner-ok, update_owner_desired_state-Apart,
}
use clash_verge_service_ipc.Desired.Generations.{
  DiskOp, commit, clear, stop, Since, run_ops, commit-Since,
}
use clash_verge_service_ipc.Desired.Refinement.{Runs, ledger, run_reports, run_ops-Runs}
use clash_verge_service_ipc.Gate.{require_active_session}
use clash_verge_service_ipc.Gate.Sessions.{
  earlier_session_stale, require_active_session_iff, legacy_session_rejected,
}
use clash_verge_service_ipc.Protocol.{
  ProtocolVersion, current, current_info, header_value, parse_header, supports_client,
  min_required_service_revision, min_supported_client_revision, protocol_epoch,
  require_protocol_version,
}
use clash_verge_service_ipc.Protocol.Header.{parse_header-header_value}
use clash_verge_service_ipc.Protocol.Compatibility.{
  require_protocol_version_iff, require_protocol_version-supports_client,
}
use clash_verge_service_ipc.Examples.Data.{
  alice, bob, token, other_token, digest, digest-IsDigest, no_files, fresh_disk,
}

abbrev hash : Text
hash = bytes "0707070707070707070707070707070707070707070707070707070707070707"

hash_bytes : AreBytes hash
hash_bytes = ground arith

abbrev first_session : ActiveOwnerState
first_session = new_session alice hash 1

abbrev second_session : ActiveOwnerState
second_session = new_session bob hash 2

abbrev after_first : Disk
after_first = (commit_active_owner_session digest alice token fresh_disk).1

first_commits : (commit_active_owner_session digest alice token fresh_disk).0 ≡ ok first_session
unfolding commit_active_owner_session hash_session_token is_session_token read_generation io_step
    read write_json_atomic steps
first_commits = refl

second_commits :
    (commit_active_owner_session digest bob other_token (run_ops digest [] after_first)).0
    ≡ ok second_session
unfolding commit_active_owner_session hash_session_token is_session_token read_generation io_step
    read write_json_atomic steps run_ops
second_commits = refl

abbrev first_proof : OwnerSessionProof
first_proof = record { generation = 1; token = token }

fresh-Since : Since 0 no_files
fresh-Since = record {
  level = 0;
  level_read = refl;
  level_fits = omega arith;
  level_since = omega arith;
  session_since = λ a h. cc;
}

earlier_session_stale_example :
    (require_active_session digest alice first_proof (
      run_ops digest
        (DiskOp.load_active ∷ [])
        (commit_active_owner_session digest bob other_token (run_ops digest [] after_first)).1)).0
    ≡ err stale_owner_session
earlier_session_stale_example =
    earlier_session_stale digest alice bob alice token other_token [] (DiskOp.load_active ∷ [])
      fresh_disk first_session second_session first_proof fresh-Since first_commits (omega arith)
      second_commits refl

commit-Since_example :
    (0 < first_session.generation) × Since first_session.generation after_first.files
commit-Since_example =
    commit-Since digest alice token fresh_disk first_session fresh-Since (omega arith) first_commits

abbrev one_day : List DiskOp
one_day = commit alice token ∷ stop alice.key ∷ commit bob other_token ∷ clear ∷ []

run_ops-Runs_example :
    Runs digest one_day
      (run_reports digest one_day fresh_disk)
      (ledger no_files)
      (ledger (run_ops digest one_day fresh_disk).files)
run_ops-Runs_example = run_ops-Runs digest one_day fresh_disk

commit_active_owner_session-Commits_example :
    ((h : Text) × (hash_session_token digest token ≡ ok h)
      × Commits alice h no_files
          (commit_active_owner_session digest alice token fresh_disk).0
          after_first.files)
    ⊎ ((e : AnyError) × (hash_session_token digest token ≡ err e)
        × (commit_active_owner_session digest alice token fresh_disk ≡ (err e, fresh_disk)))
commit_active_owner_session-Commits_example =
    commit_active_owner_session-Commits digest alice token fresh_disk

require_active_session_iff_example :
    ((require_active_session digest alice first_proof after_first).0 ≡ ok first_session) ↔ (
      ((load_active_owner after_first).0 ≡ ok (some first_session))
      × (first_session.owner_key ≡ alice.key)
      × (first_session.generation ≡ first_proof.generation)
      × (hash_session_token digest first_proof.token ≡ ok first_session.session_token_hash))
require_active_session_iff_example =
    require_active_session_iff digest digest-IsDigest alice first_proof first_session after_first
      hash_bytes

abbrev legacy : ActiveOwnerState
legacy = new_session alice [] 0

abbrev legacy_disk : Disk
legacy_disk = record fresh_disk { files = record no_files { active_owner = content legacy } }

legacy_session_rejected_example :
    (require_active_session digest alice first_proof legacy_disk).0 ≡ err stale_owner_session
legacy_session_rejected_example =
    legacy_session_rejected digest digest-IsDigest alice first_proof legacy legacy_disk refl refl

constant_time_eq_iff_example : (constant_time_eq hash (bytes "07") ≡ true) ↔ (hash ≡ bytes "07")
constant_time_eq_iff_example =
    constant_time_eq_iff hash (bytes "07") hash_bytes (omega arith, (omega arith, tt))

-- The sync of the temporary file fails.
abbrev failing_disk : Disk
failing_disk = record fresh_disk {
  outcomes = none ∷ none ∷ none ∷ none ∷ none ∷ none ∷ none ∷ none ∷ none ∷ some other_fault ∷ [];
}

write_json_atomic-Writes_example :
    Writes 12 failing_disk.outcomes no_files
      (put_generation 3 no_files)
      (write_json_atomic place_generation 3 failing_disk).0
      (write_json_atomic place_generation 3 failing_disk).1.files
write_json_atomic-Writes_example = write_json_atomic-Writes place_generation 3 failing_disk

update_owner_desired_state-Apart_example :
    ((before : DesiredState) × (now : ℕ) × ((read_owner_desired_state_resilient
          (bytes "501")
          fresh_disk).0
        ≡ ok before)
      × ((update_owner_desired_state (bytes "501") stopped fresh_disk).0
          ≡ ok (stamped now (stopped before))))
    × Apart
        (bytes "501")
        no_files
        (update_owner_desired_state (bytes "501") stopped fresh_disk).1.files
update_owner_desired_state-Apart_example =
    update_owner_desired_state-Apart (bytes "501") stopped fresh_disk

loads_first : (load_active_owner after_first).0 ≡ ok (some first_session)
unfolding commit_active_owner_session hash_session_token is_session_token read_generation io_step
    read write_json_atomic steps load_active_owner
loads_first = refl

load_active_owner-ok_example :
    (after_first.files.active_owner ≢ corrupt)
    × (owner_of after_first.files.active_owner ≡ some first_session)
load_active_owner-ok_example = load_active_owner-ok after_first (some first_session) loads_first

parse_header-header_value_example : parse_header (header_value current) ≡ some current
parse_header-header_value_example =
    parse_header-header_value current
      (record { epoch_fits = omega arith; revision_fits = omega arith })

require_protocol_version_iff_example : (require_protocol_version none ≡ ok tt) ↔ (
    (v : ProtocolVersion) × (option_then none parse_header ≡ some v)
    × (v.epoch ≡ protocol_epoch)
    × (min_supported_client_revision ≤ v.revision))
require_protocol_version_iff_example = require_protocol_version_iff none

require_protocol_version-supports_client_example :
    (require_protocol_version (some (header_value current)) ≡ ok tt)
    ↔ (supports_client (current_info (bytes "2.0")) current min_required_service_revision ≡ true)
require_protocol_version-supports_client_example =
    require_protocol_version-supports_client (bytes "2.0") current
      (record { epoch_fits = omega arith; revision_fits = omega arith })
