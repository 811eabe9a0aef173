-- ===== src/Destination.antt =====
-- Where a bundle may write inside a runtime generation
-- (src/core/runtime_generation/assets.rs). Paths are those of Unix.
pub mod Temporaries
pub mod Keys
use clash_verge_service_ipc.Prelude.{
  ℕ, ◌+◌, Bool, true, false, ◌&&◌, ◌||◌, not, Option, none, some, List, [], ◌∷◌, ◌++◌, map, leb,
  ◌==◌, if◌then◌else◌, all, is_empty, Text, bytes, text_eq, Result, ok, err, and_then,
}
use clash_verge_service_ipc.Prelude.Decimal.{is_digit, decimal}
use clash_verge_service_ipc.Prelude.Split.{split, join, split_once, strip_prefix, rsplit_once_at}
use clash_verge_service_ipc.ServiceError.{ServiceError, invalid_asset}

-- `std::path::Component` on Unix, without the prefix that only Windows has.
pub data Component : Type 0 where
  root_dir cur_dir parent_dir : Component
  normal : Text → Component

abbrev dot : Text
dot = b'.' ∷ []

abbrev dot_dot : Text
dot_dot = b'.' ∷ b'.' ∷ []

-- A piece between slashes: an empty one is nothing, and so is a `.` behind the first piece.
unfoldable pub component_of : Bool → Text → Option Component
component_of first piece =
    if is_empty piece
    then none
    else if text_eq piece dot
    then (if first then some cur_dir else none)
    else if text_eq piece dot_dot
    then some parent_dir
    else some (normal piece)

abbrev pub keep_some : Option Component → List Component → List Component
keep_some none rest = rest
keep_some (some c) rest = c ∷ rest

unfoldable pub components_from : Bool → List Text → List Component
unfolding component_of
components_from first [] = []
components_from first (piece ∷ pieces) =
    keep_some (component_of first piece) (components_from false pieces)

unfoldable pub is_absolute : Text → Bool
is_absolute [] = false
is_absolute (c ∷ s) = c == b'/'

-- `Path::components`
unfoldable pub components : Text → List Component
unfolding components_from is_absolute
components path =
    if is_absolute path
    then root_dir ∷ components_from false (split b'/' path)
    else components_from true (split b'/' path)

abbrev is_normal : Component → Bool
is_normal (normal part) = true
is_normal _ = false

unfoldable pub validate_destination : Text → Result ServiceError Text
validate_destination destination =
    if is_empty destination
      || is_absolute destination
      || not (all is_normal (components destination))
    then err invalid_asset
    else ok destination

abbrev pub runtime_config_file_name : Text
runtime_config_file_name = bytes "config.yaml"

-- src/core/runtime_generation/staging.rs
abbrev pub manifest_file_name : Text
manifest_file_name = bytes ".runtime-manifest.json"

abbrev pub staging_temp_infix : Text
staging_temp_infix = bytes ".staging-"

-- The digits on both sides of the first dash of a tail.
unfoldable pub is_pid_and_sequence : Option (Text × Text) → Bool
is_pid_and_sequence none = false
is_pid_and_sequence (some (pid, sequence)) =
    not (is_empty pid) && not (is_empty sequence) && all is_digit pid && all is_digit sequence

is_infixed : Option (Text × Text) → Bool
unfolding is_pid_and_sequence
is_infixed none = false
is_infixed (some (before, tail)) = is_pid_and_sequence (split_once b'-' tail)

is_dotted : Option Text → Bool
unfolding is_infixed
is_dotted none = false
is_dotted (some rest) = is_infixed (rsplit_once_at staging_temp_infix rest)

unfoldable pub is_staging_temporary : Text → Bool
unfolding is_dotted
is_staging_temporary name = is_dotted (strip_prefix dot name)

-- The name of a temporary beside a destination's file name
-- (src/core/runtime_generation/staging.rs, `staging_temp_path`).
unfoldable pub staging_temp_name : Text → ℕ → ℕ → Text
staging_temp_name name pid sequence =
    b'.' ∷ (name ++ (staging_temp_infix ++ (decimal pid ++ (b'-' ∷ decimal sequence))))

abbrev to_lower : ℕ → ℕ
to_lower c = if leb b'A' c && leb c b'Z' then c + 32 else c

unfoldable pub eq_ignore_ascii_case : Text → Text → Bool
eq_ignore_ascii_case s t = text_eq (map to_lower s) (map to_lower t)

unfoldable pub is_service_owned : Text → Bool
unfolding eq_ignore_ascii_case
is_service_owned only =
    eq_ignore_ascii_case only runtime_config_file_name
    || eq_ignore_ascii_case only manifest_file_name

-- The parts of a path, none of them a temporary's name.
unfoldable pub key_parts : List Component → Result ServiceError (List Text)
key_parts [] = ok []
key_parts (normal part ∷ rest) =
    let later = and_then (key_parts rest) (λ parts. ok (part ∷ parts)) in
    if is_staging_temporary part then err invalid_asset else later
key_parts (_ ∷ rest) = err invalid_asset

-- A name that the service owns is refused where it stands alone.
unfoldable pub joined_key : List Text → Result ServiceError Text
joined_key [] = err invalid_asset
joined_key (only ∷ []) = if is_service_owned only then err invalid_asset else ok only
joined_key (part ∷ next ∷ parts) = ok (join b'/' (part ∷ next ∷ parts))

unfoldable pub destination_key : Text → Result ServiceError Text
destination_key destination = and_then (key_parts (components destination)) joined_key

-- The key of an untrusted destination, which `resolve_in_generation` joins to the generation.
unfoldable pub resolve_key : Text → Result ServiceError Text
resolve_key destination = and_then (validate_destination destination) destination_key

unfoldable pub resolve_in_generation : Text → Text → Result ServiceError Text
unfolding resolve_key
resolve_in_generation generation destination =
    and_then (resolve_key destination) λ key. ok (generation ++ (b'/' ∷ key))
