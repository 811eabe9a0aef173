-- ===== src/Session.antt =====
-- Session tokens: their hash (src/core/auth.rs, `hash_session_token`) and the comparison of two
-- hashes (src/core/server.rs, `constant_time_eq`).
mod Bits
pub mod Comparison
use Prim.Native.Nat.{bit_or, bit_xor}
use clash_verge_service_ipc.Prelude.{
  ℕ, Bool, true, false, ◌&&◌, not, List, [], ◌∷◌, ◌==◌, if◌then◌else◌, length, all, Text, Result,
  ok, err,
}
use clash_verge_service_ipc.Prelude.Hex.{is_lower_hex, to_hex}
use clash_verge_service_ipc.AnyError.{AnyError, anyhow}

abbrev pub session_token_hex_len : ℕ
session_token_hex_len = 64

-- `ensure!` of the token's form.
unfoldable pub is_session_token : Text → Bool
is_session_token token = length token == session_token_hex_len && all is_lower_hex token

unfoldable pub hash_session_token : (Text → Text) → Text → Result AnyError Text
hash_session_token digest token =
    if is_session_token token then ok (to_hex (digest token)) else err anyhow

-- The fold over the pairs; bytes of the longer text would be left out.
unfoldable pub difference : ℕ → Text → Text → ℕ
difference acc [] right = acc
difference acc (a ∷ left) [] = acc
difference acc (a ∷ left) (b ∷ right) = difference (bit_or acc (bit_xor a b)) left right

unfoldable pub constant_time_eq : Text → Text → Bool
unfolding difference
constant_time_eq left right =
    if not (length left == length right) then false else difference 0 left right == 0
