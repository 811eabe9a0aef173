-- ===== src/Prelude/Hex.antt =====
-- Lower-case hexadecimal, as `format!("{byte:02x}")` prints it.
use Prim.Native.Nat.{ℕ, ◌+◌, ◌/◌, ◌%◌, ◌<◌}
use mathlib.Core.Path.{◌≡◌, refl}
use mathlib.Core.Bool.{Bool, ◌&&◌, ◌||◌}
use mathlib.Core.List.{[], ◌∷◌}
use native.Mathlib.Omega.{arith}
use clash_verge_service_ipc.Prelude.Tests.{ltb, leb, if◌then◌else◌}
use clash_verge_service_ipc.Prelude.Lists.{length, All}
use clash_verge_service_ipc.Prelude.Bytes.{Text}

abbrev pub hex_digit : ℕ → ℕ
hex_digit n = if ltb n 10 then b'0' + n else 87 + n

abbrev pub to_hex : Text → Text
to_hex [] = []
to_hex (b ∷ s) = hex_digit (b / 16) ∷ hex_digit (b % 16) ∷ to_hex s

-- `matches!(byte, b'0'..=b'9' | b'a'..=b'f')`
abbrev pub is_lower_hex : ℕ → Bool
is_lower_hex c = (leb b'0' c && leb c b'9') || (leb b'a' c && leb c b'f')

pub length-to_hex : (s : Text) → length (to_hex s) ≡ length s + length s
length-to_hex [] = refl
length-to_hex (b ∷ s) = omega (arith, length-to_hex s)

hex_digit-lt : (n : ℕ) → n < 16 → hex_digit n < 256
hex_digit-lt n h = ground arith

pub to_hex-bytes : (s : Text) → All (λ c. c < 256) s → All (λ c. c < 256) (to_hex s)
to_hex-bytes [] h = tt
to_hex-bytes (b ∷ s) h =
    (hex_digit-lt (b / 16) (omega arith), (hex_digit-lt (b % 16) (omega arith), to_hex-bytes s h.1))
