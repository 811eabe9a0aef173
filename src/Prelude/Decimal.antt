-- ===== src/Prelude/Decimal.antt =====
-- Decimal print and parse, as Rust's `to_string` and `str::parse` do for an unsigned integer.
use clash_verge_service_ipc.Prelude.Tests.{ltb, leb, ◌==◌, if◌then◌else◌, Bool-cases, ltb→lt}
use clash_verge_service_ipc.Prelude.Lists.{All}
use clash_verge_service_ipc.Prelude.Bytes.{Text}
use Prim.Native.Nat.{ℕ, zero, suc, ◌+◌, ◌-◌, ◌*◌, ◌/◌, ◌%◌, ◌≤◌, ◌<◌}
use mathlib.Core.Path.{◌≡◌, refl, ◌∙◌, ap, subst}
use mathlib.Core.Logic.{inl, inr}
use mathlib.Core.Bool.{Bool, true, false, ◌&&◌}
use mathlib.Core.Option.{Option, none, some}
use mathlib.Core.List.{[], ◌∷◌}
use native.Mathlib.Omega.{arith}

abbrev pub is_digit : ℕ → Bool
is_digit c = leb b'0' c && leb c b'9'

-- The digits of a number in front of a rest; the fuel bounds their number.
pub decimal_onto : ℕ → ℕ → Text → Text
decimal_onto zero n rest = rest
decimal_onto (suc fuel) n rest =
    let longer = decimal_onto fuel (n / 10) ((b'0' + n % 10) ∷ rest) in
    if ltb n 10 then (b'0' + n) ∷ rest else longer

-- `n.to_string()`: a number has fewer digits than n + 1.
unfoldable pub decimal : ℕ → Text
unfolding decimal_onto
decimal n = decimal_onto (suc n) n []

-- The loop of `from_str_radix`: a digit that would pass the type's maximum is an error.
pub parse_digits : ℕ → ℕ → Text → Option ℕ
parse_digits max acc [] = some acc
parse_digits max acc (c ∷ s) =
    let value = acc * 10 + (c - b'0') in
    elim (is_digit c && leb value max) [ true ↦ parse_digits max value s | false ↦ none ]

-- An empty text and a lone sign are errors; one `+` may stand in front.
parse_unsigned : ℕ → Text → Option ℕ
parse_unsigned max [] = none
parse_unsigned max (c ∷ []) = parse_digits max 0 (c ∷ [])
parse_unsigned max (c ∷ d ∷ s) =
    if c == b'+' then parse_digits max 0 (d ∷ s) else parse_digits max 0 (c ∷ d ∷ s)

unfoldable pub parse_uint : ℕ → Text → Option ℕ
unfolding parse_unsigned parse_digits
parse_uint max s = parse_unsigned max s

parse_digits-step :
    (max acc c : ℕ) (s : Text)
    → is_digit c ≡ true
    → acc * 10 + (c - b'0') ≤ max
    → parse_digits max acc (c ∷ s) ≡ parse_digits max (acc * 10 + (c - b'0')) s
unfolding parse_digits
parse_digits-step max acc c s d h = ground arith

digit_of : (n : ℕ) → n < 10 → (is_digit (b'0' + n) ≡ true) × (b'0' + n - b'0' ≡ n)
digit_of n h = (ground arith, omega arith)

-- Reading the digit `d` after `acc` gives `n`.
push_digit :
    (max acc d n : ℕ) (rest : Text)
    → d < 10
    → acc * 10 + d ≡ n
    → n ≤ max
    → parse_digits max acc ((b'0' + d) ∷ rest) ≡ parse_digits max n rest
push_digit max acc d n rest h e le =
    parse_digits-step max acc (b'0' + d) rest (digit_of d h).0 (omega arith)
    ∙ ap (λ v. parse_digits max v rest) (omega arith)

parse_digits-decimal_onto :
    (max fuel n : ℕ) (rest : Text)
    → n < fuel
    → n ≤ max
    → parse_digits max 0 (decimal_onto fuel n rest) ≡ parse_digits max n rest
unfolding decimal_onto
parse_digits-decimal_onto max zero n rest f h = absurd (omega arith)
parse_digits-decimal_onto max (suc fuel) n rest f h = elim (Bool-cases (ltb n 10)) [
  | inl small ↦ rw small (push_digit max 0 n n rest (ltb→lt n 10 small) (omega arith) h)
  | inr large ↦ rw large (
      parse_digits-decimal_onto max fuel (n / 10) ((b'0' + n % 10) ∷ rest) (ground arith)
        (omega arith)
      ∙ push_digit max (n / 10) (n % 10) n rest (omega arith) (omega arith) h)
]

-- Every byte of a printed number is a digit.
pub decimal_onto-digits :
    (fuel n : ℕ) (rest : Text)
    → All (λ c. is_digit c ≡ true) rest
    → All (λ c. is_digit c ≡ true) (decimal_onto fuel n rest)
unfolding decimal_onto
decimal_onto-digits zero n rest h = h
decimal_onto-digits (suc fuel) n rest h = elim (Bool-cases (ltb n 10)) [
  | inl small ↦ rw small ((digit_of n (ltb→lt n 10 small)).0, h)
  | inr large ↦ rw large (
      decimal_onto-digits fuel (n / 10) ((b'0' + n % 10) ∷ rest)
        ((digit_of (n % 10) (omega arith)).0, h))
]

pub decimal-digits : (n : ℕ) → All (λ c. is_digit c ≡ true) (decimal n)
unfolding decimal
decimal-digits n = decimal_onto-digits (suc n) n [] tt

-- A printed number is not empty.
decimal_onto-ne-nil :
    (fuel n : ℕ) (rest : Text)
    → (c : ℕ) (s : Text) → rest ≡ c ∷ s
    → (d : ℕ) × (u : Text) × (decimal_onto fuel n rest ≡ d ∷ u)
unfolding decimal_onto
decimal_onto-ne-nil zero n rest c s e = (c, s, e)
decimal_onto-ne-nil (suc fuel) n rest c s e = elim (Bool-cases (ltb n 10)) [
  | inl small ↦ rw small (b'0' + n, rest, refl)
  | inr large ↦ rw large (decimal_onto-ne-nil fuel (n / 10) _ (b'0' + n % 10) rest refl)
]

pub decimal-cons : (n : ℕ) → (d : ℕ) × (u : Text) × (decimal n ≡ d ∷ u)
unfolding decimal decimal_onto
decimal-cons n = elim (Bool-cases (ltb n 10)) [
  | inl small ↦ rw small (b'0' + n, [], refl)
  | inr large ↦ rw large (decimal_onto-ne-nil n (n / 10) _ (b'0' + n % 10) [] refl)
]

decimal_parses : (max n : ℕ) → n ≤ max → parse_digits max 0 (decimal n) ≡ some n
unfolding decimal
decimal_parses max n h =
    parse_digits-decimal_onto max (suc n) n [] (omega arith) h ∙ unfold parse_digits in refl

first_digit : (d : ℕ) (u : Text) → All (λ c. is_digit c ≡ true) (d ∷ u) → is_digit d ≡ true
first_digit d u h = h.0

-- On a text that begins with a digit no sign is stripped.
parse_unsigned-digit :
    (max c : ℕ) (s : Text)
    → is_digit c ≡ true
    → parse_unsigned max (c ∷ s) ≡ parse_digits max 0 (c ∷ s)
unfolding parse_unsigned
parse_unsigned-digit max c [] h = refl
parse_unsigned-digit max c (d ∷ s) h = ground arith

-- Parsing a printed number gives it back, if the type holds it.
pub parse_uint-decimal : (max n : ℕ) → n ≤ max → parse_uint max (decimal n) ≡ some n
parse_uint-decimal max n h =
    let (d, u, e) = decimal-cons n in
    rw e (
      unfold parse_uint in
      (parse_unsigned-digit max d u
          (first_digit d u (subst (All (λ c. is_digit c ≡ true)) e (decimal-digits n)))
        ∙ subst (λ s. parse_digits max 0 s ≡ some n) e (decimal_parses max n h)))
