-- ===== src/Destination/Temporaries.antt =====
-- The names of staging temporaries (src/core/runtime_generation/assets.rs, staging.rs).
use clash_verge_service_ipc.Prelude.{
  ℕ, ◌≡◌, refl, true, false, none, some, [], ◌∷◌, ◌++◌, ◌==◌, all, All, is_empty, arith, Text,
  bytes,
}
use clash_verge_service_ipc.Prelude.Decimal.{is_digit, decimal, decimal-digits, decimal-cons}
use clash_verge_service_ipc.Prelude.Split.{
  strip_prefix, rsplit_once_at, split_once, split_once-append,
}
use clash_verge_service_ipc.Destination.{
  staging_temp_infix, is_staging_temporary, is_pid_and_sequence, staging_temp_name,
}

-- No byte of the text is the dot that the infix begins with.
abbrev NoDot : Text → Type 0
NoDot s = All (λ c. (b'.' == c) ≡ false) s

rsplit_none : (s : Text) → NoDot s → rsplit_once_at staging_temp_infix s ≡ none
unfolding rsplit_once_at
rsplit_none [] h = refl
rsplit_none (c ∷ s) h = rw (rsplit_none s h.1) (rw (h.0, strip_prefix) refl)

rsplit_here :
    (sep : Text) (c : ℕ) (s u : Text)
    → rsplit_once_at sep s ≡ none
    → strip_prefix sep (c ∷ s) ≡ some u
    → rsplit_once_at sep (c ∷ s) ≡ some ([], u)
unfolding rsplit_once_at
rsplit_here sep c s u later stripped = rw later (rw stripped refl)

rsplit_later :
    (sep : Text) (c : ℕ) (s t u : Text)
    → rsplit_once_at sep s ≡ some (t, u)
    → rsplit_once_at sep (c ∷ s) ≡ some (c ∷ t, u)
unfolding rsplit_once_at
rsplit_later sep c s t u later = rw later refl

strip_infix :
    (tail : Text) → strip_prefix staging_temp_infix (staging_temp_infix ++ tail) ≡ some tail
unfolding strip_prefix
strip_infix tail = refl

-- The infix is found in front of a tail without dots, whatever stands before it.
rsplit_infix :
    (name tail : Text)
    → NoDot tail
    → rsplit_once_at staging_temp_infix (name ++ (staging_temp_infix ++ tail)) ≡ some (name, tail)
rsplit_infix [] tail h =
    rsplit_here staging_temp_infix b'.' (bytes "staging-" ++ tail) tail
      (rsplit_none (bytes "staging-" ++ tail)
        (refl, (refl, (refl, (refl, (refl, (refl, (refl, (refl, h)))))))))
      (strip_infix tail)
rsplit_infix (c ∷ name) tail h =
    rsplit_later staging_temp_infix c (name ++ (staging_temp_infix ++ tail)) name tail
      (rsplit_infix name tail h)

digits_NoDot : (s t : Text) → All (λ c. is_digit c ≡ true) s → NoDot t → NoDot (s ++ t)
digits_NoDot [] t h k = k
digits_NoDot (c ∷ s) t h k = (ground arith, digits_NoDot s t h.1 k)

no_dash : (s : Text) → All (λ c. is_digit c ≡ true) s → All (λ c. (c == b'-') ≡ false) s
no_dash [] h = tt
no_dash (c ∷ s) h = (ground arith, no_dash s h.1)

all_digits : (s : Text) → All (λ c. is_digit c ≡ true) s → all is_digit s ≡ true
all_digits [] h = refl
all_digits (c ∷ s) h = rw (h.0, all_digits s h.1)

decimal_nonempty : (n : ℕ) → is_empty (decimal n) ≡ false
decimal_nonempty n = let (d, u, e) = decimal-cons n in rw e

append_nil_NoDot : (s : Text) → All (λ c. is_digit c ≡ true) s → NoDot s
append_nil_NoDot [] h = tt
append_nil_NoDot (c ∷ s) h = (ground arith, append_nil_NoDot s h.1)

pid_and_sequence :
    (pid sequence : ℕ)
    → is_pid_and_sequence (split_once b'-' (decimal pid ++ (b'-' ∷ decimal sequence))) ≡ true
unfolding is_pid_and_sequence
pid_and_sequence pid sequence =
    rw
      (split_once-append b'-' (decimal pid) (decimal sequence)
        (no_dash (decimal pid) (decimal-digits pid)))
      (rw (decimal_nonempty pid, decimal_nonempty sequence)
        (rw
          (
            all_digits (decimal pid) (decimal-digits pid),
            all_digits (decimal sequence) (decimal-digits sequence),
          )
          refl))

-- Every name that staging gives a temporary, for any file name, process and sequence number, is
-- recognised as one, whatever dots, dashes or infixes the file name holds.
pub is_staging_temporary-staging_temp_name :
    (name : Text) (pid sequence : ℕ)
    → is_staging_temporary (staging_temp_name name pid sequence) ≡ true
unfolding is_staging_temporary staging_temp_name strip_prefix
is_staging_temporary-staging_temp_name name pid sequence =
    rw
      (rsplit_infix name (decimal pid ++ (b'-' ∷ decimal sequence)) (
        digits_NoDot (decimal pid) (b'-' ∷ decimal sequence) (decimal-digits pid)
          (refl, append_nil_NoDot (decimal sequence) (decimal-digits sequence))))
      (pid_and_sequence pid sequence)
