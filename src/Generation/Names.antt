-- ===== src/Generation/Names.antt =====
-- The names of the temporaries (src/core/runtime_generation/staging.rs, `staging_temp_path`).
use clash_verge_service_ipc.Prelude.{
  ℕ, Bool, true, false, ◌||◌, ◌≡◌, refl, ◌∙◌, ap, [], ◌∷◌, ◌++◌, if◌then◌else◌, Text, text_eq,
  text_eq_iff, All, arith, Bool-cases, inl, inr,
}
use clash_verge_service_ipc.Prelude.Decimal.{decimal, is_digit, decimal-digits}
use clash_verge_service_ipc.Destination.{
  is_staging_temporary, staging_temp_name, staging_temp_infix,
}
use clash_verge_service_ipc.Destination.Temporaries.{is_staging_temporary-staging_temp_name}
use clash_verge_service_ipc.Generation.{Host, has_slash, file_name, directory_of, staging_temp_path}

has_slash-append : (s t : Text) → has_slash (s ++ t) ≡ (has_slash s || has_slash t)
has_slash-append [] t = refl
has_slash-append (c ∷ s) t = ground (arith, has_slash-append s t)

has_slash-file_name : (s : Text) → has_slash (file_name s) ≡ false
unfolding file_name
has_slash-file_name [] = refl
has_slash-file_name (c ∷ s) = ground (arith, has_slash-file_name s)

file_name-plain : (n : Text) → has_slash n ≡ false → file_name n ≡ n
unfolding file_name
file_name-plain [] e = refl
file_name-plain (c ∷ n) e = ground (arith, e)

pub has_slash-join : (s n : Text) → has_slash (s ++ (b'/' ∷ n)) ≡ true
has_slash-join [] n = refl
has_slash-join (c ∷ s) n = ground (arith, has_slash-join s n)

pub file_name-join : (s n : Text) → has_slash n ≡ false → file_name (s ++ (b'/' ∷ n)) ≡ n
unfolding file_name
file_name-join [] n e = file_name-plain n e
file_name-join (c ∷ s) n e = ground (arith, has_slash-join s n, file_name-join s n e)

has_slash-directory_of : (s : Text) → has_slash (directory_of s) ≡ has_slash s
unfolding directory_of
has_slash-directory_of [] = refl
has_slash-directory_of (c ∷ s) = ground (arith, has_slash-directory_of s)

file_name-directory_of : (s n : Text) → has_slash n ≡ false → file_name (directory_of s ++ n) ≡ n
unfolding file_name directory_of
file_name-directory_of [] n e = file_name-plain n e
file_name-directory_of (c ∷ s) n e =
    by_slash (has_slash (c ∷ s)) refl (file_name-directory_of s n e)
  where
    rest : Text
    rest = directory_of s

    by_slash :
        (b : Bool)
        → has_slash (c ∷ s) ≡ b
        → file_name (rest ++ n) ≡ n
        → file_name ((if b then c ∷ rest else []) ++ n) ≡ n
    by_slash true f later =
        ground (arith, f, has_slash-append rest n, has_slash-directory_of s, later)
    by_slash false f later = file_name-plain n e

digits-has_slash : (s : Text) → All (λ c. is_digit c ≡ true) s → has_slash s ≡ false
digits-has_slash [] h = refl
digits-has_slash (c ∷ s) (d, h) = ground (arith, d, digits-has_slash s h)

staging_temp_name-has_slash :
    (name : Text) (pid sequence : ℕ)
    → has_slash name ≡ false
    → has_slash (staging_temp_name name pid sequence) ≡ false
unfolding staging_temp_name
staging_temp_name-has_slash name pid sequence e =
    rw (has_slash-append name (staging_temp_infix ++ (decimal pid ++ (b'-' ∷ decimal sequence)))) (
      rw (has_slash-append (decimal pid) (b'-' ∷ decimal sequence)) (
        ground (
          arith,
          e,
          digits-has_slash (decimal pid) (decimal-digits pid),
          digits-has_slash (decimal sequence) (decimal-digits sequence),
        )))

file_name-staging_temp_path :
    (destination : Text) (h : Host)
    → file_name (staging_temp_path destination h)
      ≡ staging_temp_name (file_name destination) h.pid h.sequence
unfolding staging_temp_path
file_name-staging_temp_path destination h =
    let name = staging_temp_name (file_name destination) h.pid h.sequence in
    file_name-directory_of destination name (
      staging_temp_name-has_slash (file_name destination) h.pid h.sequence
        (has_slash-file_name destination))

temp-is_staging_temporary :
    (destination : Text) (h : Host)
    → is_staging_temporary (file_name (staging_temp_path destination h)) ≡ true
temp-is_staging_temporary destination h =
    ap is_staging_temporary (file_name-staging_temp_path destination h)
    ∙ is_staging_temporary-staging_temp_name (file_name destination) h.pid h.sequence

pub absurd_bool : {A : Type 0} {b : Bool} → b ≡ true → b ≡ false → A
absurd_bool t f = cc (t, f)

-- A path whose last piece is not the name of a temporary.
abbrev pub Ordinary : Text → Type 0
Ordinary q = is_staging_temporary (file_name q) ≡ false

pub staging_temp_path-apart :
    (destination q : Text) (h : Host)
    → Ordinary q
    → text_eq (staging_temp_path destination h) q ≡ false
staging_temp_path-apart destination q h ordinary =
    elim (Bool-cases (text_eq (staging_temp_path destination h) q)) [
      | inl same ↦
          absurd_bool (temp-is_staging_temporary destination h)
            (ap (λ p. is_staging_temporary (file_name p)) ((text_eq_iff _ q).0 same) ∙ ordinary)
      | inr apart ↦ apart
    ]
