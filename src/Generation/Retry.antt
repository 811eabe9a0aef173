-- ===== src/Generation/Retry.antt =====
-- The retries on Windows while a file handle is still open
-- (src/core/runtime_generation/assets.rs, `runtime_cleanup_retry_delay`, and staging.rs,
-- `while_the_core_lets_go`).
use clash_verge_service_ipc.Prelude.{
  ℕ, zero, suc, ◌+◌, ◌≤◌, ◌≡◌, refl, ◌∙◌, ap, Bool, true, false, ◌||◌, Option, none, some, List, [],
  ◌∷◌, ◌==◌, if◌then◌else◌, Result, ok, err, Action, arith,
}
use clash_verge_service_ipc.Generation.{Os, linux, macos, windows, IoError}

-- Milliseconds.
abbrev pub windows_runtime_retry_delays : List ℕ
windows_runtime_retry_delays = 25 ∷ 50 ∷ 100 ∷ 200 ∷ 400 ∷ 800 ∷ []

abbrev pub get_elem? : List ℕ → ℕ → Option ℕ
get_elem? [] n = none
get_elem? (d ∷ delays) zero = some d
get_elem? (d ∷ delays) (suc n) = get_elem? delays n

abbrev is_one_of : List ℕ → Option ℕ → Bool
is_one_of codes none = false
is_one_of [] (some code) = false
is_one_of (c ∷ codes) (some code) = c == code || is_one_of codes (some code)

-- `then(…).flatten()`
unfoldable pub runtime_cleanup_retry_delay : Os → IoError → ℕ → Option ℕ
runtime_cleanup_retry_delay (windows codes) error retry_index =
    if is_one_of codes error.raw_os_error
    then get_elem? windows_runtime_retry_delays retry_index
    else none
runtime_cleanup_retry_delay _ error retry_index = none

-- No delay ends the loop.
abbrev pub delay_of : Os → Result IoError Unit → ℕ → Option ℕ
delay_of os (ok _) retry_index = none
delay_of os (err error) retry_index = runtime_cleanup_retry_delay os error retry_index

module _ {S : Type 0} where
  -- One round's answer, with the loop that follows another try.
  abbrev pub another_round :
      (Result IoError Unit × S) → Option ℕ → (S → Result IoError Unit × S) → Result IoError Unit × S
  another_round (result, s) none again = (result, s)
  another_round (result, s) (some delay) again = again s

  -- The loop, with so many rounds left besides this one.
  unfoldable pub rounds_from : Os → Action IoError S Unit → ℕ → ℕ → S → Result IoError Unit × S
  unfolding runtime_cleanup_retry_delay
  rounds_from os operation zero retry_index s = operation s
  rounds_from os operation (suc left) retry_index s =
      let again = rounds_from os operation left (retry_index + 1) in
      another_round (operation s) (delay_of os (operation s).0 retry_index) again

  unfoldable pub while_the_core_lets_go : Os → Action IoError S Unit → Action IoError S Unit
  unfolding rounds_from
  while_the_core_lets_go os operation = rounds_from os operation 6 0

  -- The rounds of the source's loop, from one index to the loop's result, with their number.
  pub data Rounds (os : Os) (operation : Action IoError S Unit)
      : ℕ → S → Result IoError Unit → S → ℕ → Type 0 where
    returns :
        {i : ℕ} {s : S}
        → delay_of os (operation s).0 i ≡ none
        → Rounds os operation i s (operation s).0 (operation s).1 1
    tries_again :
        {i n delay : ℕ} {s t : S} {r : Result IoError Unit}
        → delay_of os (operation s).0 i ≡ some delay
        → Rounds os operation (i + 1) (operation s).1 r t n
        → Rounds os operation i s r t (n + 1)

last_delay : (os : Os) (r : Result IoError Unit) → delay_of os r 6 ≡ none
unfolding runtime_cleanup_retry_delay
last_delay os (ok u) = refl
last_delay linux (err e) = refl
last_delay macos (err e) = refl
last_delay (windows codes) (err e) = by_code (is_one_of codes e.raw_os_error)
  where
    by_code :
        (b : Bool)
        → ◌≡◌ {A = Option ℕ} (if b then get_elem? windows_runtime_retry_delays 6 else none) none
    by_code true = refl
    by_code false = refl

now_six : {i : ℕ} → zero + i ≡ 6 → i ≡ 6
now_six e = ground (arith, e)

module _ {S : Type 0} (os : Os) (operation : Action IoError S Unit) where
  -- A run from index `i` with `left` rounds besides the first.
  IsRun : ℕ → ℕ → S → (Result IoError Unit × S) → Type 0
  IsRun left i s end = (n : ℕ) × (n ≤ left + 1) × Rounds os operation i s end.0 end.1 n

  rounds_from-IsRun :
      (left i : ℕ) (s : S) → left + i ≡ 6 → IsRun left i s (rounds_from os operation left i s)
  unfolding rounds_from IsRun
  rounds_from-IsRun zero i s e = (
    1,
    ground arith,
    returns (ap (delay_of os (operation s).0) (now_six e) ∙ last_delay os (operation s).0),
  )
  rounds_from-IsRun (suc left) i s e =
      by_delay (delay_of os (operation s).0 i) refl
        (rounds_from-IsRun left (i + 1) (operation s).1 (ground (arith, e)))
    where
      by_delay :
          (d : Option ℕ)
          → delay_of os (operation s).0 i ≡ d
          → IsRun left
              (i + 1)
              (operation s).1
              (rounds_from os operation left (i + 1) (operation s).1)
          → IsRun
              (suc left)
              i
              s
              (another_round (operation s) d (rounds_from os operation left (i + 1)))
      by_delay none f later = (1, ground arith, returns f)
      by_delay (some delay) f (n, few, run) = (n + 1, ground (arith, few), tries_again f run)

-- The loop of a call that may be tried again ends for every operation and on every system, in at
-- most seven rounds: the rounds of the source's loop lead to the result and the state that the
-- definition computes.
pub while_the_core_lets_go-Rounds :
    {S : Type 0} (os : Os) (operation : Action IoError S Unit) (s : S)
    → (n : ℕ) × (n ≤ 7)
      × Rounds os operation 0 s
          (while_the_core_lets_go os operation s).0
          (while_the_core_lets_go os operation s).1
          n
unfolding while_the_core_lets_go IsRun
while_the_core_lets_go-Rounds os operation s = rounds_from-IsRun os operation 6 0 s refl
