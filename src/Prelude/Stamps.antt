-- ===== src/Prelude/Stamps.antt =====
-- Time stamps inside one window.
use Prim.Native.Nat.{ℕ, ◌+◌, ◌-◌, ◌≤◌, ◌<◌}
use mathlib.Core.Path.{◌≡◌}
use mathlib.Core.Bool.{true}
use mathlib.Core.List.{List, [], ◌∷◌, ◌++◌}
use native.Mathlib.Omega.{arith}
use clash_verge_service_ipc.Prelude.Tests.{ltb}
use clash_verge_service_ipc.Prelude.Lists.{All, retain, retain-All}

pub All-pushed :
    (from now : ℕ) (stamps : List ℕ)
    → from ≤ now
    → All (λ t. from ≤ t) stamps
    → All (λ t. from ≤ t) (stamps ++ now ∷ [])
All-pushed from now [] h p = (h, tt)
All-pushed from now (t ∷ stamps) h (q, p) = (q, All-pushed from now stamps h p)

still_there :
    (from now window : ℕ) (stamps : List ℕ)
    → from ≤ now
    → now < from + window
    → All (λ t. from ≤ t) stamps
    → All (λ t. ltb (now - t) window ≡ true) stamps
still_there from now window [] l h p = tt
still_there from now window (t ∷ stamps) l h (q, p) =
    (ground arith, still_there from now window stamps l h p)

-- Inside one window no stamp is dropped.
pub retain-in_window :
    (from now window : ℕ) (stamps : List ℕ)
    → from ≤ now
    → now < from + window
    → All (λ t. from ≤ t) stamps
    → retain (λ t. ltb (now - t) window) stamps ≡ stamps
retain-in_window from now window stamps l h p =
    retain-All (λ t. ltb (now - t) window) stamps (still_there from now window stamps l h p)
