-- ===== src/Session/Comparison.antt =====
-- The comparison in constant time against equality (src/core/server.rs, `constant_time_eq`).
use Prim.Native.Nat.{bit_or, bit_xor}
use clash_verge_service_ipc.Prelude.{
  ℕ, ◌<◌, ◌≡◌, refl, ◌↔◌, true, [], ◌∷◌, arith, length, All, Text,
}
use mathlib.Core.Path.{ap₂, subst}
use clash_verge_service_ipc.Session.{difference, constant_time_eq}
use clash_verge_service_ipc.Session.Bits.{accumulate}

abbrev pub AreBytes : Text → Type 0
AreBytes s = All (λ c. c < 256) s

difference_zero :
    (acc : ℕ) (s t : Text)
    → acc < 256
    → AreBytes s
    → AreBytes t
    → length s ≡ length t
    → difference acc s t ≡ 0
    → (acc ≡ 0) × (s ≡ t)
unfolding difference
difference_zero acc [] [] a p q l h = (h, refl)
difference_zero acc [] (b ∷ t) a p q l h = absurd (omega arith)
difference_zero acc (c ∷ s) [] a p q l h = absurd (omega arith)
difference_zero acc (c ∷ s) (b ∷ t) a p q l h =
    let (small, zero_iff) = accumulate acc c b a p.0 q.0 in
    let (z, e) = difference_zero (bit_or acc (bit_xor c b)) s t small p.1 q.1 (omega arith) h in
    let (acc_zero, same) = zero_iff.0 z in (acc_zero, ap₂ (λ x xs. x ∷ xs) same e)

difference_self : (s : Text) → AreBytes s → difference 0 s s ≡ 0
unfolding difference
difference_self [] p = refl
difference_self (c ∷ s) p =
    rw ((accumulate 0 c c (omega arith) p.0 p.0).1.1 (refl, refl)) (difference_self s p.1)

-- On texts of bytes the comparison answers `true` exactly at equal texts.
pub constant_time_eq_iff :
    (s t : Text) → AreBytes s → AreBytes t → (constant_time_eq s t ≡ true) ↔ (s ≡ t)
unfolding constant_time_eq
constant_time_eq_iff s t p q =
    (λ h. equal h, λ e. subst (λ u. constant_time_eq s u ≡ true) e (self s p))
  where
    equal : constant_time_eq s t ≡ true → s ≡ t
    equal h = (difference_zero 0 s t (omega arith) p q (ground arith) (ground arith)).1

    self : (s : Text) → AreBytes s → constant_time_eq s s ≡ true
    self s p = ground (arith, difference_self s p)
