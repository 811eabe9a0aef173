-- ===== src/Session/Bits.antt =====
-- Facts about the bits of two bytes, by evaluation at every pair.
use Prim.Native.Nat.{bit_or, bit_xor}
use clash_verge_service_ipc.Prelude.{
  ℕ, zero, suc, ◌<◌, ◌≡◌, refl, ◌↔◌, Bool, true, false, ◌&&◌, not, ◌==◌, ltb, if◌then◌else◌, arith,
}

-- The test holds for each number under the bound.
every : (ℕ → Bool) → ℕ → Bool
every test zero = true
every test (suc last) = let earlier = every test last in if test last then earlier else false

every-holds : (test : ℕ → Bool) (bound c : ℕ) → c < bound → every test bound ≡ true → test c ≡ true
unfolding every
every-holds test zero c below e = absurd (omega arith)
every-holds test (suc last) c below e = grind (arith, every-holds test last c)

abbrev same : Bool → Bool → Bool
same true b = b
same false b = not b

-- What one step of the fold does to the accumulator.
step_ok : ℕ → ℕ → Bool
step_ok acc x = ltb (bit_or acc x) 256 && same (bit_or acc x == 0) (acc == 0 && x == 0)

xor_ok : ℕ → ℕ → Bool
xor_ok a b = ltb (bit_xor a b) 256 && same (bit_xor a b == 0) (a == b)

step_table : every (λ a. every (step_ok a) 256) 256 ≡ true
unfolding every step_ok
step_table = refl

xor_table : every (λ a. every (xor_ok a) 256) 256 ≡ true
unfolding every xor_ok
xor_table = refl

-- The accumulator stays a byte, and is zero exactly if it was and the two bytes are equal.
pub accumulate :
    (acc a b : ℕ)
    → acc < 256
    → a < 256
    → b < 256
    → (bit_or acc (bit_xor a b) < 256) × ((bit_or acc (bit_xor a b) ≡ 0) ↔ ((acc ≡ 0) × (a ≡ b)))
unfolding step_ok xor_ok
accumulate acc a b h p q =
    let xor_holds = every-holds (xor_ok a) 256 b q (every-holds _ 256 a p xor_table) in
    let xor_small : bit_xor a b < 256 = ground arith in
    let step_holds =
      every-holds (step_ok acc) 256 (bit_xor a b) xor_small (every-holds _ 256 acc h step_table) in
    (ground arith, (λ e. (ground arith, ground arith), λ e. ground arith))
