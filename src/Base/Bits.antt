-- ===== src/Base/Bits.antt =====
-- Facts about bits over a small range, by evaluation at every value.
use Prim.Native.Nat.{ℕ, zero, suc, ◌<◌}
use mathlib.Core.Path.{◌≡◌}
use mathlib.Core.Bool.{Bool, true, ◌&&◌}
use native.Mathlib.Omega.{arith}

-- Whether a test passes at every number below a bound.
unfoldable pub passes : (ℕ → Bool) → ℕ → Bool
passes test zero = true
passes test (suc bound) = passes test bound && test bound

pub passes_sound :
    (test : ℕ → Bool) (bound value : ℕ)
    → passes test bound ≡ true
    → value < bound
    → test value ≡ true
unfolding passes
passes_sound test zero value all inside = absurd (omega arith)
passes_sound test (suc bound) value all inside = ground (arith, passes_sound test bound value)

-- The same for two and three values.
unfoldable pub passes_two : (ℕ → ℕ → Bool) → ℕ → Bool
unfolding passes
passes_two test bound = passes (λ x. passes (test x) bound) bound

pub passes_two_sound :
    (test : ℕ → ℕ → Bool) (bound x y : ℕ)
    → passes_two test bound ≡ true
    → x < bound
    → y < bound
    → test x y ≡ true
unfolding passes_two
passes_two_sound test bound x y all in_x in_y =
    passes_sound (test x) bound y (passes_sound (λ x. passes (test x) bound) bound x all in_x) in_y

unfoldable pub passes_three : (ℕ → ℕ → ℕ → Bool) → ℕ → Bool
unfolding passes_two
passes_three test bound = passes (λ x. passes_two (test x) bound) bound

pub passes_three_sound :
    (test : ℕ → ℕ → ℕ → Bool) (bound x y z : ℕ)
    → passes_three test bound ≡ true
    → x < bound
    → y < bound
    → z < bound
    → test x y z ≡ true
unfolding passes_three
passes_three_sound test bound x y z all in_x in_y in_z =
    passes_two_sound (test x) bound y z
      (passes_sound (λ x. passes_two (test x) bound) bound x all in_x) in_y in_z
