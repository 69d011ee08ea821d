-- ===== src/Float64.antt =====
-- Go's `float64`. Every finite value is a whole multiple of 2^-1074, the smallest subnormal, so a
-- sign and that multiple hold it exactly. The program only copies coordinates and compares them.
use Prim.Native.Nat.{◌^◌}
use convoy_backend.Base.{ℕ, ◌*◌, Bool, true, false, not, ◌&&◌, ltb, ◌==◌}

pub data Float64 : Type 0 where
  finite : Bool → ℕ → Float64  -- negative?, magnitude in units of 2^-1074
  infinite : Bool → Float64  -- negative?
  nan : Float64

-- 1 in those units
unfoldable pub scale : ℕ
scale = 2 ^ 1074

-- a whole number as a constant of the source
unfoldable pub whole : ℕ → Float64
whole n = finite false (n * scale)

unfoldable pub negated : ℕ → Float64
negated n = finite true (n * scale)

-- a < b on finite values; zero has two signs and is not below itself
less_finite : Bool → ℕ → Bool → ℕ → Bool
less_finite false a false b = ltb a b
less_finite false a true b = false
less_finite true a false b = not (a == 0 && b == 0)
less_finite true a true b = ltb b a

-- IEEE 754 `a < b`: any comparison with NaN is false
unfoldable pub less : Float64 → Float64 → Bool
unfolding less_finite
less (finite s a) (finite t b) = less_finite s a t b
less (finite s a) (infinite t) = not t
less (infinite s) (finite t b) = s
less (infinite s) (infinite t) = s && not t
less _ _ = false
