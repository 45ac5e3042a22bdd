-- ===== src/Prelude/Float.antt =====
-- The float64 values of a configuration: a finite one is a fraction over a power of two.
use Prim.Native.Nat.{ℕ, ◌*◌, ◌^◌}
use mathlib.Core.Bool.{Bool, true, false}
use sun_ray2server.Prelude.Int.{ℤ, pos, eq_ℤ, ltb_ℤ}

-- `fraction m k` is m / 2 ^ k; every finite double is one of these.
pub data Float64 : Type 0 where
  not_a_number : Float64
  plus_infinity : Float64
  minus_infinity : Float64
  fraction : ℤ → ℕ → Float64

-- `x == 0`, `x < bound` and `bound < x`, each false on not_a_number.
abbrev pub equals_zero : Float64 → Bool
equals_zero not_a_number = false
equals_zero plus_infinity = false
equals_zero minus_infinity = false
equals_zero (fraction m k) = eq_ℤ m (pos 0)

abbrev pub is_below : Float64 → ℕ → Bool
is_below not_a_number bound = false
is_below plus_infinity bound = false
is_below minus_infinity bound = true
is_below (fraction m k) bound = ltb_ℤ m (pos (bound * 2 ^ k))

abbrev pub is_above : Float64 → ℕ → Bool
is_above not_a_number bound = false
is_above plus_infinity bound = true
is_above minus_infinity bound = false
is_above (fraction m k) bound = ltb_ℤ (pos (bound * 2 ^ k)) m
