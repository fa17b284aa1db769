-- ===== src/Math/Limits.antt =====
-- The limits of the integers of 64 bits: max_fixed_int, min_fixed_int and precision of
-- XenRuntimeMini/src/RuntimeMini/Math.c.
use unikernel_with_region_in.Base.{ℕ, ◌-◌, ◌^◌, ◌≡◌, refl, arith, ◌&&◌, not}
use unikernel_with_region_in.Base.Int.{ℤ, pos, negsuc, ltb_ℤ}
use unikernel_with_region_in.Math.{in_range, half64}

unfoldable pub max_fixed_int : ℤ
max_fixed_int = pos 9223372036854775807

unfoldable pub min_fixed_int : ℤ
min_fixed_int = negsuc 9223372036854775807

unfoldable pub precision : ℕ
precision = 64

-- The integers on which 64-bit arithmetic does not raise Overflow are those from `min_fixed_int` to
-- `max_fixed_int`, and `precision` is the number of their bits.
pub fixed_int_lem :
    (z : ℤ)
    → (in_range half64 z ≡ (not (ltb_ℤ z min_fixed_int) && not (ltb_ℤ max_fixed_int z)))
      × (2 ^ (precision - 1) ≡ half64)
unfolding max_fixed_int min_fixed_int precision
fixed_int_lem (pos n) = (ground arith, refl)
fixed_int_lem (negsuc n) = (ground arith, refl)
