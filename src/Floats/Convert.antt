-- ===== src/Floats/Convert.antt =====
-- floorFloat, truncFloat and ceilFloat of Math.c, on the value of the double.
--
-- `half` is 2^63. Max_Int_d is 2^63 as a double, and so is Max_Int_d + 1.0; Min_Int_d and Min_Int_d -
-- 1.0 are -2^63. The integer that a double is cut to is exact as a double again.
use unikernel_with_region_in.Base.{ℕ, ◌-◌, ◌||◌, if◌then◌else◌}
use unikernel_with_region_in.Base.Int.{pos, negsuc, tdiv}
use unikernel_with_region_in.Math.{
  Result, value, raised, undefined, overflow, ◌>>=◌, checked, add, sub,
}
use unikernel_with_region_in.Floats.Value.{Real, nan, inf, fin, less, more, at_least, at_most}

module _ (u half : ℕ) where
  -- `(long int) r`, which is undefined unless the whole part of `r` fits.
  unfoldable pub to_long : Real → Result
  to_long nan = undefined
  to_long (inf negative) = undefined
  to_long (fin z) = checked half (tdiv z (pos u))

  unfoldable pub floor_value : Real → Result
  floor_value r =
      if at_least u r (pos 0)
      then (if at_least u r (pos half) then raised overflow else to_long r)
      else if less u r (negsuc (half - 1))
      then raised overflow
      else (do i ← to_long r; if less u r i then sub half i (pos 1) else value i)

  unfoldable pub trunc_value : Real → Result
  trunc_value r =
      if at_least u r (pos half) || at_most u r (negsuc (half - 1))
      then raised overflow
      else to_long r

  unfoldable pub ceil_value : Real → Result
  ceil_value r =
      if at_least u r (pos 0)
      then (if more u r (pos half)
          then raised overflow
          else (do i ← to_long r; if more u r i then add half i (pos 1) else value i))
      else if at_most u r (negsuc (half - 1))
      then raised overflow
      else to_long r
