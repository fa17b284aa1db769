-- ===== src/Math/Tests.antt =====
-- The theorems on the integer primitives at concrete numbers.
use unikernel_with_region_in.Base.{◌-◌, ◌^◌, ◌≡◌, refl, arith, ◌&&◌, not}
use unikernel_with_region_in.Base.Int.{pos, negsuc, fdiv, fmod, tdiv, tmod, ltb_ℤ}
use unikernel_with_region_in.Math.{
  div_word, mod_word, given, div_word_tagged, mod_word_tagged, value, raised, overflow, undefined,
  div_int31, mod_int31, mod_int63, div_int63, div_int32ub, div_int64ub, mod_int32ub, mod_int64ub,
  half32, half64, in_range, quot_int31, rem_int31, quot_int63, rem_int63, quot_int32ub, rem_int32ub,
  quot_int64ub, rem_int64ub,
}
use unikernel_with_region_in.Math.Limits.{max_fixed_int, min_fixed_int, precision, fixed_int_lem}
use unikernel_with_region_in.Math.Signed.{tag}
use unikernel_with_region_in.Math.Words.{words_lem}
use unikernel_with_region_in.Math.Ints.{int31_lem, int63_lem, int32ub_lem, int64ub_lem}

-- -7 by 2.
int31_lem_example :
    (div_int31 (tag (negsuc 6)) (tag (pos 2)) ≡ value (tag (negsuc 3)))
    × (mod_int31 (tag (negsuc 6)) (tag (pos 2)) ≡ value (tag (pos 1)))
    × (quot_int31 (tag (negsuc 6)) (tag (pos 2)) ≡ value (tag (negsuc 2)))
    × (rem_int31 (tag (negsuc 6)) (tag (pos 2)) ≡ value (tag (negsuc 0)))
unfolding fdiv fmod tdiv tmod
int31_lem_example = int31_lem (negsuc 6) (pos 2) refl refl

-- 7 by -2.
int63_lem_example :
    (div_int63 (tag (pos 7)) (tag (negsuc 1)) ≡ value (tag (negsuc 3)))
    × (mod_int63 (tag (pos 7)) (tag (negsuc 1)) ≡ value (tag (negsuc 0)))
    × (quot_int63 (tag (pos 7)) (tag (negsuc 1)) ≡ value (tag (negsuc 2)))
    × (rem_int63 (tag (pos 7)) (tag (negsuc 1)) ≡ value (tag (pos 1)))
unfolding fdiv fmod tdiv tmod
int63_lem_example = int63_lem (pos 7) (negsuc 1) refl refl

-- The least integer by -1.
int32ub_lem_example :
    (div_int32ub (negsuc (half32 - 1)) (negsuc 0) ≡ raised overflow)
    × (mod_int32ub (negsuc (half32 - 1)) (negsuc 0) ≡ undefined)
    × (quot_int32ub (negsuc (half32 - 1)) (negsuc 0) ≡ undefined)
    × (rem_int32ub (negsuc (half32 - 1)) (negsuc 0) ≡ undefined)
int32ub_lem_example = int32ub_lem (negsuc (half32 - 1)) (negsuc 0) refl refl

int64ub_lem_example :
    (div_int64ub (negsuc 6) (pos 2) ≡ value (negsuc 3))
    × (mod_int64ub (negsuc 6) (pos 2) ≡ value (pos 1))
    × (quot_int64ub (negsuc 6) (pos 2) ≡ value (negsuc 2))
    × (rem_int64ub (negsuc 6) (pos 2) ≡ value (negsuc 0))
unfolding fdiv fmod tdiv tmod
int64ub_lem_example = int64ub_lem (negsuc 6) (pos 2) refl refl

-- 7 and 2 on 31 bits, and 9 and 0 on 32 bits.
words_lem_example :
    (div_word_tagged 32 15 5 ≡ value (pos 7))
    × (mod_word_tagged 32 15 5 ≡ value (pos 3))
    × (div_word 32 9 0 ≡ raised given)
    × (mod_word 32 9 0 ≡ raised given)
words_lem_example = words_lem 32 7 2 9 0 (omega arith) (omega arith) (omega arith) (omega arith)

limits_at_minus_one :
    (in_range half64 (negsuc 0)
      ≡ (not (ltb_ℤ (negsuc 0) min_fixed_int) && not (ltb_ℤ max_fixed_int (negsuc 0))))
    × (2 ^ (precision - 1) ≡ half64)
limits_at_minus_one = fixed_int_lem (negsuc 0)
