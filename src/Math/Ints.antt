-- ===== src/Math/Ints.antt =====
-- Division, modulus, quotient and remainder of XenRuntimeMini/src/RuntimeMini/Math.c at each width of
-- the runtime.
use unikernel_with_region_in.Base.{◌≡◌, true, arith, ap₂, ◌∙◌}
use unikernel_with_region_in.Base.Int.{ℤ, fdiv, fmod, tdiv, tmod}
use unikernel_with_region_in.Math.{
  value, in_range, half32, half64, quotient, remainder, quot_tagged, rem_tagged, div_int31,
  mod_int31, quot_int31, rem_int31, div_int63, mod_int63, quot_int63, rem_int63, div_int32ub,
  mod_int32ub, quot_int32ub, rem_int32ub, div_int64ub, mod_int64ub, quot_int64ub, rem_int64ub,
}
use unikernel_with_region_in.Math.Signed.{tag, division}
use unikernel_with_region_in.Math.Modulo.{modulus}
use unikernel_with_region_in.Math.ModuloTagged.{tagged_modulus}
use unikernel_with_region_in.Math.Truncated.{
  truncated, no_divisor, quotient_lem, remainder_lem, quot_tagged_lem, rem_tagged_lem,
}
use unikernel_with_region_in.Math.Widths.{
  half31, half63, div_int31_lem, div_int63_lem, div_int32ub_lem, div_int64ub_lem, mod_int32ub_lem,
  mod_int64ub_lem, mod_int31_lem, mod_int63_lem, to_width-in_range, tag-in_range,
}

-- `__div_int31`, `__mod_int31`, `__quot_int31` and `__rem_int31` on the tagged forms of two integers
-- of 31 bits. Division and modulus: a divisor of 0 raises the exception that is passed in, and the
-- least integer by -1 raises Overflow in the division only; else they return the tagged forms of the
-- quotient rounded down and of what is left of it. Quotient and remainder: a divisor of 0 is undefined
-- in C, and so is the least integer by -1 in the quotient only; else they return the tagged forms of
-- the quotient rounded towards zero and of what is left of it. Where there is a result no step leaves
-- the range of `int`.
pub int31_lem :
    (a b : ℤ)
    → in_range half31 a ≡ true
    → in_range half31 b ≡ true
    → (div_int31 (tag a) (tag b) ≡ division half31 a b (value (tag (fdiv a b))))
      × (mod_int31 (tag a) (tag b) ≡ tagged_modulus b (value (tag (fmod a b))))
      × (quot_int31 (tag a) (tag b) ≡ truncated half31 a b (value (tag (tdiv a b))))
      × (rem_int31 (tag a) (tag b) ≡ no_divisor b (value (tag (tmod a b))))
unfolding quot_int31 rem_int31
int31_lem a b ha hb = (
  div_int31_lem a b ha hb,
  mod_int31_lem a b ha hb,
  ap₂ (quot_tagged half32) (to_width-in_range half32 (tag a) (tag-in_range half31 a ha))
        (to_width-in_range half32 (tag b) (tag-in_range half31 b hb))
      ∙ quot_tagged_lem half31 (omega arith) a b ha hb,
  ap₂ (rem_tagged half32) (to_width-in_range half32 (tag a) (tag-in_range half31 a ha))
        (to_width-in_range half32 (tag b) (tag-in_range half31 b hb))
      ∙ rem_tagged_lem half31 (omega arith) a b ha hb,
)

-- `__div_int63`, `__mod_int63`, `__quot_int63` and `__rem_int63` on the tagged forms of two integers
-- of 63 bits. Division and modulus: a divisor of 0 raises the exception that is passed in, and the
-- least integer by -1 raises Overflow in the division only; else they return the tagged forms of the
-- quotient rounded down and of what is left of it. Quotient and remainder: a divisor of 0 is undefined
-- in C, and so is the least integer by -1 in the quotient only; else they return the tagged forms of
-- the quotient rounded towards zero and of what is left of it. Where there is a result no step leaves
-- the range of `long int`.
pub int63_lem :
    (a b : ℤ)
    → in_range half63 a ≡ true
    → in_range half63 b ≡ true
    → (div_int63 (tag a) (tag b) ≡ division half63 a b (value (tag (fdiv a b))))
      × (mod_int63 (tag a) (tag b) ≡ tagged_modulus b (value (tag (fmod a b))))
      × (quot_int63 (tag a) (tag b) ≡ truncated half63 a b (value (tag (tdiv a b))))
      × (rem_int63 (tag a) (tag b) ≡ no_divisor b (value (tag (tmod a b))))
unfolding quot_int63 rem_int63
int63_lem a b ha hb = (
  div_int63_lem a b ha hb,
  mod_int63_lem a b ha hb,
  quot_tagged_lem half63 (omega arith) a b ha hb,
  rem_tagged_lem half63 (omega arith) a b ha hb,
)

-- `__div_int32ub`, `__mod_int32ub`, `__quot_int32ub` and `__rem_int32ub` on two integers of 32 bits.
-- Division and modulus: a divisor of 0 raises the exception that is passed in; the least integer by -1
-- raises Overflow in the division and is undefined in C in the modulus; else they return the quotient
-- rounded down and what is left of it, with the sign of the divisor. Quotient and remainder: a divisor
-- of 0 and the least integer by -1 are undefined in C; else they return the quotient rounded towards
-- zero and what is left of it.
pub int32ub_lem :
    (a b : ℤ)
    → in_range half32 a ≡ true
    → in_range half32 b ≡ true
    → (div_int32ub a b ≡ division half32 a b (value (fdiv a b)))
      × (mod_int32ub a b ≡ modulus half32 a b (value (fmod a b)))
      × (quot_int32ub a b ≡ truncated half32 a b (value (tdiv a b)))
      × (rem_int32ub a b ≡ truncated half32 a b (value (tmod a b)))
unfolding quot_int32ub rem_int32ub
int32ub_lem a b ha hb = (
  div_int32ub_lem a b ha hb,
  mod_int32ub_lem a b ha hb,
  ap₂ (quotient half32) (to_width-in_range half32 a ha) (to_width-in_range half32 b hb)
      ∙ quotient_lem half32 (omega arith) a b ha hb,
  ap₂ (remainder half32) (to_width-in_range half32 a ha) (to_width-in_range half32 b hb)
      ∙ remainder_lem half32 (omega arith) a b ha hb,
)

-- `__div_int64ub`, `__mod_int64ub`, `__quot_int64ub` and `__rem_int64ub` on two integers of 64 bits.
-- Division and modulus: a divisor of 0 raises the exception that is passed in; the least integer by -1
-- raises Overflow in the division and is undefined in C in the modulus; else they return the quotient
-- rounded down and what is left of it, with the sign of the divisor. Quotient and remainder: a divisor
-- of 0 and the least integer by -1 are undefined in C; else they return the quotient rounded towards
-- zero and what is left of it.
pub int64ub_lem :
    (a b : ℤ)
    → in_range half64 a ≡ true
    → in_range half64 b ≡ true
    → (div_int64ub a b ≡ division half64 a b (value (fdiv a b)))
      × (mod_int64ub a b ≡ modulus half64 a b (value (fmod a b)))
      × (quot_int64ub a b ≡ truncated half64 a b (value (tdiv a b)))
      × (rem_int64ub a b ≡ truncated half64 a b (value (tmod a b)))
unfolding quot_int64ub rem_int64ub
int64ub_lem a b ha hb = (
  div_int64ub_lem a b ha hb,
  mod_int64ub_lem a b ha hb,
  quotient_lem half64 (omega arith) a b ha hb,
  remainder_lem half64 (omega arith) a b ha hb,
)
