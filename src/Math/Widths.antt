-- ===== src/Math/Widths.antt =====
-- The division and remainder primitives at the widths of the runtime.
use unikernel_with_region_in.Base.{ℕ, ◌*◌, ◌^◌, ◌≡◌, refl, true, arith, ap₂, ◌∙◌}
use native.Mathlib.Nat.{mod-eq_of_lt}
use unikernel_with_region_in.Base.Int.{ℤ, pos, negsuc, fdiv, fmod}
use unikernel_with_region_in.Math.{
  value, in_range, to_width, half32, half64, div_tagged, div_untagged, mod_untagged, div_int31,
  mod_int31, mod_int63, mod_tagged, div_int63, div_int32ub, div_int64ub, mod_int32ub, mod_int64ub,
}
use unikernel_with_region_in.Math.Signed.{tag, division, div_untagged_lem}
use unikernel_with_region_in.Math.Modulo.{modulus, mod_untagged_lem}
use unikernel_with_region_in.Math.ModuloTagged.{tagged_modulus, mod_tagged_lem}
use unikernel_with_region_in.Math.Tagged.{div_tagged_lem}

-- A number that fits stays as it is.
pub to_width-in_range : (half : ℕ) (a : ℤ) → in_range half a ≡ true → to_width half a ≡ a
unfolding to_width
to_width-in_range half (pos n) r = rw (mod-eq_of_lt {n = n} {m = 2 * half} (ground arith), r) refl
to_width-in_range half (negsuc n) r =
    rw (mod-eq_of_lt {n = n} {m = 2 * half} (ground arith), r) refl

pub tag-in_range : (h : ℕ) (a : ℤ) → in_range h a ≡ true → in_range (2 * h) (tag a) ≡ true
tag-in_range h (pos n) r = ground arith
tag-in_range h (negsuc n) r = ground arith

abbrev pub half31 : ℕ
half31 = 2 ^ 30

abbrev pub half63 : ℕ
half63 = 2 ^ 62

-- `__div_int31` on the tagged forms of two 31-bit integers: a divisor of 0 raises the exception that is
-- passed in, the least integer by -1 raises Overflow, and else the result is the tagged form of the
-- quotient rounded down (`fdiv-IsFloor` says what that is); no step leaves the range of `int`.
pub div_int31_lem :
    (a b : ℤ)
    → in_range half31 a ≡ true
    → in_range half31 b ≡ true
    → div_int31 (tag a) (tag b) ≡ division half31 a b (value (tag (fdiv a b)))
unfolding div_int31
div_int31_lem a b ha hb =
    ap₂ (div_tagged half32) (to_width-in_range half32 (tag a) (tag-in_range half31 a ha))
      (to_width-in_range half32 (tag b) (tag-in_range half31 b hb))
    ∙ div_tagged_lem half31 (omega arith) a b ha hb

-- `__div_int63` on the tagged forms of two 63-bit integers: a divisor of 0 raises the exception that is
-- passed in, the least integer by -1 raises Overflow, and else the result is the tagged form of the
-- quotient rounded down; no step leaves the range of `long int`.
pub div_int63_lem :
    (a b : ℤ)
    → in_range half63 a ≡ true
    → in_range half63 b ≡ true
    → div_int63 (tag a) (tag b) ≡ division half63 a b (value (tag (fdiv a b)))
unfolding div_int63
div_int63_lem a b ha hb = div_tagged_lem half63 (omega arith) a b ha hb

-- `__div_int32ub` on two 32-bit integers: a divisor of 0 raises the exception that is passed in, the
-- least integer by -1 raises Overflow, and else the result is the quotient rounded down; no step leaves
-- the range of `int`.
pub div_int32ub_lem :
    (a b : ℤ)
    → in_range half32 a ≡ true
    → in_range half32 b ≡ true
    → div_int32ub a b ≡ division half32 a b (value (fdiv a b))
unfolding div_int32ub
div_int32ub_lem a b ha hb =
    ap₂ (div_untagged half32) (to_width-in_range half32 a ha) (to_width-in_range half32 b hb)
    ∙ div_untagged_lem half32 (omega arith) a b ha hb

-- `__div_int64ub` on two 64-bit integers: a divisor of 0 raises the exception that is passed in, the
-- least integer by -1 raises Overflow, and else the result is the quotient rounded down; no step leaves
-- the range of `long int`.
pub div_int64ub_lem :
    (a b : ℤ)
    → in_range half64 a ≡ true
    → in_range half64 b ≡ true
    → div_int64ub a b ≡ division half64 a b (value (fdiv a b))
unfolding div_int64ub
div_int64ub_lem a b ha hb = div_untagged_lem half64 (omega arith) a b ha hb

-- `__mod_int32ub` on two 32-bit integers: a divisor of 0 raises the exception that is passed in, the
-- least integer by -1 is undefined in C, and else the result is what is left of the division that
-- rounds down, with the sign of the divisor.
pub mod_int32ub_lem :
    (a b : ℤ)
    → in_range half32 a ≡ true
    → in_range half32 b ≡ true
    → mod_int32ub a b ≡ modulus half32 a b (value (fmod a b))
unfolding mod_int32ub
mod_int32ub_lem a b ha hb =
    ap₂ (mod_untagged half32) (to_width-in_range half32 a ha) (to_width-in_range half32 b hb)
    ∙ mod_untagged_lem half32 (omega arith) a b ha hb

-- `__mod_int64ub` on two 64-bit integers: a divisor of 0 raises the exception that is passed in, the
-- least integer by -1 is undefined in C, and else the result is what is left of the division that
-- rounds down, with the sign of the divisor.
pub mod_int64ub_lem :
    (a b : ℤ)
    → in_range half64 a ≡ true
    → in_range half64 b ≡ true
    → mod_int64ub a b ≡ modulus half64 a b (value (fmod a b))
unfolding mod_int64ub
mod_int64ub_lem a b ha hb = mod_untagged_lem half64 (omega arith) a b ha hb

-- `__mod_int31` on the tagged forms of two 31-bit integers: a divisor of 0 raises the exception that is
-- passed in, and else the result is the tagged form of what is left of the division that rounds down,
-- also for the least integer by -1; no step leaves the range of `int`.
pub mod_int31_lem :
    (a b : ℤ)
    → in_range half31 a ≡ true
    → in_range half31 b ≡ true
    → mod_int31 (tag a) (tag b) ≡ tagged_modulus b (value (tag (fmod a b)))
unfolding mod_int31
mod_int31_lem a b ha hb =
    ap₂ (mod_tagged half32) (to_width-in_range half32 (tag a) (tag-in_range half31 a ha))
      (to_width-in_range half32 (tag b) (tag-in_range half31 b hb))
    ∙ mod_tagged_lem half31 (omega arith) a b ha hb

-- `__mod_int63` on the tagged forms of two 63-bit integers: a divisor of 0 raises the exception that is
-- passed in, and else the result is the tagged form of what is left of the division that rounds down,
-- also for the least integer by -1; no step leaves the range of `long int`.
pub mod_int63_lem :
    (a b : ℤ)
    → in_range half63 a ≡ true
    → in_range half63 b ≡ true
    → mod_int63 (tag a) (tag b) ≡ tagged_modulus b (value (tag (fmod a b)))
unfolding mod_int63
mod_int63_lem a b ha hb = mod_tagged_lem half63 (omega arith) a b ha hb
