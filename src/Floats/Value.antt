-- ===== src/Floats/Value.antt =====
-- What the word of a double stands for, as IEEE 754 says, and the comparisons of C with whole numbers.
use unikernel_with_region_in.Base.{
  ℕ, zero, suc, ◌+◌, ◌-◌, ◌*◌, ◌/◌, ◌%◌, ◌^◌, Bool, false, ◌&&◌, not, ◌==◌, if◌then◌else◌,
}
use unikernel_with_region_in.Base.Int.{ℤ, pos, negsuc, ltb_ℤ}

-- What a double stands for: a finite one is a multiple of 1 / unit, with unit = 2^1074.
pub data Real : Type 0 where
  nan : Real
  inf : (negative : Bool) → Real
  fin : ℤ → Real

abbrev pub unit : ℕ
unit = 2 ^ 1074

abbrev pub negate : ℕ → ℤ
negate zero = pos 0
negate (suc n) = negsuc n

abbrev pub sign_bit : ℕ → Bool
sign_bit w = w / 2 ^ 63 % 2 == 1

abbrev pub exponent : ℕ → ℕ
exponent w = w / 2 ^ 52 % 2 ^ 11

abbrev pub mantissa : ℕ → ℕ
mantissa w = w % 2 ^ 52

-- How many units a finite double has.
abbrev pub magnitude : ℕ → ℕ
magnitude w = if exponent w == 0 then mantissa w else (2 ^ 52 + mantissa w) * 2 ^ (exponent w - 1)

unfoldable pub decode : ℕ → Real
decode w =
    if exponent w == 2047
    then (if mantissa w == 0 then inf (sign_bit w) else nan)
    else fin (if sign_bit w then negate (magnitude w) else pos (magnitude w))

unfoldable pub is_nan : ℕ → Bool
is_nan w = exponent w == 2047 && not (mantissa w == 0)

unfoldable pub is_normal : ℕ → Bool
is_normal w = not (exponent w == 0) && not (exponent w == 2047)

-- The comparisons with a whole number, which NaN never meets; `u` is the number of units in 1.
module _ (u : ℕ) where
  abbrev pub scaled : ℤ → ℤ
  scaled (pos n) = pos (n * u)
  scaled (negsuc n) = negsuc (suc n * u - 1)

  abbrev pub less : Real → ℤ → Bool
  less nan i = false
  less (inf negative) i = negative
  less (fin z) i = ltb_ℤ z (scaled i)

  abbrev pub more : Real → ℤ → Bool
  more nan i = false
  more (inf negative) i = not negative
  more (fin z) i = ltb_ℤ (scaled i) z

  abbrev pub at_least : Real → ℤ → Bool
  at_least nan i = false
  at_least (inf negative) i = not negative
  at_least (fin z) i = not (ltb_ℤ z (scaled i))

  abbrev pub at_most : Real → ℤ → Bool
  at_most nan i = false
  at_most (inf negative) i = negative
  at_most (fin z) i = not (ltb_ℤ (scaled i) z)
