-- ===== src/Math.antt =====
-- The integer primitives of XenRuntimeMini/src/RuntimeMini/Math.c. An `int` or `long int` is an integer
-- in the range of its width; an operation whose result leaves the range is undefined, as in C, and so
-- is a division by 0. Each function is written for a width and stands at 32 and at 64 bits.
mod Tests
pub mod Ints
pub mod Limits
pub mod Modulo
pub mod ModuloTagged
pub mod Signed
pub mod Tagged
pub mod Widths
pub mod Truncated
pub mod Words
use unikernel_with_region_in.Base.{
  ℕ, suc, ◌+◌, ◌-◌, ◌*◌, ◌/◌, ◌%◌, ◌^◌, Bool, true, false, ◌&&◌, ◌||◌, not, ◌==◌, ltb, leb,
  if◌then◌else◌,
}
use unikernel_with_region_in.Base.Int.{
  ℤ, pos, negsuc, sub_ℕ, pos_part, neg_part, ◌+ℤ◌, ◌-ℤ◌, double, ltb_ℤ, eqb_ℤ, tdiv, tmod,
}

-- What `raise_exn` is called on: the exception that is passed in, or `exn_OVERFLOW`.
pub data Exn : Type 0 where
  given : Exn
  overflow : Exn

pub data Result : Type 0 where
  value : ℤ → Result
  raised : Exn → Result
  undefined : Result

infixl 5 ◌>>=◌
abbrev pub ◌>>=◌ : Result → (ℤ → Result) → Result
value z >>= f = f z
raised e >>= f = raised e
undefined >>= f = undefined

-- `half` is 2^31 for an int and 2^63 for a long int: the values are from -half up to half - 1.
module _ (half : ℕ) where
  abbrev pub in_range : ℤ → Bool
  in_range (pos n) = ltb n half
  in_range (negsuc n) = ltb n half

  abbrev pub checked : ℤ → Result
  checked z = if in_range z then value z else undefined

  abbrev pub add : ℤ → ℤ → Result
  add a b = checked (a +ℤ b)

  abbrev pub sub : ℤ → ℤ → Result
  sub a b = checked (a -ℤ b)

  -- `2 * a`, and `a << 1`.
  abbrev pub twice : ℤ → Result
  twice a = checked (double a)

  abbrev pub quotient : ℤ → ℤ → Result
  quotient a b = if eqb_ℤ b (pos 0) then undefined else checked (tdiv a b)

  -- `a % b` is undefined where `a / b` is.
  abbrev pub remainder : ℤ → ℤ → Result
  remainder a b = do q ← quotient a b; value (tmod a b)

  -- The conversion of a `ssize_t` to the width.
  unfoldable pub to_width : ℤ → ℤ
  to_width (pos n) =
      let m = n % (2 * half) in if ltb m half then pos m else negsuc (2 * half - m - 1)
  to_width (negsuc n) =
      let m = n % (2 * half) in if ltb m half then negsuc m else pos (2 * half - m - 1)

  -- `2 * (a / (y - 1)) - 1` and `2 * (a / (y - 1)) + 1`, for tagged numbers.
  unfoldable pub tagged_below : ℤ → ℤ → Result
  tagged_below a y = do b ← sub y (pos 1); q ← quotient a b; t ← twice q; sub t (pos 1)

  unfoldable pub tagged_exact : ℤ → ℤ → Result
  tagged_exact a y = do b ← sub y (pos 1); q ← quotient a b; t ← twice q; add t (pos 1)

  -- `a / y - 1`.
  unfoldable pub below : ℤ → ℤ → Result
  below a y = do q ← quotient a y; sub q (pos 1)

  -- `__div_int31` and `__div_int63`: both numbers are tagged, 2 i + 1 for i.
  unfoldable pub div_tagged : ℤ → ℤ → Result
  div_tagged x y =
      if eqb_ℤ y (pos 1)
      then raised given
      else if eqb_ℤ y (negsuc 0) && eqb_ℤ x (negsuc (half - 2))
      then raised overflow
      else if eqb_ℤ x (pos 1)
      then value (pos 1)
      else if ltb_ℤ x (pos 1) && ltb_ℤ (pos 1) y
      then (do a ← add x (pos 1); tagged_below a y)
      else if ltb_ℤ (pos 1) x && ltb_ℤ y (pos 1)
      then (do a ← sub x (pos 3); tagged_below a y)
      else (do a ← sub x (pos 1); tagged_exact a y)

  -- `__div_int32ub` and `__div_int64ub`: the numbers are not tagged.
  unfoldable pub div_untagged : ℤ → ℤ → Result
  div_untagged x y =
      if eqb_ℤ y (pos 0)
      then raised given
      else if eqb_ℤ y (negsuc 0) && eqb_ℤ x (negsuc (half - 1))
      then raised overflow
      else if ltb_ℤ x (pos 0) && ltb_ℤ (pos 0) y
      then (do a ← add x (pos 1); below a y)
      else if ltb_ℤ (pos 0) x && ltb_ℤ y (pos 0)
      then (do a ← sub x (pos 1); below a y)
      else quotient x y

  -- `__mod_int31` and `__mod_int63`.
  unfoldable pub mod_tagged : ℤ → ℤ → Result
  mod_tagged x y = if eqb_ℤ y (pos 1) then raised given else (do
    a ← sub x (pos 1)
    b ← sub y (pos 1)
    r ← remainder a b
    if eqb_ℤ r (pos 0) || ltb_ℤ (pos 1) x && ltb_ℤ (pos 1) y || ltb_ℤ x (pos 1) && ltb_ℤ y (pos 1)
        then add r (pos 1)
        else add r y)

  -- `__mod_int32ub` and `__mod_int64ub`.
  unfoldable pub mod_untagged : ℤ → ℤ → Result
  mod_untagged x y =
      if eqb_ℤ y (pos 0)
      then raised given
      else if ltb_ℤ (pos 0) x && ltb_ℤ (pos 0) y || ltb_ℤ x (pos 0) && ltb_ℤ y (pos 0)
      then remainder x y
      else (do r ← remainder x y; if eqb_ℤ r (pos 0) then remainder x y else add r y)

  -- `x >> 1`, which rounds down.
  abbrev pub untag : ℤ → ℤ
  untag (pos n) = pos (n / 2)
  untag (negsuc n) = negsuc (n / 2)

  unfoldable pub quot_tagged : ℤ → ℤ → Result
  quot_tagged x y = do q ← quotient (untag x) (untag y); t ← twice q; add t (pos 1)

  unfoldable pub rem_tagged : ℤ → ℤ → Result
  rem_tagged x y = do r ← remainder (untag x) (untag y); t ← twice r; add t (pos 1)

abbrev pub half32 : ℕ
half32 = 2 ^ 31

abbrev pub half64 : ℕ
half64 = 2 ^ 63

unfoldable pub div_int31 : ℤ → ℤ → Result
div_int31 x y = div_tagged half32 (to_width half32 x) (to_width half32 y)

unfoldable pub div_int63 : ℤ → ℤ → Result
div_int63 x y = div_tagged half64 x y

unfoldable pub div_int32ub : ℤ → ℤ → Result
div_int32ub x y = div_untagged half32 (to_width half32 x) (to_width half32 y)

unfoldable pub div_int64ub : ℤ → ℤ → Result
div_int64ub x y = div_untagged half64 x y

unfoldable pub mod_int31 : ℤ → ℤ → Result
mod_int31 x y = mod_tagged half32 (to_width half32 x) (to_width half32 y)

unfoldable pub mod_int63 : ℤ → ℤ → Result
mod_int63 x y = mod_tagged half64 x y

unfoldable pub mod_int32ub : ℤ → ℤ → Result
mod_int32ub x y = mod_untagged half32 (to_width half32 x) (to_width half32 y)

unfoldable pub mod_int64ub : ℤ → ℤ → Result
mod_int64ub x y = mod_untagged half64 x y

unfoldable pub quot_int32ub : ℤ → ℤ → Result
quot_int32ub x y = quotient half32 (to_width half32 x) (to_width half32 y)

unfoldable pub quot_int64ub : ℤ → ℤ → Result
quot_int64ub x y = quotient half64 x y

unfoldable pub quot_int31 : ℤ → ℤ → Result
quot_int31 x y = quot_tagged half32 (to_width half32 x) (to_width half32 y)

unfoldable pub quot_int63 : ℤ → ℤ → Result
quot_int63 x y = quot_tagged half64 x y

unfoldable pub rem_int32ub : ℤ → ℤ → Result
rem_int32ub x y = remainder half32 (to_width half32 x) (to_width half32 y)

unfoldable pub rem_int64ub : ℤ → ℤ → Result
rem_int64ub x y = remainder half64 x y

unfoldable pub rem_int31 : ℤ → ℤ → Result
rem_int31 x y = rem_tagged half32 (to_width half32 x) (to_width half32 y)

unfoldable pub rem_int63 : ℤ → ℤ → Result
rem_int63 x y = rem_tagged half64 x y

-- The unsigned primitives: the width is 32 or 64 bits, `2 ^ w`. On 31 and 63 bits the numbers are
-- tagged.
module _ (w : ℕ) where
  unfoldable pub div_word : ℕ → ℕ → Result
  div_word x y = let d = y % 2 ^ w in if d == 0 then raised given else value (pos (x % 2 ^ w / d))

  unfoldable pub mod_word : ℕ → ℕ → Result
  mod_word x y = let d = y % 2 ^ w in if d == 0 then raised given else value (pos (x % 2 ^ w % d))

  unfoldable pub div_word_tagged : ℕ → ℕ → Result
  div_word_tagged x y =
      let d = y % 2 ^ w / 2 in
      if d == 0 then raised given else value (pos ((2 * (x % 2 ^ w / 2 / d) + 1) % 2 ^ w))

  unfoldable pub mod_word_tagged : ℕ → ℕ → Result
  mod_word_tagged x y =
      let d = y % 2 ^ w / 2 in
      if d == 0 then raised given else value (pos ((2 * (x % 2 ^ w / 2 % d) + 1) % 2 ^ w))

abbrev pub div_word32ub : ℕ → ℕ → Result
div_word32ub = div_word 32

abbrev pub div_word64ub : ℕ → ℕ → Result
div_word64ub = div_word 64

abbrev pub div_word31 : ℕ → ℕ → Result
div_word31 = div_word_tagged 32

abbrev pub div_word63 : ℕ → ℕ → Result
div_word63 = div_word_tagged 64

abbrev pub mod_word32ub : ℕ → ℕ → Result
mod_word32ub = mod_word 32

abbrev pub mod_word64ub : ℕ → ℕ → Result
mod_word64ub = mod_word 64

abbrev pub mod_word31 : ℕ → ℕ → Result
mod_word31 = mod_word_tagged 32

abbrev pub mod_word63 : ℕ → ℕ → Result
mod_word63 = mod_word_tagged 64
