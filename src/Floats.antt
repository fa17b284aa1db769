-- ===== src/Floats.antt =====
-- The floating-point primitives of XenRuntimeMini/src/RuntimeMini/Math.c. A double is the 64-bit word
-- that stands in memory, and Floats/Value reads it. The functions of the C library on doubles are a
-- parameter, since their code is not part of the repository.
pub mod Bytes
pub mod Convert
pub mod Print
pub mod Printed
pub mod Round
pub mod Value
pub mod Whole
mod Tests
use unikernel_with_region_in.Base.{ℕ, ◌+◌, ◌-◌, ◌^◌}
use unikernel_with_region_in.Base.Int.{ℤ, pos, negsuc}
use unikernel_with_region_in.State.{Ptr, State, Cmd, pure, ◌>>=◌, ◌>>◌, load, set_word}
use unikernel_with_region_in.Math.{Result, half64}
use unikernel_with_region_in.Strings.{ml_bool}
use Value.{unit, decode, sign_bit, is_nan, is_normal}
use Convert.{floor_value, trunc_value, ceil_value}

-- The C library.
pub record Libm : Type 0 where
  pub of_long : ℤ → ℕ
  pub quotient : ℕ → ℕ → ℕ
  pub fmod : ℕ → ℕ → ℕ
  pub floor : ℕ → ℕ
  pub ceil : ℕ → ℕ
  pub trunc : ℕ → ℕ
  pub round : ℕ → ℕ
  pub sqrt : ℕ → ℕ
  pub sin : ℕ → ℕ
  pub cos : ℕ → ℕ
  pub atan : ℕ → ℕ
  pub asin : ℕ → ℕ
  pub acos : ℕ → ℕ
  pub atan2 : ℕ → ℕ → ℕ
  pub exp : ℕ → ℕ
  pub pow : ℕ → ℕ → ℕ
  pub log : ℕ → ℕ
  pub sinh : ℕ → ℕ
  pub cosh : ℕ → ℕ
  pub tanh : ℕ → ℕ
  pub copysign : ℕ → ℕ → ℕ
  pub ldexp : ℕ → ℤ → ℕ
  pub frexp : ℕ → ℕ × ℤ
  pub nextafter : ℕ → ℕ → ℕ
  -- the fraction and the whole part
  pub modf : ℕ → ℕ × ℕ

-- `get_d(d) = f(get_d(x))`.
unfoldable pub unary : (ℕ → ℕ) → Ptr → Ptr → Cmd Ptr
unary f d x = do v ← load State.word x; set_word d (f v); pure d

unfoldable pub binary : (ℕ → ℕ → ℕ) → Ptr → Ptr → Ptr → Cmd Ptr
binary f d x y = do v ← load State.word x; w ← load State.word y; set_word d (f v w); pure d

unfoldable pub constant : ℕ → Ptr → Cmd Ptr
constant v d = do set_word d v; pure d

-- `convertIntToML` of an integer, as a word.
abbrev pub word_of : ℤ → ℕ
word_of (pos n) = n
word_of (negsuc n) = 2 ^ 64 - 1 - n

unfoldable pub floor_float : Ptr → Cmd Result
floor_float f = do w ← load State.word f; pure (floor_value unit half64 (decode w))

unfoldable pub trunc_float : Ptr → Cmd Result
trunc_float f = do w ← load State.word f; pure (trunc_value unit half64 (decode w))

unfoldable pub ceil_float : Ptr → Cmd Result
ceil_float f = do w ← load State.word f; pure (ceil_value unit half64 (decode w))

unfoldable pub isnan_float : Ptr → Cmd ℕ
isnan_float s = do w ← load State.word s; pure (ml_bool (is_nan w))

unfoldable pub signbit_float : Ptr → Cmd ℕ
signbit_float s = do w ← load State.word s; pure (ml_bool (sign_bit w))

unfoldable pub isnormal_float : Ptr → Cmd ℕ
isnormal_float s = do w ← load State.word s; pure (ml_bool (is_normal w))

-- HUGE_VAL, -HUGE_VAL and DBL_MAX.
abbrev pub huge_val : ℕ
huge_val = 0x7FF0000000000000

abbrev pub minus_huge_val : ℕ
minus_huge_val = 0xFFF0000000000000

abbrev pub dbl_max : ℕ
dbl_max = 0x7FEFFFFFFFFFFFFF

unfoldable pub pos_inf_float : Ptr → Cmd Ptr
pos_inf_float = constant huge_val

unfoldable pub neg_inf_float : Ptr → Cmd Ptr
neg_inf_float = constant minus_huge_val

unfoldable pub max_finite_float : Ptr → Cmd Ptr
max_finite_float = constant dbl_max

module _ (lib : Libm) where
  unfoldable pub real_int : Ptr → ℤ → Cmd Ptr
  real_int d x = constant (lib.of_long x) d

  unfoldable pub div_float : Ptr → Ptr → Ptr → Cmd Ptr
  div_float = binary lib.quotient

  unfoldable pub rem_float : Ptr → Ptr → Ptr → Cmd Ptr
  rem_float = binary lib.fmod

  unfoldable pub real_floor : Ptr → Ptr → Cmd Ptr
  real_floor = unary lib.floor

  unfoldable pub real_ceil : Ptr → Ptr → Cmd Ptr
  real_ceil = unary lib.ceil

  unfoldable pub real_trunc : Ptr → Ptr → Cmd Ptr
  real_trunc = unary lib.trunc

  unfoldable pub real_round : Ptr → Ptr → Cmd Ptr
  real_round = unary lib.round

  unfoldable pub sqrt_float : Ptr → Ptr → Cmd Ptr
  sqrt_float = unary lib.sqrt

  unfoldable pub sin_float : Ptr → Ptr → Cmd Ptr
  sin_float = unary lib.sin

  unfoldable pub cos_float : Ptr → Ptr → Cmd Ptr
  cos_float = unary lib.cos

  unfoldable pub atan_float : Ptr → Ptr → Cmd Ptr
  atan_float = unary lib.atan

  unfoldable pub asin_float : Ptr → Ptr → Cmd Ptr
  asin_float = unary lib.asin

  unfoldable pub acos_float : Ptr → Ptr → Cmd Ptr
  acos_float = unary lib.acos

  unfoldable pub exp_float : Ptr → Ptr → Cmd Ptr
  exp_float = unary lib.exp

  unfoldable pub ln_float : Ptr → Ptr → Cmd Ptr
  ln_float = unary lib.log

  unfoldable pub sinh_float : Ptr → Ptr → Cmd Ptr
  sinh_float = unary lib.sinh

  unfoldable pub cosh_float : Ptr → Ptr → Cmd Ptr
  cosh_float = unary lib.cosh

  unfoldable pub tanh_float : Ptr → Ptr → Cmd Ptr
  tanh_float = unary lib.tanh

  unfoldable pub atan2_float : Ptr → Ptr → Ptr → Cmd Ptr
  atan2_float = binary lib.atan2

  unfoldable pub pow_float : Ptr → Ptr → Ptr → Cmd Ptr
  pow_float = binary lib.pow

  unfoldable pub copysign_float : Ptr → Ptr → Ptr → Cmd Ptr
  copysign_float = binary lib.copysign

  unfoldable pub nextafter_float : Ptr → Ptr → Ptr → Cmd Ptr
  nextafter_float = binary lib.nextafter

  unfoldable pub ldexp_float : Ptr → Ptr → ℤ → Cmd Ptr
  ldexp_float d x e = unary (λ v. lib.ldexp v e) d x

  unfoldable pub frexp_float : Ptr → Ptr → Ptr → Cmd Ptr
  frexp_float p d x = do
    v ← load State.word x
    set_word d (lib.frexp v).0
    set_word p d
    set_word (p + 8) (word_of (lib.frexp v).1)
    pure p

  unfoldable pub split_float : Ptr → Ptr → Ptr → Ptr → Cmd Ptr
  split_float p w f r = do
    v ← load State.word r
    set_word f (lib.modf v).0
    set_word w (lib.modf v).1
    set_word p w
    set_word (p + 8) f
    pure p
