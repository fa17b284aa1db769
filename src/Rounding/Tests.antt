-- ===== src/Rounding/Tests.antt =====
-- The theorem on rounding modes at an environment that holds just the mode, with the codes of x86.
use unikernel_with_region_in.Base.{ℕ, ◌≡◌, refl, arith, some}
use unikernel_with_region_in.Rounding.{
  Fenv, IsFenv, float_set_rounding_mode, float_get_rounding_mode, rounding_mode_lem,
}

abbrev x86 : Fenv
x86 = record {
  Env = ℕ;
  fe_tonearest = 0;
  fe_downward = 1024;
  fe_upward = 2048;
  fe_towardzero = 3072;
  fesetround = λ c e. c;
  fegetround = λ e. e;
}

x86-IsFenv : IsFenv x86
x86-IsFenv = record {
  nearest_downward = omega arith;
  nearest_upward = omega arith;
  nearest_zero = omega arith;
  downward_upward = omega arith;
  downward_zero = omega arith;
  upward_zero = omega arith;
  set_nearest = λ e. refl;
  set_downward = λ e. refl;
  set_upward = λ e. refl;
  set_zero = λ e. refl;
}

rounding_at_each_mode :
    (e' : ℕ) × (float_set_rounding_mode x86 2 0 ≡ some e')
    × (float_get_rounding_mode x86 e' ≡ some 2)
rounding_at_each_mode = rounding_mode_lem x86 x86-IsFenv 2 0 (omega arith)
