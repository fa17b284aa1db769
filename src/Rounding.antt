-- ===== src/Rounding.antt =====
-- The rounding modes: floatSetRoundingMode and floatGetRoundingMode of
-- UnixRuntimeMini/src/RuntimeMini/Math.c, and those of XenRuntimeMini/src/RuntimeMini/Math.c, whose
-- bodies are commented out. The floating-point environment of the C library is a parameter.
mod Tests
use unikernel_with_region_in.Base.{
  ℕ, zero, suc, ◌<◌, ◌≡◌, ◌≢◌, refl, sym, arith, Option, none, some, ◌==◌, ==_of_ne, ==_refl,
  if◌then◌else◌,
}

-- fenv.h, with the codes of the modes.
pub record Fenv : Type 1 where
  pub Env : Type 0
  pub fe_tonearest : ℕ
  pub fe_downward : ℕ
  pub fe_upward : ℕ
  pub fe_towardzero : ℕ
  pub fesetround : ℕ → Env → Env
  pub fegetround : Env → ℕ

module _ (lib : Fenv) where
  -- `none` is the message and `exit(1)`.
  unfoldable pub float_set_rounding_mode : ℕ → lib.Env → Option lib.Env
  float_set_rounding_mode m e =
      if m == 0
      then some (lib.fesetround lib.fe_tonearest e)
      else if m == 1
      then some (lib.fesetround lib.fe_downward e)
      else if m == 2
      then some (lib.fesetround lib.fe_upward e)
      else if m == 3
      then some (lib.fesetround lib.fe_towardzero e)
      else none

  unfoldable pub float_get_rounding_mode : lib.Env → Option ℕ
  float_get_rounding_mode e =
      let rm = lib.fegetround e in
      if rm == lib.fe_tonearest
      then some 0
      else if rm == lib.fe_downward
      then some 1
      else if rm == lib.fe_upward
      then some 2
      else if rm == lib.fe_towardzero
      then some 3
      else none

  -- On Xen nothing is set, and the answer is 0.
  unfoldable pub xen_float_set_rounding_mode : ℕ → lib.Env → lib.Env
  xen_float_set_rounding_mode m e = e

  unfoldable pub xen_float_get_rounding_mode : lib.Env → ℕ
  xen_float_get_rounding_mode e = 0

-- What fenv.h says of the codes and of setting and getting them.
pub record IsFenv (lib : Fenv) : Type 0 where
  pub nearest_downward : lib.fe_tonearest ≢ lib.fe_downward
  pub nearest_upward : lib.fe_tonearest ≢ lib.fe_upward
  pub nearest_zero : lib.fe_tonearest ≢ lib.fe_towardzero
  pub downward_upward : lib.fe_downward ≢ lib.fe_upward
  pub downward_zero : lib.fe_downward ≢ lib.fe_towardzero
  pub upward_zero : lib.fe_upward ≢ lib.fe_towardzero
  pub set_nearest :
      (e : lib.Env) → lib.fegetround (lib.fesetround lib.fe_tonearest e) ≡ lib.fe_tonearest
  pub set_downward :
      (e : lib.Env) → lib.fegetround (lib.fesetround lib.fe_downward e) ≡ lib.fe_downward
  pub set_upward : (e : lib.Env) → lib.fegetround (lib.fesetround lib.fe_upward e) ≡ lib.fe_upward
  pub set_zero :
      (e : lib.Env) → lib.fegetround (lib.fesetround lib.fe_towardzero e) ≡ lib.fe_towardzero

-- On Unix, with a floating-point environment that does what fenv.h says, setting a mode from 0 to 3
-- does not end the program, and the mode that is got then is the one that was set.
pub rounding_mode_lem :
    (lib : Fenv)
    → IsFenv lib
    → (m : ℕ) (e : lib.Env) → m < 4
    → (e' : lib.Env) × (float_set_rounding_mode lib m e ≡ some e')
      × (float_get_rounding_mode lib e' ≡ some m)
unfolding float_set_rounding_mode float_get_rounding_mode
rounding_mode_lem lib h zero e fits = (_, refl, rw (h.set_nearest e, ==_refl lib.fe_tonearest) refl)
rounding_mode_lem lib h (suc zero) e fits = (
  _,
  refl,
  rw
      (
        h.set_downward e,
        ==_of_ne lib.fe_downward lib.fe_tonearest (λ p. h.nearest_downward (sym p)),
        ==_refl lib.fe_downward,
      )
      refl,
)
rounding_mode_lem lib h (suc (suc zero)) e fits = (
  _,
  refl,
  rw
      (
        h.set_upward e,
        ==_of_ne lib.fe_upward lib.fe_tonearest (λ p. h.nearest_upward (sym p)),
        ==_of_ne lib.fe_upward lib.fe_downward (λ p. h.downward_upward (sym p)),
        ==_refl lib.fe_upward,
      )
      refl,
)
rounding_mode_lem lib h (suc (suc (suc zero))) e fits = (
  _,
  refl,
  rw
      (
        h.set_zero e,
        ==_of_ne lib.fe_towardzero lib.fe_tonearest (λ p. h.nearest_zero (sym p)),
        ==_of_ne lib.fe_towardzero lib.fe_downward (λ p. h.downward_zero (sym p)),
        ==_of_ne lib.fe_towardzero lib.fe_upward (λ p. h.upward_zero (sym p)),
        ==_refl lib.fe_towardzero,
      )
      refl,
)
rounding_mode_lem lib h (suc (suc (suc (suc m)))) e fits = absurd (omega arith)
