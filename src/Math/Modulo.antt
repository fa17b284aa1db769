-- ===== src/Math/Modulo.antt =====
-- The signed remainder primitives give the remainder of the division that rounds down.
use unikernel_with_region_in.Base.{
  ℕ, zero, suc, ◌+◌, ◌-◌, ◌/◌, ◌%◌, ◌<◌, ◌≤◌, ◌≡◌, true, refl, arith, ==_of_ne, lt→ltb, le→not_ltb,
  if◌then◌else◌, ◌&&◌,
}
use native.Mathlib.Nat.{div-le_self, mod-lt, zero-mod, div-one, div-lt_self, zero-lt-suc}
use unikernel_with_region_in.Base.Int.{ℤ, pos, negsuc, sub_ℕ, tdiv, tmod, fmod, eqb_ℤ}
use unikernel_with_region_in.Math.{
  Result, value, raised, undefined, given, in_range, checked, remainder, ◌>>=◌, mod_untagged,
}
use unikernel_with_region_in.Math.Signed.{quotient_nn}

-- There is no remainder where C has no quotient.
abbrev pub modulus : ℕ → ℤ → ℤ → Result → Result
modulus half a b r =
    if eqb_ℤ b (pos 0)
    then raised given
    else if eqb_ℤ b (negsuc 0) && eqb_ℤ a (negsuc (half - 1))
    then undefined
    else r

module _ (half : ℕ) (big : 4 ≤ half) where
  -- The remainder does not depend on a quotient that fits.
  cut-value : (q : ℕ) (r : ℤ) → q ≤ half → (checked half (sub_ℕ 0 q) >>= λ _. value r) ≡ value r
  cut-value zero r h = ground arith
  cut-value (suc q) r h = ground arith

  pub remainder_pp :
      (a b : ℕ) → a < half → remainder half (pos a) (pos (suc b)) ≡ value (pos (a % suc b))
  unfolding tdiv tmod
  remainder_pp a b h = ground (arith, div-le_self a (suc b))

  pub remainder_pn :
      (a b : ℕ) → a < half → remainder half (pos a) (negsuc b) ≡ value (pos (a % suc b))
  unfolding tdiv tmod
  remainder_pn a b h =
      rw (==_of_ne 0 (0 + suc b) (omega arith))
        (cut-value (a / suc b) (pos (a % suc b)) (ground (arith, div-le_self a (suc b))))

  pub remainder_np :
      (a b : ℕ)
      → a < half
      → remainder half (negsuc a) (pos (suc b)) ≡ value (sub_ℕ 0 (suc a % suc b))
  unfolding tdiv tmod
  remainder_np a b h = rw (==_of_ne (suc b + 0) 0 (omega arith)) (
      cut-value (suc a / suc b) (sub_ℕ 0 (suc a % suc b))
        (ground (arith, div-le_self (suc a) (suc b))))

  pub remainder_nn :
      (a b : ℕ)
      → suc a / suc b < half
      → remainder half (negsuc a) (negsuc b) ≡ value (sub_ℕ 0 (suc a % suc b))
  unfolding tmod
  remainder_nn a b h = rw (quotient_nn half big a b h) refl

  remainder_over :
      (a b : ℕ) → half ≤ suc a / suc b → remainder half (negsuc a) (negsuc b) ≡ undefined
  unfolding tmod tdiv
  remainder_over a b h = ground arith

  pub mod_untagged_lem :
      (a b : ℤ)
      → in_range half a ≡ true
      → in_range half b ≡ true
      → mod_untagged half a b ≡ modulus half a b (value (fmod a b))
  unfolding mod_untagged fmod
  mod_untagged_lem (pos a) (pos zero) ha hb = ground arith
  mod_untagged_lem (pos a) (pos (suc b)) ha hb =
      rw (remainder_pp a b (ground arith)) (ground (arith, zero-mod (suc b)))
  mod_untagged_lem (pos a) (negsuc b) ha hb =
      rw (remainder_pn a b (ground arith)) (ground (arith, mod-lt a (zero-lt-suc b)))
  mod_untagged_lem (negsuc a) (pos zero) ha hb = ground arith
  mod_untagged_lem (negsuc a) (pos (suc b)) ha hb =
      rw (remainder_np a b (ground arith)) (ground (arith, mod-lt (suc a) (zero-lt-suc b)))
  mod_untagged_lem (negsuc a) (negsuc zero) ha hb =
      rw (le→not_ltb (0 + suc a) 0 (omega arith), lt→ltb 0 (0 + suc a) (omega arith))
        (ground (arith, remainder_nn a 0, remainder_over a 0, div-one (suc a)))
  mod_untagged_lem (negsuc a) (negsuc (suc b)) ha hb =
      rw
        (
          le→not_ltb (0 + suc a) 0 (omega arith),
          lt→ltb 0 (0 + suc a) (omega arith),
          lt→ltb 0 (0 + suc (suc b)) (omega arith),
        )
        (ground (
          arith,
          remainder_nn a (suc b),
          div-lt_self {n = suc a} {k = suc (suc b)} (zero-lt-suc a) (omega arith),
        ))
