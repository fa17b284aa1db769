-- ===== src/Math/Signed.antt =====
-- The signed division primitives round down.
use unikernel_with_region_in.Base.{
  ℕ, zero, suc, ◌+◌, ◌-◌, ◌*◌, ◌/◌, ◌<◌, ◌≤◌, ◌≡◌, true, false, arith, ==_of_ne, lt→ltb, le→not_ltb,
  Bool-cases, inl, inr, if◌then◌else◌, ◌&&◌,
}
use native.Mathlib.Nat.{div-lt_self, zero-lt-suc, div-le_self, zero-div}
use unikernel_with_region_in.Base.Int.{ℤ, pos, negsuc, sub_ℕ, tdiv, fdiv, eqb_ℤ}
use unikernel_with_region_in.Math.{
  Result, value, raised, given, overflow, in_range, checked, quotient, ◌>>=◌, add, sub,
  div_untagged, below,
}

-- The tagged form of an ML integer, 2 i + 1.
abbrev pub tag : ℤ → ℤ
tag (pos n) = pos (2 * n + 1)
tag (negsuc n) = negsuc (2 * n)

-- The divisor is 0, or the quotient of -half by -1 does not fit.
abbrev pub division : ℕ → ℤ → ℤ → Result → Result
division half a b r =
    if eqb_ℤ b (pos 0)
    then raised given
    else if eqb_ℤ b (negsuc 0) && eqb_ℤ a (negsuc (half - 1))
    then raised overflow
    else r

module _ (half : ℕ) (big : 4 ≤ half) where
  -- What follows the division when the result is one below the quotient.
  below_minus :
      (q : ℕ) → q < half → (checked half (sub_ℕ 0 q) >>= λ z. sub half z (pos 1)) ≡ value (negsuc q)
  below_minus zero h = ground arith
  below_minus (suc q) h = ground arith

  add_one : (a : ℕ) → suc a < half → add half (negsuc (suc a)) (pos 1) ≡ value (negsuc a)
  add_one a h = ground arith

  sub_one : (a : ℕ) → a < half → sub half (pos (suc a)) (pos 1) ≡ value (pos a)
  sub_one a h = ground arith

  below_pn : (a b : ℕ) → a < half → below half (pos a) (negsuc b) ≡ value (negsuc (a / suc b))
  unfolding below tdiv
  below_pn a b h =
      rw (==_of_ne 0 (0 + suc b) (omega arith))
        (below_minus (a / suc b) (ground (arith, div-le_self a (suc b))))

  below_np :
      (a b : ℕ)
      → a < half
      → (add half (negsuc a) (pos 1) >>= λ z. below half z (pos (suc b)))
        ≡ value (negsuc (a / suc b))
  unfolding below tdiv
  below_np zero b h = rw (zero-div (suc b)) (ground arith)
  below_np (suc a) b h =
      rw (add_one a h, ==_of_ne (suc b + 0) 0 (omega arith))
        (below_minus (suc a / suc b) (ground (arith, div-le_self (suc a) (suc b))))

  pub quotient_nn :
      (a b : ℕ)
      → suc a / suc b < half
      → quotient half (negsuc a) (negsuc b) ≡ value (pos (suc a / suc b))
  unfolding tdiv
  quotient_nn a b h = ground arith

  pub one_lt : (b : ℕ) → eqb_ℤ (negsuc b) (negsuc 0) ≡ false → 1 < suc b
  one_lt b h = ground arith

  pub div_untagged_lem :
      (a b : ℤ)
      → in_range half a ≡ true
      → in_range half b ≡ true
      → div_untagged half a b ≡ division half a b (value (fdiv a b))
  unfolding div_untagged fdiv
  div_untagged_lem (pos a) (pos zero) ha hb = ground arith
  div_untagged_lem (pos a) (pos (suc b)) ha hb =
      unfold tdiv in ground (arith, div-le_self a (suc b))
  div_untagged_lem (pos zero) (negsuc b) ha hb = unfold tdiv in rw (zero-div (suc b)) (ground arith)
  div_untagged_lem (pos (suc a)) (negsuc b) ha hb =
      rw (sub_one a (ground arith), below_pn a b (ground arith)) (ground arith)
  div_untagged_lem (negsuc a) (pos zero) ha hb = ground arith
  div_untagged_lem (negsuc a) (pos (suc b)) ha hb = rw (below_np a b (ground arith)) (ground arith)
  div_untagged_lem (negsuc a) (negsuc b) ha hb = elim (Bool-cases (eqb_ℤ (negsuc b) (negsuc 0))) [
    | inl h ↦
        rw
          (
            h,
            lt→ltb 0 (0 + suc a) (omega arith),
            le→not_ltb (0 + suc b) 0 (omega arith),
            le→not_ltb (0 + suc a) 0 (omega arith),
          )
          (ground (arith, quotient_nn a b, div-le_self (suc a) (suc b)))
    | inr h ↦
        rw
          (
            h,
            lt→ltb 0 (0 + suc a) (omega arith),
            le→not_ltb (0 + suc b) 0 (omega arith),
            le→not_ltb (0 + suc a) 0 (omega arith),
          )
          (ground (arith, quotient_nn a b, div-lt_self (zero-lt-suc a) (one_lt b h)))
  ]
