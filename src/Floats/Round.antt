-- ===== src/Floats/Round.antt =====
-- The conversions of doubles to integers, on every double.
use unikernel_with_region_in.Base.{
  ℕ, zero, suc, ◌+◌, ◌-◌, ◌*◌, ◌/◌, ◌%◌, ◌<◌, ◌≤◌, ◌≡◌, refl, ap, true, false, ltb, lt→ltb, ltb→lt,
  not_ltb→le, Bool-cases, if◌then◌else◌, inl, inr, arith,
}
use native.Mathlib.Nat.{
  div-add-mod, mod-lt, le-div_iff_mul-le, div-lt_iff_lt-mul, div-eq_of_lt-le, div-eq_of_eq-mul_left,
}
use unikernel_with_region_in.Base.Int.{
  ℤ, pos, negsuc, sub_ℕ, pos_part, neg_part, tdiv, fdiv, mod_next,
}
use unikernel_with_region_in.Math.{
  Result, value, raised, undefined, overflow, ◌>>=◌, in_range, checked, sub,
}
use unikernel_with_region_in.Floats.Value.{Real, nan, inf, fin, less}
use unikernel_with_region_in.Floats.Convert.{to_long, floor_value, trunc_value, ceil_value}

-- The quotient rounded up.
abbrev pub up : ℕ → ℕ → ℕ
up u a = (a + u - 1) / u

-- What the functions should return.
module _ (u half : ℕ) where
  abbrev pub floor_spec : Real → Result
  floor_spec nan = undefined
  floor_spec (inf negative) = raised overflow
  floor_spec (fin z) =
      let q = fdiv z (pos u) in if in_range half q then value q else raised overflow

  abbrev pub trunc_spec : Real → Result
  trunc_spec nan = undefined
  trunc_spec (inf negative) = raised overflow
  trunc_spec (fin z) =
      let q = tdiv z (pos u) in
      if ltb (pos_part q + neg_part q) half then value q else raised overflow

  abbrev pub ceil_spec : Real → Result
  ceil_spec nan = undefined
  ceil_spec (inf negative) = raised overflow
  ceil_spec (fin (pos a)) =
      if ltb (half * u) a
      then raised overflow
      else if ltb (up u a) half
      then value (pos (up u a))
      else undefined
  ceil_spec (fin (negsuc a)) =
      if ltb (suc a / u) half then value (sub_ℕ 0 (suc a / u)) else raised overflow

module _ (u half : ℕ) (pos_u : 0 < u) (big : 2 ≤ half) where
  -- A multiple of the unit against a quotient.
  mul-le_div : (k a : ℕ) → k * u ≤ a → k ≤ a / u
  mul-le_div k a h = (le-div_iff_mul-le {k = u} {x = k} {y = a} pos_u).1 h

  div-lt : (k a : ℕ) → a < k * u → a / u < k
  div-lt k a h = (div-lt_iff_lt-mul {k = u} {x = a} {y = k} pos_u).1 h

  least : suc (half - 1) * u ≡ half * u
  least = ap (λ n. n * u) (omega arith)

  -- What follows the cut of a double below 0, at a quotient `q`.
  abbrev step_down : ℕ → ℤ → Result
  step_down a i = if less u (fin (negsuc a)) i then sub half i (pos 1) else value i

  step_down-whole :
      (q a : ℕ)
      → q < half
      → suc q * u ≡ suc a
      → (checked half (sub_ℕ 0 (suc q)) >>= step_down a) ≡ value (negsuc q)
  step_down-whole q a h e = ground arith

  step_down-part :
      (q a : ℕ)
      → q < half
      → q * u < suc a
      → (checked half (sub_ℕ 0 q) >>= step_down a) ≡ value (negsuc q)
  step_down-part zero a h e = ground arith
  step_down-part (suc q) a h e = ground arith

  -- The quotient of `suc a`, by its remainder.
  div_next-whole : (a : ℕ) → suc a % u ≡ 0 → suc (a % u) ≡ u → suc a / u ≡ suc (a / u)
  div_next-whole a e f =
      div-eq_of_lt-le {k = suc (a / u)} u {m = suc a} (ground (arith, div-add-mod a u))
        (ground (arith, div-add-mod a u))

  div_next-part : (a : ℕ) → suc a % u ≡ suc (a % u) → suc a / u ≡ a / u
  div_next-part a e =
      div-eq_of_lt-le {k = a / u} u {m = suc a} (ground (arith, div-add-mod a u))
        (ground (arith, div-add-mod a u, mod-lt (suc a) pos_u))

  step_down_lem :
      (a : ℕ)
      → a / u < half
      → (to_long u half (fin (negsuc a)) >>= step_down a) ≡ value (negsuc (a / u))
  unfolding to_long tdiv
  step_down_lem a h = elim (mod_next a u pos_u) [
    | inl (e, f) ↦
        rw (div_next-whole a e f) (step_down-whole (a / u) a h (ground (arith, div-add-mod a u)))
    | inr e ↦ rw (div_next-part a e) (step_down-part (a / u) a h (ground (arith, div-add-mod a u)))
  ]

  pub floor_value_lem : (r : Real) → floor_value u half r ≡ floor_spec u half r
  unfolding floor_value to_long fdiv
  floor_value_lem nan = refl
  floor_value_lem (inf true) = refl
  floor_value_lem (inf false) = refl
  floor_value_lem (fin (pos a)) =
      unfold tdiv in
      elim (Bool-cases (ltb a (half * u))) [
        | inl h ↦ ground (arith, div-lt half a (ltb→lt a (half * u) h))
        | inr h ↦ ground (arith, mul-le_div half a (not_ltb→le a (half * u) h))
      ]
  floor_value_lem (fin (negsuc a)) = elim (Bool-cases (ltb a (half * u))) [
    | inl h ↦
        rw (step_down_lem a (div-lt half a (ltb→lt a (half * u) h)))
          (ground (arith, div-lt half a (ltb→lt a (half * u) h), least))
    | inr h ↦ ground (arith, mul-le_div half a (not_ltb→le a (half * u) h), least)
  ]

  trunc_neg :
      (q : ℕ)
      → q < half
      → checked half (sub_ℕ 0 q) ≡ (
          if ltb (pos_part (sub_ℕ 0 q) + neg_part (sub_ℕ 0 q)) half
          then value (sub_ℕ 0 q)
          else raised overflow)
  trunc_neg zero h = ground arith
  trunc_neg (suc q) h = ground arith

  abs_neg : (q : ℕ) → pos_part (sub_ℕ 0 q) + neg_part (sub_ℕ 0 q) ≡ q
  abs_neg zero = ground arith
  abs_neg (suc q) = ground arith

  pub trunc_value_lem : (r : Real) → trunc_value u half r ≡ trunc_spec u half r
  unfolding trunc_value to_long tdiv
  trunc_value_lem nan = refl
  trunc_value_lem (inf true) = refl
  trunc_value_lem (inf false) = refl
  trunc_value_lem (fin (pos a)) = elim (Bool-cases (ltb a (half * u))) [
    | inl h ↦ ground (arith, div-lt half a (ltb→lt a (half * u) h), least)
    | inr h ↦ ground (arith, mul-le_div half a (not_ltb→le a (half * u) h))
  ]
  trunc_value_lem (fin (negsuc a)) = elim (Bool-cases (ltb (suc a) (half * u))) [
    | inl h ↦
        let small = div-lt half (suc a) (ltb→lt (suc a) (half * u) h) in
        rw (trunc_neg (suc a / u) small) (
          rw
            (
              lt→ltb 0 (half * u + suc a) (omega arith),
              lt→ltb (0 + suc a) (0 + suc (suc (half - 1) * u - 1))
                  (ground (arith, ltb→lt (suc a) (half * u) h, least)),
            )
            refl)
    | inr h ↦
        let large = mul-le_div half (suc a) (not_ltb→le (suc a) (half * u) h) in
        rw (abs_neg (suc a / u)) (ground (arith, large, least))
  ]

  up-whole : (a : ℕ) → a ≡ a / u * u → up u a ≡ a / u
  up-whole a e = div-eq_of_lt-le {k = a / u} u {m = a + u - 1} (ground arith) (ground arith)

  up-part : (a : ℕ) → a / u * u < a → up u a ≡ suc (a / u)
  up-part a e =
      div-eq_of_lt-le {k = suc (a / u)} u {m = a + u - 1} (ground arith)
        (ground (arith, div-add-mod a u, mod-lt a pos_u))

  pub ceil_value_lem : (r : Real) → ceil_value u half r ≡ ceil_spec u half r
  unfolding ceil_value to_long tdiv
  ceil_value_lem nan = refl
  ceil_value_lem (inf true) = refl
  ceil_value_lem (inf false) = refl
  ceil_value_lem (fin (pos a)) = elim (Bool-cases (ltb (a / u * u) a)) [
    | inl h ↦ rw (up-part a (ltb→lt (a / u * u) a h)) (
        ground (
          arith,
          mul-le_div half a,
          div-lt half a,
          div-eq_of_eq-mul_left {n = u} {m = a} {k = half} pos_u,
          ltb→lt (a / u * u) a,
          not_ltb→le (a / u * u) a,
          div-add-mod a u,
        ))
    | inr h ↦ rw (up-whole a (ground (arith, not_ltb→le (a / u * u) a h, div-add-mod a u))) (
        ground (
          arith,
          mul-le_div half a,
          div-lt half a,
          div-eq_of_eq-mul_left {n = u} {m = a} {k = half} pos_u,
          ltb→lt (a / u * u) a,
          not_ltb→le (a / u * u) a,
          div-add-mod a u,
        ))
  ]
  ceil_value_lem (fin (negsuc a)) = elim (Bool-cases (ltb (suc a) (half * u))) [
    | inl h ↦
        let small = div-lt half (suc a) (ltb→lt (suc a) (half * u) h) in
        ground (arith, small, least)
    | inr h ↦
        let large = mul-le_div half (suc a) (not_ltb→le (suc a) (half * u) h) in
        ground (arith, large, least)
  ]
