-- ===== src/Math/Truncated.antt =====
-- The quot and rem primitives round towards zero.
use unikernel_with_region_in.Base.{
  ℕ, zero, suc, ◌+◌, ◌-◌, ◌*◌, ◌/◌, ◌%◌, ◌≤◌, ◌≡◌, true, false, refl, arith, ap, ==_of_ne, ◌∙◌,
  if◌then◌else◌, Bool-cases, inl, inr, ◌&&◌,
}
use native.Mathlib.Nat.{div-le_self, mod-le, div-one, div-lt_self, zero-lt-suc}
use unikernel_with_region_in.Base.Int.{ℤ, pos, negsuc, sub_ℕ, tdiv, tmod, eqb_ℤ}
use unikernel_with_region_in.Math.{
  Result, value, undefined, in_range, checked, quotient, remainder, ◌>>=◌, twice, add, untag,
  quot_tagged, rem_tagged,
}
use unikernel_with_region_in.Math.Signed.{tag}

-- What C leaves undefined: a divisor of 0, and -half by -1.
abbrev pub truncated : ℕ → ℤ → ℤ → Result → Result
truncated half a b r =
    if eqb_ℤ b (pos 0)
    then undefined
    else if eqb_ℤ b (negsuc 0) && eqb_ℤ a (negsuc (half - 1))
    then undefined
    else r

module _ (half : ℕ) (big : 4 ≤ half) where
  checked_minus : (q : ℕ) → q ≤ half → checked half (sub_ℕ 0 q) ≡ value (sub_ℕ 0 q)
  checked_minus zero h = ground arith
  checked_minus (suc q) h = ground arith

  pub quotient_lem :
      (a b : ℤ)
      → in_range half a ≡ true
      → in_range half b ≡ true
      → quotient half a b ≡ truncated half a b (value (tdiv a b))
  unfolding tdiv
  quotient_lem (pos a) (pos zero) ha hb = ground arith
  quotient_lem (pos a) (pos (suc b)) ha hb = ground (arith, div-le_self a (suc b))
  quotient_lem (pos a) (negsuc b) ha hb =
      rw
        (
          ==_of_ne 0 (0 + suc b) (omega arith),
          checked_minus (a / suc b) (ground (arith, div-le_self a (suc b))),
        )
        (ground arith)
  quotient_lem (negsuc a) (pos zero) ha hb = ground arith
  quotient_lem (negsuc a) (pos (suc b)) ha hb =
      rw
        (
          ==_of_ne (suc b + 0) 0 (omega arith),
          checked_minus (suc a / suc b) (ground (arith, div-le_self (suc a) (suc b))),
        )
        (ground arith)
  quotient_lem (negsuc a) (negsuc zero) ha hb = ground (arith, div-one (suc a))
  quotient_lem (negsuc a) (negsuc (suc b)) ha hb =
      ground (arith, div-lt_self {n = suc a} {k = suc (suc b)} (zero-lt-suc a) (omega arith))

  pub remainder_lem :
      (a b : ℤ)
      → in_range half a ≡ true
      → in_range half b ≡ true
      → remainder half a b ≡ truncated half a b (value (tmod a b))
  remainder_lem a b ha hb =
      ap (λ r. r >>= λ _. value (tmod a b)) (quotient_lem a b ha hb) ∙ ground arith

-- The tagged forms, for `half` of the width without the tag.
abbrev pub no_divisor : ℤ → Result → Result
no_divisor b r = if eqb_ℤ b (pos 0) then undefined else r

module _ (half : ℕ) (big : 4 ≤ half) where
  untag-tag : (a : ℤ) → untag (2 * half) (tag a) ≡ a
  untag-tag (pos n) = ground arith
  untag-tag (negsuc n) = ground arith

  retagged :
      (q : ℤ)
      → in_range half q ≡ true
      → (twice (2 * half) q >>= λ t. add (2 * half) t (pos 1)) ≡ value (tag q)
  retagged (pos n) h = ground arith
  retagged (negsuc n) h = ground arith

  wide : (a : ℤ) → in_range half a ≡ true → in_range (2 * half) a ≡ true
  wide (pos n) h = ground arith
  wide (negsuc n) h = ground arith

  -- A quotient that has no tagged form.
  quot_over : (twice (2 * half) (pos half) >>= λ t. add (2 * half) t (pos 1)) ≡ undefined
  quot_over = ground arith

  over-tdiv :
      (a b : ℤ) → (eqb_ℤ b (negsuc 0) && eqb_ℤ a (negsuc (half - 1))) ≡ true → tdiv a b ≡ pos half
  unfolding tdiv
  over-tdiv (pos a) b h = ground arith
  over-tdiv (negsuc a) (pos b) h = ground arith
  over-tdiv (negsuc a) (negsuc zero) h = ground (arith, div-one (suc a))
  over-tdiv (negsuc a) (negsuc (suc b)) h = ground arith

  minus-in_range : (q : ℕ) → q ≤ half → in_range half (sub_ℕ 0 q) ≡ true
  minus-in_range zero h = ground arith
  minus-in_range (suc q) h = ground arith

  tdiv-in_range :
      (a b : ℤ)
      → in_range half a ≡ true
      → eqb_ℤ b (pos 0) ≡ false
      → (eqb_ℤ b (negsuc 0) && eqb_ℤ a (negsuc (half - 1))) ≡ false
      → in_range half (tdiv a b) ≡ true
  unfolding tdiv
  tdiv-in_range (pos a) (pos b) ha n f = ground (arith, div-le_self a b)
  tdiv-in_range (pos a) (negsuc b) ha n f =
      minus-in_range (a / suc b) (ground (arith, div-le_self a (suc b)))
  tdiv-in_range (negsuc a) (pos b) ha n f =
      minus-in_range (suc a / b) (ground (arith, div-le_self (suc a) b))
  tdiv-in_range (negsuc a) (negsuc zero) ha n f = ground (arith, div-one (suc a))
  tdiv-in_range (negsuc a) (negsuc (suc b)) ha n f =
      ground (arith, div-lt_self {n = suc a} {k = suc (suc b)} (zero-lt-suc a) (omega arith))

  tmod-in_range : (a b : ℤ) → in_range half a ≡ true → in_range half (tmod a b) ≡ true
  unfolding tmod
  tmod-in_range (pos a) (pos b) ha = ground (arith, mod-le a b)
  tmod-in_range (pos a) (negsuc b) ha = ground (arith, mod-le a (suc b))
  tmod-in_range (negsuc a) (pos b) ha =
      minus-in_range (suc a % b) (ground (arith, mod-le (suc a) b))
  tmod-in_range (negsuc a) (negsuc b) ha =
      minus-in_range (suc a % suc b) (ground (arith, mod-le (suc a) (suc b)))

  not_least : (a : ℤ) → in_range half a ≡ true → eqb_ℤ a (negsuc (2 * half - 1)) ≡ false
  not_least (pos a) h = ground arith
  not_least (negsuc a) h = ground arith

  -- In the wider width the least integer is no dividend.
  never_over :
      (a b : ℤ) (r : Result) → in_range half a ≡ true → truncated (2 * half) a b r ≡ no_divisor b r
  never_over a b r h = elim (Bool-cases (eqb_ℤ b (negsuc 0))) [
    | inl e ↦ rw (e, not_least a h) refl
    | inr e ↦ rw e refl
  ]

  pub quot_tagged_lem :
      (a b : ℤ)
      → in_range half a ≡ true
      → in_range half b ≡ true
      → quot_tagged (2 * half) (tag a) (tag b) ≡ truncated half a b (value (tag (tdiv a b)))
  unfolding quot_tagged
  quot_tagged_lem a b ha hb =
      let wider : quotient (2 * half) a b ≡ no_divisor b (value (tdiv a b)) =
        quotient_lem (2 * half) (omega arith) a b (wide a ha) (wide b hb)
        ∙ never_over a b (value (tdiv a b)) ha in
      rw (untag-tag a, untag-tag b, wider)
        (elim (Bool-cases (eqb_ℤ b (pos 0))) [
          | inl z ↦ rw (z) refl
          | inr n ↦ elim (Bool-cases (eqb_ℤ b (negsuc 0) && eqb_ℤ a (negsuc (half - 1)))) [
            | inl o ↦ rw (n, o, over-tdiv a b o) quot_over
            | inr f ↦ rw (n, f) (retagged (tdiv a b) (tdiv-in_range a b ha n f))
          ]
        ])

  pub rem_tagged_lem :
      (a b : ℤ)
      → in_range half a ≡ true
      → in_range half b ≡ true
      → rem_tagged (2 * half) (tag a) (tag b) ≡ no_divisor b (value (tag (tmod a b)))
  unfolding rem_tagged
  rem_tagged_lem a b ha hb =
      let wider : remainder (2 * half) a b ≡ no_divisor b (value (tmod a b)) =
        remainder_lem (2 * half) (omega arith) a b (wide a ha) (wide b hb)
        ∙ never_over a b (value (tmod a b)) ha in
      rw (untag-tag a, untag-tag b, wider)
        (elim (Bool-cases (eqb_ℤ b (pos 0))) [
          | inl z ↦ rw (z) refl
          | inr n ↦ rw (n) (retagged (tmod a b) (tmod-in_range a b ha))
        ])
