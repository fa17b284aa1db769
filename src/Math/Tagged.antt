-- ===== src/Math/Tagged.antt =====
-- The division primitives on tagged numbers round down, and give the tagged quotient.
use unikernel_with_region_in.Base.{
  ℕ, zero, suc, ◌+◌, ◌*◌, ◌/◌, ◌<◌, ◌≤◌, ◌≡◌, true, arith, ==_of_ne, lt→ltb, le→not_ltb, ap, ◌∙◌,
}
use native.Mathlib.Nat.{div-le_self, div-lt_self, zero-div, div-one, zero-lt-suc, mul-div-mul_left}
use unikernel_with_region_in.Base.Int.{ℤ, pos, negsuc, sub_ℕ, tdiv, fdiv}
use unikernel_with_region_in.Math.{
  value, in_range, checked, twice, ◌>>=◌, add, sub, div_tagged, tagged_below, tagged_exact,
}
use unikernel_with_region_in.Math.Signed.{tag, division}

-- 2 a, by cases.
abbrev pub even : ℤ → ℤ
even (pos n) = pos (2 * n)
even (negsuc n) = negsuc (2 * n + 1)

halves : (a b : ℕ) → 2 * a / (2 * suc b) ≡ a / suc b
halves a b = mul-div-mul_left a (suc b) (omega arith)

pub halves_suc : (a b : ℕ) → 2 * a / suc (2 * b + 1) ≡ a / suc b
halves_suc a b = ap (λ d. 2 * a / d) (omega arith) ∙ halves a b

suc_halves : (a b : ℕ) → suc (2 * a + 1) / (2 * suc b) ≡ suc a / suc b
suc_halves a b = ap (λ n. n / (2 * suc b)) (omega arith) ∙ halves (suc a) b

pub suc_halves_suc : (a b : ℕ) → suc (2 * a + 1) / suc (2 * b + 1) ≡ suc a / suc b
suc_halves_suc a b = ap (λ n. n / suc (2 * b + 1)) (omega arith) ∙ halves_suc (suc a) b

module _ (h : ℕ) (big : 2 ≤ h) where
  pub untagged : (b : ℤ) → in_range h b ≡ true → sub (2 * h) (tag b) (pos 1) ≡ value (even b)
  untagged (pos n) r = ground arith
  untagged (negsuc n) r = ground arith

  -- The steps after the division.
  tag_below :
      (m : ℕ)
      → m < h
      → (checked (2 * h) (sub_ℕ 0 m) >>= λ q. twice (2 * h) q >>= λ t. sub (2 * h) t (pos 1))
        ≡ value (tag (negsuc m))
  tag_below zero r = ground arith
  tag_below (suc m) r = ground arith

  tag_exact :
      (m : ℕ)
      → m < h
      → (checked (2 * h) (pos m) >>= λ q. twice (2 * h) q >>= λ t. add (2 * h) t (pos 1))
        ≡ value (tag (pos m))
  tag_exact m r = ground arith

  tagged_below_pn :
      (a b : ℕ)
      → a < h
      → b < h
      → tagged_below (2 * h) (pos (2 * a)) (tag (negsuc b)) ≡ value (tag (negsuc (a / suc b)))
  unfolding tagged_below tdiv
  tagged_below_pn a b ha hb =
      rw
        (
          untagged (negsuc b) (lt→ltb b h hb),
          halves_suc a b,
          ==_of_ne 0 (0 + suc (2 * b + 1)) (omega arith),
        )
        (tag_below (a / suc b) (ground (arith, div-le_self a (suc b))))

  tagged_exact_pp :
      (a b : ℕ)
      → a < h
      → suc b < h
      → tagged_exact (2 * h) (pos (2 * a)) (tag (pos (suc b))) ≡ value (tag (pos (a / suc b)))
  unfolding tagged_exact tdiv
  tagged_exact_pp a b ha hb =
      rw
        (
          untagged (pos (suc b)) (lt→ltb (suc b) h hb),
          halves a b,
          ==_of_ne (2 * suc b + 0) 0 (omega arith),
        )
        (tag_exact (a / suc b) (ground (arith, div-le_self a (suc b))))

  minus_one : add (2 * h) (tag (negsuc 0)) (pos 1) ≡ value (pos 0)
  minus_one = ground arith

  add_one :
      (a : ℕ) → suc a < h → add (2 * h) (tag (negsuc (suc a))) (pos 1) ≡ value (negsuc (2 * a + 1))
  add_one a r = ground arith

  tagged_below_np :
      (a b : ℕ)
      → a < h
      → suc b < h
      → (add (2 * h) (tag (negsuc a)) (pos 1) >>= λ z. tagged_below (2 * h) z (tag (pos (suc b))))
        ≡ value (tag (negsuc (a / suc b)))
  unfolding tagged_below tdiv
  tagged_below_np zero b ha hb =
      rw
        (
          minus_one,
          untagged (pos (suc b)) (lt→ltb (suc b) h hb),
          zero-div (suc b),
          zero-div (2 * suc b),
        )
        (ground arith)
  tagged_below_np (suc a) b ha hb =
      rw
        (
          add_one a ha,
          untagged (pos (suc b)) (lt→ltb (suc b) h hb),
          suc_halves a b,
          ==_of_ne (2 * suc b + 0) 0 (omega arith),
        )
        (tag_below (suc a / suc b) (ground (arith, div-le_self (suc a) (suc b))))

  tagged_exact_nn :
      (a b : ℕ)
      → b < h
      → suc a / suc b < h
      → tagged_exact (2 * h) (negsuc (2 * a + 1)) (tag (negsuc b))
        ≡ value (tag (pos (suc a / suc b)))
  unfolding tagged_exact tdiv
  tagged_exact_nn a b hb r =
      rw
        (
          untagged (negsuc b) (lt→ltb b h hb),
          suc_halves_suc a b,
          ==_of_ne 0 (0 + suc (2 * b + 1)) (omega arith),
        )
        (tag_exact (suc a / suc b) r)

  untag_one :
      (a : ℕ) → suc a < h → sub (2 * h) (tag (pos (suc a))) (pos 1) ≡ value (pos (2 * suc a))
  untag_one a r = ground arith

  untag_three : (a : ℕ) → suc a < h → sub (2 * h) (tag (pos (suc a))) (pos 3) ≡ value (pos (2 * a))
  untag_three a r = ground arith

  untag_neg : (a : ℕ) → a < h → sub (2 * h) (tag (negsuc a)) (pos 1) ≡ value (negsuc (2 * a + 1))
  untag_neg a r = ground arith

  pub div_tagged_lem :
      (a b : ℤ)
      → in_range h a ≡ true
      → in_range h b ≡ true
      → div_tagged (2 * h) (tag a) (tag b) ≡ division h a b (value (tag (fdiv a b)))
  unfolding div_tagged fdiv
  div_tagged_lem (pos zero) (pos zero) ha hb = ground arith
  div_tagged_lem (pos (suc a)) (pos zero) ha hb = ground arith
  div_tagged_lem (pos zero) (pos (suc b)) ha hb = rw (zero-div (suc b)) (ground arith)
  div_tagged_lem (pos (suc a)) (pos (suc b)) ha hb =
      rw (untag_one a (ground arith), tagged_exact_pp (suc a) b (ground arith) (ground arith))
        (ground arith)
  div_tagged_lem (pos zero) (negsuc b) ha hb = ground arith
  div_tagged_lem (pos (suc a)) (negsuc b) ha hb =
      rw (untag_three a (ground arith), tagged_below_pn a b (ground arith) (ground arith))
        (ground arith)
  div_tagged_lem (negsuc a) (pos zero) ha hb = ground arith
  div_tagged_lem (negsuc a) (pos (suc b)) ha hb =
      rw (tagged_below_np a b (ground arith) (ground arith)) (ground arith)
  div_tagged_lem (negsuc a) (negsuc zero) ha hb =
      rw
        (
          untag_neg a (ground arith),
          le→not_ltb (1 + suc (2 * a)) 0 (omega arith),
          lt→ltb 0 (1 + suc (2 * a)) (omega arith),
        )
        (ground (arith, tagged_exact_nn a 0 (ground arith), div-one (suc a)))
  div_tagged_lem (negsuc a) (negsuc (suc b)) ha hb =
      rw
        (
          untag_neg a (ground arith),
          tagged_exact_nn a (suc b) (ground arith) (
              ground
                (arith, div-lt_self {n = suc a} {k = suc (suc b)} (zero-lt-suc a) (omega arith))),
        )
        (rw
          (
            le→not_ltb (1 + suc (2 * a)) 0 (omega arith),
            le→not_ltb (1 + suc (2 * suc b)) 0 (omega arith),
          )
          (ground arith))
