-- ===== src/Base/Int.antt =====
-- Signed integers over the native numbers, read through their two parts, and the division of C.
use Prim.Native.Nat.{ℕ, zero, suc, ◌+◌, ◌-◌, ◌*◌, ◌/◌, ◌%◌, ◌≤◌, ◌<◌}
use mathlib.Core.Path.{◌≡◌, refl, ap, ◌∙◌}
use mathlib.Core.Logic.{◌≢◌, ◌⊎◌, inl, inr}
use native.Mathlib.Nat.{div-add-mod, suc-mod, mod-eq_of_lt, mod-lt, mod_self, zero-lt-suc, zero-mod}
use mathlib.Core.Bool.{Bool}
use native.Mathlib.Omega.{arith}
use unikernel_with_region_in.Base.Tests.{
  Bool-cases, ltb→lt, not_ltb→le, ltb, leb, if◌then◌else◌, ◌==◌,
}

-- `negsuc n` is -(n + 1).
pub data ℤ : Type 0 where
  pos : ℕ → ℤ
  negsuc : ℕ → ℤ

abbrev pub pos_part : ℤ → ℕ
pos_part (pos n) = n
pos_part (negsuc n) = 0

abbrev pub neg_part : ℤ → ℕ
neg_part (pos n) = 0
neg_part (negsuc n) = suc n

-- a - b, as an integer.
abbrev pub sub_ℕ : ℕ → ℕ → ℤ
sub_ℕ a b = if leb b a then pos (a - b) else negsuc (b - a - 1)

infixl 65 ◌+ℤ◌ ◌-ℤ◌
infix 50 ◌≤ℤ◌ ◌<ℤ◌
abbrev pub ◌+ℤ◌ : ℤ → ℤ → ℤ
a +ℤ b = sub_ℕ (pos_part a + pos_part b) (neg_part a + neg_part b)

abbrev pub ◌-ℤ◌ : ℤ → ℤ → ℤ
a -ℤ b = sub_ℕ (pos_part a + neg_part b) (neg_part a + pos_part b)

abbrev pub double : ℤ → ℤ
double a = a +ℤ a

abbrev pub ◌≤ℤ◌ : ℤ → ℤ → Type 0
a ≤ℤ b = pos_part a + neg_part b ≤ pos_part b + neg_part a

abbrev pub ◌<ℤ◌ : ℤ → ℤ → Type 0
a <ℤ b = pos_part a + neg_part b < pos_part b + neg_part a

abbrev pub ltb_ℤ : ℤ → ℤ → Bool
ltb_ℤ a b = ltb (pos_part a + neg_part b) (pos_part b + neg_part a)

abbrev pub eqb_ℤ : ℤ → ℤ → Bool
eqb_ℤ a b = pos_part a + neg_part b == pos_part b + neg_part a

-- `a / b` and `a % b` of C, for `b` other than 0: the quotient is cut towards 0, and the remainder has
-- the sign of `a`.
unfoldable pub tdiv : ℤ → ℤ → ℤ
tdiv (pos a) (pos b) = pos (a / b)
tdiv (pos a) (negsuc b) = sub_ℕ 0 (a / suc b)
tdiv (negsuc a) (pos b) = sub_ℕ 0 (suc a / b)
tdiv (negsuc a) (negsuc b) = pos (suc a / suc b)

unfoldable pub tmod : ℤ → ℤ → ℤ
tmod (pos a) (pos b) = pos (a % b)
tmod (pos a) (negsuc b) = pos (a % suc b)
tmod (negsuc a) (pos b) = sub_ℕ 0 (suc a % b)
tmod (negsuc a) (negsuc b) = sub_ℕ 0 (suc a % suc b)

-- The quotient rounded down and its remainder, which has the sign of `b`: what Standard ML calls div
-- and mod.
unfoldable pub fdiv : ℤ → ℤ → ℤ
fdiv (pos a) (pos b) = pos (a / b)
fdiv (pos zero) (negsuc b) = pos 0
fdiv (pos (suc a)) (negsuc b) = negsuc (a / suc b)
fdiv (negsuc a) (pos b) = negsuc (a / b)
fdiv (negsuc a) (negsuc b) = pos (suc a / suc b)

unfoldable pub fmod : ℤ → ℤ → ℤ
fmod (pos a) (pos b) = pos (a % b)
fmod (pos a) (negsuc b) = let r = a % suc b in if r == 0 then pos 0 else negsuc (suc b - r - 1)
fmod (negsuc a) (pos b) = let r = suc a % b in if r == 0 then pos 0 else pos (b - r)
fmod (negsuc a) (negsuc b) = sub_ℕ 0 (suc a % suc b)

infixl 70 ◌*ℤ◌
abbrev pub ◌*ℤ◌ : ℤ → ℤ → ℤ
a *ℤ b =
    sub_ℕ (pos_part a * pos_part b + neg_part a * neg_part b)
      (pos_part a * neg_part b + neg_part a * pos_part b)

-- `q` is the quotient of `a` by `b` rounded down, and `r` what is left: it is 0, or has the sign of
-- `b`, and is nearer to 0 than `b`.
pub record IsFloor (a b q r : ℤ) : Type 0 where
  pub divides : a ≡ b *ℤ q +ℤ r
  pub at_most : pos_part r ≤ pos_part b - 1
  pub at_least : neg_part r ≤ neg_part b - 1

-- `q` is the quotient cut towards 0: what is left has the sign of `a`, and is nearer to 0 than `b`.
pub record IsTruncated (a b q r : ℤ) : Type 0 where
  pub divides : a ≡ b *ℤ q +ℤ r
  pub sign : (pos_part r ≤ pos_part a) × (neg_part r ≤ neg_part a)
  pub near : pos_part r + neg_part r < pos_part b + neg_part b

-- The remainder goes up by 1 from `a` to `suc a`, or starts again at 0.
pub mod_next : (a d : ℕ) → 0 < d → ((suc a % d ≡ 0) × (suc (a % d) ≡ d)) ⊎ (suc a % d ≡ suc (a % d))
mod_next a d hd = elim (Bool-cases (ltb (suc (a % d)) d)) [
  | inl h ↦ inr (suc-mod a d ∙ mod-eq_of_lt (ltb→lt (suc (a % d)) d h))
  | inr h ↦
      let e : suc (a % d) ≡ d = ground (arith, mod-lt a hd, not_ltb→le (suc (a % d)) d h) in
      inl (suc-mod a d ∙ ap (λ m. m % d) e ∙ mod_self d, e)
]

IsFloor-pn :
    (a b : ℕ)
    → IsFloor (pos (suc a)) (negsuc b) (negsuc (a / suc b)) (fmod (pos (suc a)) (negsuc b))
unfolding fmod
IsFloor-pn a b = elim (mod_next a (suc b) (ground arith)) [
  | inl (e, f) ↦ rw (e) (ground (arith, div-add-mod a (suc b)))
  | inr e ↦ rw (e) (ground (arith, div-add-mod a (suc b), mod-lt (suc a) (zero-lt-suc b)))
]

IsFloor-np :
    (a b : ℕ)
    → IsFloor (negsuc a) (pos (suc b)) (negsuc (a / suc b)) (fmod (negsuc a) (pos (suc b)))
unfolding fmod
IsFloor-np a b = elim (mod_next a (suc b) (ground arith)) [
  | inl (e, f) ↦ rw (e) (ground (arith, div-add-mod a (suc b)))
  | inr e ↦ rw (e) (ground (arith, div-add-mod a (suc b), mod-lt (suc a) (zero-lt-suc b)))
]

pub fdiv-IsFloor : (a b : ℤ) → b ≢ pos 0 → IsFloor a b (fdiv a b) (fmod a b)
unfolding fdiv fmod
fdiv-IsFloor (pos a) (pos b) ne = record {
  divides = ground (arith, div-add-mod a b);
  at_most = ground arith;
  at_least = ground arith;
}
fdiv-IsFloor (pos zero) (negsuc b) ne = rw (zero-mod (suc b)) (ground arith)
fdiv-IsFloor (pos (suc a)) (negsuc b) ne = IsFloor-pn a b
fdiv-IsFloor (negsuc a) (pos zero) ne = absurd (ne refl)
fdiv-IsFloor (negsuc a) (pos (suc b)) ne = IsFloor-np a b
fdiv-IsFloor (negsuc a) (negsuc b) ne = record {
  divides = ground (arith, div-add-mod (suc a) (suc b));
  at_most = ground arith;
  at_least = ground arith;
}

pub tdiv-IsTruncated : (a b : ℤ) → b ≢ pos 0 → IsTruncated a b (tdiv a b) (tmod a b)
unfolding tdiv tmod
tdiv-IsTruncated (pos a) (pos b) ne = ground (arith, div-add-mod a b)
tdiv-IsTruncated (pos a) (negsuc b) ne = ground (arith, div-add-mod a (suc b))
tdiv-IsTruncated (negsuc a) (pos b) ne = ground (arith, div-add-mod (suc a) b)
tdiv-IsTruncated (negsuc a) (negsuc b) ne = ground (arith, div-add-mod (suc a) (suc b))
