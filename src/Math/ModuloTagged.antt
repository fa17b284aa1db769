-- ===== src/Math/ModuloTagged.antt =====
-- The remainder primitives on tagged numbers.
use unikernel_with_region_in.Base.{
  ℕ, zero, suc, ◌+◌, ◌*◌, ◌%◌, ◌<◌, ◌≤◌, ◌≡◌, true, ap, ◌∙◌, arith, if◌then◌else◌,
}
use native.Mathlib.Nat.{div-le_self, mod-lt, zero-mod, zero-lt-suc, div-add-mod}
use unikernel_with_region_in.Base.Int.{ℤ, pos, negsuc, sub_ℕ, fmod, eqb_ℤ}
use unikernel_with_region_in.Math.{Result, value, raised, given, in_range, remainder, mod_tagged}
use unikernel_with_region_in.Math.Signed.{tag}
use unikernel_with_region_in.Math.Modulo.{remainder_pp, remainder_pn, remainder_np, remainder_nn}
use unikernel_with_region_in.Math.Tagged.{untagged, halves_suc, suc_halves_suc}

mod_halves : (a b : ℕ) → 2 * a % suc (2 * b + 1) ≡ 2 * (a % suc b)
mod_halves a b =
    ground (arith, div-add-mod (2 * a) (suc (2 * b + 1)), halves_suc a b, div-add-mod a (suc b))

suc_mod_halves : (a b : ℕ) → suc (2 * a + 1) % suc (2 * b + 1) ≡ 2 * (suc a % suc b)
suc_mod_halves a b = ap (λ n. n % suc (2 * b + 1)) (omega arith) ∙ mod_halves (suc a) b

-- A divisor of 0 is refused; there is no other failure, since the tagged numbers are small.
abbrev pub tagged_modulus : ℤ → Result → Result
tagged_modulus b r = if eqb_ℤ b (pos 0) then raised given else r

module _ (h : ℕ) (big : 2 ≤ h) where
  even_pp :
      (a b : ℕ)
      → a < h
      → remainder (2 * h) (pos (2 * a)) (pos (2 * suc b)) ≡ value (pos (2 * (a % suc b)))
  even_pp a b r =
      ap (λ d. remainder (2 * h) (pos (2 * a)) (pos d)) {y = suc (2 * b + 1)} (omega arith)
      ∙ remainder_pp (2 * h) (omega arith) (2 * a) (2 * b + 1) (omega arith)
      ∙ ap (λ m. value (pos m)) (mod_halves a b)

  even_pn :
      (a b : ℕ)
      → a < h
      → remainder (2 * h) (pos (2 * a)) (negsuc (2 * b + 1)) ≡ value (pos (2 * (a % suc b)))
  even_pn a b r =
      remainder_pn (2 * h) (omega arith) (2 * a) (2 * b + 1) (omega arith)
      ∙ ap (λ m. value (pos m)) (mod_halves a b)

  even_np :
      (a b : ℕ)
      → a < h
      → remainder (2 * h) (negsuc (2 * a + 1)) (pos (2 * suc b))
        ≡ value (sub_ℕ 0 (2 * (suc a % suc b)))
  even_np a b r =
      ap (λ d. remainder (2 * h) (negsuc (2 * a + 1)) (pos d)) {y = suc (2 * b + 1)} (omega arith)
      ∙ remainder_np (2 * h) (omega arith) (2 * a + 1) (2 * b + 1) (omega arith)
      ∙ ap (λ m. value (sub_ℕ 0 m)) (suc_mod_halves a b)

  even_nn :
      (a b : ℕ)
      → a < h
      → remainder (2 * h) (negsuc (2 * a + 1)) (negsuc (2 * b + 1))
        ≡ value (sub_ℕ 0 (2 * (suc a % suc b)))
  even_nn a b r =
      remainder_nn (2 * h) (omega arith) (2 * a + 1) (2 * b + 1)
        (ground (arith, suc_halves_suc a b, div-le_self (suc a) (suc b)))
      ∙ ap (λ m. value (sub_ℕ 0 m)) (suc_mod_halves a b)

  pub mod_tagged_lem :
      (a b : ℤ)
      → in_range h a ≡ true
      → in_range h b ≡ true
      → mod_tagged (2 * h) (tag a) (tag b) ≡ tagged_modulus b (value (tag (fmod a b)))
  unfolding mod_tagged fmod
  mod_tagged_lem (pos a) (pos zero) ha hb = ground arith
  mod_tagged_lem (negsuc a) (pos zero) ha hb = ground arith
  mod_tagged_lem (pos a) (pos (suc b)) ha hb =
      rw (untagged h big (pos a) ha, untagged h big (pos (suc b)) hb, even_pp a b (ground arith))
        (ground (arith, mod-lt a (zero-lt-suc b), zero-mod (suc b)))
  mod_tagged_lem (pos a) (negsuc b) ha hb =
      rw (untagged h big (pos a) ha, untagged h big (negsuc b) hb, even_pn a b (ground arith))
        (ground (arith, mod-lt a (zero-lt-suc b), zero-mod (suc b)))
  mod_tagged_lem (negsuc a) (pos (suc b)) ha hb =
      rw (untagged h big (negsuc a) ha, untagged h big (pos (suc b)) hb, even_np a b (ground arith))
        (ground (arith, mod-lt (suc a) (zero-lt-suc b)))
  mod_tagged_lem (negsuc a) (negsuc b) ha hb =
      rw (untagged h big (negsuc a) ha, untagged h big (negsuc b) hb, even_nn a b (ground arith))
        (ground (arith, mod-lt (suc a) (zero-lt-suc b)))
