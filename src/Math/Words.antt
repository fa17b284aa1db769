-- ===== src/Math/Words.antt =====
-- The unsigned primitives on words, tagged and untagged.
use unikernel_with_region_in.Base.{
  ℕ, ◌+◌, ◌*◌, ◌/◌, ◌%◌, ◌^◌, ◌<◌, ◌≡◌, refl, arith, if◌then◌else◌, ◌==◌,
}
use native.Mathlib.Nat.{mod-eq_of_lt, div-le_self, mod-le}
use unikernel_with_region_in.Base.Int.{pos}
use unikernel_with_region_in.Math.{
  value, raised, given, div_word, mod_word, div_word_tagged, mod_word_tagged,
}

untag-tag : (a : ℕ) → (2 * a + 1) / 2 ≡ a
untag-tag a = omega arith

-- The unsigned primitives at the width 32 (`__div_word31` and `__mod_word31`, `__div_word32ub` and
-- `__mod_word32ub`) and at the width 64 (`__div_word63` and `__mod_word63`, `__div_word64ub` and
-- `__mod_word64ub`): a divisor of 0 raises the exception that is passed in, and else the first two of
-- each, on the tagged forms of the two words `a` and `b`, give the tagged forms of the quotient and of
-- the remainder, which do not wrap, and the others, on the words `x` and `y`, the quotient and the
-- remainder.
pub words_lem :
    (w a b x y : ℕ)
    → 2 * a + 1 < 2 ^ w
    → 2 * b + 1 < 2 ^ w
    → x < 2 ^ w
    → y < 2 ^ w
    → (div_word_tagged w (2 * a + 1) (2 * b + 1)
        ≡ (if b == 0 then raised given else value (pos (2 * (a / b) + 1))))
      × (mod_word_tagged w (2 * a + 1) (2 * b + 1)
          ≡ (if b == 0 then raised given else value (pos (2 * (a % b) + 1))))
      × (div_word w x y ≡ (if y == 0 then raised given else value (pos (x / y))))
      × (mod_word w x y ≡ (if y == 0 then raised given else value (pos (x % y))))
unfolding div_word_tagged mod_word_tagged div_word mod_word
words_lem w a b x y ha hb hx hy =
    let ma = mod-eq_of_lt {n = 2 * a + 1} {m = 2 ^ w} ha in
    let mb = mod-eq_of_lt {n = 2 * b + 1} {m = 2 ^ w} hb in
    let mq = mod-eq_of_lt {n = 2 * (a / b) + 1} {m = 2 ^ w} (ground (arith, div-le_self a b)) in
    let mr = mod-eq_of_lt {n = 2 * (a % b) + 1} {m = 2 ^ w} (ground (arith, mod-le a b)) in
    let mx = mod-eq_of_lt {n = x} {m = 2 ^ w} hx in
    let my = mod-eq_of_lt {n = y} {m = 2 ^ w} hy in
    (
      rw (ma, mb, untag-tag a, untag-tag b, mq) refl,
      rw (ma, mb, untag-tag a, untag-tag b, mr) refl,
      rw (mx, my) refl,
      rw (mx, my) refl,
    )
