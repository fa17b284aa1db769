-- ===== src/Base/Bits.antt =====
-- `&` and `|` with masks as arithmetic, at every width. The native operations mean a recursion on
-- binary digits with fuel; here the fuel is dropped.
use Prim.Native.Nat.{digits, bitwise, bit_and-bitwise, bit_or-bitwise}
use Prim.Native.Nat.{ℕ, zero, suc, ◌+◌, ◌-◌, ◌*◌, ◌/◌, ◌%◌, ◌^◌, ◌≤◌, ◌<◌, min, max}
use Prim.Native.Nat.{bit_and, bit_or}
use mathlib.Core.Path.{◌≡◌, refl, ap, sym, ◌∙◌}
use mathlib.Core.Logic.{◌≢◌}
use native.Mathlib.Decide.{ℕ_discrete}
use native.Mathlib.Nat.{pow-suc, one-le-pow}
use native.Mathlib.Omega.{arith}

-- One digit at a time, for any operation given by what it does to a pair of digits, `digit`, and to a
-- rest `b` once `a` is used up, `rest`.
module _ (rest : ℕ → ℕ) (digit : ℕ → ℕ → ℕ) where
  digits-zero : (n b : ℕ) → digits rest digit n 0 b ≡ rest b
  digits-zero zero b = refl
  digits-zero (suc n) b = refl

  digits-steady : (a b n m : ℕ) → a ≤ n → a ≤ m → digits rest digit n a b ≡ digits rest digit m a b
  digits-steady zero b n m p q = digits-zero n b ∙ sym (digits-zero m b)
  digits-steady (suc a) b zero m p q = absurd (omega arith)
  digits-steady (suc a) b (suc n) zero p q = absurd (omega arith)
  digits-steady (suc a) b (suc n) (suc m) p q =
      ap (λ (t : ℕ). t * 2 + digit (suc a % 2) (b % 2))
        (digits-steady (suc a / 2) (b / 2) n m (omega arith) (omega arith))

  lowest_digit :
      (a b : ℕ)
      → a ≢ 0
      → bitwise rest digit a b ≡ bitwise rest digit (a / 2) (b / 2) * 2 + digit (a % 2) (b % 2)
  lowest_digit zero b ne = absurd (ne refl)
  lowest_digit (suc a) b ne =
      ap (λ (t : ℕ). t * 2 + digit (suc a % 2) (b % 2))
        (digits-steady (suc a / 2) (b / 2) a (suc a / 2) (omega arith) (omega arith))

or_zero_left : (b : ℕ) → bit_or 0 b ≡ b
or_zero_left b = bit_or-bitwise 0 b

and_zero_left : (b : ℕ) → bit_and 0 b ≡ 0
and_zero_left b = bit_and-bitwise 0 b

or_digit : (a b : ℕ) → a ≢ 0 → bit_or a b ≡ bit_or (a / 2) (b / 2) * 2 + max (a % 2) (b % 2)
or_digit a b ne =
    rw (bit_or-bitwise a b, bit_or-bitwise (a / 2) (b / 2)) (lowest_digit (λ y. y) max a b ne)

and_digit : (a b : ℕ) → a ≢ 0 → bit_and a b ≡ bit_and (a / 2) (b / 2) * 2 + min (a % 2) (b % 2)
and_digit a b ne =
    rw (bit_and-bitwise a b, bit_and-bitwise (a / 2) (b / 2)) (lowest_digit (λ y. 0) min a b ne)

-- The same without the condition.
pub bit_or_step : (a b : ℕ) → bit_or a b ≡ bit_or (a / 2) (b / 2) * 2 + max (a % 2) (b % 2)
bit_or_step a b = elim (ℕ_discrete a 0) [
  | yes e ↦ rw (e, or_zero_left b, or_zero_left (b / 2)) (omega arith)
  | no ne ↦ or_digit a b ne
]

pub bit_and_step : (a b : ℕ) → bit_and a b ≡ bit_and (a / 2) (b / 2) * 2 + min (a % 2) (b % 2)
bit_and_step a b = elim (ℕ_discrete a 0) [
  | yes e ↦ rw (e, and_zero_left b, and_zero_left (b / 2)) (omega arith)
  | no ne ↦ and_digit a b ne
]

-- Nothing to add, and nothing to keep: by halving `a` until it is 0.
zero_right : (fuel a : ℕ) → a ≤ fuel → (bit_or a 0 ≡ a) × (bit_and a 0 ≡ 0)
zero_right fuel zero small = (refl, refl)
zero_right zero (suc a) small = absurd (omega arith)
zero_right (suc fuel) (suc a) small =
    let half = zero_right fuel (suc a / 2) (omega arith) in
    (omega (arith, or_digit (suc a) 0, half), omega (arith, and_digit (suc a) 0, half))

pub bit_or-zero : (a : ℕ) → bit_or a 0 ≡ a
bit_or-zero a = (zero_right a a (omega arith)).0

pub bit_and-zero : (a : ℕ) → bit_and a 0 ≡ 0
bit_and-zero a = (zero_right a a (omega arith)).1

double : (q k : ℕ) → q * 2 ^ suc k ≡ 2 * (q * 2 ^ k)
double q k = omega (arith, ap (λ (t : ℕ). q * t) (pow-suc 2 k))

-- A number in two fields, `q` above its `k` low bits `r`: what a low mask, a high mask and setting
-- the low bits make of it.
pub bit_and_low_fields : (k q r : ℕ) → r < 2 ^ k → bit_and (q * 2 ^ k + r) (2 ^ k - 1) ≡ r
bit_and_low_fields zero q r fits = rw bit_and-zero (omega arith)
bit_and_low_fields (suc k) q r fits = ground (
  arith,
  bit_and_step (q * 2 ^ suc k + r) (2 ^ suc k - 1),
  double q k,
  pow-suc 2 k,
  bit_and_low_fields k q (r / 2) (omega arith),
)

pub bit_and_high_fields :
    (k q r m : ℕ) → r < 2 ^ k → bit_and (q * 2 ^ k + r) (m * 2 ^ k) ≡ bit_and q m * 2 ^ k
bit_and_high_fields zero q r m fits = ground arith
bit_and_high_fields (suc k) q r m fits = ground (
  arith,
  bit_and_step (q * 2 ^ suc k + r) (m * 2 ^ suc k),
  double q k,
  double m k,
  double (bit_and q m) k,
  bit_and_high_fields k q (r / 2) m (omega arith),
)

pub bit_or_low_fields :
    (k q r : ℕ) → r < 2 ^ k → bit_or (q * 2 ^ k + r) (2 ^ k - 1) ≡ q * 2 ^ k + (2 ^ k - 1)
bit_or_low_fields zero q r fits = rw bit_or-zero (omega arith)
bit_or_low_fields (suc k) q r fits = ground (
  arith,
  bit_or_step (q * 2 ^ suc k + r) (2 ^ suc k - 1),
  double q k,
  pow-suc 2 k,
  one-le-pow k 2,
  bit_or_low_fields k q (r / 2) (omega arith),
)

pub bit_or_high_fields : (k m r : ℕ) → r < 2 ^ k → bit_or r (m * 2 ^ k) ≡ m * 2 ^ k + r
bit_or_high_fields zero m r fits = ground (arith, or_zero_left (m * 1))
bit_or_high_fields (suc k) m r fits =
    ground (
      arith,
      bit_or_step r (m * 2 ^ suc k),
      double m k,
      bit_or_high_fields k m (r / 2) (omega arith),
    )
