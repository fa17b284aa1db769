-- ===== src/CharLists/Cells.antt =====
-- Lists in memory.
use unikernel_with_region_in.Base.{
  ℕ, ◌+◌, ◌/◌, ◌%◌, ◌≡◌, ◌≢◌, arith, ◌==◌, ==_of_ne, List, [], ◌∷◌, true, false,
}
use unikernel_with_region_in.Base.Bits.{bit_and_low_fields}
use unikernel_with_region_in.State.{Ptr, null, upd}
use unikernel_with_region_in.CharLists.{is_cons}

-- The list at `p` has the elements `xs`, and none of its words is at `q`.
abbrev pub IsList : (Ptr → ℕ) → Ptr → List ℕ → Type 0
IsList f p [] = p % 4 ≢ 0
IsList f p (x ∷ xs) = (p % 4 ≡ 0) × (p ≢ null) × (f p ≡ x) × IsList f (f (p + 8)) xs

abbrev pub Avoids : (Ptr → ℕ) → Ptr → List ℕ → Ptr → Type 0
Avoids f p [] q = Unit
Avoids f p (x ∷ xs) q = (p ≢ q) × (p + 8 ≢ q) × Avoids f (f (p + 8)) xs q

is_cons_lem : (p : ℕ) → is_cons p ≡ (p % 4 == 0)
unfolding is_cons
is_cons_lem p = ground (arith, bit_and_low_fields 2 (p / 4) (p % 4) (omega arith))

pub is_cons-cell : (p : ℕ) → p % 4 ≡ 0 → is_cons p ≡ true
is_cons-cell p h = ground (arith, is_cons_lem p)

pub is_cons-end : (p : ℕ) → p % 4 ≢ 0 → is_cons p ≡ false
is_cons-end p h = ground (arith, is_cons_lem p)

pub IsList-upd :
    (f : Ptr → ℕ) (p q v : ℕ) (xs : List ℕ)
    → Avoids f p xs q
    → IsList f p xs
    → IsList (upd f q v) p xs
IsList-upd f p q v [] a l = l
IsList-upd f p q v (x ∷ xs) a l = (
  l.0,
  l.1,
  rw (==_of_ne p q a.0) l.2,
  rw (==_of_ne (p + 8) q a.1) (IsList-upd f (f (p + 8)) q v xs a.2 l.3),
)
