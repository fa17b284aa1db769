-- ===== src/Region/Layout/Masks.antt =====
-- The masks of Region.h find the page of an allocation pointer.
use unikernel_with_region_in.Base.{ℕ, ◌+◌, ◌-◌, ◌/◌, ◌%◌, ◌^◌, ◌≤◌, ◌<◌, ◌≡◌, ◌≢◌, ◌==◌, arith}
use unikernel_with_region_in.Base.Bits.{bit_and_low_fields, bit_and_high_fields, bit_or_low_fields}
use unikernel_with_region_in.Region.Layout.{sizeof_rp, is_rp_aligned, rp_boundary, last_rp_of_gen}

-- The start of a region page: aligned, not NULL, and with its end inside the address space.
pub record IsPage (p : ℕ) : Type 0 where
  pub aligned : p % sizeof_rp ≡ 0
  pub ne_null : p ≢ 0
  pub fits : p + sizeof_rp < 2 ^ 64

-- `a` may be the allocation pointer of a generation whose last page is `p`.
pub record InPage (p a : ℕ) : Type 0 where
  pub from_data : p + 16 ≤ a
  pub to_end : a ≤ p + sizeof_rp

pub is_rp_aligned-mod : (p : ℕ) → is_rp_aligned p ≡ (p % sizeof_rp == 0)
unfolding is_rp_aligned
is_rp_aligned-mod p =
    ground (arith, bit_and_low_fields 13 (p / sizeof_rp) (p % sizeof_rp) (omega arith))

module _ {p a : ℕ} (is : IsPage p) (at : InPage p a) where
  -- Every allocation pointer of a page, the one at its very end included, has the end of the page
  -- for its boundary.
  pub rp_boundary_lem : rp_boundary a ≡ p + sizeof_rp
  unfolding rp_boundary
  rp_boundary_lem = ground (arith, bit_or_low_fields 13 (p / sizeof_rp) (a - 1 - p) (omega arith))

  -- `last_rp_of_gen` finds the start of the page.
  pub last_rp_of_gen_lem : last_rp_of_gen a ≡ p
  unfolding last_rp_of_gen
  last_rp_of_gen_lem = ground (
    arith,
    bit_and_high_fields 13 (p / sizeof_rp) (a - 1 - p) (2 ^ 51 - 1) (omega arith),
    bit_and_low_fields 51 0 (p / sizeof_rp) (omega arith),
  )
