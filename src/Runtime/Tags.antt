-- ===== src/Runtime/Tags.antt =====
-- The tags in the 16 high bits of a pointer.
use unikernel_with_region_in.Base.{ℕ, ◌+◌, ◌*◌, ◌%◌, ◌^◌, ◌<◌, ◌≡◌, arith, bit_or}
use native.Mathlib.Nat.{mod-eq_of_lt}
use unikernel_with_region_in.Base.Bits.{bit_and_low_fields, bit_or_high_fields}
use unikernel_with_region_in.Runtime.{ptr_hitag_set_fun, ptr_hitag_clear_fun, ptr_hitag_get_fun}

-- A tag of 16 bits that is set on a pointer of 48 bits is got back, and clearing it gives the pointer.
pub ptr_hitag_lem :
    (ptr tag : ℕ)
    → ptr < 2 ^ 48
    → tag < 2 ^ 16
    → (ptr_hitag_get_fun (ptr_hitag_set_fun ptr tag) ≡ tag)
      × (ptr_hitag_clear_fun (ptr_hitag_set_fun ptr tag) ≡ ptr)
unfolding ptr_hitag_set_fun ptr_hitag_clear_fun ptr_hitag_get_fun
ptr_hitag_lem ptr tag hp ht =
    let joined : bit_or ptr (tag * 2 ^ 48 % 2 ^ 64) ≡ tag * 2 ^ 48 + ptr =
      rw (mod-eq_of_lt {n = tag * 2 ^ 48} {m = 2 ^ 64} (omega arith))
        (bit_or_high_fields 48 tag ptr hp) in
    (omega (arith, joined), rw joined (bit_and_low_fields 48 tag ptr hp))
