-- ===== src/Region/Layout/Status.antt =====
-- The status bits of a region pointer.
use unikernel_with_region_in.Base.{ℕ, ◌+◌, ◌-◌, ◌*◌, ◌/◌, ◌%◌, ◌^◌, ◌<◌, ◌≡◌, ◌==◌, arith}
use unikernel_with_region_in.Base.Bits.{
  bit_and_step, bit_or_step, bit_or-zero, bit_and_low_fields, bit_and_high_fields,
}
use unikernel_with_region_in.Region.Layout.{
  set_infinite_bit, set_atbot_bit, clear_status_bits, is_inf_and_atbot, is_inf, is_atbot,
}

pub clear_status_bits_lem : (x : ℕ) → x < 2 ^ 64 → clear_status_bits x ≡ x / 4 * 4
unfolding clear_status_bits
clear_status_bits_lem x h = ground (
  arith,
  bit_and_high_fields 2 (x / 4) (x % 4) (2 ^ 62 - 1) (omega arith),
  bit_and_low_fields 62 0 (x / 4) (omega arith),
)

pub is_inf_lem : (x : ℕ) → is_inf x ≡ (x % 2 == 1)
unfolding is_inf
is_inf_lem x = ground (arith, bit_and_low_fields 1 (x / 2) (x % 2) (omega arith))

pub is_atbot_lem : (x : ℕ) → is_atbot x ≡ (x / 2 % 2 == 1)
unfolding is_atbot
is_atbot_lem x =
    ground (arith, bit_and_step x 2, bit_and_low_fields 1 (x / 2 / 2) (x / 2 % 2) (omega arith))

pub is_inf_and_atbot_lem : (x : ℕ) → is_inf_and_atbot x ≡ (x % 4 == 3)
unfolding is_inf_and_atbot
is_inf_and_atbot_lem x = ground (arith, bit_and_low_fields 2 (x / 4) (x % 4) (omega arith))

pub set_infinite_bit_lem : (x : ℕ) → set_infinite_bit x ≡ x / 2 * 2 + 1
unfolding set_infinite_bit
set_infinite_bit_lem x = ground (arith, bit_or_step x 1, bit_or-zero (x / 2))

pub set_atbot_bit_lem : (x : ℕ) → set_atbot_bit x ≡ x / 4 * 4 + 2 + x % 2
unfolding set_atbot_bit
set_atbot_bit_lem x =
    ground (arith, bit_or_step x 2, bit_or_step (x / 2) 1, bit_or-zero (x / 2 / 2))
