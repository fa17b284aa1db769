-- ===== src/Region/Layout.antt =====
-- The layout macros of XenRuntimeMini/src/RuntimeMini/Region.h: sizes, the masks that find the page
-- of an allocation pointer, and the status bits of a region pointer. `unsigned long` is 64 bits wide.
pub mod Masks
pub mod Status
use Prim.Native.Nat.{bit_xor}
use unikernel_with_region_in.Base.{ℕ, ◌+◌, ◌-◌, ◌*◌, ◌/◌, ◌%◌, ◌^◌, bit_and, bit_or, Bool, ◌==◌}

abbrev pub region_page_size_bytes : ℕ
region_page_size_bytes = 8 * 1024

abbrev pub header_words_in_region_page : ℕ
header_words_in_region_page = 2

abbrev pub word_size_bytes : ℕ
word_size_bytes = 8

abbrev pub allocatable_words_in_region_page : ℕ
allocatable_words_in_region_page =
    region_page_size_bytes / word_size_bytes - header_words_in_region_page

-- `sizeof(Rp)`: the next pointer, the pointer to the generation and the words of `i`.
abbrev pub sizeof_rp : ℕ
sizeof_rp = 8 + 8 + 8 * allocatable_words_in_region_page

abbrev pub region_page_bag_size : ℕ
region_page_bag_size = 100

abbrev pub bytes_alloc_by_sbrk : ℕ
bytes_alloc_by_sbrk = region_page_bag_size * sizeof_rp

abbrev pub uintptr_max : ℕ
uintptr_max = 18446744073709551615

-- `x - 1`, `x + 1` and `~x` of an `unsigned long`.
abbrev pub pred64 : ℕ → ℕ
pred64 x = (x + 2 ^ 64 - 1) % 2 ^ 64

abbrev pub succ64 : ℕ → ℕ
succ64 x = (x + 1) % 2 ^ 64

abbrev pub complement64 : ℕ → ℕ
complement64 x = uintptr_max - x

unfoldable pub is_rp_aligned : ℕ → Bool
is_rp_aligned rp = bit_and rp (sizeof_rp - 1) == 0

-- The first word behind the page that `a` points into or to the end of.
unfoldable pub rp_boundary : ℕ → ℕ
rp_boundary a = succ64 (bit_or (pred64 a) (sizeof_rp - 1))

-- The start of that page; the argument is the field `a` of a generation.
unfoldable pub last_rp_of_gen : ℕ → ℕ
last_rp_of_gen a = bit_and (pred64 a) (complement64 (sizeof_rp - 1))

unfoldable pub set_infinite_bit : ℕ → ℕ
set_infinite_bit x = bit_or x 0x1

unfoldable pub clear_infinite_bit : ℕ → ℕ
clear_infinite_bit x = bit_and x (bit_xor uintptr_max 0x1)

unfoldable pub set_atbot_bit : ℕ → ℕ
set_atbot_bit x = bit_or x 0x2

unfoldable pub clear_atbot_bit : ℕ → ℕ
clear_atbot_bit x = bit_and x (bit_xor uintptr_max 0x2)

unfoldable pub set_status_bits : ℕ → ℕ
set_status_bits x = bit_or x 0x3

unfoldable pub clear_status_bits : ℕ → ℕ
clear_status_bits x = bit_and x (bit_xor uintptr_max 0x3)

unfoldable pub is_inf_and_atbot : ℕ → Bool
is_inf_and_atbot x = bit_and x 0x3 == 0x3

unfoldable pub is_inf : ℕ → Bool
is_inf x = bit_and x 0x1 == 0x1

unfoldable pub is_atbot : ℕ → Bool
is_atbot x = bit_and x 0x2 == 0x2
