-- ===== src/Floats/Print.antt =====
-- stringOfFloat and generalStringOfFloat of XenRuntimeMini/src/RuntimeMini/Math.c. The functions of
-- the C library that write and compare C strings are a parameter, as is the arithmetic of doubles.
use unikernel_with_region_in.Base.{ℕ, ◌+◌, ◌%◌, ◌^◌, Bool, ◌&&◌, ◌==◌, if◌then◌else◌}
use unikernel_with_region_in.Base.Int.{ℤ}
use unikernel_with_region_in.State.{
  Ptr, State, Cmd, pure, ◌>>=◌, ◌>>◌, Done, load, malloc_with, free,
}
use unikernel_with_region_in.CStrings.{mk_sml_minus, count_char, convert_string_to_ml}

-- The C library.
pub record Printing : Type 0 where
  pub floor : ℕ → ℕ
  pub minus : ℕ → ℕ → ℕ
  pub times : ℕ → ℕ → ℕ
  -- `(int) d`
  pub to_int : ℕ → ℤ
  pub strlen : Ptr → Cmd ℕ
  -- snprintf(buf, 64, "%d.%d", a, b)
  pub print_parts : Ptr → ℤ → ℤ → Done
  -- snprintf(NULL, 0, format, d) and snprintf(buf, size, format, d)
  pub format_length : Ptr → ℕ → Cmd ℕ
  pub print_format : Ptr → ℕ → Ptr → ℕ → Done
  -- strcat(buf, ".0")
  pub append_point_zero : Ptr → Done
  -- strcmp(buf, "~nan") == 0
  pub is_minus_nan : Ptr → Cmd Bool
  -- the string literal "nan"
  pub nan_text : Ptr

-- 10000000 as a double.
abbrev pub ten_million : ℕ
ten_million = 0x416312D000000000

module _ (malloc : ℕ → ℕ → Ptr) (lib : Printing) (fuel : ℕ) where
  -- What both functions end with.
  unfoldable pub printed_string : Ptr → Ptr → Cmd Ptr
  printed_string r buf = do
    minus_nan ← lib.is_minus_nan buf
    convert_string_to_ml malloc lib.strlen fuel r (if minus_nan then lib.nan_text else buf)

  -- `buf` is the buffer on the stack.
  unfoldable pub string_of_float : Ptr → Ptr → Ptr → Cmd Ptr
  string_of_float r buf arg = do
    d ← load State.word arg
    let whole = lib.floor d
    lib.print_parts buf (lib.to_int whole) (lib.to_int (lib.times (lib.minus d whole) ten_million))
    mk_sml_minus fuel buf
    points ← count_char fuel b'.' buf
    exponents ← count_char fuel b'E' buf
    nans ← count_char fuel b'n' buf
    (if points == 0 && (exponents == 0 && nans == 0) then lib.append_point_zero buf else pure tt)
    printed_string r buf

  unfoldable pub general_string_of_float : Ptr → Ptr → Ptr → Cmd Ptr
  unfolding malloc_with free
  general_string_of_float r format f = do
    d ← load State.word f
    n ← lib.format_length (format + 8) d
    let size = (n + 1) % 2 ^ 64
    buf ← malloc_with malloc size
    lib.print_format buf size (format + 8) d
    mk_sml_minus fuel buf
    s ← printed_string r buf
    free buf
    pure s
