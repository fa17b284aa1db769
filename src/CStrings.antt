-- ===== src/CStrings.antt =====
-- The conversions between ML strings and C strings: convertStringToC and convertStringToML of
-- XenRuntimeMini/src/RuntimeMini/String.c, convertStringToC of the Unix runtime, and mkSMLMinus and
-- countChar of Math.c. A loop up to the 0 of a C string takes fuel. `strlen` is the C library's.
pub mod Convert
pub mod Copying
pub mod Counting
pub mod Minus
pub mod Text
mod Tests
use unikernel_with_region_in.Base.{
  ℕ, zero, suc, ◌+◌, ◌-◌, ◌%◌, ◌^◌, Bool, true, false, ◌==◌, ltb, Option, none, some, if◌then◌else◌,
}
use unikernel_with_region_in.State.{
  Ptr, State, Cmd, pure, out_of_fuel, ◌>>=◌, ◌>>◌, Done, load, set_byte,
}
use unikernel_with_region_in.Math.{Exn, given}
use unikernel_with_region_in.Strings.{size_string, data_of_string, alloc_string}

-- `while (*p != '\0') *q++ = *p++; *q = '\0';`
unfoldable pub copy_text : ℕ → Ptr → Ptr → Done
copy_text zero p q = λ _. out_of_fuel
copy_text (suc k) p q = do
  c ← load State.byte p
  if c == 0 then set_byte q 0 else (do set_byte q c; copy_text k (p + 1) (q + 1))

-- `sz > buflen-1`, where `buflen-1` wraps.
abbrev pub does_not_fit : ℕ → ℕ → Bool
does_not_fit sz buflen = ltb ((buflen + 2 ^ 64 - 1) % 2 ^ 64) sz

-- On Xen a string that does not fit is reported, by printing, and then copied.
unfoldable pub convert_string_to_c : ℕ → Ptr → Ptr → ℕ → Done
convert_string_to_c fuel ml_str buf buflen = do
  sz ← size_string ml_str
  (if does_not_fit sz buflen then pure tt else pure tt)
  copy_text fuel (data_of_string ml_str) buf

-- On Unix it raises the exception that is passed in, and `raise_exn` does not return.
unfoldable pub convert_string_to_c_or_raise : ℕ → Ptr → Ptr → ℕ → Cmd (Option Exn)
convert_string_to_c_or_raise fuel ml_str buf buflen = do
  sz ← size_string ml_str
  if does_not_fit sz buflen
      then pure (some given)
      else (do copy_text fuel (data_of_string ml_str) buf; pure none)

unfoldable pub convert_string_to_ml : (ℕ → ℕ → Ptr) → (Ptr → Cmd ℕ) → ℕ → Ptr → Ptr → Cmd Ptr
convert_string_to_ml malloc strlen fuel r c_str = do
  n ← strlen c_str
  res ← alloc_string malloc r n
  copy_text fuel c_str (data_of_string res)
  pure res

-- What mkSMLMinus writes for a character.
abbrev pub sml_char : ℕ → ℕ
sml_char c = if c == b'-' then b'~' else if c == b'e' then b'E' else c

-- Its loop: `p` reads and `q` writes.
unfoldable pub minus_from : ℕ → Ptr → Ptr → Done
minus_from zero p q = λ _. out_of_fuel
minus_from (suc k) p q = do
  c ← load State.byte p
  if c == 0 then set_byte q 0 else (do
    (if c == b'+' then pure tt else set_byte q (sml_char c))
    minus_from k (p + 1) (if c == b'+' then q else q + 1))

unfoldable pub mk_sml_minus : ℕ → Ptr → Done
mk_sml_minus fuel s = minus_from fuel s s

-- The loop of countChar.
unfoldable pub count_from : ℕ → ℕ → Ptr → ℕ → Cmd ℕ
count_from zero c p count = λ _. out_of_fuel
count_from (suc k) c p count = do
  d ← load State.byte p
  if d == 0 then pure count else count_from k c (p + 1) (if d == c then count + 1 else count)

unfoldable pub count_char : ℕ → ℕ → Ptr → Cmd ℕ
count_char fuel c s = count_from fuel c s 0
