-- ===== src/CharLists.antt =====
-- The primitives between ML strings and ML lists: implodeCharsML, implodeStringML and exnNameML of
-- XenRuntimeMini/src/RuntimeMini/String.c. A list is laid out as List.h says: a cell is a word with
-- the element and a word with the rest, and a pointer to a cell ends in two bits 0. A loop along a
-- list takes fuel.
pub mod Cells
pub mod Growing
pub mod Explode
pub mod Implode
pub mod Joining
mod Tests
use unikernel_with_region_in.Base.{ℕ, zero, suc, ◌+◌, ◌%◌, ◌^◌, Bool, ◌==◌, bit_and, if◌then◌else◌}
use unikernel_with_region_in.State.{
  Ptr, State, Cmd, pure, out_of_fuel, ◌>>=◌, ◌>>◌, Done, load, set_byte,
}
use unikernel_with_region_in.Region.{reset_region}
use unikernel_with_region_in.Region.Layout.{is_inf_and_atbot}
use unikernel_with_region_in.Strings.{size_string, data_of_string, alloc_string, copy}
use unikernel_with_region_in.CStrings.{convert_string_to_ml}

unfoldable pub is_cons : ℕ → Bool
is_cons x = bit_and x 3 == 0

abbrev pub hd : Ptr → Cmd ℕ
hd x = load State.word x

abbrev pub tl : Ptr → Cmd ℕ
tl x = load State.word (x + 8)

-- The first loop of implodeCharsML.
unfoldable pub list_length : ℕ → Ptr → ℕ → Cmd ℕ
list_length zero ys n = λ _. out_of_fuel
list_length (suc k) ys n =
    if is_cons ys then (do ys' ← tl ys; list_length k ys' ((n + 1) % 2 ^ 64)) else pure n

-- Its second loop, and the 0 behind it.
unfoldable pub store_chars : ℕ → Ptr → Ptr → Done
store_chars zero ys p = λ _. out_of_fuel
store_chars (suc k) ys p =
    if is_cons ys
    then (do c ← hd ys; set_byte p (c % 256); ys' ← tl ys; store_chars k ys' (p + 1))
    else set_byte p 0

-- The loops of implodeStringML.
unfoldable pub sum_sizes : ℕ → Ptr → ℕ → Cmd ℕ
sum_sizes zero ys sz = λ _. out_of_fuel
sum_sizes (suc k) ys sz =
    if is_cons ys
    then (do str ← hd ys; n ← size_string str; ys' ← tl ys; sum_sizes k ys' ((sz + n) % 2 ^ 64))
    else pure sz

unfoldable pub store_strings : ℕ → Ptr → Ptr → Done
store_strings zero ys p = λ _. out_of_fuel
store_strings (suc k) ys p =
    if is_cons ys
    then (do
      str ← hd ys
      n ← size_string str
      copy n (data_of_string str) p
      ys' ← tl ys
      store_strings k ys' (p + n))
    else set_byte p 0

module _ (malloc : ℕ → ℕ → Ptr) where
  -- It may reset the region first; `lobjs` bounds the large objects of the region.
  unfoldable pub implode_chars_ml : ℕ → ℕ → Ptr → Ptr → Cmd Ptr
  implode_chars_ml lobjs fuel r xs = do
    (if is_inf_and_atbot r then (do reset_region lobjs r; pure tt) else pure tt)
    n ← list_length fuel xs 0
    res ← alloc_string malloc r n
    store_chars fuel xs (data_of_string res)
    pure res

  unfoldable pub implode_string_ml : ℕ → Ptr → Ptr → Cmd Ptr
  implode_string_ml fuel r xs = do
    sz ← sum_sizes fuel xs 0
    res ← alloc_string malloc r sz
    store_strings fuel xs (data_of_string res)
    pure res

  -- The name stands behind the number of the exception.
  unfoldable pub exn_name_ml : (Ptr → Cmd ℕ) → ℕ → Ptr → Ptr → Cmd Ptr
  exn_name_ml strlen fuel r e = do
    exn ← load State.word e
    ml_s ← load State.word (exn + 8)
    convert_string_to_ml malloc strlen fuel r (data_of_string ml_s)
