-- ===== src/Strings.antt =====
-- The string primitives of XenRuntimeMini/src/RuntimeMini/String.c, on the layout of String.h: a word
-- with the tagged size, the characters, and a 0. Lists are laid out as in List.h.
pub mod Compare
pub mod Concat
pub mod Convert
pub mod Copy
pub mod Live
mod Tests
use unikernel_with_region_in.Base.{
  ℕ, zero, suc, ◌+◌, ◌-◌, ◌*◌, ◌/◌, ◌%◌, ◌^◌, Bool, true, false, not, ◌==◌, ltb, leb, if◌then◌else◌,
  bit_or, bit_and, Option, none, some,
}
use unikernel_with_region_in.Base.Int.{ℤ, pos, negsuc, ltb_ℤ}
use unikernel_with_region_in.State.{
  Ptr, null, State, Run, ok, out_of_fuel, Cmd, pure, ◌>>=◌, ◌>>◌, Done, load, set_word, set_byte,
}
use unikernel_with_region_in.Region.{alloc, reset_region}
use unikernel_with_region_in.Region.Layout.{is_inf_and_atbot}

abbrev pub ml_true : ℕ
ml_true = 3

abbrev pub ml_false : ℕ
ml_false = 1

abbrev pub nil : ℕ
nil = 3

abbrev pub ml_bool : Bool → ℕ
ml_bool b = if b then ml_true else ml_false

-- A tag of a string of `s` bytes.
abbrev pub val_tag_string : ℕ → ℕ
val_tag_string s = bit_or (s * 64 % 2 ^ 64) 1

unfoldable pub size_string : Ptr → Cmd ℕ
unfolding load
size_string str = do w ← load State.word str; pure (w / 64)

-- The first character.
abbrev pub data_of_string : Ptr → Ptr
data_of_string str = str + 8

-- The loop of `mystrcmp`; `none` is its end without a difference.
unfoldable pub cmp_from : ℕ → Ptr → Ptr → Cmd (Option ℤ)
cmp_from zero p1 p2 = pure none
cmp_from (suc k) p1 p2 = do
  c1 ← load State.byte p1
  c2 ← load State.byte p2
  if ltb c1 c2
      then pure (some (negsuc 0))
      else (if ltb c2 c1 then pure (some (pos 1)) else cmp_from k (p1 + 1) (p2 + 1))

-- What the lengths decide.
unfoldable pub by_length : ℕ → ℕ → ℤ
by_length l1 l2 = if ltb l1 l2 then negsuc 0 else if ltb l2 l1 then pos 1 else pos 0

abbrev pub or_else : Option ℤ → ℤ → ℤ
or_else none d = d
or_else (some c) d = c

abbrev pub shorter : ℕ → ℕ → ℕ
shorter l1 l2 = if ltb l1 l2 then l1 else l2

unfoldable pub mystrcmp : Ptr → Ptr → Cmd ℤ
mystrcmp s1 s2 = if s1 == s2 then pure (pos 0) else (do
  l1 ← size_string s1
  l2 ← size_string s2
  r ← cmp_from (shorter l1 l2) (data_of_string s1) (data_of_string s2)
  pure (or_else r (by_length l1 l2)))

unfoldable pub less_string_ml : Ptr → Ptr → Cmd ℕ
less_string_ml s1 s2 = do c ← mystrcmp s1 s2; pure (ml_bool (ltb_ℤ c (pos 0)))

unfoldable pub lesseq_string_ml : Ptr → Ptr → Cmd ℕ
lesseq_string_ml s1 s2 = do c ← mystrcmp s1 s2; pure (ml_bool (not (ltb_ℤ (pos 0) c)))

unfoldable pub greater_string_ml : Ptr → Ptr → Cmd ℕ
greater_string_ml s1 s2 = do c ← mystrcmp s1 s2; pure (ml_bool (ltb_ℤ (pos 0) c))

unfoldable pub greatereq_string_ml : Ptr → Ptr → Cmd ℕ
greatereq_string_ml s1 s2 = do c ← mystrcmp s1 s2; pure (ml_bool (not (ltb_ℤ c (pos 0))))

-- The loop of `equalStringML`.
unfoldable pub eq_from : ℕ → Ptr → Ptr → Cmd Bool
eq_from zero p1 p2 = pure true
eq_from (suc k) p1 p2 = do
  c1 ← load State.byte p1
  c2 ← load State.byte p2
  if c1 == c2 then eq_from k (p1 + 1) (p2 + 1) else pure false

unfoldable pub equal_string_ml : Ptr → Ptr → Cmd ℕ
equal_string_ml s1 s2 = if s1 == s2 then pure ml_true else (do
  l1 ← size_string s1
  l2 ← size_string s2
  if l1 == l2
      then (do b ← eq_from l1 (data_of_string s1) (data_of_string s2); pure (ml_bool b))
      else pure ml_false)

-- `*q++ = *p++`, `k` times.
unfoldable pub copy : ℕ → Ptr → Ptr → Done
unfolding set_byte load
copy zero p q = pure tt
copy (suc k) p q = do c ← load State.byte p; set_byte q c; copy k (p + 1) (q + 1)

-- The words of a string of `size` bytes: one for the tag, and those for the characters and a 0.
unfoldable pub string_words : ℕ → ℕ
string_words size =
    let size0 = (size + 1) % 2 ^ 64 in 1 + (if size0 % 8 == 0 then size0 / 8 else size0 / 8 + 1)

-- A `char`, which has a sign, as a `size_t`.
abbrev pub char_word : ℕ → ℕ
char_word c = if ltb c 128 then c else c + 2 ^ 64 - 256

module _ (malloc : ℕ → ℕ → Ptr) where
  unfoldable pub alloc_string : Ptr → ℕ → Cmd Ptr
  unfolding set_word alloc
  alloc_string r size = do
    sd ← alloc malloc r (string_words size)
    set_word sd (val_tag_string size)
    pure sd

  -- It may reset the region first; `fuel` bounds the large objects of the region.
  unfoldable pub alloc_string_ml : ℕ → Ptr → ℕ → Cmd Ptr
  unfolding alloc_string
  alloc_string_ml fuel r size = do
    (if is_inf_and_atbot r then (do reset_region fuel r; pure tt) else pure tt)
    alloc_string r size

  unfoldable pub alloc_string_c : Ptr → ℕ → Cmd Ptr
  unfolding alloc_string
  alloc_string_c r size = alloc_string r size

  unfoldable pub convert_bin_string_to_ml : Ptr → ℕ → Ptr → Cmd Ptr
  unfolding alloc_string copy set_byte
  convert_bin_string_to_ml r l c_str = do
    res ← alloc_string r l
    copy l c_str (data_of_string res)
    set_byte (data_of_string res + l) 0
    pure res

  -- The copying does not write the sizes that the loops read again and again.
  unfoldable pub concat_string_ml : Ptr → Ptr → Ptr → Cmd Ptr
  unfolding alloc_string copy set_byte
  concat_string_ml r str1 str2 = do
    l1 ← size_string str1
    l2 ← size_string str2
    res ← alloc_string r ((l1 + l2) % 2 ^ 64)
    n1 ← size_string str1
    copy n1 (data_of_string str1) (data_of_string res)
    n2 ← size_string str2
    copy n2 (data_of_string str2) (data_of_string res + n1)
    set_byte (data_of_string res + n1 + n2) 0
    pure res

  -- The loop of `explodeStringML`: `pair` is the last cell that was made.
  unfoldable pub explode_from : ℕ → Ptr → Ptr → Ptr → Done
  unfolding alloc set_word load
  explode_from zero r p pair = set_word (pair + 8) nil
  explode_from (suc k) r p pair = do
    tpair ← alloc malloc r 2
    c ← load State.byte p
    set_word tpair (char_word c)
    set_word (pair + 8) tpair
    explode_from k r (p + 1) tpair

  unfoldable pub explode_string_ml : Ptr → Ptr → Cmd Ptr
  unfolding explode_from
  explode_string_ml r str = do
    sz ← size_string str
    if sz == 0 then pure nil else (do
      pair ← alloc malloc r 2
      c ← load State.byte (data_of_string str)
      set_word pair (char_word c)
      explode_from (sz - 1) r (data_of_string str) pair
      pure pair)
