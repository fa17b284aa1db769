-- ===== src/Table.antt =====
-- The tables of XenRuntimeMini/src/RuntimeMini/Table.c, on the layout of Table.h: a word with the
-- tagged size and the elements, a word each.
mod Tests
pub mod Init
use unikernel_with_region_in.Base.{ℕ, zero, suc, ◌+◌, ◌*◌, ◌%◌, ◌^◌, bit_or}
use unikernel_with_region_in.State.{Ptr, Cmd, pure, ◌>>=◌, ◌>>◌, Done, set_word}
use unikernel_with_region_in.Region.{alloc}

abbrev pub val_tag_table : ℕ → ℕ
val_tag_table s = bit_or (s * 64 % 2 ^ 64) 7

-- The loop of `word_table_init`.
unfoldable pub fill : ℕ → Ptr → ℕ → Done
unfolding set_word
fill zero p x = pure tt
fill (suc k) p x = do set_word p x; fill k (p + 8) x

module _ (malloc : ℕ → ℕ → Ptr) where
  unfoldable pub word_table0 : Ptr → ℕ → Cmd Ptr
  unfolding alloc set_word
  word_table0 r n = do
    res ← alloc malloc r ((n + 1) % 2 ^ 64)
    set_word res (val_tag_table n)
    pure res

  unfoldable pub word_table_init : Ptr → ℕ → ℕ → Cmd Ptr
  unfolding alloc set_word
  word_table_init r n x = do
    res ← alloc malloc r ((n + 1) % 2 ^ 64)
    set_word res (val_tag_table n)
    fill n (res + 8) x
    pure res
