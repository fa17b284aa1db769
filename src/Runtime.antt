-- ===== src/Runtime.antt =====
-- XenRuntimeMini/src/RuntimeMini/Runtime.c: the numbers of the exceptions Fail and SysErr, the handler
-- of an uncaught exception, the start and the exit of a program, and the tags in the high bits of
-- pointers (Tagging.h). The printed text is the list of the ML strings that are printed; the words
-- around them are left out.
pub mod Boot
pub mod Exceptions
pub mod Tags
mod Tests
use unikernel_with_region_in.Base.{
  ℕ, not, ◌||◌, ◌+◌, ◌-◌, ◌*◌, ◌/◌, ◌%◌, ◌^◌, ◌==◌, List, [], ◌∷◌, ◌++◌, if◌then◌else◌, bit_or,
  bit_and,
}
use unikernel_with_region_in.Base.Int.{ℤ, pos, negsuc}
use unikernel_with_region_in.State.{
  died, store, malloc_with, Ptr, null, State, Cmd, pure, ◌>>=◌, ◌>>◌, load,
}
use unikernel_with_region_in.Strings.{data_of_string}

-- The global variables of the file and the field that it sets in the context.
pub record Globals : Type 0 where
  pub fail_number : ℕ
  pub syserr_number : ℕ
  pub uncaught_exnname : ℕ

abbrev pub size_max : ℕ
size_max = 18446744073709551615

-- The initial values.
abbrev pub at_start : Globals
at_start = record { fail_number = size_max; syserr_number = size_max; uncaught_exnname = 0 }

unfoldable pub sml_set_fail_number : Ptr → ℕ → Globals → Cmd Globals
sml_set_fail_number ep i g = do
  e ← load State.word ep
  if i == 1
      then (do n ← load State.word e; pure (record g { fail_number = n }))
      else if i == 2
      then (do n ← load State.word e; pure (record g { syserr_number = n }))
      else pure g

-- What `uncaught_exception` prints before it loops for ever, and the variables then.
unfoldable pub uncaught_exception : ℕ → Ptr → Globals → Cmd (Globals × List Ptr)
uncaught_exception n ep g = do
  failure ←
      (if n == g.fail_number
        then (do a ← load State.word (ep + 8); pure (data_of_string a ∷ []))
        else pure [])
  syserr ←
      (if n == g.syserr_number
        then (do a ← load State.word (ep + 8); b ← load State.word a; pure (data_of_string b ∷ []))
        else pure [])
  pure (record g { uncaught_exnname = n }, failure ++ syserr)

-- On Xen it returns to the caller.
unfoldable pub terminate_ml : ℕ → ℕ
terminate_ml status = status

unfoldable pub ptr_hitag_set_fun : ℕ → ℕ → ℕ
ptr_hitag_set_fun ptr tag = bit_or ptr (tag * 2 ^ 48 % 2 ^ 64)

unfoldable pub ptr_hitag_clear_fun : ℕ → ℕ
ptr_hitag_clear_fun ptr = bit_and ptr 0xFFFFFFFFFFFF

-- The result is a `uint16_t`.
unfoldable pub ptr_hitag_get_fun : ℕ → ℕ
ptr_hitag_get_fun ptr = ptr / 2 ^ 48 % 2 ^ 16

-- Max_Int, Min_Int, and their doubles Max_Int_d and Min_Int_d.
abbrev pub max_int : ℤ
max_int = pos 9223372036854775807

abbrev pub min_int : ℤ
min_int = negsuc 9223372036854775807

abbrev pub max_int_d : ℕ
max_int_d = 0x43E0000000000000

abbrev pub min_int_d : ℕ
min_int_d = 0xC3E0000000000000

-- `sizeof(context)`
abbrev pub sizeof_context : ℕ
sizeof_context = 24

-- `main` up to its endless loop: `code` is the compiled program, which is given the context, and
-- `to_double` the conversion of a `long int`. The top region of the context is in the memory; its
-- handler of exceptions belongs to the compiled code.
unfoldable pub main : {A : Type 0} → (ℤ → ℕ) → (ℕ → ℕ → Ptr) → (Ptr → Cmd A) → Cmd A
unfolding malloc_with
main to_double malloc code =
    if not (to_double max_int == max_int_d) || not (to_double min_int == min_int_d)
    then (λ _. died)
    else (do
      ctx ← malloc_with malloc sizeof_context
      store ctx (λ s. record s { topregion = null })
      code ctx)
