-- ===== src/Floats/Tests.antt =====
-- The theorems on the conversions of doubles at concrete doubles, and the borders.
use unikernel_with_region_in.Base.{ℕ, ◌≡◌, refl, inl, arith, length}
use unikernel_with_region_in.Base.Int.{negsuc, fdiv, tdiv}
use unikernel_with_region_in.State.{Ptr, State, ok, upd, load, set_a}
use unikernel_with_region_in.Math.{value, raised, undefined, overflow}
use unikernel_with_region_in.Floats.{floor_float, trunc_float, ceil_float}
use unikernel_with_region_in.Floats.Value.{decode}
use unikernel_with_region_in.Floats.Whole.{whole_float_lem}
use unikernel_with_region_in.Floats.Bytes.{
  sml_real_to_bytes, sml_bytes_to_real, with_word, real_bytes_lem,
}
use unikernel_with_region_in.Region.{alloc}
use unikernel_with_region_in.Strings.{string_words}
use unikernel_with_region_in.Strings.Compare.{text}
use unikernel_with_region_in.Strings.Convert.{converted}
use unikernel_with_region_in.Example.{nothing, at, memory, no_block}
use unikernel_with_region_in.Region.Layout.{clear_status_bits, rp_boundary}

-- -1.5, 2^63 and -2^63.
abbrev words : Ptr → ℕ
words = at 1000 0xBFF8000000000000 (at 2000 0x43E0000000000000 (at 3000 0xC3E0000000000000 nothing))

whole_float_lem_example :
    let s = memory words nothing in
    (floor_float 1000 s ≡ ok (value (negsuc 1)) s)
    × (trunc_float 1000 s ≡ ok (value (negsuc 0)) s)
    × (ceil_float 1000 s ≡ ok (value (negsuc 0)) s)
unfolding decode fdiv tdiv
whole_float_lem_example = whole_float_lem 1000 (memory words nothing) (omega arith)

-- 2^63 is not caught.
ceil_above : ceil_float 2000 (memory words nothing) ≡ ok undefined (memory words nothing)
unfolding decode fdiv tdiv
ceil_above = (whole_float_lem 2000 (memory words nothing) (omega arith)).2

-- -2^63 fits and is refused.
ceil_below : ceil_float 3000 (memory words nothing) ≡ ok (raised overflow) (memory words nothing)
unfolding decode fdiv tdiv
ceil_below = (whole_float_lem 3000 (memory words nothing) (omega arith)).2

trunc_below : trunc_float 3000 (memory words nothing) ≡ ok (raised overflow) (memory words nothing)
unfolding decode fdiv tdiv
trunc_below = (whole_float_lem 3000 (memory words nothing) (omega arith)).1

-- A region with room for three words.
abbrev reals : State
reals = record (memory words nothing) { gen_a = at 64 16360 nothing }

-- The bytes of -1.5 stand at 5000.
abbrev buffered : State
buffered = with_word reals 0xBFF8000000000000 5000

abbrev taken : State
taken = record buffered { gen_a = at 64 16384 buffered.gen_a }

alloc_runs : alloc no_block 64 (string_words 8) buffered ≡ ok 16360 taken
unfolding alloc string_words load set_a clear_status_bits rp_boundary
alloc_runs = refl

real_bytes_lem_example :
    let after = converted buffered taken 16360 8 5000 in
    (sml_real_to_bytes no_block 64 5000 1000 reals ≡ ok 16360 after)
    × (length (text after 16360) ≡ 8)
    × (sml_bytes_to_real 6000 16360 after
        ≡ ok 6000 (record after { word = upd after.word 6000 0xBFF8000000000000 }))
real_bytes_lem_example =
    real_bytes_lem no_block 64 5000 1000 6000 16360 reals taken (omega arith) (omega arith)
      (omega arith) (omega arith) (omega arith) (inl (omega arith)) alloc_runs
