-- ===== src/Runtime/Tests.antt =====
-- The theorems on the runtime at concrete values.
use unikernel_with_region_in.Base.{ℕ, ◌≡◌, arith, [], ◌∷◌}
use unikernel_with_region_in.State.{ok}
use unikernel_with_region_in.Runtime.{
  at_start, sml_set_fail_number, uncaught_exception, ptr_hitag_set_fun, ptr_hitag_clear_fun,
  ptr_hitag_get_fun,
}
use unikernel_with_region_in.Runtime.Exceptions.{registered, uncaught_exception_lem}
use unikernel_with_region_in.Runtime.Tags.{ptr_hitag_lem}
use unikernel_with_region_in.Example.{nothing, at, memory}
use unikernel_with_region_in.Base.{refl, List}
use unikernel_with_region_in.Base.Int.{ℤ, pos, negsuc}
use unikernel_with_region_in.State.{Ptr, State}
use unikernel_with_region_in.Region.Layout.{clear_status_bits}
use unikernel_with_region_in.Region.View.{Desc}
use unikernel_with_region_in.Region.Supply.{IsSupply}
use unikernel_with_region_in.Base.{◌*◌, inl, ◌+◌}
use unikernel_with_region_in.Region.Programs.{
  Call, enters, allocates, leaves, IsBracketed, done, enter_then, allocate_then, leave_then, run,
  pages_needed,
}
use unikernel_with_region_in.Region.Programs.Live.{Block}
use unikernel_with_region_in.Region.Programs.Ready.{IsReady}
use unikernel_with_region_in.Runtime.{main, max_int_d, min_int_d}
use unikernel_with_region_in.Runtime.Boot.{main_lem}

-- Fail has the number 5 and SysErr 6; an exception at 3000 carries a string at 4000.
abbrev words : ℕ → ℕ
words = at 1000 1100 (at 1100 5 (at 2000 2100 (at 2100 6 (at 3008 4000 nothing))))

uncaught_exception_lem_example :
    let s = memory words nothing in
    let g1 = record at_start { fail_number = 5 } in
    let g2 = registered s 1000 2000 at_start in
    (sml_set_fail_number 1000 1 at_start s ≡ ok g1 s)
    × (sml_set_fail_number 2000 2 g1 s ≡ ok g2 s)
    × (uncaught_exception 5 3000 g2 s ≡ ok (record g2 { uncaught_exnname = 5 }, 4008 ∷ []) s)
uncaught_exception_lem_example =
    uncaught_exception_lem 1000 2000 5 3000 at_start (memory words nothing) (omega arith)
      (omega arith) (omega arith) (omega arith) (omega arith) (omega arith)

tag_of_a_pointer :
    (ptr_hitag_get_fun (ptr_hitag_set_fun 4096 7) ≡ 7)
    × (ptr_hitag_clear_fun (ptr_hitag_set_fun 4096 7) ≡ 4096)
tag_of_a_pointer = ptr_hitag_lem 4096 7 (omega arith) (omega arith)

abbrev limits_only : ℤ → ℕ
limits_only (pos n) = max_int_d
limits_only (negsuc n) = min_int_d

-- The context, and then chunks.
abbrev blocks : ℕ → ℕ → Ptr
blocks i n = 1000000 * (i + 1)

two_chunks : IsSupply blocks 2 1 []
two_chunks = record {
  ne_null = λ i l. omega arith;
  fits = λ i l. omega (arith, l);
  apart = λ i j l m. inl (omega (arith, l));
  used = λ i p l c. absurd (c refl);
}

abbrev bare : State
bare = record (memory nothing nothing) { topregion = 500; global_freelist = 0 }

abbrev calls : List Call
calls = enters 128 ∷ allocates 129 3 ∷ leaves ∷ []

calls-IsBracketed : IsBracketed [] calls
unfolding clear_status_bits
calls-IsBracketed =
    enter_then 128 128 refl (omega arith) refl (omega arith) refl
      (allocate_then 129 3 (omega arith) (omega arith) (leave_then 128 done))

main_lem_example :
    (bs' : List Block) × (s' : State) × (fl' : List Ptr) × (ds' : List Desc) × (main limits_only
        blocks
        (λ _. run blocks 1 calls [])
        bare
      ≡ ok bs' s')
    × IsReady 1 s' fl' ds' bs'
unfolding pages_needed
main_lem_example =
    main_lem limits_only blocks 1 2 calls bare refl refl refl (omega arith) two_chunks
      calls-IsBracketed (omega arith) (omega arith)
