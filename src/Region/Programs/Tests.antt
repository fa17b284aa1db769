-- ===== src/Region/Programs/Tests.antt =====
-- A program on a memory with five free pages.
use unikernel_with_region_in.Base.{
  ◌+◌, ◌*◌, inl, ℕ, refl, List, [], ◌∷◌, arith, ◌==◌, if◌then◌else◌,
}
use unikernel_with_region_in.State.{Ptr, null, State}
use unikernel_with_region_in.Region.Layout.{clear_status_bits}
use unikernel_with_region_in.Region.Supply.{IsSupply}
use unikernel_with_region_in.Region.Programs.{
  Call, enters, allocates, resets, leaves, unwinds, addrs_left, unwind_then, IsBracketed, done,
  enter_then, allocate_then, reset_then, leave_then, pages_needed,
}
use unikernel_with_region_in.Region.Programs.Ready.{IsReady}
use unikernel_with_region_in.Region.Programs.Safety.{Runs, programs_lem}

abbrev nothing : Ptr → ℕ
nothing q = 0

-- The pages at 8192, 16384, 24576, 32768 and 40960 are free.
abbrev links : Ptr → Ptr
links q =
    if q == 8192
    then 16384
    else if q == 16384
    then 24576
    else if q == 24576
    then 32768
    else if q == 32768
    then 40960
    else 0

abbrev five_pages : State
five_pages = record {
  rp_n = links;
  rp_gen = nothing;
  gen_a = nothing;
  gen_fp = nothing;
  ro_p = nothing;
  ro_lobjs = nothing;
  lobj_next = nothing;
  word = nothing;
  byte = nothing;
  topregion = null;
  global_freelist = 8192;
  rp_total = 5;
  mallocs = 0;
  freed = [];
}

-- Blocks that do not overlap.
abbrev blocks : ℕ → ℕ → Ptr
blocks i n = 1000000 * (i + 1)

-- Two regions, at 128 and 64; 65 is the address 64 with the infinite bit. The exception pops the second
-- one only. The objects of 1000 words take a page each, so the free pages do not suffice.
abbrev calls : List Call
calls =
    enters 128
    ∷ enters 64
    ∷ allocates 65 1000
    ∷ allocates 129 1000
    ∷ allocates 129 1000
    ∷ allocates 129 1000
    ∷ allocates 129 3
    ∷ resets 65
    ∷ allocates 65 7
    ∷ unwinds 3 64
    ∷ leaves
    ∷ []

calls-IsBracketed : IsBracketed [] calls
unfolding clear_status_bits addrs_left
calls-IsBracketed = enter_then 128 128 refl (omega arith) refl (omega arith) refl (
    enter_then 64 64 refl (omega arith) refl (omega arith) refl (
      allocate_then 65 1000 (omega arith) (omega arith) (
        allocate_then 129 1000 (omega arith) (omega arith) (
          allocate_then 129 1000 (omega arith) (omega arith) (
            allocate_then 129 1000 (omega arith) (omega arith) (
              allocate_then 129 3 (omega arith) (omega arith) (
                reset_then 65 (omega arith) (
                  allocate_then 65 7 (omega arith) (omega arith)
                    (unwind_then 3 64 (omega arith) (leave_then 128 done))))))))))

five_pages-IsReady : IsReady 1 five_pages (8192 ∷ 16384 ∷ 24576 ∷ 32768 ∷ 40960 ∷ []) [] []
five_pages-IsReady = record {
  inv = record {
    free = omega arith;
    stack = refl;
    pages = omega arith;
    distinct = λ x. ground arith;
    regions = λ x. omega arith;
    large = λ x. omega arith;
  };
  live = record { housed = tt; apart = tt };
  fuel = tt;
  some_fuel = omega arith;
}

one_chunk : IsSupply blocks 1 0 (8192 ∷ 16384 ∷ 24576 ∷ 32768 ∷ 40960 ∷ [])
one_chunk = record {
  ne_null = λ i l. omega arith;
  fits = λ i l. omega (arith, l);
  apart = λ i j l m. inl (omega (arith, l));
  used = λ i p l c. inl (ground (arith, c));
}

programs_lem_example : Runs blocks 1 calls five_pages []
unfolding pages_needed
programs_lem_example =
    programs_lem blocks 1 calls 1 five_pages (8192 ∷ 16384 ∷ 24576 ∷ 32768 ∷ 40960 ∷ []) [] []
      calls-IsBracketed five_pages-IsReady one_chunk (omega arith)
