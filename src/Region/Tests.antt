-- ===== src/Region/Tests.antt =====
-- A small memory, runs of Region.c on it, and the theorems at it.
use unikernel_with_region_in.Base.{ℕ, ◌+◌, ◌≡◌, refl, inl, [], ◌∷◌, arith, ◌==◌, if◌then◌else◌}
use unikernel_with_region_in.State.{Ptr, null, State, ok, fault}
use unikernel_with_region_in.Region.{
  alloc, reset_region, deallocate_region, deallocate_regions_until, no_of_pages_in_region,
  lobjs_bytes,
}
use unikernel_with_region_in.Region.Alloc.Total.{Allocates, alloc_small}
use unikernel_with_region_in.Region.Alloc.Large.{
  with_large, large_state, alloc_large_lem, alloc_fault, lobjs_bytes_truncated,
}
use unikernel_with_region_in.Region.Count.{no_of_pages_in_region_lem}
use unikernel_with_region_in.Region.Dealloc.Until.{
  left_by, free_by, freed_by, deallocate_region_lem, deallocate_regions_until_lem,
}
use unikernel_with_region_in.Region.Enter.{Enters, allocate_region_lem}
use unikernel_with_region_in.Region.Layout.{clear_status_bits, rp_boundary}
use unikernel_with_region_in.Region.Layout.Masks.{IsPage, InPage, rp_boundary_lem}
use unikernel_with_region_in.Region.Refill.{Delivers}
use unikernel_with_region_in.Region.Reset.Keeps.{emptied, reset_region_lem}
use unikernel_with_region_in.Region.View.{Desc, Holds, Inv}

-- A map with one entry.
abbrev at : Ptr → ℕ → Ptr → ℕ
at p v q = if q == p then v else 0

-- The region at 64 has the page at 8192, which is full but for 16 bytes; the page at 16384 is free.
abbrev memory : State
memory = record {
  rp_n = λ q. 0;
  rp_gen = at 8192 64;
  gen_a = at 64 16368;
  gen_fp = at 64 8192;
  ro_p = λ q. 0;
  ro_lobjs = at 64 500000;
  lobj_next = λ q. 0;
  word = λ q. 0;
  byte = λ q. 0;
  topregion = 64;
  global_freelist = 16384;
  rp_total = 2;
  mallocs = 0;
  freed = [];
}

abbrev region : Desc
region = record { addr = 64; front = []; last = 8192; large = 500000 ∷ [] }

-- `malloc` returns the block at 2^20.
abbrev one_block : ℕ → ℕ → Ptr
one_block i n = 1048576

abbrev no_block : ℕ → ℕ → Ptr
no_block i n = null

memory-Holds : Holds memory 64 region
memory-Holds = record {
  here = refl;
  ne_null = omega arith;
  aligned = omega arith;
  fits = omega arith;
  gen = record {
    chain = omega arith;
    page = omega arith;
    at = omega arith;
    word_aligned = omega arith;
    owned = ground arith;
  };
  large = omega arith;
}

memory-Inv : Inv memory (16384 ∷ []) (region ∷ [])
memory-Inv = record {
  free = omega arith;
  stack = (memory-Holds, refl);
  pages = omega arith;
  distinct = λ x. ground arith;
  regions = λ x. ground arith;
  large = λ x. ground arith;
}

-- The same memory without a free page.
abbrev exhausted : State
exhausted = record memory { global_freelist = null }

exhausted-Inv : Inv exhausted [] (region ∷ [])
exhausted-Inv = record {
  free = refl;
  stack = (
    record {
      here = refl;
      ne_null = omega arith;
      aligned = omega arith;
      fits = omega arith;
      gen = record {
        chain = omega arith;
        page = omega arith;
        at = omega arith;
        word_aligned = omega arith;
        owned = ground arith;
      };
      large = omega arith;
    },
    refl,
  );
  pages = omega arith;
  distinct = λ x. ground arith;
  regions = λ x. ground arith;
  large = λ x. ground arith;
}

exhausted-Delivers : Delivers one_block exhausted (region ∷ [])
exhausted-Delivers = record {
  ne_null = omega arith;
  fits = omega arith;
  apart = λ p h. inl (ground arith);
}

-- 65 is the address 64 with the infinite bit.
clear_infinite : clear_status_bits 65 ≡ 64
unfolding clear_status_bits
clear_infinite = refl

alloc_small_example : Allocates one_block 65 100 exhausted [] [] region []
alloc_small_example =
    alloc_small one_block 65 100 exhausted [] region [] clear_infinite (omega arith) []
      exhausted-Inv (λ e. exhausted-Delivers)

allocate_region_lem_example : Enters one_block 128 128 exhausted [] (region ∷ [])
unfolding clear_status_bits
allocate_region_lem_example =
    allocate_region_lem one_block 128 128 exhausted (region ∷ []) refl (omega arith) (omega arith)
      (omega arith) refl [] exhausted-Inv (λ e. exhausted-Delivers)

reset_region_lem_example :
    (s' : State) × (reset_region 2 65 memory ≡ ok 65 s')
    × Inv s' (16384 ∷ []) (emptied region ∷ [])
    × (s'.gen_a 64 ≡ 8208)
    × (s'.freed ≡ 500000 ∷ [])
reset_region_lem_example =
    reset_region_lem memory (16384 ∷ []) [] region [] memory-Inv 2 65 clear_infinite (omega arith)

deallocate_region_lem_example :
    (s' : State) × (deallocate_region 2 memory ≡ ok tt s')
    × Inv s' (8192 ∷ 16384 ∷ []) []
    × (s'.freed ≡ 500000 ∷ [])
deallocate_region_lem_example =
    deallocate_region_lem 2 memory (16384 ∷ []) region [] memory-Inv (omega arith)

deallocate_regions_until_lem_example :
    (s' : State) × (deallocate_regions_until 2 2 100 memory ≡ ok tt s')
    × Inv s'
        (free_by (clear_status_bits 100) (region ∷ []) (16384 ∷ []))
        (left_by (clear_status_bits 100) (region ∷ []))
    × (s'.freed ≡ freed_by (clear_status_bits 100) (region ∷ []) [])
deallocate_regions_until_lem_example =
    deallocate_regions_until_lem 2 2 100 memory (16384 ∷ []) (region ∷ []) memory-Inv (omega arith)
      (omega arith)

-- Here the region at 64 is popped.
popped_regions :
    (left_by (clear_status_bits 100) (region ∷ []) ≡ [])
    × (free_by (clear_status_bits 100) (region ∷ []) [] ≡ 8192 ∷ [])
    × (left_by (clear_status_bits 60) (region ∷ []) ≡ region ∷ [])
unfolding left_by free_by clear_status_bits
popped_regions = (refl, refl, refl)

alloc_large_lem_example :
    (alloc one_block 65 2000 memory ≡ ok 1048584 (large_state memory 64 1048576))
    × Inv (large_state memory 64 1048576) (16384 ∷ []) (with_large region 1048576 ∷ [])
alloc_large_lem_example =
    alloc_large_lem one_block 2000 (omega arith) memory (16384 ∷ []) [] region [] memory-Inv 1048576
      refl (omega arith) 65 clear_infinite (omega arith) refl

alloc_fault_example : alloc no_block 65 100 exhausted ≡ fault
alloc_fault_example =
    alloc_fault no_block 65 100 exhausted [] region [] exhausted-Inv clear_infinite (omega arith)
      (omega arith) refl

too_few_bytes : lobjs_bytes 4294967296 + 34359738352 ≡ 34359738368
too_few_bytes = lobjs_bytes_truncated 4294967296 (omega arith) (omega arith)

no_of_pages_in_region_lem_example : no_of_pages_in_region 2 64 memory ≡ ok 1 memory
no_of_pages_in_region_lem_example =
    no_of_pages_in_region_lem 2 64 region memory memory-Holds (omega arith) (omega arith)

page_16384 : IsPage 16384
page_16384 = omega arith

-- The allocation pointer at the very end of the page.
at_end : InPage 16384 24576
at_end = omega arith

rp_boundary_at_end : rp_boundary 24576 ≡ 24576
rp_boundary_at_end = rp_boundary_lem page_16384 at_end
