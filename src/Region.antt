-- ===== src/Region.antt =====
-- The region runtime, XenRuntimeMini/src/RuntimeMini/Region.c: one command for each function. A loop
-- takes fuel. `malloc` is the allocator below the runtime.
pub mod Programs
pub mod Alloc
pub mod Chain
pub mod Count
pub mod Dealloc
pub mod Enter
pub mod Focus
pub mod Frame
pub mod Layout
pub mod Pages
pub mod Refill
pub mod Reset
pub mod Sbrk
pub mod Supply
mod Tests
pub mod View
use unikernel_with_region_in.Base.{
  ℕ, zero, suc, ◌+◌, ◌-◌, ◌*◌, ◌%◌, ◌^◌, Bool, ◌&&◌, not, ◌==◌, ltb, leb, if◌then◌else◌,
}
use unikernel_with_region_in.State.{
  Ptr, null, State, Run, ok, died, out_of_fuel, Cmd, pure, ◌>>=◌, ◌>>◌, Done, load, set_n, set_gen,
  set_a, set_fp, set_p, set_lobjs, set_lobj_next, gets, set_freelist, set_top_region, free,
  malloc_with,
}
use Layout.{
  sizeof_rp, bytes_alloc_by_sbrk, allocatable_words_in_region_page, is_rp_aligned, rp_boundary,
  last_rp_of_gen, set_infinite_bit, clear_status_bits,
}

-- `&(np->i)`: the data of a page stands behind its two header words.
abbrev pub data_of : Ptr → Ptr
data_of np = np + 16

-- `get_ro_from_gen(*gen)`: the generation stands at `offsetG0InRo`, 0.
abbrev pub get_ro_from_gen : Ptr → Ptr
get_ro_from_gen gen = gen - 0

-- The loop of `NoOfPagesInGen`.
unfoldable pub count_pages : ℕ → Ptr → ℕ → Cmd ℕ
unfolding load
count_pages zero rp i = λ _. out_of_fuel
count_pages (suc k) rp i =
    if rp == null then pure i else do rp' ← load State.rp_n rp; count_pages k rp' ((i + 1) % 2 ^ 64)

unfoldable pub no_of_pages_in_gen : ℕ → Ptr → Cmd ℕ
no_of_pages_in_gen k gen = do fp ← load State.gen_fp gen; count_pages k fp 0

unfoldable pub no_of_pages_in_region : ℕ → Ptr → Cmd ℕ
no_of_pages_in_region k r = no_of_pages_in_gen k r

abbrev add_rp_total : Done
add_rp_total s = ok tt (record s { rp_total = s.rp_total + 1 })

-- The loop of `callSbrk` that links the pages of a chunk; it returns the last page.
unfoldable pub fragment : ℕ → Ptr → Cmd Ptr
unfolding set_n
fragment zero np = λ _. out_of_fuel
fragment (suc k) np = do
  base ← gets State.global_freelist
  if ltb (np + sizeof_rp) (base + bytes_alloc_by_sbrk)
      then (do set_n np (np + sizeof_rp); add_rp_total; fragment k (np + sizeof_rp))
      else pure np

-- `sb` moved up to the next multiple of `sizeof(Rp)`.
unfoldable pub align_sb : Ptr → Ptr
align_sb sb = let temp = sb % sizeof_rp in if temp == 0 then sb else sb + sizeof_rp - temp

-- What `callSbrk` does with the chunk `sb`. The loop links at most `REGION_PAGE_BAG_SIZE` pages.
unfoldable pub link_chunk : Ptr → Done
link_chunk sb =
    if is_rp_aligned sb
    then (do
      old_free_list ← gets State.global_freelist
      set_freelist sb
      add_rp_total
      np ← fragment 100 sb
      set_n np old_free_list)
    else λ _. died

-- The loop of `free_lobjs`.
unfoldable pub free_lobjs : ℕ → Ptr → Done
unfolding load free
free_lobjs zero lobjs = λ _. out_of_fuel
free_lobjs (suc k) lobjs =
    if lobjs == null
    then pure tt
    else do lobjs_tmp ← load State.lobj_next lobjs; free lobjs; free_lobjs k lobjs_tmp

unfoldable pub deallocate_region : ℕ → Done
deallocate_region k = do
  top ← gets State.topregion
  lobjs ← load State.ro_lobjs top
  free_lobjs k lobjs
  a ← load State.gen_a top
  free_list ← gets State.global_freelist
  set_n (last_rp_of_gen a) free_list
  fp ← load State.gen_fp top
  set_freelist fp
  p ← load State.ro_p top
  set_top_region p

-- The pages behind the first one go back to the free list.
unfoldable pub free_tail : Ptr → Done
unfolding load set_n
free_tail gen = do
  a ← load State.gen_a gen
  free_list ← gets State.global_freelist
  set_n (last_rp_of_gen a) free_list
  fp ← load State.gen_fp gen
  n ← load State.rp_n fp
  set_freelist n
  set_n fp null

unfoldable pub reset_gen : Ptr → Done
reset_gen gen = do
  fp ← load State.gen_fp gen
  n ← load State.rp_n fp
  (if n == null then pure tt else free_tail gen)
  fp' ← load State.gen_fp gen
  set_a gen (data_of fp')

unfoldable pub reset_region : ℕ → Ptr → Cmd Ptr
reset_region k r_adr = do
  let r = clear_status_bits r_adr
  reset_gen r
  lobjs ← load State.ro_lobjs r
  free_lobjs k lobjs
  set_lobjs r null
  pure r_adr

-- The loop of `deallocateRegionsUntil`; each round has fuel `k` for the large objects.
unfoldable pub pop_until : ℕ → ℕ → Ptr → Done
pop_until zero k r = λ _. out_of_fuel
pop_until (suc n) k r = do
  top ← gets State.topregion
  if not (top == null) && leb top r then (do deallocate_region k; pop_until n k r) else pure tt

unfoldable pub deallocate_regions_until : ℕ → ℕ → Ptr → Done
deallocate_regions_until n k r = pop_until n k (clear_status_bits r)

-- The parameter `int n` of `alloc_lobjs`, converted back to `size_t`.
unfoldable pub int_arg : ℕ → ℕ
int_arg n = let m = n % 2 ^ 32 in if ltb m (2 ^ 31) then m else m + 2 ^ 64 - 2 ^ 32

-- The bytes that `alloc_lobjs` asks for: the words and `sizeof(Lobjs)`.
unfoldable pub lobjs_bytes : ℕ → ℕ
unfolding int_arg
lobjs_bytes n = (8 * int_arg n + 16) % 2 ^ 64

module _ (malloc : ℕ → ℕ → Ptr) where
  -- A failing `malloc` prints a message and returns.
  unfoldable pub call_sbrk : Done
  unfolding malloc_with
  call_sbrk = do
    sb ← malloc_with malloc (bytes_alloc_by_sbrk + sizeof_rp + sizeof_rp)
    if sb == null then pure tt else link_chunk (align_sb sb)

  -- The next page of the free list, which is filled if it is empty.
  unfoldable pub take_page : Cmd Ptr
  unfolding load
  take_page = do
    free_list ← gets State.global_freelist
    (if free_list == null then call_sbrk else pure tt)
    np ← gets State.global_freelist
    n ← load State.rp_n np
    set_freelist n
    pure np

  unfoldable pub alloc_new_page : Ptr → Cmd Ptr
  unfolding take_page set_n set_gen load set_fp
  alloc_new_page gen = do
    np ← take_page
    set_n np null
    set_gen np gen
    fp ← load State.gen_fp gen
    (if fp == null
        then set_fp gen np
        else (do a ← load State.gen_a gen; set_n (last_rp_of_gen a) np))
    pure (data_of np)

  unfoldable pub allocate_region0 : Ptr → Cmd Ptr
  unfolding alloc_new_page set_fp set_p set_lobjs set_a
  allocate_region0 r0 = do
    let r = clear_status_bits r0
    set_fp r null
    top ← gets State.topregion
    set_p r top
    set_lobjs r null
    a ← alloc_new_page r
    set_a r a
    set_top_region r
    pure r

  unfoldable pub allocate_region : Ptr → Cmd Ptr
  unfolding allocate_region0
  allocate_region r0 = do r ← allocate_region0 r0; pure (set_infinite_bit r)

  unfoldable pub alloc_lobjs : ℕ → Cmd Ptr
  unfolding malloc_with lobjs_bytes
  alloc_lobjs n = do
    lobjs ← malloc_with malloc (lobjs_bytes n)
    if lobjs == null then (λ _. died) else pure lobjs

  -- An object that does not fit a page is a large object of the region.
  unfoldable pub alloc_large : Ptr → ℕ → Cmd Ptr
  unfolding alloc_lobjs load set_lobj_next set_lobjs
  alloc_large gen n = do
    let r = get_ro_from_gen gen
    lobjs ← alloc_lobjs n
    old ← load State.ro_lobjs r
    set_lobj_next lobjs old
    set_lobjs r lobjs
    pure (lobjs + 8)

  unfoldable pub alloc_gen : Ptr → ℕ → Cmd Ptr
  unfolding alloc_large alloc_new_page load set_a
  alloc_gen gen n = if ltb allocatable_words_in_region_page n then alloc_large gen n else (do
    t1 ← load State.gen_a gen
    if ltb (rp_boundary t1) (t1 + 8 * n)
        then (do
          a ← alloc_new_page gen
          set_a gen a
          t1' ← load State.gen_a gen
          set_a gen (t1' + 8 * n)
          pure t1')
        else (do set_a gen (t1 + 8 * n); pure t1))

  unfoldable pub alloc : Ptr → ℕ → Cmd Ptr
  unfolding alloc_gen
  alloc r n = alloc_gen (clear_status_bits r) n
