-- ===== src/UnixRegion.antt =====
-- The allocator of the Unix runtime, UnixRuntimeMini/src/RuntimeMini/Region.c. Its callSbrk ends the
-- program if `malloc` fails. The functions above it are written like those of the Xen runtime; what
-- does not reach callSbrk is taken from there.
pub mod Same
mod Tests
use unikernel_with_region_in.Base.{ℕ, ◌+◌, ◌*◌, not, ◌==◌, ltb, if◌then◌else◌}
use unikernel_with_region_in.State.{
  Ptr, null, State, died, Cmd, pure, ◌>>=◌, ◌>>◌, Done, load, set_n, set_gen, set_a, set_fp, set_p,
  set_lobjs, gets, set_freelist, set_top_region, malloc_with,
}
use unikernel_with_region_in.Region.{data_of, align_sb, link_chunk, alloc_large}
use unikernel_with_region_in.Region.Layout.{
  sizeof_rp, bytes_alloc_by_sbrk, allocatable_words_in_region_page, rp_boundary, last_rp_of_gen,
  set_infinite_bit, clear_status_bits,
}

module _ (malloc : ℕ → ℕ → Ptr) where
  -- A failing `malloc` ends the program.
  unfoldable pub call_sbrk : Done
  unfolding malloc_with
  call_sbrk = do
    sb ← malloc_with malloc (bytes_alloc_by_sbrk + sizeof_rp + sizeof_rp)
    if sb == null then (λ _. died) else link_chunk (align_sb sb)

  unfoldable pub take_page : Cmd Ptr
  unfolding load
  take_page = do
    free_list ← gets State.global_freelist
    (if free_list == null then call_sbrk else pure tt)
    np ← gets State.global_freelist
    n ← load State.rp_n np
    set_freelist n
    pure np

  unfoldable pub alloc_new_page : Ptr → Cmd Ptr
  unfolding take_page set_n set_gen load set_fp
  alloc_new_page gen = do
    np ← take_page
    set_n np null
    set_gen np gen
    fp ← load State.gen_fp gen
    (if fp == null
        then set_fp gen np
        else (do a ← load State.gen_a gen; set_n (last_rp_of_gen a) np))
    pure (data_of np)

  unfoldable pub allocate_region0 : Ptr → Cmd Ptr
  unfolding alloc_new_page set_fp set_p set_lobjs set_a
  allocate_region0 r0 = do
    let r = clear_status_bits r0
    set_fp r null
    top ← gets State.topregion
    set_p r top
    set_lobjs r null
    a ← alloc_new_page r
    set_a r a
    set_top_region r
    pure r

  unfoldable pub allocate_region : Ptr → Cmd Ptr
  unfolding allocate_region0
  allocate_region r0 = do r ← allocate_region0 r0; pure (set_infinite_bit r)

  unfoldable pub alloc_gen : Ptr → ℕ → Cmd Ptr
  unfolding alloc_large alloc_new_page load set_a
  alloc_gen gen n = if ltb allocatable_words_in_region_page n then alloc_large malloc gen n else (do
    t1 ← load State.gen_a gen
    if ltb (rp_boundary t1) (t1 + 8 * n)
        then (do
          a ← alloc_new_page gen
          set_a gen a
          t1' ← load State.gen_a gen
          set_a gen (t1' + 8 * n)
          pure t1')
        else (do set_a gen (t1 + 8 * n); pure t1))

  unfoldable pub alloc : Ptr → ℕ → Cmd Ptr
  unfolding alloc_gen
  alloc r n = alloc_gen (clear_status_bits r) n
