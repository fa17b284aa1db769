-- ===== src/Region/Alloc/Small.antt =====
-- `alloc` of an object that fits a region page.
use unikernel_with_region_in.Base.{
  ℕ, ◌+◌, ◌*◌, ◌<◌, ◌≤◌, ◌≡◌, ◌≢◌, fun_ext, arith, true, lt→ltb, le→not_ltb, ◌==◌, ==_refl,
  ==_of_ne,
}
use unikernel_with_region_in.State.{
  Ptr, null, State, ok, upd, load_of_ne_null, store_of_ne_null, set_a, load,
}
use unikernel_with_region_in.Region.{take_page, alloc_new_page, alloc_gen, call_sbrk}
use unikernel_with_region_in.Region.Layout.{rp_boundary, allocatable_words_in_region_page}
use unikernel_with_region_in.Region.Pages.{take_page_free, with_a}

upd-upd : (f : Ptr → ℕ) (p v w : ℕ) → upd (upd f p v) p w ≡ upd f p w
upd-upd f p v w = fun_ext λ q. ground arith

module _ (malloc : ℕ → ℕ → Ptr) (s : State) where
  take_page_refill :
      (s' : State)
      → s.global_freelist ≡ null
      → call_sbrk malloc s ≡ ok tt s'
      → s'.global_freelist ≢ null
      → take_page malloc s
        ≡ ok s'.global_freelist (record s' { global_freelist = s'.rp_n s'.global_freelist })
  unfolding take_page load
  take_page_refill s' empty sbrk ne =
      let e : (s.global_freelist == null) ≡ true = ground arith in
      rw (e, sbrk, ==_of_ne s'.global_freelist null ne)

  -- An empty free list is filled first.
  pub alloc_new_page_refill :
      (g : Ptr) (s' : State)
      → s.global_freelist ≡ null
      → call_sbrk malloc s ≡ ok tt s'
      → s'.global_freelist ≢ null
      → alloc_new_page malloc g s ≡ alloc_new_page malloc g s'
  unfolding alloc_new_page
  alloc_new_page_refill g s' empty sbrk ne =
      rw (take_page_refill s' empty sbrk ne, take_page_free malloc s' ne)

  module _ (g : Ptr) (n : ℕ) (gne : g ≢ null) (small : n ≤ allocatable_words_in_region_page) where
    pub alloc_gen_fits :
        s.gen_a g + 8 * n ≤ rp_boundary (s.gen_a g)
        → alloc_gen malloc g n s ≡ ok (s.gen_a g) (with_a s g (s.gen_a g + 8 * n))
    unfolding alloc_gen set_a
    alloc_gen_fits room = rw (
      le→not_ltb allocatable_words_in_region_page n small,
      load_of_ne_null State.gen_a g s gne,
      le→not_ltb _ _ room,
      store_of_ne_null g _ s gne,
    )

    pub alloc_gen_new :
        (t : Ptr) (s' : State)
        → rp_boundary (s.gen_a g) < s.gen_a g + 8 * n
        → alloc_new_page malloc g s ≡ ok t s'
        → alloc_gen malloc g n s ≡ ok t (with_a s' g (t + 8 * n))
    unfolding alloc_gen set_a
    alloc_gen_new t s' full page = rw (
      le→not_ltb allocatable_words_in_region_page n small,
      load_of_ne_null State.gen_a g s gne,
      lt→ltb _ _ full,
      page,
      store_of_ne_null g _ s' gne,
      load_of_ne_null State.gen_a g (with_a s' g t) gne,
      ==_refl g,
      ==_of_ne g null gne,
      upd-upd s'.gen_a g t (t + 8 * n),
    )
