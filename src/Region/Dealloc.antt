-- ===== src/Region/Dealloc.antt =====
-- `free_lobjs` and `deallocateRegion`.
pub mod Until
use unikernel_with_region_in.Base.{
  ℕ, zero, suc, ◌+◌, ◌<◌, ◌≡◌, ◌≢◌, refl, sym, ◌∙◌, List, [], ◌∷◌, ◌++◌, count, count-append,
  length, All, All-append, All-left, All-right, arith, ==_of_ne, subst,
}
use mathlib.Core.List.{append_assoc}
use unikernel_with_region_in.State.{
  Ptr, null, State, ok, upd, load, load_of_ne_null, store_of_ne_null, set_n, free,
}
use unikernel_with_region_in.Region.{free_lobjs, deallocate_region}
use unikernel_with_region_in.Region.Chain.{
  IsChain, ending, count-ending, IsChain-relink, IsChain-upd, IsChain-append,
}
use unikernel_with_region_in.Region.Layout.Masks.{IsPage, last_rp_of_gen_lem}
use unikernel_with_region_in.Region.Layout.{last_rp_of_gen}
use unikernel_with_region_in.Region.View.{
  Desc, pages, all_pages, all_addrs, all_large, Holds, IsStack, Inv, SameAt, IsStack-frame,
}

-- What has been freed when a list of objects, the first one first, is freed after `done`.
abbrev pub freed_onto : List Ptr → List Ptr → List Ptr
freed_onto [] done = done
freed_onto (l ∷ ls) done = freed_onto ls (l ∷ done)

-- `free_lobjs` frees every object of the list once, in order, and ends.
pub free_lobjs_lem :
    (k : ℕ) (p : Ptr) (ls : List Ptr) (s : State)
    → IsChain s.lobj_next p ls null
    → length ls < k
    → free_lobjs k p s ≡ ok tt (record s { freed = freed_onto ls s.freed })
unfolding free_lobjs
free_lobjs_lem zero p ls s c fuel = absurd (omega arith)
free_lobjs_lem (suc k) p [] s c fuel = rw c
free_lobjs_lem (suc k) p (l ∷ ls) s c fuel =
    rw (c.0, ==_of_ne l null c.1, ==_of_ne l null c.1)
      (free_lobjs_lem k (s.lobj_next l) ls (record s { freed = l ∷ s.freed }) c.2 (omega arith))

-- The memory after the top region `d` of the stack is popped.
abbrev pub popped : State → Desc → State
popped s d = record s {
  freed = freed_onto d.large s.freed;
  rp_n = upd s.rp_n d.last s.global_freelist;
  global_freelist = s.gen_fp d.addr;
  topregion = s.ro_p d.addr;
}

module _ (s : State) (fl : List Ptr) (d : Desc) (ds : List Desc) (inv : Inv s fl (d ∷ ds)) where
  pub deallocate_region_run :
      (k : ℕ) → length d.large < k → deallocate_region k s ≡ ok tt (popped s d)
  unfolding deallocate_region set_n
  deallocate_region_run k fuel =
      let h = inv.stack.0 in
      let ne : s.topregion ≢ null = ground arith in
      let large : IsChain s.lobj_next (s.ro_lobjs s.topregion) d.large null = rw h.here h.large in
      let last : last_rp_of_gen (s.gen_a s.topregion) ≡ d.last =
        rw h.here (last_rp_of_gen_lem h.gen.page h.gen.at) in
      let s₁ : State = record s { freed = freed_onto d.large s.freed } in
      rw
        (
          load_of_ne_null State.ro_lobjs s.topregion s ne,
          free_lobjs_lem k _ d.large s large fuel,
          load_of_ne_null State.gen_a s.topregion s₁ ne,
          last,
          ==_of_ne d.last null h.gen.page.ne_null,
          load_of_ne_null State.gen_fp s.topregion
              (record s₁ { rp_n = upd s.rp_n d.last s.global_freelist }) ne,
          load_of_ne_null State.ro_p s.topregion
              (record s₁ {
                rp_n = upd s.rp_n d.last s.global_freelist;
                global_freelist = s.gen_fp s.topregion;
              })
              ne,
        )
        (ground arith)

  parts :
      (x : Ptr) → count x fl + count x d.front + count x (d.last ∷ []) + count x (all_pages ds) < 2
  parts x = omega (
    arith,
    inv.distinct x,
    count-append x fl (all_pages (d ∷ ds)),
    count-append x (pages d) (all_pages ds),
    count-ending x d.front d.last,
  )

  popped-same : SameAt s (popped s d) (all_pages ds) (all_addrs ds) (all_large ds)
  popped-same = record {
    rp_n = λ x h. ground (arith, parts x);
    rp_gen = λ x h. refl;
    gen_a = λ x h. refl;
    gen_fp = λ x h. refl;
    ro_p = λ x h. refl;
    ro_lobjs = λ x h. refl;
    lobj_next = λ x h. refl;
  }

  popped-free : IsChain (popped s d).rp_n (s.gen_fp d.addr) (pages d ++ fl) null
  popped-free =
      let h = inv.stack.0 in
      IsChain-append (popped s d).rp_n (s.gen_fp d.addr) (pages d) s.global_freelist fl null
        (IsChain-relink s.rp_n (s.gen_fp d.addr) d.front d.last null s.global_freelist
          (ground (arith, parts d.last)) h.gen.chain)
        (IsChain-upd s.rp_n d.last s.global_freelist s.global_freelist fl null
          (ground (arith, parts d.last)) inv.free)

  -- Popping the top region puts all its pages in front of the free list and frees its large objects.
  pub popped-Inv : Inv (popped s d) (pages d ++ fl) ds
  popped-Inv = record {
    free = popped-free;
    stack = IsStack-frame (s.ro_p d.addr) ds popped-same inv.stack.1;
    pages =
        let back = All-right IsPage fl (all_pages (d ∷ ds)) inv.pages in
        All-append IsPage (pages d ++ fl) (all_pages ds)
          (All-append IsPage (pages d) fl (All-left IsPage (pages d) (all_pages ds) back)
            (All-left IsPage fl (all_pages (d ∷ ds)) inv.pages))
          (All-right IsPage (pages d) (all_pages ds) back);
    distinct = λ x. omega (
      arith,
      parts x,
      count-append x (pages d ++ fl) (all_pages ds),
      count-append x (pages d) fl,
      count-ending x d.front d.last,
    );
    regions = λ x. ground (arith, inv.regions x);
    large = λ x. ground (arith, inv.large x, count-append x d.large (all_large ds));
  }
