-- ===== src/Region/Enter.antt =====
-- `allocateRegion`: a region descriptor with one page is pushed onto the stack.
use unikernel_with_region_in.Base.{
  ℕ, ◌+◌, ◌%◌, ◌^◌, ◌<◌, ◌≡◌, ◌≢◌, refl, List, [], ◌∷◌, count, count-append, All-append, All-left,
  All-right, arith, ==_of_ne, ==_refl, ap,
}
use unikernel_with_region_in.State.{Ptr, null, State, ok, upd, set_fp, set_p, set_lobjs, set_a}
use unikernel_with_region_in.Region.{data_of, alloc_new_page, allocate_region0, allocate_region}
use unikernel_with_region_in.Region.Alloc.Small.{alloc_new_page_refill}
use unikernel_with_region_in.Region.Layout.{clear_status_bits, set_infinite_bit, sizeof_rp}
use unikernel_with_region_in.Region.Layout.Masks.{IsPage}
use unikernel_with_region_in.Region.Pages.{
  first_page, with_a, alloc_new_page_first, first_page-free, first_page-GenHolds,
}
use unikernel_with_region_in.Region.Refill.{
  Delivers, chunk_start, refilled, call_sbrk-refilled, refilled-Inv_cons, refilled-ne,
}
use unikernel_with_region_in.Region.Sbrk.{chunk, grown}
use unikernel_with_region_in.Region.Supply.{Spends, Turns, free-Turns, refilled-Turns}
use unikernel_with_region_in.Region.View.{
  Desc, all_pages, all_addrs, all_large, Holds, Inv, SameAt, IsStack-frame,
}

-- The memory when the fields of a new descriptor at `r` are set, and it has no page yet.
abbrev pub blank : State → Ptr → State
blank s r = record s {
  gen_fp = upd s.gen_fp r null;
  ro_p = upd s.ro_p r s.topregion;
  ro_lobjs = upd s.ro_lobjs r null;
}

-- A new region with the page `np`.
abbrev pub fresh_region : Ptr → Ptr → Desc
fresh_region r np = record { addr = r; front = []; last = np; large = [] }

-- The memory when the page is there and the region is on the stack.
abbrev pub entered : State → Ptr → Ptr → State
entered s r np = record (with_a (first_page s r np) r (data_of np)) { topregion = r }

module _ (s : State) (fl : List Ptr) (ds : List Desc) (inv : Inv s fl ds) (r : Ptr)
    (new : count r (all_addrs ds) ≡ 0) where
  blank-same : SameAt s (blank s r) (all_pages ds) (all_addrs ds) (all_large ds)
  blank-same = record {
    rp_n = λ x h. refl;
    rp_gen = λ x h. refl;
    gen_a = λ x h. refl;
    gen_fp = λ x h. ground arith;
    ro_p = λ x h. ground arith;
    ro_lobjs = λ x h. ground arith;
    lobj_next = λ x h. refl;
  }

  pub blank-Inv : Inv (blank s r) fl ds
  blank-Inv = record {
    free = inv.free;
    stack = IsStack-frame s.topregion ds blank-same inv.stack;
    pages = inv.pages;
    distinct = inv.distinct;
    regions = inv.regions;
    large = inv.large;
  }

-- The new descriptor is filled in, and the first free page becomes its page.
module _ (s : State) (np : Ptr) (fs : List Ptr) (ds : List Desc) (inv : Inv s (np ∷ fs) ds)
    (r : Ptr) (new : count r (all_addrs ds) ≡ 0) (ne : r ≢ null) (aligned : r % 4 ≡ 0)
    (fits : r < 2 ^ 64) (below : s.ro_p r ≡ s.topregion) (no_large : s.ro_lobjs r ≡ null) where
  page_new : IsPage np
  page_new = inv.pages.0

  once : count np fs ≡ 0
  once = ground (arith, inv.distinct np, count-append np (np ∷ fs) (all_pages ds))

  entered-same : SameAt s (entered s r np) (all_pages ds) (all_addrs ds) (all_large ds)
  entered-same = record {
    rp_n = λ x h. ground (arith, inv.distinct x, count-append x (np ∷ fs) (all_pages ds));
    rp_gen = λ x h. ground (arith, inv.distinct x, count-append x (np ∷ fs) (all_pages ds));
    gen_a = λ x h. ground arith;
    gen_fp = λ x h. ground arith;
    ro_p = λ x h. refl;
    ro_lobjs = λ x h. refl;
    lobj_next = λ x h. refl;
  }

  entered-Holds : Holds (entered s r np) r (fresh_region r np)
  entered-Holds =
      let gen =
        first_page-GenHolds s r np fs inv.free page_new once (data_of np) (ground arith)
          (omega (arith, page_new)) in
      record {
        here = refl;
        ne_null = ne;
        aligned = aligned;
        fits = fits;
        gen = record {
          chain = gen.chain;
          page = gen.page;
          at = gen.at;
          word_aligned = gen.word_aligned;
          owned = gen.owned;
        };
        large = no_large;
      }

  pub entered-Inv : Inv (entered s r np) fs (fresh_region r np ∷ ds)
  entered-Inv = record {
    free =
        first_page-free s r np fs inv.free page_new once (data_of np) (ground arith)
          (omega (arith, page_new));
    stack = (entered-Holds, rw below (IsStack-frame s.topregion ds entered-same inv.stack));
    pages =
        All-append IsPage fs (np ∷ all_pages ds) (All-left IsPage fs (all_pages ds) inv.pages.1)
          (page_new, All-right IsPage fs (all_pages ds) inv.pages.1);
    distinct = λ x. ground (
      arith,
      inv.distinct x,
      count-append x (np ∷ fs) (all_pages ds),
      count-append x fs (np ∷ all_pages ds),
    );
    regions = λ x. ground (arith, inv.regions x);
    large = inv.large;
  }

-- The outcome of pushing a region at `r` onto the stack `ds`.
abbrev pub Enters : (ℕ → ℕ → Ptr) → Ptr → Ptr → State → List Ptr → List Desc → Type 0
Enters malloc r₀ r s fl ds =
    (s' : State) × (np : Ptr) × (fs : List Ptr) × (allocate_region malloc r₀ s
      ≡ ok (set_infinite_bit r) s')
    × Inv s' fs (fresh_region r np ∷ ds)
    × (s'.gen_a r ≡ data_of np)
    × (count np (all_pages ds) ≡ 0)
    × Spends malloc s fl ds s' fs (fresh_region r np ∷ ds)
    × ((x : Ptr) → x ≢ r → s'.gen_a x ≡ s.gen_a x)

module _ (malloc : ℕ → ℕ → Ptr) (r₀ r : Ptr) (s : State) (ds : List Desc)
    (region : clear_status_bits r₀ ≡ r) (ne : r ≢ null) (aligned : r % 4 ≡ 0) (fits : r < 2 ^ 64)
    (new : count r (all_addrs ds) ≡ 0) where
  first_at :
      (s₁ : State) (np : Ptr)
      → s₁.global_freelist ≡ np
      → np ≢ null
      → s₁.gen_fp r ≡ null
      → alloc_new_page malloc r s₁ ≡ ok (data_of np) (first_page s₁ r np)
  first_at s₁ np e some_page no_page =
      rw (← e) (alloc_new_page_first malloc s₁ r (ground arith) ne no_page)

  -- From a state `s₁` with a free page that `alloc_new_page` treats as the blank one.
  enter_from :
      (s₁ : State) (np : Ptr) (fs fl : List Ptr)
      → Turns malloc s fl ds s₁ np fs
      → s₁.gen_a ≡ s.gen_a
      → Inv s₁ (np ∷ fs) ds
      → alloc_new_page malloc r (blank s r) ≡ alloc_new_page malloc r s₁
      → s₁.ro_p r ≡ s₁.topregion
      → s₁.ro_lobjs r ≡ null
      → s₁.gen_fp r ≡ null
      → Enters malloc r₀ r s fl ds
  unfolding allocate_region allocate_region0 set_fp set_p set_lobjs set_a
  enter_from s₁ np fs fl turns kept inv same below no_large no_page = (
    entered s₁ r np,
    np,
    fs,
    rw (
      region,
      ==_of_ne r null ne,
      ==_of_ne r null ne,
      ==_of_ne r null ne,
      same,
      first_at s₁ np inv.free.0 inv.free.1 no_page,
      ==_of_ne r null ne,
    ),
    entered-Inv s₁ np fs ds inv r new ne aligned fits below no_large,
    rw (==_refl r),
    ground (arith, inv.distinct np, count-append np (np ∷ fs) (all_pages ds)),
    turns (entered s₁ r np) fs (fresh_region r np ∷ ds) refl refl (λ x.
        omega
          (arith, count-append x fs (np ∷ all_pages ds), count-append x (np ∷ fs) (all_pages ds))),
    λ x other. rw (==_of_ne x r other) (ap (λ f. f x) kept),
  )

  -- `allocateRegion` with a free page or a delivering `malloc` pushes a region with one page, which no
  -- region had, returns its address with the infinite bit set, and keeps the invariant and the
  -- allocation pointers of the other regions. It takes at most one page from the free list, or a chunk
  -- and one of its 100 pages when the list is empty.
  pub allocate_region_lem :
      (fl : List Ptr) → Inv s fl ds → (fl ≡ [] → Delivers malloc s ds) → Enters malloc r₀ r s fl ds
  unfolding grown
  allocate_region_lem (np ∷ fs) inv deliver =
      enter_from (blank s r) np fs (np ∷ fs) (free-Turns malloc s np fs ds) refl
        (blank-Inv s (np ∷ fs) ds inv r new) refl (rw (==_refl r)) (rw (==_refl r)) (rw (==_refl r))
  allocate_region_lem [] inv deliver =
      let del : Delivers malloc (blank s r) ds = record {
        ne_null = (deliver refl).ne_null;
        fits = (deliver refl).fits;
        apart = (deliver refl).apart;
      } in
      let inv' = blank-Inv s [] ds inv r new in
      enter_from (refilled malloc (blank s r)) (chunk_start malloc s)
        (chunk 99 (chunk_start malloc s + sizeof_rp)) [] (refilled-Turns malloc s ds) refl
        (refilled-Inv_cons malloc (blank s r) ds del inv')
        (alloc_new_page_refill malloc (blank s r) r (refilled malloc (blank s r)) inv.free
          (call_sbrk-refilled malloc (blank s r) ds del)
          (refilled-ne malloc (blank s r) ds del inv'))
        (rw (==_refl r)) (rw (==_refl r)) (rw (==_refl r))
