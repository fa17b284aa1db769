-- ===== src/Region/Reset/Keeps.antt =====
-- `resetRegion` of a region of the stack.
use unikernel_with_region_in.Base.{
  ℕ, ◌+◌, ◌<◌, ◌≡◌, refl, List, [], ◌∷◌, ◌++◌, count, count-append, length, All, All-append,
  All-left, All-right, arith, ==_of_ne, ==_refl,
}
use unikernel_with_region_in.State.{Ptr, null, State, ok, upd, load_of_ne_null, set_lobjs}
use unikernel_with_region_in.Region.{data_of, reset_region}
use unikernel_with_region_in.Region.Alloc.{ne-addr_left, ne-addr_right}
use unikernel_with_region_in.Region.Chain.{ending, count-ending}
use unikernel_with_region_in.Region.Dealloc.{freed_onto, free_lobjs_lem}
use unikernel_with_region_in.Region.Focus.{
  count-all_pages, count-all_addrs, count-all_large, All-pages, All-pages_join, Holds-at,
  IsStack-replace,
}
use unikernel_with_region_in.Region.Layout.{clear_status_bits}
use unikernel_with_region_in.Region.Layout.Masks.{IsPage}
use unikernel_with_region_in.Region.Pages.{with_a}
use unikernel_with_region_in.Region.Reset.{
  first_of, rest_of, cut, reset_gen_run, cut-free, cut-outside, count-first, cut-GenHolds,
}
use unikernel_with_region_in.Region.View.{
  Desc, pages, all_pages, all_addrs, all_large, Holds, Inv, SameAt,
}

-- A region with nothing but its first page.
abbrev pub emptied : Desc → Desc
emptied d = record d { front = []; last = first_of d.front d.last; large = [] }

-- The memory after `resetRegion`.
abbrev pub reset_state : State → Desc → State
reset_state s d =
    let s₁ = with_a (cut s d.front d.last) d.addr (data_of (first_of d.front d.last)) in
    record s₁ { freed = freed_onto d.large s₁.freed; ro_lobjs = upd s₁.ro_lobjs d.addr null }

All-first :
    (front : List Ptr) (last : Ptr)
    → All IsPage (ending front last)
    → IsPage (first_of front last) × All IsPage (rest_of front last)
All-first [] last h = (h.0, tt)
All-first (f ∷ front) last h = h

module _ (s : State) (fl : List Ptr) (xs : List Desc) (d : Desc) (ys : List Desc)
    (inv : Inv s fl (xs ++ d ∷ ys)) where
  holds : Holds s d.addr d
  holds = Holds-at s.topregion xs d ys inv.stack

  parts :
      (x : Ptr)
      → count x fl + count x (all_pages xs) + count x (pages d) + count x (all_pages ys) < 2
  parts x = omega (
    arith,
    inv.distinct x,
    count-append x fl (all_pages (xs ++ d ∷ ys)),
    count-all_pages x xs d ys,
  )

  pub reset_region_run :
      (k : ℕ) (r : Ptr)
      → clear_status_bits r ≡ d.addr
      → length d.large < k
      → reset_region k r s ≡ ok r (reset_state s d)
  unfolding reset_region set_lobjs
  reset_region_run k r region fuel =
      let s₁ = with_a (cut s d.front d.last) d.addr (data_of (first_of d.front d.last)) in
      rw (
        region,
        reset_gen_run s d.addr holds.ne_null d.front d.last holds.gen
            (ground (arith, parts d.last, count-ending d.last d.front d.last)),
        load_of_ne_null State.ro_lobjs d.addr s₁ holds.ne_null,
        free_lobjs_lem k (s.ro_lobjs d.addr) d.large s₁ holds.large fuel,
        ==_of_ne d.addr null holds.ne_null,
      )

  same_left : SameAt s (reset_state s d) (all_pages xs) (all_addrs xs) (all_large xs)
  same_left = record {
    rp_n = λ x h. cut-outside s d.front d.last x (ground (arith, parts x));
    rp_gen = λ x h. refl;
    gen_a = λ x h. rw (==_of_ne x d.addr (ne-addr_left s fl xs d ys inv x h));
    gen_fp = λ x h. refl;
    ro_p = λ x h. refl;
    ro_lobjs = λ x h. rw (==_of_ne x d.addr (ne-addr_left s fl xs d ys inv x h));
    lobj_next = λ x h. refl;
  }

  same_right : SameAt s (reset_state s d) (all_pages ys) (all_addrs ys) (all_large ys)
  same_right = record {
    rp_n = λ x h. cut-outside s d.front d.last x (ground (arith, parts x));
    rp_gen = λ x h. refl;
    gen_a = λ x h. rw (==_of_ne x d.addr (ne-addr_right s fl xs d ys inv x h));
    gen_fp = λ x h. refl;
    ro_p = λ x h. refl;
    ro_lobjs = λ x h. rw (==_of_ne x d.addr (ne-addr_right s fl xs d ys inv x h));
    lobj_next = λ x h. refl;
  }

  d_pages : IsPage (first_of d.front d.last) × All IsPage (rest_of d.front d.last)
  d_pages =
      All-first d.front d.last
        (All-pages xs d ys (All-right IsPage fl (all_pages (xs ++ d ∷ ys)) inv.pages)).1

  emptied-Holds : Holds (reset_state s d) d.addr (emptied d)
  emptied-Holds =
      let gen = cut-GenHolds s d.addr d.front d.last holds.gen d_pages.0 in
      record {
        here = refl;
        ne_null = holds.ne_null;
        aligned = holds.aligned;
        fits = holds.fits;
        gen = record {
          chain = gen.chain;
          page = gen.page;
          at = gen.at;
          word_aligned = gen.word_aligned;
          owned = gen.owned;
        };
        large = ground arith;
      }

  emptied_pages : All IsPage ((rest_of d.front d.last ++ fl) ++ all_pages (xs ++ emptied d ∷ ys))
  emptied_pages =
      let old = All-pages xs d ys (All-right IsPage fl (all_pages (xs ++ d ∷ ys)) inv.pages) in
      All-append IsPage (rest_of d.front d.last ++ fl) (all_pages (xs ++ emptied d ∷ ys))
        (All-append IsPage (rest_of d.front d.last) fl d_pages.1
          (All-left IsPage fl (all_pages (xs ++ d ∷ ys)) inv.pages))
        (All-pages_join xs (emptied d) ys old.0 (d_pages.0, tt) old.2)

  -- All pages of the region but the first are free again.
  pub reset_state-Inv : Inv (reset_state s d) (rest_of d.front d.last ++ fl) (xs ++ emptied d ∷ ys)
  reset_state-Inv = record {
    free = cut-free s d.addr d.front d.last fl holds.gen inv.free (λ x. omega (arith, parts x));
    stack =
        IsStack-replace d (emptied d) ys emptied-Holds refl refl same_right s.topregion xs same_left
          inv.stack;
    pages = emptied_pages;
    distinct = λ x. omega (
      arith,
      parts x,
      count-append x (rest_of d.front d.last ++ fl) (all_pages (xs ++ emptied d ∷ ys)),
      count-append x (rest_of d.front d.last) fl,
      count-all_pages x xs (emptied d) ys,
      count-first x d.front d.last,
    );
    regions = λ x.
        omega
          (arith, inv.regions x, count-all_addrs x xs d ys, count-all_addrs x xs (emptied d) ys);
    large = λ x.
        omega (arith, inv.large x, count-all_large x xs d ys, count-all_large x xs (emptied d) ys);
  }

  -- `resetRegion` of any region of the stack ends, returns its argument with its status bits, keeps
  -- the first page of the region and allocates from its start again, puts the other pages in front of
  -- the free list, frees each large object of the region once, and keeps the invariant.
  pub reset_region_lem :
      (k : ℕ) (r : Ptr)
      → clear_status_bits r ≡ d.addr
      → length d.large < k
      → (s' : State) × (reset_region k r s ≡ ok r s')
        × Inv s' (rest_of d.front d.last ++ fl) (xs ++ emptied d ∷ ys)
        × (s'.gen_a d.addr ≡ data_of (first_of d.front d.last))
        × (s'.freed ≡ freed_onto d.large s.freed)
  reset_region_lem k r region fuel = (
    reset_state s d,
    reset_region_run k r region fuel,
    reset_state-Inv,
    rw (==_refl d.addr),
    refl,
  )
