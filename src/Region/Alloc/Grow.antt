-- ===== src/Region/Alloc/Grow.antt =====
-- A region takes the first page of the free list.
use unikernel_with_region_in.Base.{
  ℕ, ◌+◌, ◌%◌, ◌<◌, ◌≡◌, refl, List, [], ◌∷◌, ◌++◌, count, count-append, All, All-append, All-left,
  All-right, arith, ==_of_ne,
}
use unikernel_with_region_in.State.{Ptr, State}
use unikernel_with_region_in.Region.Chain.{count-ending}
use unikernel_with_region_in.Region.Layout.Masks.{IsPage, InPage}
use unikernel_with_region_in.Region.Pages.{next_page, with_a, next_page-free, next_page-GenHolds}
use unikernel_with_region_in.Region.View.{
  Desc, pages, all_pages, all_addrs, all_large, Holds, Inv, SameAt,
}
use unikernel_with_region_in.Region.Focus.{
  count-all_pages, count-all_addrs, count-all_large, All-pages, All-pages_join, Holds-at,
  IsStack-replace,
}
use unikernel_with_region_in.Region.Alloc.{longer, ne-addr_left, ne-addr_right}

module _ (s : State) (np : Ptr) (fs : List Ptr) (xs : List Desc) (d : Desc) (ys : List Desc)
    (inv : Inv s (np ∷ fs) (xs ++ d ∷ ys)) where
  holds : Holds s d.addr d
  holds = Holds-at s.topregion xs d ys inv.stack

  -- How often an address stands in the parts of the free list and of the stack.
  parts :
      (x : Ptr)
      → count x (np ∷ [])
          + count x fs
          + count x (all_pages xs)
          + count x d.front
          + count x (d.last ∷ [])
          + count x (all_pages ys)
        < 2
  parts x = omega (
    arith,
    inv.distinct x,
    count-append x (np ∷ fs) (all_pages (xs ++ d ∷ ys)),
    count-all_pages x xs d ys,
    count-ending x d.front d.last,
  )

  pub page_new : IsPage np
  page_new = inv.pages.0

  pub once : count np fs ≡ 0
  once = ground (arith, parts np)

  pub apart : count np (pages d) ≡ 0
  apart = ground (arith, parts np, count-ending np d.front d.last)

  pub ends : count d.last d.front ≡ 0
  ends = ground (arith, parts d.last)

  pub used : count d.last fs ≡ 0
  used = ground (arith, parts d.last)

  module _ (a : ℕ) (at : InPage np a) (even : a % 8 ≡ 0) where
    abbrev pub longer_state : State
    longer_state = with_a (next_page s d.addr d.last np) d.addr a

    same_left : SameAt s longer_state (all_pages xs) (all_addrs xs) (all_large xs)
    same_left = record {
      rp_n = λ x h. ground (arith, parts x);
      rp_gen = λ x h. ground (arith, parts x);
      gen_a = λ x h. rw (==_of_ne x d.addr (ne-addr_left s (np ∷ fs) xs d ys inv x h));
      gen_fp = λ x h. refl;
      ro_p = λ x h. refl;
      ro_lobjs = λ x h. refl;
      lobj_next = λ x h. refl;
    }

    same_right : SameAt s longer_state (all_pages ys) (all_addrs ys) (all_large ys)
    same_right = record {
      rp_n = λ x h. ground (arith, parts x);
      rp_gen = λ x h. ground (arith, parts x);
      gen_a = λ x h. rw (==_of_ne x d.addr (ne-addr_right s (np ∷ fs) xs d ys inv x h));
      gen_fp = λ x h. refl;
      ro_p = λ x h. refl;
      ro_lobjs = λ x h. refl;
      lobj_next = λ x h. refl;
    }

    longer-Holds : Holds longer_state d.addr (longer d np)
    longer-Holds = record {
      here = refl;
      ne_null = holds.ne_null;
      aligned = holds.aligned;
      fits = holds.fits;
      gen =
          next_page-GenHolds s d.addr np fs inv.free page_new once a at even holds.gen apart ends
            used;
      large = holds.large;
    }

    longer_pages : All IsPage (fs ++ all_pages (xs ++ longer d np ∷ ys))
    longer_pages =
        let old = All-pages xs d ys (All-right IsPage fs (all_pages (xs ++ d ∷ ys)) inv.pages.1) in
        All-append IsPage fs (all_pages (xs ++ longer d np ∷ ys))
          (All-left IsPage fs (all_pages (xs ++ d ∷ ys)) inv.pages.1)
          (All-pages_join xs (longer d np) ys old.0
            (All-append IsPage (pages d) (np ∷ []) old.1 (page_new, tt)) old.2)

    -- The region has the page behind its last one, and the free list has lost it.
    pub longer-Inv : Inv longer_state fs (xs ++ longer d np ∷ ys)
    longer-Inv = record {
      free =
          next_page-free s d.addr np fs inv.free page_new once a at even holds.gen apart ends used;
      stack =
          IsStack-replace d (longer d np) ys longer-Holds refl refl same_right s.topregion xs
            same_left inv.stack;
      pages = longer_pages;
      distinct = λ x. omega (
        arith,
        parts x,
        count-append x fs (all_pages (xs ++ longer d np ∷ ys)),
        count-all_pages x xs (longer d np) ys,
        count-ending x (pages d) np,
        count-ending x d.front d.last,
      );
      regions = λ x.
          omega (
            arith,
            inv.regions x,
            count-all_addrs x xs d ys,
            count-all_addrs x xs (longer d np) ys,
          );
      large = λ x.
          omega
            (arith, inv.large x, count-all_large x xs d ys, count-all_large x xs (longer d np) ys);
    }
