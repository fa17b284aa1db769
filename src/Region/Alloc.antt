-- ===== src/Region/Alloc.antt =====
-- Allocation of small objects in a region of the stack keeps the invariant.
pub mod Grow
pub mod Large
pub mod Small
pub mod Total
use unikernel_with_region_in.Base.{
  ℕ, suc, ◌+◌, ◌*◌, ◌%◌, ◌^◌, ◌<◌, ◌≤◌, ◌≡◌, ◌≢◌, refl, sym, ◌∙◌, ap, List, [], ◌∷◌, ◌++◌, count,
  count-append, All, All-append, All-left, All-right, arith, ==_of_ne, ltb, lt→ltb, le→not_ltb,
}
use unikernel_with_region_in.State.{Ptr, null, State, ok, upd, load_of_ne_null, store_of_ne_null}
use unikernel_with_region_in.Region.Chain.{IsChain, Distinct, ending, count-ending}
use unikernel_with_region_in.Region.Layout.Masks.{IsPage, InPage}
use unikernel_with_region_in.Region.Pages.{
  next_page, with_a, next_page-free, next_page-GenHolds, alloc_new_page_holds,
}
use unikernel_with_region_in.Region.View.{
  Desc, pages, all_pages, all_addrs, all_large, GenHolds, Holds, IsStack, Inv, SameAt,
}
use unikernel_with_region_in.Region.Focus.{
  count-all_pages, count-all_addrs, count-all_large, All-pages, All-pages_join, Holds-at,
  IsStack-replace,
}

-- The region `d` with one more page.
abbrev pub longer : Desc → Ptr → Desc
longer d np = record d { front = ending d.front d.last; last = np }

module _ (s : State) (fl : List Ptr) (xs : List Desc) (d : Desc) (ys : List Desc)
    (inv : Inv s fl (xs ++ d ∷ ys)) where
  holds : Holds s d.addr d
  holds = Holds-at s.topregion xs d ys inv.stack

  -- No other region has the descriptor of `d`.
  pub ne-addr_left : (x : Ptr) → count x (all_addrs xs) ≢ 0 → x ≢ d.addr
  ne-addr_left x h = ground (arith, inv.regions x, count-all_addrs x xs d ys)

  pub ne-addr_right : (x : Ptr) → count x (all_addrs ys) ≢ 0 → x ≢ d.addr
  ne-addr_right x h = ground (arith, inv.regions x, count-all_addrs x xs d ys)

  module _ (a : ℕ) (at : InPage d.last a) (even : a % 8 ≡ 0) where
    same_left : SameAt s (with_a s d.addr a) (all_pages xs) (all_addrs xs) (all_large xs)
    same_left = record {
      rp_n = λ x h. refl;
      rp_gen = λ x h. refl;
      gen_a = λ x h. rw (==_of_ne x d.addr (ne-addr_left x h));
      gen_fp = λ x h. refl;
      ro_p = λ x h. refl;
      ro_lobjs = λ x h. refl;
      lobj_next = λ x h. refl;
    }

    same_right : SameAt s (with_a s d.addr a) (all_pages ys) (all_addrs ys) (all_large ys)
    same_right = record {
      rp_n = λ x h. refl;
      rp_gen = λ x h. refl;
      gen_a = λ x h. rw (==_of_ne x d.addr (ne-addr_right x h));
      gen_fp = λ x h. refl;
      ro_p = λ x h. refl;
      ro_lobjs = λ x h. refl;
      lobj_next = λ x h. refl;
    }

    bumped : Holds (with_a s d.addr a) d.addr d
    bumped = record {
      here = refl;
      ne_null = holds.ne_null;
      aligned = holds.aligned;
      fits = holds.fits;
      gen = record {
        chain = holds.gen.chain;
        page = holds.gen.page;
        at = ground arith;
        word_aligned = ground arith;
        owned = holds.gen.owned;
      };
      large = holds.large;
    }

    -- The allocation pointer of a region may move within its last page.
    pub with_a-Inv : Inv (with_a s d.addr a) fl (xs ++ d ∷ ys)
    with_a-Inv = record {
      free = inv.free;
      stack = IsStack-replace d d ys bumped refl refl same_right s.topregion xs same_left inv.stack;
      pages = inv.pages;
      distinct = inv.distinct;
      regions = inv.regions;
      large = inv.large;
    }
