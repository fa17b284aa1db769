-- ===== src/Region/Pages.antt =====
-- `alloc_new_page`: what it writes, and what it makes of a generation and the free list.
use unikernel_with_region_in.Base.{
  ℕ, ◌%◌, ◌≡◌, ◌≢◌, List, [], ◌∷◌, count, All-append, arith, ==_of_ne,
}
use unikernel_with_region_in.State.{Ptr, null, State, ok, upd, load}
use unikernel_with_region_in.Region.{data_of, take_page, alloc_new_page}
use unikernel_with_region_in.Region.Chain.{
  IsChain, ending, IsChain-upd, IsChain-append, IsChain-relink, IsChain-ne_null, count-ending,
}
use unikernel_with_region_in.Region.Layout.{last_rp_of_gen}
use unikernel_with_region_in.Region.Layout.Masks.{IsPage, InPage, last_rp_of_gen_lem}
use unikernel_with_region_in.Region.View.{GenHolds, owned-frame}

-- The memory after `alloc_new_page` gave the page `np` to a generation `g` without pages.
abbrev pub first_page : State → Ptr → Ptr → State
first_page s g np = record s {
  global_freelist = s.rp_n np;
  rp_n = upd s.rp_n np null;
  rp_gen = upd s.rp_gen np g;
  gen_fp = upd s.gen_fp g np;
}

-- The memory after it put `np` behind the last page `last` of `g`.
abbrev pub next_page : State → Ptr → Ptr → Ptr → State
next_page s g last np = record s {
  global_freelist = s.rp_n np;
  rp_n = upd (upd s.rp_n np null) last np;
  rp_gen = upd s.rp_gen np g;
}

module _ (malloc : ℕ → ℕ → Ptr) (s : State) where
  pub take_page_free :
      s.global_freelist ≢ null
      → take_page malloc s
        ≡ ok s.global_freelist (record s { global_freelist = s.rp_n s.global_freelist })
  unfolding take_page load
  take_page_free ne = ground arith

  pub alloc_new_page_first :
      (g : Ptr)
      → s.global_freelist ≢ null
      → g ≢ null
      → s.gen_fp g ≡ null
      → alloc_new_page malloc g s
        ≡ ok (data_of s.global_freelist) (first_page s g s.global_freelist)
  unfolding alloc_new_page
  alloc_new_page_first g ne gne empty = rw (take_page_free ne) (ground arith)

  pub alloc_new_page_next :
      (g last : Ptr)
      → s.global_freelist ≢ null
      → g ≢ null
      → s.gen_fp g ≢ null
      → last ≢ null
      → last_rp_of_gen (s.gen_a g) ≡ last
      → alloc_new_page malloc g s
        ≡ ok (data_of s.global_freelist) (next_page s g last s.global_freelist)
  unfolding alloc_new_page
  alloc_new_page_next g last ne gne some_page lne is_last = rw (take_page_free ne) (ground arith)

-- The same memory with the allocation pointer of `g` at `a`.
abbrev pub with_a : State → Ptr → Ptr → State
with_a s g a = record s { gen_a = upd s.gen_a g a }

module _ (s : State) (g np : Ptr) (fs : List Ptr)
    (free : IsChain s.rp_n s.global_freelist (np ∷ fs) null) (is : IsPage np)
    (once : count np fs ≡ 0) (a : ℕ) (at : InPage np a) (even : a % 8 ≡ 0) where
  -- The page taken is the first of the free list, and the rest stays free.
  pub first_page-free : IsChain (first_page s g np).rp_n (s.rp_n np) fs null
  first_page-free = IsChain-upd s.rp_n np null (s.rp_n np) fs null once free.2

  pub first_page-GenHolds : GenHolds (with_a (first_page s g np) g a) g [] np
  first_page-GenHolds = record {
    chain = ground arith;
    page = is;
    at = ground arith;
    word_aligned = ground arith;
    owned = ground arith;
  }

  module _ {front : List Ptr} {last : Ptr} (gen : GenHolds s g front last)
      (apart : count np (ending front last) ≡ 0) (ends : count last front ≡ 0)
      (used : count last fs ≡ 0) where
    pub next_page-free : IsChain (next_page s g last np).rp_n (s.rp_n np) fs null
    next_page-free =
        IsChain-upd (upd s.rp_n np null) last np (s.rp_n np) fs null used
          (IsChain-upd s.rp_n np null (s.rp_n np) fs null once free.2)

    next_page-chain :
        IsChain (next_page s g last np).rp_n (s.gen_fp g) (ending (ending front last) np) null
    next_page-chain =
        IsChain-append (next_page s g last np).rp_n (s.gen_fp g) (ending front last) np (np ∷ [])
          null
          (IsChain-relink (upd s.rp_n np null) (s.gen_fp g) front last null np ends
            (IsChain-upd s.rp_n np null (s.gen_fp g) (ending front last) null apart gen.chain))
          (ground (arith, count-ending np front last))

    pub next_page-GenHolds : GenHolds (with_a (next_page s g last np) g a) g (ending front last) np
    next_page-GenHolds = record {
      chain = next_page-chain;
      page = is;
      at = ground arith;
      word_aligned = ground arith;
      owned =
          All-append (λ p. upd s.rp_gen np g p ≡ g) (ending front last) (np ∷ [])
            (owned-frame s.rp_gen (upd s.rp_gen np g) g (ending front last)
              (λ x h. rw (==_of_ne x np (ground arith))) gen.owned)
            (ground arith);
    }

    -- The state that `alloc_new_page` leaves behind, for a generation that has pages.
    pub alloc_new_page_holds :
        (malloc : ℕ → ℕ → Ptr)
        → g ≢ null
        → alloc_new_page malloc g s ≡ ok (data_of np) (next_page s g last np)
    alloc_new_page_holds malloc gne = rw (← free.0) (
        alloc_new_page_next malloc s g last (ground arith) gne
          (IsChain-ne_null s.rp_n (s.gen_fp g) front last null gen.chain) gen.page.ne_null
          (last_rp_of_gen_lem gen.page gen.at))
