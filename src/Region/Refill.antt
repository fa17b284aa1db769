-- ===== src/Region/Refill.antt =====
-- `callSbrk` on an empty free list keeps the invariant: the chunk's pages become free pages.
use unikernel_with_region_in.Base.{
  ℕ, ◌+◌, ◌%◌, ◌^◌, ◌<◌, ◌≤◌, ◌≡◌, ◌≢◌, ◌⊎◌, refl, sym, ◌∙◌, inl, inr, subst, List, [], ◌∷◌, ◌++◌,
  count, count-append, All-append, arith, Bool-cases, ◌==◌,
}
use unikernel_with_region_in.State.{Ptr, null, State, ok}
use unikernel_with_region_in.Region.{align_sb, call_sbrk}
use unikernel_with_region_in.Region.Chain.{IsChain}
use unikernel_with_region_in.Region.Layout.{sizeof_rp}
use unikernel_with_region_in.Region.Layout.Masks.{IsPage}
use unikernel_with_region_in.Region.Sbrk.{
  chunk, grown, sbrk_request, grown-IsChain, grown-outside, align_sb_lem, chunk-Distinct,
  chunk-IsPage, chunk-suc, count-chunk_below, count-chunk_above, call_sbrk_chunk,
}
use unikernel_with_region_in.Region.View.{
  Desc, all_pages, all_addrs, all_large, Inv, SameAt, IsStack-frame,
}

-- What the runtime relies on when it asks `malloc` for a chunk: an answer that is not NULL and whose
-- block lies in the address space and overlaps no page in use.
pub record Delivers (malloc : ℕ → ℕ → Ptr) (s : State) (ds : List Desc) : Type 0 where
  pub ne_null : malloc s.mallocs sbrk_request ≢ null
  pub fits : malloc s.mallocs sbrk_request + sbrk_request < 2 ^ 64
  pub apart :
      (p : Ptr)
      → count p (all_pages ds) ≢ 0
      → (p < malloc s.mallocs sbrk_request) ⊎ (malloc s.mallocs sbrk_request + sbrk_request ≤ p)

-- Where the chunk's pages begin, and the memory that holds them.
abbrev pub chunk_start : (ℕ → ℕ → Ptr) → State → Ptr
chunk_start malloc s = align_sb (malloc s.mallocs sbrk_request)

abbrev pub refilled : (ℕ → ℕ → Ptr) → State → State
refilled malloc s = grown (record s { mallocs = s.mallocs + 1 }) (chunk_start malloc s)

module _ (malloc : ℕ → ℕ → Ptr) (s : State) (ds : List Desc) (del : Delivers malloc s ds) where
  pub chunk_start_ne : chunk_start malloc s ≢ null
  chunk_start_ne e =
      let facts = align_sb_lem (malloc s.mallocs sbrk_request) in del.ne_null (omega arith)

  pub call_sbrk-refilled : call_sbrk malloc s ≡ ok tt (refilled malloc s)
  call_sbrk-refilled = call_sbrk_chunk malloc s _ refl del.ne_null

  -- No page in use is a page of the chunk.
  pub chunk-apart :
      (p : Ptr) → count p (all_pages ds) ≢ 0 → count p (chunk 100 (chunk_start malloc s)) ≡ 0
  chunk-apart p h = side (del.apart p h)
    where
      facts :
          (align_sb (malloc s.mallocs sbrk_request) % sizeof_rp ≡ 0)
          × (malloc s.mallocs sbrk_request ≤ align_sb (malloc s.mallocs sbrk_request))
          × (align_sb (malloc s.mallocs sbrk_request) < malloc s.mallocs sbrk_request + sizeof_rp)
      facts = align_sb_lem (malloc s.mallocs sbrk_request)

      side :
          (p < malloc s.mallocs sbrk_request) ⊎ (malloc s.mallocs sbrk_request + sbrk_request ≤ p)
          → count p (chunk 100 (chunk_start malloc s)) ≡ 0
      side (inl low) = count-chunk_below p 100 (chunk_start malloc s) (omega (arith, facts))
      side (inr high) = count-chunk_above p 100 (chunk_start malloc s) (omega (arith, facts))

  module _ (inv : Inv s [] ds) where
    refilled-same : SameAt s (refilled malloc s) (all_pages ds) (all_addrs ds) (all_large ds)
    unfolding grown
    refilled-same = record {
      rp_n = λ x h.
          grown-outside (record s { mallocs = s.mallocs + 1 }) (chunk_start malloc s) x
            (chunk-apart x h);
      rp_gen = λ x h. refl;
      gen_a = λ x h. refl;
      gen_fp = λ x h. refl;
      ro_p = λ x h. refl;
      ro_lobjs = λ x h. refl;
      lobj_next = λ x h. refl;
    }

    pub refilled-free :
        IsChain
          (refilled malloc s).rp_n
          (refilled malloc s).global_freelist
          (chunk 100 (chunk_start malloc s))
          null
    refilled-free =
        subst
          (IsChain (refilled malloc s).rp_n (refilled malloc s).global_freelist
            (chunk 100 (chunk_start malloc s)))
          inv.free
          (grown-IsChain (record s { mallocs = s.mallocs + 1 }) (chunk_start malloc s)
            chunk_start_ne)

    refilled-Distinct : (x : Ptr) → count x (chunk 100 (chunk_start malloc s) ++ all_pages ds) < 2
    refilled-Distinct x = elim (Bool-cases (count x (all_pages ds) == 0)) [
      | inl none ↦ ground (
        arith,
        chunk-Distinct 100 (chunk_start malloc s) x,
        count-append x (chunk 100 (chunk_start malloc s)) (all_pages ds),
      )
      | inr some ↦ ground (
        arith,
        inv.distinct x,
        chunk-apart x,
        count-append x (chunk 100 (chunk_start malloc s)) (all_pages ds),
      )
    ]

    pub refilled-Inv : Inv (refilled malloc s) (chunk 100 (chunk_start malloc s)) ds
    unfolding grown
    refilled-Inv = record {
      free = refilled-free;
      stack = IsStack-frame s.topregion ds refilled-same inv.stack;
      pages =
          All-append IsPage (chunk 100 (chunk_start malloc s)) (all_pages ds)
            (chunk-IsPage 100 (chunk_start malloc s)
              (align_sb_lem (malloc s.mallocs sbrk_request)).0 chunk_start_ne
              (omega (arith, align_sb_lem (malloc s.mallocs sbrk_request), del.fits)))
            inv.pages;
      distinct = refilled-Distinct;
      regions = inv.regions;
      large = inv.large;
    }

    -- The first page of the chunk set apart.
    pub refilled-Inv_cons :
        Inv
          (refilled malloc s)
          (chunk_start malloc s ∷ chunk 99 (chunk_start malloc s + sizeof_rp))
          ds
    refilled-Inv_cons =
        subst (λ ps. Inv (refilled malloc s) ps ds) (chunk-suc 99 (chunk_start malloc s))
          refilled-Inv

    pub refilled-ne : (refilled malloc s).global_freelist ≢ null
    refilled-ne e = chunk_start_ne (sym refilled-Inv_cons.free.0 ∙ e)
