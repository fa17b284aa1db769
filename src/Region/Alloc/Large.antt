-- ===== src/Region/Alloc/Large.antt =====
-- `alloc` of an object that does not fit a region page, and `alloc` without memory.
use unikernel_with_region_in.Base.{
  ℕ, ◌+◌, ◌-◌, ◌*◌, ◌^◌, ◌<◌, ◌≤◌, ◌≡◌, ◌≢◌, refl, List, [], ◌∷◌, ◌++◌, count, count-append, arith,
  ==_of_ne, ==_refl, lt→ltb, le→not_ltb, true, ◌==◌, All-append, All-left, All-right,
}
use unikernel_with_region_in.State.{
  Ptr, null, State, ok, fault, died, upd, load, load_of_ne_null, set_lobj_next, set_lobjs,
  malloc_with,
}
use unikernel_with_region_in.Region.{
  lobjs_bytes, alloc_lobjs, alloc_large, alloc_gen, alloc, take_page, alloc_new_page,
}
use unikernel_with_region_in.Region.Alloc.{ne-addr_left, ne-addr_right}
use unikernel_with_region_in.Region.Chain.{IsChain-upd}
use unikernel_with_region_in.Region.Focus.{
  count-all_pages, count-all_addrs, count-all_large, All-pages, All-pages_join, Holds-at,
  IsStack-replace,
}
use unikernel_with_region_in.Region.Layout.{
  sizeof_rp, clear_status_bits, allocatable_words_in_region_page, rp_boundary,
}
use unikernel_with_region_in.Region.Layout.Masks.{IsPage, rp_boundary_lem}
use unikernel_with_region_in.Region.Sbrk.{sbrk_request, call_sbrk-null}
use unikernel_with_region_in.Region.View.{Desc, all_pages, all_addrs, all_large, Holds, Inv, SameAt}

-- Up to 2^31 words `alloc_lobjs` asks for the words and for `sizeof(Lobjs)` bytes.
pub lobjs_bytes_lem : (n : ℕ) → n < 2 ^ 31 → lobjs_bytes n ≡ 8 * n + 16
unfolding lobjs_bytes
lobjs_bytes_lem n h = ground arith

-- Because its parameter is an `int`, from 2^32 words on it asks for less than the words take.
pub lobjs_bytes_truncated :
    (n : ℕ) → 2 ^ 32 ≤ n → n < 2 ^ 32 + 2 ^ 31 → lobjs_bytes n + (2 ^ 35 - 16) ≡ 8 * n
unfolding lobjs_bytes
lobjs_bytes_truncated n lo hi = ground arith

-- The region `d` with one more large object.
abbrev pub with_large : Desc → Ptr → Desc
with_large d l = record d { large = l ∷ d.large }

abbrev pub large_state : State → Ptr → Ptr → State
large_state s g l = record s {
  mallocs = s.mallocs + 1;
  lobj_next = upd s.lobj_next l (s.ro_lobjs g);
  ro_lobjs = upd s.ro_lobjs g l;
}

module _ (malloc : ℕ → ℕ → Ptr) (n : ℕ) (large : allocatable_words_in_region_page < n)
    (s : State) where
  alloc_gen_large :
      (g l : Ptr)
      → g ≢ null
      → malloc s.mallocs (lobjs_bytes n) ≡ l
      → l ≢ null
      → alloc_gen malloc g n s ≡ ok (l + 8) (large_state s g l)
  unfolding alloc_gen alloc_large alloc_lobjs malloc_with load set_lobj_next set_lobjs
  alloc_gen_large g l gne e ne = rw (lt→ltb _ _ large, e) (ground arith)

  -- Without memory for a large object the runtime stops with a message.
  pub alloc_large_died :
      (r : Ptr) → malloc s.mallocs (lobjs_bytes n) ≡ null → alloc malloc r n s ≡ died
  unfolding alloc alloc_gen alloc_large alloc_lobjs
  alloc_large_died r e = rw (lt→ltb _ _ large, e)

  module _ (fl : List Ptr) (xs : List Desc) (d : Desc) (ys : List Desc)
      (inv : Inv s fl (xs ++ d ∷ ys)) (l : Ptr) (new : count l (all_large (xs ++ d ∷ ys)) ≡ 0)
      (ne : l ≢ null) where
    holds : Holds s d.addr d
    holds = Holds-at s.topregion xs d ys inv.stack

    same_left : SameAt s (large_state s d.addr l) (all_pages xs) (all_addrs xs) (all_large xs)
    same_left = record {
      rp_n = λ x h. refl;
      rp_gen = λ x h. refl;
      gen_a = λ x h. refl;
      gen_fp = λ x h. refl;
      ro_p = λ x h. refl;
      ro_lobjs = λ x h. rw (==_of_ne x d.addr (ne-addr_left s fl xs d ys inv x h));
      lobj_next = λ x h. ground (arith, count-all_large l xs d ys);
    }

    same_right : SameAt s (large_state s d.addr l) (all_pages ys) (all_addrs ys) (all_large ys)
    same_right = record {
      rp_n = λ x h. refl;
      rp_gen = λ x h. refl;
      gen_a = λ x h. refl;
      gen_fp = λ x h. refl;
      ro_p = λ x h. refl;
      ro_lobjs = λ x h. rw (==_of_ne x d.addr (ne-addr_right s fl xs d ys inv x h));
      lobj_next = λ x h. ground (arith, count-all_large l xs d ys);
    }

    large-Holds : Holds (large_state s d.addr l) d.addr (with_large d l)
    large-Holds = record {
      here = refl;
      ne_null = holds.ne_null;
      aligned = holds.aligned;
      fits = holds.fits;
      gen = record {
        chain = holds.gen.chain;
        page = holds.gen.page;
        at = holds.gen.at;
        word_aligned = holds.gen.word_aligned;
        owned = holds.gen.owned;
      };
      large = rw (==_refl d.addr) (
        refl,
        ne,
        rw (==_refl l) (
            IsChain-upd s.lobj_next l (s.ro_lobjs d.addr) (s.ro_lobjs d.addr) d.large null
              (omega (arith, count-all_large l xs d ys)) holds.large),
      );
    }

    large_state-Inv : Inv (large_state s d.addr l) fl (xs ++ with_large d l ∷ ys)
    large_state-Inv = record {
      free = inv.free;
      stack =
          IsStack-replace d (with_large d l) ys large-Holds refl refl same_right s.topregion xs
            same_left inv.stack;
      pages =
          All-append IsPage fl (all_pages (xs ++ with_large d l ∷ ys))
            (All-left IsPage fl (all_pages (xs ++ d ∷ ys)) inv.pages)
            (let old =
                All-pages xs d ys (All-right IsPage fl (all_pages (xs ++ d ∷ ys)) inv.pages) in
              All-pages_join xs (with_large d l) ys old.0 old.1 old.2);
      distinct = λ x. omega (
        arith,
        inv.distinct x,
        count-append x fl (all_pages (xs ++ d ∷ ys)),
        count-append x fl (all_pages (xs ++ with_large d l ∷ ys)),
        count-all_pages x xs d ys,
        count-all_pages x xs (with_large d l) ys,
      );
      regions = λ x. omega (
        arith,
        inv.regions x,
        count-all_addrs x xs d ys,
        count-all_addrs x xs (with_large d l) ys,
      );
      large = λ x.
          ground (
            arith,
            inv.large x,
            count-all_large x xs d ys,
            count-all_large x xs (with_large d l) ys,
          );
    }

    -- For an object of more than 1022 and fewer than 2^31 words in any region of the stack `malloc` is
    -- asked for 8 bytes for each word and 16 more, and gives a block that no region has. Then `alloc`
    -- returns the address 8 bytes behind its start. The block is the newest large object of the
    -- region, its link leads to the one before, and the allocator's state is the same but for this
    -- link, the head of the region's list and the count of calls of `malloc`: nothing is freed. The
    -- invariant holds for the region with one more large object.
    pub alloc_large_lem :
        (r : Ptr)
        → clear_status_bits r ≡ d.addr
        → n < 2 ^ 31
        → malloc s.mallocs (8 * n + 16) ≡ l
        → (alloc malloc r n s
            ≡ ok (l + 8) (record s {
              mallocs = s.mallocs + 1;
              lobj_next = upd s.lobj_next l (s.ro_lobjs d.addr);
              ro_lobjs = upd s.ro_lobjs d.addr l;
            }))
          × Inv (large_state s d.addr l) fl (xs ++ with_large d l ∷ ys)
    unfolding alloc
    alloc_large_lem r region small e = (
      rw region (alloc_gen_large d.addr l holds.ne_null (rw (lobjs_bytes_lem n small) e) ne),
      large_state-Inv,
    )

-- When a region needs a page, the free list is empty and `malloc` fails, the runtime goes through the
-- NULL free list: `callSbrk` only prints a message.
pub alloc_fault :
    (malloc : ℕ → ℕ → Ptr) (r : Ptr) (n : ℕ) (s : State) (xs : List Desc) (d : Desc)
    (ys : List Desc)
    → Inv s [] (xs ++ d ∷ ys)
    → clear_status_bits r ≡ d.addr
    → n ≤ allocatable_words_in_region_page
    → d.last + sizeof_rp < s.gen_a d.addr + 8 * n
    → malloc s.mallocs sbrk_request ≡ null
    → alloc malloc r n s ≡ fault
unfolding alloc alloc_gen alloc_new_page take_page
alloc_fault malloc r n s xs d ys inv region small full fails =
    let h : Holds s d.addr d = Holds-at s.topregion xs d ys inv.stack in
    let empty : (s.global_freelist == null) ≡ true = ground (arith, inv.free) in
    rw (
      region,
      le→not_ltb allocatable_words_in_region_page n small,
      load_of_ne_null State.gen_a d.addr s h.ne_null,
      lt→ltb (rp_boundary (s.gen_a d.addr)) (s.gen_a d.addr + 8 * n)
          (omega (arith, rp_boundary_lem h.gen.page h.gen.at)),
      empty,
      call_sbrk-null malloc s fails,
      empty,
    )
