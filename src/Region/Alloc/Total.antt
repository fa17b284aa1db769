-- ===== src/Region/Alloc/Total.antt =====
-- `alloc` of an object that fits a region page, on every path: room in the last page, a page from the
-- free list, or a fresh chunk from `malloc`.
use unikernel_with_region_in.Base.{
  ℕ, ◌+◌, ◌*◌, ◌%◌, ◌<◌, ◌≤◌, ◌≡◌, ◌⊎◌, inl, inr, refl, ◌∙◌, List, [], ◌∷◌, ◌++◌, count,
  count-append, arith, ltb, ltb→lt, not_ltb→le, Bool-cases, ◌≢◌, ap, ==_of_ne,
}
use unikernel_with_region_in.State.{Ptr, State, ok}
use unikernel_with_region_in.Region
use unikernel_with_region_in.Region.{data_of, alloc}
use unikernel_with_region_in.Region.Alloc.{longer, with_a-Inv}
use unikernel_with_region_in.Region.Alloc.Grow.{
  page_new, once, apart, ends, used, longer_state, longer-Inv,
}
use unikernel_with_region_in.Region.Alloc.Small.{
  alloc_gen_fits, alloc_gen_new, alloc_new_page_refill,
}
use unikernel_with_region_in.Region.Focus.{Holds-at, count-all_pages}
use unikernel_with_region_in.Region.Chain.{count-ending}
use unikernel_with_region_in.Region.Layout.{
  sizeof_rp, clear_status_bits, allocatable_words_in_region_page,
}
use unikernel_with_region_in.Region.Layout.Masks.{InPage, rp_boundary_lem}
use unikernel_with_region_in.Region.Pages.{with_a, alloc_new_page_holds}
use unikernel_with_region_in.Region.Refill.{
  Delivers, chunk_start, refilled, call_sbrk-refilled, refilled-Inv_cons, refilled-ne,
}
use unikernel_with_region_in.Region.Sbrk.{chunk, grown}
use unikernel_with_region_in.Region.Supply.{Spends, Turns, free-Turns, refilled-Turns}
use unikernel_with_region_in.Region.View.{Desc, pages, all_pages, Holds, Inv}

-- Where an object of `n` words at `t` stands when the region `d` has become `d'`: inside the last page
-- of `d'`, in front of the allocation pointer, and either at the old allocation pointer of `d` or in a
-- page that no region of the stack `ds` had.
pub record Placed (s s' : State) (ds : List Desc) (d d' : Desc) (t n : ℕ) : Type 0 where
  pub word_aligned : t % 8 ≡ 0
  pub from_data : d'.last + 16 ≤ t
  pub to_end : t + 8 * n ≤ d'.last + sizeof_rp
  pub next : s'.gen_a d.addr ≡ t + 8 * n
  pub spares : (x : Ptr) → x ≢ d.addr → s'.gen_a x ≡ s.gen_a x
  pub same_region : (d'.addr ≡ d.addr) × (d'.large ≡ d.large)
  pub fresh :
      ((d'.front ≡ d.front) × (d'.last ≡ d.last) × (t ≡ s.gen_a d.addr))
      ⊎ ((d'.front ≡ pages d) × (count d'.last (all_pages ds) ≡ 0))

-- The outcome of an allocation in the region `d` of a stack.
abbrev pub Allocates :
    (ℕ → ℕ → Ptr) → Ptr → ℕ → State → List Ptr → List Desc → Desc → List Desc → Type 0
Allocates malloc r n s fl xs d ys =
    (t : Ptr) × (s' : State) × (fl' : List Ptr) × (d' : Desc) × (alloc malloc r n s ≡ ok t s')
    × Inv s' fl' (xs ++ d' ∷ ys)
    × Spends malloc s fl (xs ++ d ∷ ys) s' fl' (xs ++ d' ∷ ys)
    × Placed s s' (xs ++ d ∷ ys) d d' t n

module _ (malloc : ℕ → ℕ → Ptr) (r : Ptr) (n : ℕ) (s : State) (xs : List Desc) (d : Desc)
    (ys : List Desc) (region : clear_status_bits r ≡ d.addr)
    (small : n ≤ allocatable_words_in_region_page) where
  alloc_fits :
      (fl : List Ptr)
      → Inv s fl (xs ++ d ∷ ys)
      → s.gen_a d.addr + 8 * n ≤ d.last + sizeof_rp
      → Allocates malloc r n s fl xs d ys
  unfolding alloc
  alloc_fits fl inv room =
      let h : Holds s d.addr d = Holds-at s.topregion xs d ys inv.stack in
      let a = s.gen_a d.addr + 8 * n in
      (
        s.gen_a d.addr,
        with_a s d.addr a,
        fl,
        d,
        rw region (
            alloc_gen_fits malloc s d.addr n h.ne_null small
              (omega (arith, rp_boundary_lem h.gen.page h.gen.at))),
        with_a-Inv s fl xs d ys inv a (ground arith) (ground arith),
        inl (refl, omega arith, λ x. omega arith),
        record {
          word_aligned = ground arith;
          from_data = ground arith;
          to_end = room;
          next = ground arith;
          spares = λ x ne. rw (==_of_ne x d.addr ne);
          same_region = (refl, refl);
          fresh = inl (refl, refl, refl);
        },
      )

  -- From a state `s₀` with a free page that `alloc_new_page` treats as `s`.
  alloc_grows :
      (s₀ : State) (np : Ptr) (fs fl : List Ptr)
      → Turns malloc s fl (xs ++ d ∷ ys) s₀ np fs
      → s₀.gen_a ≡ s.gen_a
      → Holds s d.addr d
      → Inv s₀ (np ∷ fs) (xs ++ d ∷ ys)
      → Region.alloc_new_page malloc d.addr s ≡ Region.alloc_new_page malloc d.addr s₀
      → d.last + sizeof_rp < s.gen_a d.addr + 8 * n
      → Allocates malloc r n s fl xs d ys
  unfolding alloc
  alloc_grows s₀ np fs fl turns kept h inv same full =
      let h₀ : Holds s₀ d.addr d = Holds-at s₀.topregion xs d ys inv.stack in
      let a = data_of np + 8 * n in
      let at : InPage np a = ground arith in
      let is = page_new s₀ np fs xs d ys inv in
      let even : a % 8 ≡ 0 = omega (arith, is) in
      (
        data_of np,
        longer_state s₀ np fs xs d ys inv a at even,
        fs,
        longer d np,
        rw region (
            alloc_gen_new malloc s d.addr n h.ne_null small (data_of np) _
              (omega (arith, rp_boundary_lem h.gen.page h.gen.at))
              (same
                ∙ alloc_new_page_holds s₀ d.addr np fs inv.free (page_new s₀ np fs xs d ys inv)
                    (once s₀ np fs xs d ys inv) a at even h₀.gen (apart s₀ np fs xs d ys inv)
                    (ends s₀ np fs xs d ys inv) (used s₀ np fs xs d ys inv) malloc h.ne_null)),
        longer-Inv s₀ np fs xs d ys inv a at even,
        turns (longer_state s₀ np fs xs d ys inv a at even) fs (xs ++ longer d np ∷ ys) refl refl
            (λ x. omega (
              arith,
              count-append x fs (all_pages (xs ++ longer d np ∷ ys)),
              count-append x (np ∷ fs) (all_pages (xs ++ d ∷ ys)),
              count-all_pages x xs (longer d np) ys,
              count-all_pages x xs d ys,
              count-ending x (pages d) np,
              count-ending x d.front d.last,
            )),
        record {
          word_aligned = omega (arith, is);
          from_data = omega arith;
          to_end = omega arith;
          next = ground arith;
          spares = λ x ne. rw (==_of_ne x d.addr ne) (ap (λ f. f x) kept);
          same_region = (refl, refl);
          fresh = inr (
            refl,
            ground (arith, inv.distinct np, count-append np (np ∷ fs) (all_pages (xs ++ d ∷ ys))),
          );
        },
      )

  alloc_full :
      (fl : List Ptr)
      → Inv s fl (xs ++ d ∷ ys)
      → (fl ≡ [] → Delivers malloc s (xs ++ d ∷ ys))
      → d.last + sizeof_rp < s.gen_a d.addr + 8 * n
      → Allocates malloc r n s fl xs d ys
  unfolding grown
  alloc_full (np ∷ fs) inv deliver full =
      alloc_grows s np fs (np ∷ fs) (free-Turns malloc s np fs (xs ++ d ∷ ys)) refl
        (Holds-at s.topregion xs d ys inv.stack) inv refl full
  alloc_full [] inv deliver full =
      let del = deliver refl in
      alloc_grows (refilled malloc s) (chunk_start malloc s)
        (chunk 99 (chunk_start malloc s + sizeof_rp)) [] (refilled-Turns malloc s (xs ++ d ∷ ys))
        refl (Holds-at s.topregion xs d ys inv.stack)
        (refilled-Inv_cons malloc s (xs ++ d ∷ ys) del inv)
        (alloc_new_page_refill malloc s d.addr (refilled malloc s) inv.free
          (call_sbrk-refilled malloc s (xs ++ d ∷ ys) del)
          (refilled-ne malloc s (xs ++ d ∷ ys) del inv))
        full

  -- `alloc` of at most 1022 words in any region of the stack succeeds if there is a free page or
  -- `malloc` delivers a chunk: it keeps the invariant, leaves the other regions as they are, and
  -- returns an aligned block that lies in one page of the region, behind all that was allocated before.
  -- It takes at most one page from the free list, or a chunk and one of its 100 pages when the list is
  -- empty.
  pub alloc_small :
      (fl : List Ptr)
      → Inv s fl (xs ++ d ∷ ys)
      → (fl ≡ [] → Delivers malloc s (xs ++ d ∷ ys))
      → Allocates malloc r n s fl xs d ys
  alloc_small fl inv deliver =
      elim (Bool-cases (ltb (d.last + sizeof_rp) (s.gen_a d.addr + 8 * n))) [
        | inl full ↦ alloc_full fl inv deliver (ltb→lt _ _ full)
        | inr room ↦ alloc_fits fl inv (not_ltb→le _ _ room)
      ]
