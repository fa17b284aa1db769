-- ===== src/Region/View.antt =====
-- What the memory of the region runtime stands for: a list of free pages and a stack of regions, each
-- with its pages, oldest first, and its large objects.
use unikernel_with_region_in.Base.{
  ◌%◌, ◌^◌, ◌<◌, ◌≡◌, ◌≢◌, ◌∙◌, List, [], ◌∷◌, ◌++◌, count, count-append, All, arith,
}
use unikernel_with_region_in.State.{Ptr, null, State}
use unikernel_with_region_in.Region.Chain.{IsChain, Distinct, ending, IsChain-frame}
use unikernel_with_region_in.Region.Layout.Masks.{IsPage, InPage}

-- A region: the address of its descriptor, its pages, the last of them set apart, and the addresses of
-- its large objects, the newest first.
pub record Desc : Type 0 where
  pub addr : Ptr
  pub front : List Ptr
  pub last : Ptr
  pub large : List Ptr

abbrev pub pages : Desc → List Ptr
pages d = ending d.front d.last

abbrev pub all_pages : List Desc → List Ptr
all_pages [] = []
all_pages (d ∷ ds) = pages d ++ all_pages ds

abbrev pub all_addrs : List Desc → List Ptr
all_addrs [] = []
all_addrs (d ∷ ds) = d.addr ∷ all_addrs ds

abbrev pub all_large : List Desc → List Ptr
all_large [] = []
all_large (d ∷ ds) = d.large ++ all_large ds

-- A generation at `g` has the pages `front`, `last`, linked from `fp` and ended by NULL; its
-- allocation pointer is in the last one, and every page points back to the generation.
pub record GenHolds (s : State) (g : Ptr) (front : List Ptr) (last : Ptr) : Type 0 where
  pub chain : IsChain s.rp_n (s.gen_fp g) (ending front last) null
  pub page : IsPage last
  pub at : InPage last (s.gen_a g)
  pub word_aligned : s.gen_a g % 8 ≡ 0
  pub owned : All (λ p. s.rp_gen p ≡ g) (ending front last)

-- The descriptor at `top` is that of `d`.
pub record Holds (s : State) (top : Ptr) (d : Desc) : Type 0 where
  pub here : top ≡ d.addr
  pub ne_null : d.addr ≢ null
  pub aligned : d.addr % 4 ≡ 0
  pub fits : d.addr < 2 ^ 64
  pub gen : GenHolds s d.addr d.front d.last
  pub large : IsChain s.lobj_next (s.ro_lobjs d.addr) d.large null

-- The region stack from `top` down.
abbrev pub IsStack : State → Ptr → List Desc → Type 0
IsStack s top [] = top ≡ null
IsStack s top (d ∷ ds) = Holds s top d × IsStack s (s.ro_p d.addr) ds

-- The invariant of the runtime: every page is in the free list or in one region, once.
pub record Inv (s : State) (fl : List Ptr) (ds : List Desc) : Type 0 where
  pub free : IsChain s.rp_n s.global_freelist fl null
  pub stack : IsStack s s.topregion ds
  pub pages : All IsPage (fl ++ all_pages ds)
  pub distinct : Distinct (fl ++ all_pages ds)
  pub regions : Distinct (all_addrs ds)
  pub large : Distinct (all_large ds)

-- Two states agree at some pages, region descriptors and large objects.
pub record SameAt (s s' : State) (ps rs ls : List Ptr) : Type 0 where
  pub rp_n : (x : Ptr) → count x ps ≢ 0 → s'.rp_n x ≡ s.rp_n x
  pub rp_gen : (x : Ptr) → count x ps ≢ 0 → s'.rp_gen x ≡ s.rp_gen x
  pub gen_a : (x : Ptr) → count x rs ≢ 0 → s'.gen_a x ≡ s.gen_a x
  pub gen_fp : (x : Ptr) → count x rs ≢ 0 → s'.gen_fp x ≡ s.gen_fp x
  pub ro_p : (x : Ptr) → count x rs ≢ 0 → s'.ro_p x ≡ s.ro_p x
  pub ro_lobjs : (x : Ptr) → count x rs ≢ 0 → s'.ro_lobjs x ≡ s.ro_lobjs x
  pub lobj_next : (x : Ptr) → count x ls ≢ 0 → s'.lobj_next x ≡ s.lobj_next x

pub owned-frame :
    (f f' : Ptr → Ptr) (g : Ptr) (ps : List Ptr)
    → ((x : Ptr) → count x ps ≢ 0 → f' x ≡ f x)
    → All (λ p. f p ≡ g) ps
    → All (λ p. f' p ≡ g) ps
owned-frame f f' g [] same h = tt
owned-frame f f' g (p ∷ ps) same h =
    (same p (ground arith) ∙ h.0, owned-frame f f' g ps (λ x k. same x (ground arith)) h.1)

pub Holds-move :
    {s : State} {top : Ptr} {d : Desc} (t : Ptr) → t ≡ d.addr → Holds s top d → Holds s t d
Holds-move t e h = record {
  here = e;
  ne_null = h.ne_null;
  aligned = h.aligned;
  fits = h.fits;
  gen = h.gen;
  large = h.large;
}

module _ {s s' : State} where
  -- A region survives any change that spares its pages, its descriptor and its large objects.
  pub Holds-frame :
      {top : Ptr} {d : Desc}
      → SameAt s s' (pages d) (d.addr ∷ []) d.large
      → Holds s top d
      → Holds s' top d
  Holds-frame {d} same h =
      let a = same.gen_a d.addr (ground arith) in
      record {
        here = h.here;
        ne_null = h.ne_null;
        aligned = h.aligned;
        fits = h.fits;
        gen = record {
          chain =
              rw (same.gen_fp d.addr (ground arith))
                (IsChain-frame s.rp_n s'.rp_n _ (pages d) null same.rp_n h.gen.chain);
          page = h.gen.page;
          at = rw a h.gen.at;
          word_aligned = rw a h.gen.word_aligned;
          owned = owned-frame s.rp_gen s'.rp_gen d.addr (pages d) same.rp_gen h.gen.owned;
        };
        large =
            rw (same.ro_lobjs d.addr (ground arith))
              (IsChain-frame s.lobj_next s'.lobj_next _ d.large null same.lobj_next h.large);
      }

  pub SameAt-head :
      (d : Desc) (ds : List Desc)
      → SameAt s s' (all_pages (d ∷ ds)) (all_addrs (d ∷ ds)) (all_large (d ∷ ds))
      → SameAt s s' (pages d) (d.addr ∷ []) d.large
  SameAt-head d ds same = record {
    rp_n = λ x h. same.rp_n x (ground (arith, count-append x (pages d) (all_pages ds)));
    rp_gen = λ x h. same.rp_gen x (ground (arith, count-append x (pages d) (all_pages ds)));
    gen_a = λ x h. same.gen_a x (ground arith);
    gen_fp = λ x h. same.gen_fp x (ground arith);
    ro_p = λ x h. same.ro_p x (ground arith);
    ro_lobjs = λ x h. same.ro_lobjs x (ground arith);
    lobj_next = λ x h. same.lobj_next x (ground (arith, count-append x d.large (all_large ds)));
  }

  pub SameAt-tail :
      (d : Desc) (ds : List Desc)
      → SameAt s s' (all_pages (d ∷ ds)) (all_addrs (d ∷ ds)) (all_large (d ∷ ds))
      → SameAt s s' (all_pages ds) (all_addrs ds) (all_large ds)
  SameAt-tail d ds same = record {
    rp_n = λ x h. same.rp_n x (ground (arith, count-append x (pages d) (all_pages ds)));
    rp_gen = λ x h. same.rp_gen x (ground (arith, count-append x (pages d) (all_pages ds)));
    gen_a = λ x h. same.gen_a x (ground arith);
    gen_fp = λ x h. same.gen_fp x (ground arith);
    ro_p = λ x h. same.ro_p x (ground arith);
    ro_lobjs = λ x h. same.ro_lobjs x (ground arith);
    lobj_next = λ x h. same.lobj_next x (ground (arith, count-append x d.large (all_large ds)));
  }

  -- So does the whole stack.
  pub IsStack-frame :
      (top : Ptr) (ds : List Desc)
      → SameAt s s' (all_pages ds) (all_addrs ds) (all_large ds)
      → IsStack s top ds
      → IsStack s' top ds
  IsStack-frame top [] same st = st
  IsStack-frame top (d ∷ ds) same st = (
    Holds-frame (SameAt-head d ds same) st.0,
    rw (same.ro_p d.addr (ground arith))
        (IsStack-frame (s.ro_p d.addr) ds (SameAt-tail d ds same) st.1),
  )
