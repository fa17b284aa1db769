-- ===== src/Region/Focus.antt =====
-- One region in the middle of the stack: what a change of that region alone does to the invariant.
use unikernel_with_region_in.Base.{
  ◌+◌, ◌≡◌, refl, sym, ◌∙◌, List, [], ◌∷◌, ◌++◌, count, count-append, All, All-append, All-left,
  All-right, arith,
}
use unikernel_with_region_in.State.{Ptr, State}
use unikernel_with_region_in.Region.Layout.Masks.{IsPage}
use unikernel_with_region_in.Region.View.{
  Desc, pages, all_pages, all_addrs, all_large, Holds, IsStack, SameAt, SameAt-tail, SameAt-head,
  Holds-move, Holds-frame, IsStack-frame,
}

-- Counts in a stack with `d` between `xs` and `ys`.
pub count-all_pages :
    (x : Ptr) (xs : List Desc) (d : Desc) (ys : List Desc)
    → count x (all_pages (xs ++ d ∷ ys))
      ≡ count x (all_pages xs) + count x (pages d) + count x (all_pages ys)
count-all_pages x [] d ys = omega (arith, count-append x (pages d) (all_pages ys))
count-all_pages x (e ∷ xs) d ys = omega (
  arith,
  count-all_pages x xs d ys,
  count-append x (pages e) (all_pages (xs ++ d ∷ ys)),
  count-append x (pages e) (all_pages xs),
)

pub count-all_large :
    (x : Ptr) (xs : List Desc) (d : Desc) (ys : List Desc)
    → count x (all_large (xs ++ d ∷ ys))
      ≡ count x (all_large xs) + count x d.large + count x (all_large ys)
count-all_large x [] d ys = omega (arith, count-append x d.large (all_large ys))
count-all_large x (e ∷ xs) d ys = omega (
  arith,
  count-all_large x xs d ys,
  count-append x e.large (all_large (xs ++ d ∷ ys)),
  count-append x e.large (all_large xs),
)

pub count-all_addrs :
    (x : Ptr) (xs : List Desc) (d : Desc) (ys : List Desc)
    → count x (all_addrs (xs ++ d ∷ ys))
      ≡ count x (all_addrs xs) + count x (d.addr ∷ []) + count x (all_addrs ys)
count-all_addrs x [] d ys = omega arith
count-all_addrs x (e ∷ xs) d ys = omega (arith, count-all_addrs x xs d ys)

-- The pages of a stack split at `d`.
pub All-pages :
    (xs : List Desc) (d : Desc) (ys : List Desc)
    → All IsPage (all_pages (xs ++ d ∷ ys))
    → All IsPage (all_pages xs) × All IsPage (pages d) × All IsPage (all_pages ys)
All-pages [] d ys h =
    (tt, All-left IsPage (pages d) (all_pages ys) h, All-right IsPage (pages d) (all_pages ys) h)
All-pages (e ∷ xs) d ys h =
    let rest = All-pages xs d ys (All-right IsPage (pages e) (all_pages (xs ++ d ∷ ys)) h) in
    (
      All-append IsPage (pages e) (all_pages xs)
          (All-left IsPage (pages e) (all_pages (xs ++ d ∷ ys)) h) rest.0,
      rest.1,
      rest.2,
    )

pub All-pages_join :
    (xs : List Desc) (d : Desc) (ys : List Desc)
    → All IsPage (all_pages xs)
    → All IsPage (pages d)
    → All IsPage (all_pages ys)
    → All IsPage (all_pages (xs ++ d ∷ ys))
All-pages_join [] d ys h k l = All-append IsPage (pages d) (all_pages ys) k l
All-pages_join (e ∷ xs) d ys h k l =
    All-append IsPage (pages e) (all_pages (xs ++ d ∷ ys))
      (All-left IsPage (pages e) (all_pages xs) h)
      (All-pages_join xs d ys (All-right IsPage (pages e) (all_pages xs) h) k l)

module _ {s : State} where
  -- The region is where the stack says.
  pub Holds-at :
      (top : Ptr) (xs : List Desc) (d : Desc) (ys : List Desc)
      → IsStack s top (xs ++ d ∷ ys)
      → Holds s d.addr d
  Holds-at top [] d ys st = Holds-move d.addr refl st.0
  Holds-at top (e ∷ xs) d ys st = Holds-at (s.ro_p e.addr) xs d ys st.1

module _ {s s' : State} (d d' : Desc) (ys : List Desc) (new : Holds s' d'.addr d')
    (place : d'.addr ≡ d.addr) (below : s'.ro_p d.addr ≡ s.ro_p d.addr)
    (same_ys : SameAt s s' (all_pages ys) (all_addrs ys) (all_large ys)) where
  -- A change of one region that spares the others.
  pub IsStack-replace :
      (top : Ptr) (xs : List Desc)
      → SameAt s s' (all_pages xs) (all_addrs xs) (all_large xs)
      → IsStack s top (xs ++ d ∷ ys)
      → IsStack s' top (xs ++ d' ∷ ys)
  IsStack-replace top [] same st = (
    Holds-move top (st.0.here ∙ sym place) new,
    rw (place, below) (IsStack-frame (s.ro_p d.addr) ys same_ys st.1),
  )
  IsStack-replace top (e ∷ xs) same st = (
    Holds-frame (SameAt-head e xs same) st.0,
    rw (same.ro_p e.addr (ground arith))
        (IsStack-replace (s.ro_p e.addr) xs (SameAt-tail e xs same) st.1),
  )
