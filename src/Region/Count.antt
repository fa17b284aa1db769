-- ===== src/Region/Count.antt =====
-- `NoOfPagesInGen` and `NoOfPagesInRegion`.
use unikernel_with_region_in.Base.{
  ℕ, zero, suc, ◌+◌, ◌%◌, ◌^◌, ◌<◌, ◌≡◌, List, [], ◌∷◌, length, arith, ==_of_ne, ◌∙◌, ap,
}
use unikernel_with_region_in.State.{Ptr, null, State, ok, load_of_ne_null}
use unikernel_with_region_in.Region.{count_pages, no_of_pages_in_gen, no_of_pages_in_region}
use unikernel_with_region_in.Region.Chain.{IsChain}
use unikernel_with_region_in.Region.View.{Desc, pages, Holds}

count_pages_lem :
    (k : ℕ) (p : Ptr) (ps : List Ptr) (i : ℕ) (s : State)
    → IsChain s.rp_n p ps null
    → length ps < k
    → i + length ps < 2 ^ 64
    → count_pages k p i s ≡ ok (i + length ps) s
unfolding count_pages
count_pages_lem zero p ps i s c fuel small = absurd (omega arith)
count_pages_lem (suc k) p [] i s c fuel small = rw c (ap (λ j. ok j s) (omega arith))
count_pages_lem (suc k) p (q ∷ ps) i s c fuel small =
    rw (c.0, ==_of_ne q null c.1, ==_of_ne q null c.1)
      (count_pages_lem k (s.rp_n q) ps ((i + 1) % 2 ^ 64) s c.2 (omega arith) (omega arith)
        ∙ ap (λ j. ok j s) (omega arith))

-- With fuel for its pages `NoOfPagesInRegion` ends, changes nothing, and returns how many pages the
-- region has, for any region that the memory holds.
pub no_of_pages_in_region_lem :
    (k : ℕ) (top : Ptr) (d : Desc) (s : State)
    → Holds s top d
    → length (pages d) < k
    → length (pages d) < 2 ^ 64
    → no_of_pages_in_region k d.addr s ≡ ok (length (pages d)) s
unfolding no_of_pages_in_region no_of_pages_in_gen
no_of_pages_in_region_lem k top d s h fuel small =
    rw
      (
        load_of_ne_null State.gen_fp d.addr s h.ne_null,
        count_pages_lem k (s.gen_fp d.addr) (pages d) 0 s h.gen.chain fuel (omega arith),
      )
      (ap (λ j. ok j s) (omega arith))
