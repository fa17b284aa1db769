-- ===== src/Region/Reset.antt =====
-- `resetGen`: what it makes of a generation and of the free list.
pub mod Keeps
use unikernel_with_region_in.Base.{
  ℕ, zero, suc, ◌+◌, ◌<◌, ◌≡◌, ◌≢◌, refl, sym, ◌∙◌, List, [], ◌∷◌, ◌++◌, count, count-append,
  length, All, arith, ==_of_ne, ==_refl, subst, true, false, ◌==◌,
}
use unikernel_with_region_in.State.{
  Ptr, null, State, ok, upd, load, load_of_ne_null, store_of_ne_null, set_n, set_a,
}
use unikernel_with_region_in.Region.{data_of, reset_gen, free_tail}
use unikernel_with_region_in.Region.Chain.{
  IsChain, ending, count-ending, IsChain-relink, IsChain-upd, IsChain-append, IsChain-ne_null,
}
use unikernel_with_region_in.Region.Layout.{last_rp_of_gen}
use unikernel_with_region_in.Region.Layout.Masks.{IsPage, last_rp_of_gen_lem}
use unikernel_with_region_in.Region.Pages.{with_a}
use unikernel_with_region_in.Region.View.{GenHolds}

-- The first page of a generation, and the others.
abbrev pub first_of : List Ptr → Ptr → Ptr
first_of [] last = last
first_of (f ∷ front) last = f

abbrev pub rest_of : List Ptr → Ptr → List Ptr
rest_of [] last = []
rest_of (f ∷ front) last = ending front last

-- The memory when all pages but the first one are back in the free list.
abbrev pub cut_links : State → List Ptr → Ptr → Ptr → Ptr
cut_links s [] last = s.rp_n
cut_links s (f ∷ front) last = upd (upd s.rp_n last s.global_freelist) f null

abbrev pub cut_free : State → List Ptr → Ptr
cut_free s [] = s.global_freelist
cut_free s (f ∷ front) = s.rp_n f

abbrev pub cut : State → List Ptr → Ptr → State
cut s front last = record s { rp_n = cut_links s front last; global_freelist = cut_free s front }

module _ (s : State) (g : Ptr) (ne : g ≢ null) where
  free_tail_run :
      (f : Ptr) (front : List Ptr) (last : Ptr)
      → GenHolds s g (f ∷ front) last
      → f ≢ last
      → free_tail g s ≡ ok tt (cut s (f ∷ front) last)
  unfolding free_tail set_n load
  free_tail_run f front last gen apart = ground (arith, last_rp_of_gen_lem gen.page gen.at)

  pub reset_gen_run :
      (front : List Ptr) (last : Ptr)
      → GenHolds s g front last
      → count last front ≡ 0
      → reset_gen g s ≡ ok tt (with_a (cut s front last) g (data_of (first_of front last)))
  unfolding reset_gen set_a load
  reset_gen_run [] last gen once = ground arith
  reset_gen_run (f ∷ front) last gen once =
      let some_page : s.rp_n f ≢ null =
        IsChain-ne_null s.rp_n (s.rp_n f) front last null gen.chain.2 in
      ground (arith, free_tail_run f front last gen)

-- The free list when a generation has been cut to its first page.
pub cut-free :
    (s : State) (g : Ptr) (front : List Ptr) (last : Ptr) (fl : List Ptr)
    → GenHolds s g front last
    → IsChain s.rp_n s.global_freelist fl null
    → ((x : Ptr) → count x (ending front last) + count x fl < 2)
    → IsChain
        (cut s front last).rp_n
        (cut s front last).global_freelist
        (rest_of front last ++ fl)
        null
cut-free s g [] last fl gen free once = free
cut-free s g (f ∷ front) last fl gen free once =
    IsChain-append (cut s (f ∷ front) last).rp_n (s.rp_n f) (ending front last) s.global_freelist fl
      null
      (IsChain-upd (upd s.rp_n last s.global_freelist) f null (s.rp_n f) (ending front last)
        s.global_freelist (ground (arith, once f))
        (IsChain-relink s.rp_n (s.rp_n f) front last null s.global_freelist
          (ground (arith, once last, count-ending last front last)) gen.chain.2))
      (IsChain-upd (upd s.rp_n last s.global_freelist) f null s.global_freelist fl null
        (ground (arith, once f))
        (IsChain-upd s.rp_n last s.global_freelist s.global_freelist fl null
          (ground (arith, once last, count-ending last front last)) free))

-- Elsewhere the links are as they were.
pub cut-outside :
    (s : State) (front : List Ptr) (last x : Ptr)
    → count x (ending front last) ≡ 0
    → (cut s front last).rp_n x ≡ s.rp_n x
cut-outside s [] last x out = refl
cut-outside s (f ∷ front) last x out = ground (arith, count-ending x front last)

pub count-first :
    (x : Ptr) (front : List Ptr) (last : Ptr)
    → count x (ending front last)
      ≡ count x (first_of front last ∷ []) + count x (rest_of front last)
count-first x [] last = omega arith
count-first x (f ∷ front) last = omega arith

-- The first page is all that is left.
pub cut-GenHolds :
    (s : State) (g : Ptr) (front : List Ptr) (last : Ptr)
    → GenHolds s g front last
    → IsPage (first_of front last)
    → GenHolds
        (with_a (cut s front last) g (data_of (first_of front last)))
        g
        []
        (first_of front last)
cut-GenHolds s g [] last gen is = record {
  chain = gen.chain;
  page = is;
  at = ground arith;
  word_aligned = ground arith;
  owned = gen.owned;
}
cut-GenHolds s g (f ∷ front) last gen is = record {
  chain = ground arith;
  page = is;
  at = ground arith;
  word_aligned = ground arith;
  owned = (gen.owned.0, tt);
}
