-- ===== src/Region/Programs/Unwinding.antt =====
-- deallocateRegionsUntil in a program: the objects of the regions that are popped are lost.
use unikernel_with_region_in.Base.{
  ℕ, zero, suc, ◌<◌, ◌≤◌, ◌≡◌, ◌≢◌, refl, sym, ap, subst, List, [], ◌∷◌, ◌++◌, ◌==◌, leb, count,
  length, length-append, All, arith, Bool-cases, inl, inr, true, false, ==_refl,
}
use unikernel_with_region_in.State.{Ptr, null, State, ok}
use unikernel_with_region_in.Region.{pop_until, deallocate_regions_until}
use unikernel_with_region_in.Region.Dealloc.{popped, deallocate_region_run}
use unikernel_with_region_in.Region.Dealloc.Until.{left_by}
use unikernel_with_region_in.Region.Layout.{clear_status_bits}
use unikernel_with_region_in.Region.Supply.{IsSupply, IsSupply-fewer}
use unikernel_with_region_in.Region.View.{all_pages, Desc, pages, all_addrs, IsStack}
use unikernel_with_region_in.Region.Programs.{unwinds, call, addrs_left, stack_from}
use unikernel_with_region_in.Region.Programs.Live.{Block, IsHoused, without, within}
use unikernel_with_region_in.Region.Programs.Ready.{IsReady, popped-IsReady}
use unikernel_with_region_in.Region.Programs.Calls.{popped-pages, Does}

addrs-left_by : (r : Ptr) (ds : List Desc) → all_addrs (left_by r ds) ≡ addrs_left r (all_addrs ds)
unfolding left_by addrs_left
addrs-left_by r [] = refl
addrs-left_by r (d ∷ ds) = elim (Bool-cases (leb d.addr r)) [
  | inl e ↦ rw e (addrs-left_by r ds)
  | inr e ↦ rw e refl
]

count-left_by :
    (x r : Ptr) (ds : List Desc) → count x (all_addrs (left_by r ds)) ≤ count x (all_addrs ds)
unfolding left_by
count-left_by x r [] = omega arith
count-left_by x r (d ∷ ds) = elim (Bool-cases (leb d.addr r)) [
  | inl e ↦ rw e (ground (arith, count-left_by x r ds))
  | inr e ↦ rw e (omega arith)
]

length-left_by : (r : Ptr) (ds : List Desc) → length (left_by r ds) ≤ length ds
unfolding left_by
length-left_by r [] = omega arith
length-left_by r (d ∷ ds) = elim (Bool-cases (leb d.addr r)) [
  | inl e ↦ rw e (omega (arith, length-left_by r ds))
  | inr e ↦ rw e (omega arith)
]

once :
    (d : Desc) (ds : List Desc)
    → count d.addr (all_addrs (d ∷ ds)) < 2
    → count d.addr (all_addrs ds) ≡ 0
once d ds h = ground (arith, ==_refl d.addr)

stack_from-all_addrs :
    (n : ℕ) (top : Ptr) (s : State) (ds : List Desc)
    → IsStack s top ds
    → length ds < n
    → stack_from n top s ≡ all_addrs ds
unfolding stack_from
stack_from-all_addrs zero top s ds h f = absurd (omega arith)
stack_from-all_addrs (suc n) top s [] h f =
    let e : (top == null) ≡ true = ground (arith, h) in rw e refl
stack_from-all_addrs (suc n) top s (d ∷ ds) h f =
    let e : (top == null) ≡ false = ground (arith, h.0) in
    rw (e, h.0.here)
      (ap (λ rs. d.addr ∷ rs) (stack_from-all_addrs n (s.ro_p d.addr) s ds h.1 (omega arith)))

-- Every object of the program is in a region of the stack.
region-count :
    (s : State) (ds : List Desc) (b : Block) → IsHoused s ds b → count b.region (all_addrs ds) ≢ 0
region-count s [] b h = elim h [ ]
region-count s (d ∷ ds) b (inl (p, here)) = ground (arith, here.region)
region-count s (d ∷ ds) b (inr h) = ground (arith, region-count s ds b h)

within-all :
    (s : State) (ds : List Desc) (bs : List Block)
    → All (IsHoused s ds) bs
    → within (all_addrs ds) bs ≡ bs
unfolding within
within-all s ds [] h = refl
within-all s ds (b ∷ bs) h =
    let e : (count b.region (all_addrs ds) == 0) ≡ false =
      ground (arith, region-count s ds b h.0) in
    rw e (ap (λ cs. b ∷ cs) (within-all s ds bs h.1))

within-without :
    (rs : List Ptr) (r : Ptr) (bs : List Block)
    → count r rs ≡ 0
    → within rs (without r bs) ≡ within rs bs
unfolding within without
within-without rs r [] n = refl
within-without rs r (b ∷ bs) n = elim (Bool-cases (b.region == r)) [
  | inl e ↦
      let f : b.region ≡ r = ground (arith, e) in
      let z : (count b.region rs == 0) ≡ true = rw f (ground (arith, n)) in
      rw (e, z) (within-without rs r bs n)
  | inr e ↦ rw e (elim (Bool-cases (count b.region rs == 0)) [
    | inl z ↦ rw z (within-without rs r bs n)
    | inr z ↦ rw z (ap (λ cs. b ∷ cs) (within-without rs r bs n))
  ])
]

-- The outcome of the loop of `deallocateRegionsUntil`.
abbrev Unwinds : ℕ → ℕ → Ptr → State → List Ptr → List Desc → List Block → Type 0
Unwinds n k r s fl ds bs =
    (s' : State) × (fl' : List Ptr) × (pop_until n k r s ≡ ok tt s')
    × IsReady k s' fl' (left_by r ds) (within (all_addrs (left_by r ds)) bs)
    × (length fl ≤ length fl')
    × (s'.mallocs ≡ s.mallocs)
    × ((x : Ptr) → count x (fl' ++ all_pages (left_by r ds)) ≤ count x (fl ++ all_pages ds))

pop_until-IsReady :
    (n k : ℕ) (r : Ptr) (s : State) (fl : List Ptr) (ds : List Desc) (bs : List Block)
    → IsReady k s fl ds bs
    → length ds < n
    → Unwinds n k r s fl ds bs
unfolding pop_until left_by
pop_until-IsReady zero k r s fl ds bs h fuel = absurd (omega arith)
pop_until-IsReady (suc n) k r s fl [] bs h fuel =
    let e : (s.topregion == null) ≡ true = ground (arith, h.inv.stack) in
    let all = within-all s [] bs h.live.housed in
    (s, fl, rw e, subst (IsReady k s fl []) (sym all) h, omega arith, refl, λ x. omega arith)
pop_until-IsReady (suc n) k r s fl (d ∷ ds) bs h fuel =
    let top = h.inv.stack.0 in
    let ne : (s.topregion == null) ≡ false = ground (arith, top) in
    elim (Bool-cases (leb d.addr r)) [
      | inl below ↦
          let e : leb s.topregion r ≡ true = ground (arith, top) in
          let (s', fl', run, ready, more, mallocs, fewer) =
            pop_until-IsReady n k r (popped s d) (pages d ++ fl) ds (without d.addr bs)
              (popped-IsReady k s fl bs d ds h) (omega arith) in
          let gone : count d.addr (all_addrs (left_by r ds)) ≡ 0 =
            omega (arith, count-left_by d.addr r ds, once d ds (h.inv.regions d.addr)) in
          (
            s',
            fl',
            rw (ne, e, deallocate_region_run s fl d ds h.inv k h.fuel.0) run,
            rw below (
                subst (IsReady k s' fl' (left_by r ds))
                  (within-without (all_addrs (left_by r ds)) d.addr bs gone) ready),
            omega (arith, more, length-append (pages d) fl),
            mallocs,
            rw below (λ x. omega (arith, fewer x, popped-pages fl d ds x)),
          )
      | inr above ↦
          let e : leb s.topregion r ≡ false = ground (arith, top) in
          let all = within-all s (d ∷ ds) bs h.live.housed in
          (
            s,
            fl,
            rw (ne, e),
            rw above (subst (IsReady k s fl (d ∷ ds)) (sym all) h),
            omega arith,
            refl,
            rw above (λ x. omega arith),
          )
    ]

-- The call pops the regions, and the objects that are left are those of the other ones.
pub unwind_call :
    (malloc : ℕ → ℕ → Ptr) (k n m : ℕ) (s : State) (fl : List Ptr) (ds : List Desc)
    (bs : List Block) (r₀ : Ptr)
    → IsReady k s fl ds bs
    → IsSupply malloc n s.mallocs (fl ++ all_pages ds)
    → length ds < m
    → Does malloc k n 0 (unwinds m r₀) s fl bs (addrs_left (clear_status_bits r₀) (all_addrs ds))
unfolding call deallocate_regions_until
unwind_call malloc k n m s fl ds bs r₀ h sup fuel =
    let r = clear_status_bits r₀ in
    let (s', fl', run, ready, more, mallocs, fewer) = pop_until-IsReady m k r s fl ds bs h fuel in
    let left = left_by r ds in
    (
      within (all_addrs left) bs,
      s',
      fl',
      left,
      rw
          (
            run,
            stack_from-all_addrs m s'.topregion s' left ready.inv.stack
                (omega (arith, length-left_by r ds)),
          )
          refl,
      ready,
      (
        n,
        IsSupply-fewer malloc n s.mallocs s'.mallocs (fl ++ all_pages ds) (fl' ++ all_pages left)
            sup mallocs fewer,
        omega (arith, more),
      ),
      addrs-left_by r ds,
    )
