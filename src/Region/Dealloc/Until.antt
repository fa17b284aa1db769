-- ===== src/Region/Dealloc/Until.antt =====
-- `deallocateRegion` and `deallocateRegionsUntil` against the stack of regions.
use unikernel_with_region_in.Base.{
  ℕ, zero, suc, ◌<◌, ◌≡◌, refl, List, [], ◌∷◌, ◌++◌, length, All, arith, ◌==◌, leb, if◌then◌else◌,
  true, false, Bool-cases, inl, inr,
}
use unikernel_with_region_in.State.{Ptr, null, State, ok}
use unikernel_with_region_in.Region.{deallocate_region, pop_until, deallocate_regions_until}
use unikernel_with_region_in.Region.Dealloc.{freed_onto, popped, deallocate_region_run, popped-Inv}
use unikernel_with_region_in.Region.Layout.{clear_status_bits}
use unikernel_with_region_in.Region.View.{Desc, pages, Inv}

-- `deallocateRegion` pops the top region: it ends, puts the region's pages in front of the free list,
-- frees each of its large objects once, and keeps the invariant for the regions below.
pub deallocate_region_lem :
    (k : ℕ) (s : State) (fl : List Ptr) (d : Desc) (ds : List Desc)
    → Inv s fl (d ∷ ds)
    → length d.large < k
    → (s' : State) × (deallocate_region k s ≡ ok tt s')
      × Inv s' (pages d ++ fl) ds
      × (s'.freed ≡ freed_onto d.large s.freed)
deallocate_region_lem k s fl d ds inv fuel =
    (popped s d, deallocate_region_run s fl d ds inv k fuel, popped-Inv s fl d ds inv, refl)

-- The regions that are popped for the address `r`: those from the top of the stack on whose address is
-- at most `r`.
unfoldable pub left_by : Ptr → List Desc → List Desc
left_by r [] = []
left_by r (d ∷ ds) = let rest = left_by r ds in if leb d.addr r then rest else d ∷ ds

unfoldable pub free_by : Ptr → List Desc → List Ptr → List Ptr
free_by r [] fl = fl
free_by r (d ∷ ds) fl = let rest = free_by r ds (pages d ++ fl) in if leb d.addr r then rest else fl

unfoldable pub freed_by : Ptr → List Desc → List Ptr → List Ptr
freed_by r [] done = done
freed_by r (d ∷ ds) done =
    let rest = freed_by r ds (freed_onto d.large done) in if leb d.addr r then rest else done

-- The outcome of the loop.
abbrev pub Pops : ℕ → ℕ → Ptr → State → List Ptr → List Desc → Type 0
Pops n k r s fl ds =
    (s' : State) × (pop_until n k r s ≡ ok tt s')
    × Inv s' (free_by r ds fl) (left_by r ds)
    × (s'.freed ≡ freed_by r ds s.freed)

pop_until_lem :
    (n k : ℕ) (r : Ptr) (s : State) (fl : List Ptr) (ds : List Desc)
    → Inv s fl ds
    → length ds < n
    → All (λ d. length d.large < k) ds
    → Pops n k r s fl ds
unfolding pop_until left_by free_by freed_by
pop_until_lem zero k r s fl ds inv fuel large = absurd (omega arith)
pop_until_lem (suc n) k r s fl [] inv fuel large =
    let e : (s.topregion == null) ≡ true = ground (arith, inv.stack) in (s, rw e, inv, refl)
pop_until_lem (suc n) k r s fl (d ∷ ds) inv fuel large =
    let h = inv.stack.0 in
    let ne : (s.topregion == null) ≡ false = ground (arith, h) in
    elim (Bool-cases (leb d.addr r)) [
      | inl below ↦
          let e : leb s.topregion r ≡ true = ground (arith, h) in
          let rest =
            pop_until_lem n k r (popped s d) (pages d ++ fl) ds (popped-Inv s fl d ds inv)
              (omega arith) large.1 in
          (
            rest.0,
            rw (ne, e, deallocate_region_run s fl d ds inv k large.0) rest.1,
            rw below rest.2,
            rw below rest.3,
          )
      | inr above ↦
          let e : leb s.topregion r ≡ false = ground (arith, h) in
          (s, rw (ne, e), rw above inv, rw above)
    ]

-- With fuel for every region and every large object `deallocateRegionsUntil` ends. It pops exactly the
-- regions from the top on whose descriptors lie at or below the address, and none behind the first
-- one above it; their pages become free, their large objects are freed, and the invariant holds.
pub deallocate_regions_until_lem :
    (n k : ℕ) (r : Ptr) (s : State) (fl : List Ptr) (ds : List Desc)
    → Inv s fl ds
    → length ds < n
    → All (λ d. length d.large < k) ds
    → (s' : State) × (deallocate_regions_until n k r s ≡ ok tt s')
      × Inv s' (free_by (clear_status_bits r) ds fl) (left_by (clear_status_bits r) ds)
      × (s'.freed ≡ freed_by (clear_status_bits r) ds s.freed)
unfolding deallocate_regions_until
deallocate_regions_until_lem n k r s fl ds inv fuel large =
    pop_until_lem n k (clear_status_bits r) s fl ds inv fuel large
