-- ===== src/Region/Programs/Calls.antt =====
-- Each call of a bracketed program on a memory that satisfies the invariant.
use unikernel_with_region_in.Base.{
  ℕ, count-append, ◌*◌, ap₂, subst, sym, ◌∙◌, ◌+◌, ◌<◌, ◌≤◌, ◌≡◌, ◌≢◌, inl, inr, refl, ap, List, [],
  ◌∷◌, ◌++◌, ◌==◌, ◌%◌, ◌^◌, count, length, length-append, arith, Bool-cases,
}
use unikernel_with_region_in.State.{Ptr, State, ok}
use unikernel_with_region_in.Region.Dealloc.{popped, deallocate_region_run}
use unikernel_with_region_in.Region.Enter.{allocate_region_lem, fresh_region}
use unikernel_with_region_in.Region.Layout.{clear_status_bits, allocatable_words_in_region_page}
use unikernel_with_region_in.Region.Reset.{rest_of, count-first}
use unikernel_with_region_in.Region.Reset.Keeps.{
  emptied, reset_state, reset_region_run, reset_state-Inv,
}
use unikernel_with_region_in.Region.Supply.{
  IsSupply, IsSupply-fewer, IsSupply-Delivers, IsSupply-Left, Left,
}
use unikernel_with_region_in.Region.Focus.{count-all_pages}
use unikernel_with_region_in.Region.View.{all_pages, Desc, pages, all_addrs}
use unikernel_with_region_in.Region.Programs.{Call, enters, allocates, resets, leaves, call}
use unikernel_with_region_in.Region.Programs.Live.{
  Block, IsHoused-frame, All-map, without, without-All, without-IsApart,
}
use unikernel_with_region_in.Region.Programs.Ready.{
  IsFueled, IsReady, alloc-IsReady, All-middle, All-replace, addrs-replace, reset-IsHoused,
  popped-IsReady,
}

-- The region of the stack whose descriptor is at an address.
pub record Found (a : Ptr) (ds : List Desc) : Type 0 where
  pub above : List Desc
  pub it : Desc
  pub below : List Desc
  pub place : ds ≡ above ++ it ∷ below
  pub here : a ≡ it.addr

pub find : (a : Ptr) (ds : List Desc) → count a (all_addrs ds) ≢ 0 → Found a ds
find a [] n = absurd (n refl)
find a (d ∷ ds) n = elim (Bool-cases (a == d.addr)) [
  | inl e ↦ record { above = []; it = d; below = ds; place = refl; here = ground (arith, e) }
  | inr e ↦
      let f = find a ds (ground (arith, e)) in
      record {
        above = d ∷ f.above;
        it = f.it;
        below = f.below;
        place = ap (λ xs. d ∷ xs) f.place;
        here = f.here;
      }
]

-- The outcome of a call with `n` chunks ready at `malloc`: it returns, and at most `m` pages of the
-- free ones and of those of the chunks are gone.
abbrev pub Does :
    (ℕ → ℕ → Ptr) → ℕ → ℕ → ℕ → Call → State → List Ptr → List Block → List Ptr → Type 0
Does malloc k n m c s fl bs rs =
    (bs' : List Block) × (s' : State) × (fl' : List Ptr) × (ds' : List Desc) × (call malloc k c bs s
      ≡ ok bs' s')
    × IsReady k s' fl' ds' bs'
    × Left malloc m n fl s' fl' ds'
    × (all_addrs ds' ≡ rs)

-- A region that is reset or popped gives its pages to the free list.
reset-pages :
    (fl : List Ptr) (xs : List Desc) (d : Desc) (ys : List Desc) (x : Ptr)
    → count x ((rest_of d.front d.last ++ fl) ++ all_pages (xs ++ emptied d ∷ ys))
      ≤ count x (fl ++ all_pages (xs ++ d ∷ ys))
reset-pages fl xs d ys x = omega (
  arith,
  count-append x (rest_of d.front d.last ++ fl) (all_pages (xs ++ emptied d ∷ ys)),
  count-append x (rest_of d.front d.last) fl,
  count-append x fl (all_pages (xs ++ d ∷ ys)),
  count-all_pages x xs (emptied d) ys,
  count-all_pages x xs d ys,
  count-first x d.front d.last,
)

pub popped-pages :
    (fl : List Ptr) (d : Desc) (ds : List Desc) (x : Ptr)
    → count x ((pages d ++ fl) ++ all_pages ds) ≤ count x (fl ++ all_pages (d ∷ ds))
popped-pages fl d ds x = omega (
  arith,
  count-append x (pages d ++ fl) (all_pages ds),
  count-append x (pages d) fl,
  count-append x fl (all_pages (d ∷ ds)),
  count-append x (pages d) (all_pages ds),
)

module _ (malloc : ℕ → ℕ → Ptr) (k n : ℕ) (s : State) (fl : List Ptr) (bs : List Block) where
  pub enter_call :
      (ds : List Desc) (r₀ r : Ptr)
      → IsReady k s fl ds bs
      → IsSupply malloc n s.mallocs (fl ++ all_pages ds)
      → clear_status_bits r₀ ≡ r
      → r ≢ 0
      → r % 4 ≡ 0
      → r < 2 ^ 64
      → count r (all_addrs ds) ≡ 0
      → 0 < length fl + 100 * n
      → Does malloc k n 1 (enters r₀) s fl bs (r ∷ all_addrs ds)
  unfolding call
  enter_call ds r₀ r h sup region ne aligned fits new free =
      let (s', np, fs, e, inv', at, fresh, spends, same) =
        allocate_region_lem malloc r₀ r s ds region ne aligned fits new fl h.inv
          (IsSupply-Delivers malloc n s fl ds sup free) in
      (
        bs,
        s',
        fs,
        fresh_region r np ∷ ds,
        rw e refl,
        record {
          inv = inv';
          live = record {
            housed =
                All-map bs
                  (λ b g.
                    inr
                      (IsHoused-frame s s' ds b (λ x c. same x (λ q. ground (arith, c, new, q))) g))
                  h.live.housed;
            apart = h.live.apart;
          };
          fuel = (h.some_fuel, h.fuel);
          some_fuel = h.some_fuel;
        },
        IsSupply-Left malloc n s fl ds s' fs (fresh_region r np ∷ ds) sup free spends,
        refl,
      )

  pub allocate_call :
      (xs : List Desc) (d : Desc) (ys : List Desc) (r₀ : Ptr) (m : ℕ)
      → IsReady k s fl (xs ++ d ∷ ys) bs
      → IsSupply malloc n s.mallocs (fl ++ all_pages (xs ++ d ∷ ys))
      → clear_status_bits r₀ ≡ d.addr
      → m ≤ allocatable_words_in_region_page
      → 0 < length fl + 100 * n
      → Does malloc k n 1 (allocates r₀ m) s fl bs (all_addrs (xs ++ d ∷ ys))
  unfolding call
  allocate_call xs d ys r₀ m h sup region small free =
      let new =
        alloc-IsReady malloc k s fl bs xs d ys r₀ m h region small
          (IsSupply-Delivers malloc n s fl (xs ++ d ∷ ys) sup free) in
      let b : Block = record {
        region = clear_status_bits r₀;
        start = new.block.start;
        words = m;
      } in
      let same : new.block ≡ b =
        ap₂ (λ a l. record { region = a; start = new.block.start; words = l })
          (new.shape.0 ∙ sym region) new.shape.1 in
      (
        b ∷ bs,
        new.state,
        new.free,
        xs ++ new.it ∷ ys,
        rw new.returns refl,
        subst (λ c. IsReady k new.state new.free (xs ++ new.it ∷ ys) (c ∷ bs)) same new.ready,
        IsSupply-Left malloc n s fl (xs ++ d ∷ ys) new.state new.free (xs ++ new.it ∷ ys) sup free
            new.spends,
        addrs-replace xs d new.it ys new.same_addr,
      )

  pub reset_call :
      (xs : List Desc) (d : Desc) (ys : List Desc) (r₀ : Ptr)
      → IsReady k s fl (xs ++ d ∷ ys) bs
      → IsSupply malloc n s.mallocs (fl ++ all_pages (xs ++ d ∷ ys))
      → clear_status_bits r₀ ≡ d.addr
      → Does malloc k n 0 (resets r₀) s fl bs (all_addrs (xs ++ d ∷ ys))
  unfolding call
  reset_call xs d ys r₀ h sup region =
      let s' = reset_state s d in
      let run =
        reset_region_run s fl xs d ys h.inv k r₀ region (All-middle (IsFueled k) xs d ys h.fuel) in
      (
        without d.addr bs,
        s',
        rest_of d.front d.last ++ fl,
        xs ++ emptied d ∷ ys,
        rw (run, region) refl,
        record {
          inv = reset_state-Inv s fl xs d ys h.inv;
          live = record {
            housed = without-All d.addr bs (reset-IsHoused s fl xs d ys h.inv) h.live.housed;
            apart = without-IsApart d.addr bs h.live.apart;
          };
          fuel = All-replace (IsFueled k) xs d (emptied d) ys (λ f. h.some_fuel) h.fuel;
          some_fuel = h.some_fuel;
        },
        (
          n,
          IsSupply-fewer malloc n s.mallocs s.mallocs (fl ++ all_pages (xs ++ d ∷ ys))
              ((rest_of d.front d.last ++ fl) ++ all_pages (xs ++ emptied d ∷ ys)) sup refl
              (reset-pages fl xs d ys),
          omega (arith, length-append (rest_of d.front d.last) fl),
        ),
        addrs-replace xs d (emptied d) ys refl,
      )

  pub leave_call :
      (d : Desc) (ds : List Desc)
      → IsReady k s fl (d ∷ ds) bs
      → IsSupply malloc n s.mallocs (fl ++ all_pages (d ∷ ds))
      → Does malloc k n 0 leaves s fl bs (all_addrs ds)
  unfolding call
  leave_call d ds h sup = (
    without d.addr bs,
    popped s d,
    pages d ++ fl,
    ds,
    rw (deallocate_region_run s fl d ds h.inv k h.fuel.0, h.inv.stack.0.here) refl,
    popped-IsReady k s fl bs d ds h,
    (
      n,
      IsSupply-fewer malloc n s.mallocs s.mallocs (fl ++ all_pages (d ∷ ds))
          ((pages d ++ fl) ++ all_pages ds) sup refl (popped-pages fl d ds),
      omega (arith, length-append (pages d) fl),
    ),
    refl,
  )
