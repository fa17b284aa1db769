-- ===== src/Region/Programs/Safety.antt =====
-- Every bracketed program runs to its end, and its objects never overlap.
use unikernel_with_region_in.Base.{
  suc, ℕ, ◌+◌, ◌*◌, ◌≤◌, ◌≡◌, ◌≢◌, refl, sym, ap, subst, ◌∙◌, List, [], ◌∷◌, ◌++◌, count, length,
  arith,
}
use unikernel_with_region_in.State.{Ptr, State, ok}
use unikernel_with_region_in.Region.Layout.{clear_status_bits}
use unikernel_with_region_in.Region.View.{Desc, all_addrs, all_pages}
use unikernel_with_region_in.Region.Supply.{IsSupply}
use unikernel_with_region_in.Region.Programs.{
  Call, enters, allocates, resets, leaves, unwinds, addrs_left, unwind_then, IsBracketed, done,
  enter_then, allocate_then, reset_then, leave_then, run, pages_needed,
}
use unikernel_with_region_in.Region.Programs.Live.{Block}
use unikernel_with_region_in.Region.Programs.Unwinding.{unwind_call}
use unikernel_with_region_in.Region.Programs.Ready.{IsReady}
use unikernel_with_region_in.Region.Programs.Calls.{
  Does, find, enter_call, allocate_call, reset_call, leave_call,
}

-- The outcome of a program.
abbrev pub Runs : (ℕ → ℕ → Ptr) → ℕ → List Call → State → List Block → Type 0
Runs malloc k cs s bs =
    (bs' : List Block) × (s' : State) × (fl' : List Ptr) × (ds' : List Desc) × (run malloc k cs bs s
      ≡ ok bs' s')
    × IsReady k s' fl' ds' bs'

abbrev rest : List Ptr → List Ptr
rest [] = []
rest (x ∷ xs) = xs

length-all_addrs : (ds : List Desc) → length (all_addrs ds) ≡ length ds
length-all_addrs [] = refl
length-all_addrs (d ∷ ds) = ap suc (length-all_addrs ds)

module _ (malloc : ℕ → ℕ → Ptr) (k : ℕ) where
  call_then :
      (c : Call) (cs : List Call) (n m : ℕ) (s : State) (fl : List Ptr) (bs : List Block)
      (rs : List Ptr)
      → m + pages_needed cs ≤ length fl + 100 * n
      → Does malloc k n m c s fl bs rs
      → ((n' : ℕ) (s' : State) (fl' : List Ptr) (ds' : List Desc) (bs' : List Block)
          → IsReady k s' fl' ds' bs'
          → IsSupply malloc n' s'.mallocs (fl' ++ all_pages ds')
          → all_addrs ds' ≡ rs
          → pages_needed cs ≤ length fl' + 100 * n'
          → Runs malloc k cs s' bs')
      → Runs malloc k (c ∷ cs) s bs
  unfolding run
  call_then c cs n m s fl bs rs enough (bs', s', fl', ds', e, h, (n', sup, spent), addrs) onwards =
      rw e (onwards n' s' fl' ds' bs' h sup addrs (omega (arith, enough, spent)))

  -- The region of a call is looked up in the stack.
  at_region :
      (c : Call) (n m : ℕ) (s : State) (fl : List Ptr) (ds : List Desc) (bs : List Block)
      (rs : List Ptr) (a : Ptr)
      → IsReady k s fl ds bs
      → IsSupply malloc n s.mallocs (fl ++ all_pages ds)
      → all_addrs ds ≡ rs
      → count a rs ≢ 0
      → ((xs : List Desc) (d : Desc) (ys : List Desc)
          → IsReady k s fl (xs ++ d ∷ ys) bs
          → IsSupply malloc n s.mallocs (fl ++ all_pages (xs ++ d ∷ ys))
          → a ≡ d.addr
          → Does malloc k n m c s fl bs (all_addrs (xs ++ d ∷ ys)))
      → Does malloc k n m c s fl bs rs
  at_region c n m s fl ds bs rs a h sup e inside does =
      let f = find a ds (rw e inside) in
      subst (Does malloc k n m c s fl bs) (ap all_addrs (sym f.place) ∙ e) (
        does f.above f.it f.below (subst (λ xs. IsReady k s fl xs bs) f.place h)
          (subst (λ xs. IsSupply malloc n s.mallocs (fl ++ all_pages xs)) f.place sup) f.here)

  leave_top :
      (n : ℕ) (s : State) (fl : List Ptr) (ds : List Desc) (bs : List Block) (r : Ptr)
      (rs : List Ptr)
      → IsReady k s fl ds bs
      → IsSupply malloc n s.mallocs (fl ++ all_pages ds)
      → all_addrs ds ≡ r ∷ rs
      → Does malloc k n 0 leaves s fl bs rs
  leave_top n s fl [] bs r rs h sup e = absurd (omega (arith, ap length e))
  leave_top n s fl (d ∷ ds) bs r rs h sup e =
      subst (Does malloc k n 0 leaves s fl bs) (ap rest e)
        (leave_call malloc k n s fl bs d ds h sup)

  run_from :
      (cs : List Call) (rs : List Ptr) (n : ℕ) (s : State) (fl : List Ptr) (ds : List Desc)
      (bs : List Block)
      → IsBracketed rs cs
      → IsReady k s fl ds bs
      → IsSupply malloc n s.mallocs (fl ++ all_pages ds)
      → all_addrs ds ≡ rs
      → pages_needed cs ≤ length fl + 100 * n
      → Runs malloc k cs s bs
  unfolding run pages_needed
  run_from cs rs n s fl ds bs done h sup a enough = (bs, s, fl, ds, refl, h)
  run_from cs rs n s fl ds bs (enter_then {cs = cs'} r₀ r region ne aligned fits new b) h sup a
        enough =
      call_then (enters r₀) cs' n 1 s fl bs (r ∷ rs) enough
        (subst (λ xs. Does malloc k n 1 (enters r₀) s fl bs (r ∷ xs)) a
          (enter_call malloc k n s fl bs ds r₀ r h sup region ne aligned fits (rw a new)
            (omega (arith, enough))))
        (λ n' s' fl' ds' bs' h' sup' a' enough'.
          run_from cs' (r ∷ rs) n' s' fl' ds' bs' b h' sup' a' enough')
  run_from cs rs n s fl ds bs (allocate_then {cs = cs'} r₀ m inside small b) h sup a enough =
      call_then (allocates r₀ m) cs' n 1 s fl bs rs enough
        (at_region (allocates r₀ m) n 1 s fl ds bs rs (clear_status_bits r₀) h sup a inside
          λ xs d ys g t e.
            allocate_call malloc k n s fl bs xs d ys r₀ m g t e small (omega (arith, enough)))
        (λ n' s' fl' ds' bs' h' sup' a' enough'.
          run_from cs' rs n' s' fl' ds' bs' b h' sup' a' enough')
  run_from cs rs n s fl ds bs (reset_then {cs = cs'} r₀ inside b) h sup a enough =
      call_then (resets r₀) cs' n 0 s fl bs rs (omega (arith, enough))
        (at_region (resets r₀) n 0 s fl ds bs rs (clear_status_bits r₀) h sup a inside
          λ xs d ys g t e. reset_call malloc k n s fl bs xs d ys r₀ g t e)
        (λ n' s' fl' ds' bs' h' sup' a' enough'.
          run_from cs' rs n' s' fl' ds' bs' b h' sup' a' enough')
  run_from cs rs n s fl ds bs (leave_then {rs = rs'} {cs = cs'} r b) h sup a enough =
      call_then leaves cs' n 0 s fl bs rs' (omega (arith, enough))
        (leave_top n s fl ds bs r rs' h sup a)
        (λ n' s' fl' ds' bs' h' sup' a' enough'.
          run_from cs' rs' n' s' fl' ds' bs' b h' sup' a' enough')
  run_from cs rs n s fl ds bs (unwind_then {cs = cs'} m r₀ fuel b) h sup a enough =
      call_then (unwinds m r₀) cs' n 0 s fl bs (addrs_left (clear_status_bits r₀) rs)
        (omega (arith, enough))
        (subst
          (λ xs. Does malloc k n 0 (unwinds m r₀) s fl bs (addrs_left (clear_status_bits r₀) xs)) a
          (unwind_call malloc k n m s fl ds bs r₀ h sup
            (omega (arith, fuel, ap length a, length-all_addrs ds))))
        (λ n' s' fl' ds' bs' h' sup' a' enough'.
          run_from cs' (addrs_left (clear_status_bits r₀) rs) n' s' fl' ds' bs' b h' sup' a'
            enough')

  -- A program of calls that is bracketed over the stack of a memory and in which every allocation is
  -- of at most 1022 words, what fits a page, so that there are no large objects; with fuel for the
  -- regions that an exception can pop. The next `n` calls of `malloc` give chunks that overlap neither
  -- each other nor the pages of the memory, and the program needs at most as many pages as are free
  -- and in these chunks, 100 in each, counting one for each region and object. Then it runs to its
  -- end; in the end the invariant holds again, each object that the program still holds lies inside
  -- one page of its region, in front of the allocation pointer if it is the last one, and no two
  -- objects overlap.
  pub programs_lem :
      (cs : List Call) (n : ℕ) (s : State) (fl : List Ptr) (ds : List Desc) (bs : List Block)
      → IsBracketed (all_addrs ds) cs
      → IsReady k s fl ds bs
      → IsSupply malloc n s.mallocs (fl ++ all_pages ds)
      → pages_needed cs ≤ length fl + 100 * n
      → Runs malloc k cs s bs
  programs_lem cs n s fl ds bs b h sup enough =
      run_from cs (all_addrs ds) n s fl ds bs b h sup refl enough
