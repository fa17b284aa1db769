-- ===== src/Runtime/Boot.antt =====
-- A program from the start of main on.
use unikernel_with_region_in.Base.{ℕ, ◌*◌, ◌+◌, ◌<◌, ◌≤◌, ◌≡◌, ◌≢◌, refl, List, [], arith, ==_of_ne}
use unikernel_with_region_in.Base.Int.{ℤ}
use unikernel_with_region_in.State.{Ptr, null, State, ok, store}
use unikernel_with_region_in.Region.Supply.{IsSupply}
use unikernel_with_region_in.Region.View.{Desc, Inv}
use unikernel_with_region_in.Region.Programs.{Call, IsBracketed, run, pages_needed}
use unikernel_with_region_in.Region.Programs.Live.{Block}
use unikernel_with_region_in.Region.Programs.Ready.{IsReady}
use unikernel_with_region_in.Region.Programs.Safety.{programs_lem}
use unikernel_with_region_in.Runtime.{main, max_int, min_int, max_int_d, min_int_d, sizeof_context}

-- The memory when the compiled program is called.
abbrev booted : State → State
booted s = record s { mallocs = s.mallocs + 1; topregion = null }

booted-Inv : (s : State) → s.global_freelist ≡ null → Inv (booted s) [] []
booted-Inv s none = record {
  free = none;
  stack = refl;
  pages = tt;
  distinct = λ x. omega arith;
  regions = λ x. omega arith;
  large = λ x. omega arith;
}

-- A bracketed program in which every allocation is of at most 1022 words, so that there are no large
-- objects, with fuel for the regions that an exception can pop, is started by `main` on a memory
-- without pages. The limits convert to their doubles, `malloc` gives a context, its next `n` calls
-- give chunks that do not overlap, and the program needs at most 100 pages for each chunk, counting
-- one for each region and object: `main` calls the program, and this runs to its end; the invariant of
-- the allocator holds for the objects that it holds in the end.
pub main_lem :
    (to_double : ℤ → ℕ) (malloc : ℕ → ℕ → Ptr) (k n : ℕ) (cs : List Call) (s : State)
    → to_double max_int ≡ max_int_d
    → to_double min_int ≡ min_int_d
    → s.global_freelist ≡ null
    → malloc s.mallocs sizeof_context ≢ null
    → IsSupply malloc n (s.mallocs + 1) []
    → IsBracketed [] cs
    → 0 < k
    → pages_needed cs ≤ 100 * n
    → (bs' : List Block) × (s' : State) × (fl' : List Ptr) × (ds' : List Desc) × (main to_double
          malloc
          (λ _. run malloc k cs [])
          s
        ≡ ok bs' s')
      × IsReady k s' fl' ds' bs'
unfolding main store
main_lem to_double malloc k n cs s max min none ctx sup b fuel enough =
    let ready : IsReady k (booted s) [] [] [] = record {
      inv = booted-Inv s none;
      live = record { housed = tt; apart = tt };
      fuel = tt;
      some_fuel = fuel;
    } in
    rw (max, min, ==_of_ne (malloc s.mallocs sizeof_context) null ctx)
      (programs_lem malloc k cs n (booted s) [] [] [] b ready sup (omega (arith, enough)))
