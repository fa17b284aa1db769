-- ===== src/Region/Programs.antt =====
-- Sequences of calls of XenRuntimeMini/src/RuntimeMini/Region.c, as a compiled program makes them, with
-- the objects that the program holds.
pub mod Fresh
pub mod Live
pub mod Placing
pub mod Safety
pub mod Ready
pub mod Calls
pub mod Unwinding
mod Tests
use unikernel_with_region_in.Base.{
  ℕ, zero, suc, leb, length, ◌+◌, ◌%◌, ◌^◌, ◌<◌, ◌≤◌, ◌≡◌, ◌≢◌, List, [], ◌∷◌, ◌==◌, if◌then◌else◌,
  count,
}
use unikernel_with_region_in.State.{Ptr, null, State, Cmd, pure, ◌>>=◌, ◌>>◌, gets}
use unikernel_with_region_in.Region.{
  allocate_region, alloc, reset_region, deallocate_region, deallocate_regions_until,
}
use unikernel_with_region_in.Region.Layout.{clear_status_bits, allocatable_words_in_region_page}
use Live.{Block, without, within}

-- `enters r` puts a descriptor at `r` on the stack, `allocates r n` takes `n` words in the region `r`,
-- `resets r` empties it, `leaves` pops the top region, and `unwinds n r` pops the regions down to the
-- address `r`, as the handler of an exception does; `n` is fuel for the regions.
pub data Call : Type 0 where
  enters : (r : Ptr) → Call
  allocates : (r : Ptr) (n : ℕ) → Call
  resets : (r : Ptr) → Call
  leaves : Call
  unwinds : (n : ℕ) (r : Ptr) → Call

-- What is left of a stack of regions then.
unfoldable pub addrs_left : Ptr → List Ptr → List Ptr
addrs_left r [] = []
addrs_left r (a ∷ rs) = let rest = addrs_left r rs in if leb a r then rest else a ∷ rs

-- The regions on the stack of a memory, from `top` on; `n` is fuel.
unfoldable pub stack_from : ℕ → Ptr → State → List Ptr
stack_from zero top s = []
stack_from (suc n) top s = if top == null then [] else top ∷ stack_from n (s.ro_p top) s

-- A program of calls on a stack of regions at `rs`, the top one first: a new region has an address of
-- its own, and an object is small and goes into a region of the stack.
pub data IsBracketed : List Ptr → List Call → Type 0 where
  done : {rs : List Ptr} → IsBracketed rs []
  enter_then :
      {rs : List Ptr} {cs : List Call} (r₀ r : Ptr)
      → clear_status_bits r₀ ≡ r
      → r ≢ null
      → r % 4 ≡ 0
      → r < 2 ^ 64
      → count r rs ≡ 0
      → IsBracketed (r ∷ rs) cs
      → IsBracketed rs (enters r₀ ∷ cs)
  allocate_then :
      {rs : List Ptr} {cs : List Call} (r₀ : Ptr) (n : ℕ)
      → count (clear_status_bits r₀) rs ≢ 0
      → n ≤ allocatable_words_in_region_page
      → IsBracketed rs cs
      → IsBracketed rs (allocates r₀ n ∷ cs)
  reset_then :
      {rs : List Ptr} {cs : List Call} (r₀ : Ptr)
      → count (clear_status_bits r₀) rs ≢ 0
      → IsBracketed rs cs
      → IsBracketed rs (resets r₀ ∷ cs)
  leave_then :
      {rs : List Ptr} {cs : List Call} (r : Ptr)
      → IsBracketed rs cs
      → IsBracketed (r ∷ rs) (leaves ∷ cs)
  unwind_then :
      {rs : List Ptr} {cs : List Call} (n : ℕ) (r₀ : Ptr)
      → length rs < n
      → IsBracketed (addrs_left (clear_status_bits r₀) rs) cs
      → IsBracketed rs (unwinds n r₀ ∷ cs)

-- A call, on the objects that the program holds: those of a region that is reset or popped are lost.
-- `k` is the fuel for the large objects.
module _ (malloc : ℕ → ℕ → Ptr) (k : ℕ) where
  unfoldable pub call : Call → List Block → Cmd (List Block)
  call (enters r) bs = do allocate_region malloc r; pure bs
  call (allocates r n) bs = do
    t ← alloc malloc r n
    pure (record { region = clear_status_bits r; start = t; words = n } ∷ bs)
  call (resets r) bs = do reset_region k r; pure (without (clear_status_bits r) bs)
  call leaves bs = do top ← gets State.topregion; deallocate_region k; pure (without top bs)
  call (unwinds n r) bs = do
    deallocate_regions_until n k r
    top ← gets State.topregion
    rs ← gets (stack_from n top)
    pure (within rs bs)

  unfoldable pub run : List Call → List Block → Cmd (List Block)
  run [] bs = pure bs
  run (c ∷ cs) bs = do bs' ← call c bs; run cs bs'

-- How many pages the calls take at most.
unfoldable pub pages_needed : List Call → ℕ
pages_needed [] = 0
pages_needed (enters r ∷ cs) = 1 + pages_needed cs
pages_needed (allocates r n ∷ cs) = 1 + pages_needed cs
pages_needed (resets r ∷ cs) = pages_needed cs
pages_needed (leaves ∷ cs) = pages_needed cs
pages_needed (unwinds n r ∷ cs) = pages_needed cs
