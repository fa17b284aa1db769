-- ===== src/State.antt =====
-- The memory of the runtime and the commands over it.
--
-- A struct's field is a map from the struct's address to the field's value, so `rp_n` holds the field
-- `n` of every region page of Region.h, `gen_a` the field `a` of every generation, and so on. `g0`
-- stands at offset 0 of a region descriptor, so a descriptor and its generation share their address.
-- `word` and `byte` hold the objects that a program stores in regions. A command that goes through a
-- NULL pointer faults; other stray accesses are not modelled.
use unikernel_with_region_in.Base.{ℕ, ◌+◌, List, ◌∷◌, ◌==◌, if◌then◌else◌, ◌≡◌, ◌≢◌, arith}

abbrev pub Ptr : Type 0
Ptr = ℕ

abbrev pub null : Ptr
null = 0

pub record State : Type 0 where
  -- typedef struct rp Rp
  pub rp_n : Ptr → Ptr
  pub rp_gen : Ptr → Ptr
  -- typedef struct gen Gen
  pub gen_a : Ptr → Ptr
  pub gen_fp : Ptr → Ptr
  -- typedef struct ro Ro
  pub ro_p : Ptr → Ptr
  pub ro_lobjs : Ptr → Ptr
  -- typedef struct lobjs Lobjs
  pub lobj_next : Ptr → Ptr
  -- the words and characters of ML values
  pub word : Ptr → ℕ
  pub byte : Ptr → ℕ
  -- the context of the running program
  pub topregion : Ptr
  -- Rp * global_freelist; long rp_total
  pub global_freelist : Ptr
  pub rp_total : ℕ
  -- how many calls of `malloc` were made, and what `free` was called on, the latest first
  pub mallocs : ℕ
  pub freed : List Ptr

-- `died` is a call of `die`, which prints a message and does not return; `fault` is an access through
-- NULL.
pub data Run (A : Type 0) : Type 0 where
  ok : A → State → Run A
  fault : Run A
  died : Run A
  out_of_fuel : Run A

abbrev pub Cmd : Type 0 → Type 0
Cmd A = State → Run A

abbrev pub pure : {A : Type 0} → A → Cmd A
pure = ok

module _ {A B : Type 0} where
  abbrev pub and_then : Run A → (A → Cmd B) → Run B
  and_then (ok a s) k = k a s
  and_then fault k = fault
  and_then died k = died
  and_then out_of_fuel k = out_of_fuel

  infixl 5 ◌>>=◌ ◌>>◌
  abbrev pub ◌>>=◌ : Cmd A → (A → Cmd B) → Cmd B
  m >>= k = λ s. and_then (m s) k

  abbrev pub ◌>>◌ : Cmd A → Cmd B → Cmd B
  m >> n = m >>= λ _. n

abbrev pub Done : Type 0
Done = Cmd (Unit {0})

abbrev pub upd : (Ptr → ℕ) → Ptr → ℕ → Ptr → ℕ
upd f p v q = if q == p then v else f q

-- `p->f`, for a field or an array `f` of the memory.
unfoldable pub load : (State → Ptr → ℕ) → Ptr → Cmd ℕ
load f p s = if p == null then fault else ok (f s p) s

-- A write through a pointer, given the state that it leads to.
unfoldable pub store : Ptr → (State → State) → Done
store p write s = if p == null then fault else ok tt (write s)

unfoldable pub set_n : Ptr → Ptr → Done
unfolding store
set_n p v = store p λ s. record s { rp_n = upd s.rp_n p v }

unfoldable pub set_gen : Ptr → Ptr → Done
unfolding store
set_gen p v = store p λ s. record s { rp_gen = upd s.rp_gen p v }

unfoldable pub set_a : Ptr → Ptr → Done
unfolding store
set_a g v = store g λ s. record s { gen_a = upd s.gen_a g v }

unfoldable pub set_fp : Ptr → Ptr → Done
unfolding store
set_fp g v = store g λ s. record s { gen_fp = upd s.gen_fp g v }

unfoldable pub set_p : Ptr → Ptr → Done
unfolding store
set_p r v = store r λ s. record s { ro_p = upd s.ro_p r v }

unfoldable pub set_lobjs : Ptr → Ptr → Done
unfolding store
set_lobjs r v = store r λ s. record s { ro_lobjs = upd s.ro_lobjs r v }

unfoldable pub set_lobj_next : Ptr → Ptr → Done
unfolding store
set_lobj_next l v = store l λ s. record s { lobj_next = upd s.lobj_next l v }

unfoldable pub set_word : Ptr → ℕ → Done
unfolding store
set_word p v = store p λ s. record s { word = upd s.word p v }

unfoldable pub set_byte : Ptr → ℕ → Done
unfolding store
set_byte p v = store p λ s. record s { byte = upd s.byte p v }

abbrev pub gets : {A : Type 0} → (State → A) → Cmd A
gets f s = ok (f s) s

abbrev pub set_freelist : Ptr → Done
set_freelist p s = ok tt (record s { global_freelist = p })

abbrev pub set_top_region : Ptr → Done
set_top_region p s = ok tt (record s { topregion = p })

-- `free(p)`: what was freed is remembered.
unfoldable pub free : Ptr → Done
free p s = ok tt (record s { freed = p ∷ s.freed })

-- The C library's allocator, or mini-os's, which is not modelled: `malloc i n` is what call number
-- `i`, for `n` bytes, returns.
unfoldable pub malloc_with : (ℕ → ℕ → Ptr) → ℕ → Cmd Ptr
malloc_with malloc n s = ok (malloc s.mallocs n) (record s { mallocs = s.mallocs + 1 })

-- Through a pointer that is not NULL a load and a store go through.
pub load_of_ne_null :
    (f : State → Ptr → ℕ) (p : Ptr) (s : State) → p ≢ null → load f p s ≡ ok (f s p) s
unfolding load
load_of_ne_null f p s ne = ground arith

pub store_of_ne_null :
    (p : Ptr) (write : State → State) (s : State) → p ≢ null → store p write s ≡ ok tt (write s)
unfolding store
store_of_ne_null p write s ne = ground arith
