-- ===== src/Region/Frame.antt =====
-- The allocator of Region.c writes neither the words nor the characters of the objects in the regions.
use unikernel_with_region_in.Base.{
  ℕ, zero, suc, ◌+◌, ◌*◌, ◌≡◌, refl, subst, ◌∙◌, Bool, true, false, ltb, if◌then◌else◌, ◌==◌,
}
use unikernel_with_region_in.State.{
  Ptr, null, State, Run, ok, fault, died, out_of_fuel, Cmd, pure, and_then, ◌>>=◌, load, store,
  set_n, set_gen, set_a, set_fp, set_lobjs, set_lobj_next, gets, set_freelist, malloc_with,
}
use unikernel_with_region_in.Region.{
  alloc, alloc_gen, alloc_large, alloc_lobjs, alloc_new_page, take_page, call_sbrk, link_chunk,
  fragment, align_sb, lobjs_bytes, data_of, get_ro_from_gen,
}
use unikernel_with_region_in.Region.Layout.{
  sizeof_rp, bytes_alloc_by_sbrk, is_rp_aligned, last_rp_of_gen, allocatable_words_in_region_page,
  rp_boundary, clear_status_bits,
}

-- A run that ends leaves the words and characters as they were in `s`.
abbrev pub Kept : {A : Type 0} → State → Run A → Type 0
Kept s (ok a s') = (s'.word ≡ s.word) × (s'.byte ≡ s.byte)
Kept s fault = Unit
Kept s died = Unit
Kept s out_of_fuel = Unit

pub record Frames {A : Type 0} (m : Cmd A) : Type 0 where
  pub keeps : (s : State) → Kept s (m s)

module _ {A B : Type 0} where
  Kept-then :
      (s : State) (r : Run A) (k : A → Cmd B)
      → Kept s r
      → ((a : A) → Frames (k a))
      → Kept s (and_then r k)
  Kept-then s (ok a s') k h f = onwards (k a s') (Frames.keeps (f a) s')
    where
      onwards : (r : Run B) → Kept s' r → Kept s r
      onwards (ok b s'') g = (g.0 ∙ h.0, g.1 ∙ h.1)
      onwards fault g = g
      onwards died g = g
      onwards out_of_fuel g = g
  Kept-then s fault k h f = h
  Kept-then s died k h f = h
  Kept-then s out_of_fuel k h f = h

  pub chain : (m : Cmd A) (k : A → Cmd B) → Frames m → ((a : A) → Frames (k a)) → Frames (m >>= k)
  chain m k h f = record { keeps = λ s. Kept-then s (m s) k (Frames.keeps h s) f }

pub branch :
    {A : Type 0} (c : Bool) (m n : Cmd A) → Frames m → Frames n → Frames (if c then m else n)
branch true m n h g = h
branch false m n h g = g

pub load-Frames : (f : State → Ptr → ℕ) (p : Ptr) → Frames (load f p)
unfolding load
load-Frames f p = record {
  keeps = λ s. elim (p == null) as (λ c. Kept s (if c then fault else ok (f s p) s)) [
    | true ↦ tt
    | false ↦ (refl, refl)
  ];
}

pub store-Frames :
    (p : Ptr) (write : State → State)
    → ((s : State) → Kept s (ok tt (write s)))
    → Frames (store p write)
unfolding store
store-Frames p write h = record {
  keeps = λ s. elim (p == null) as (λ c. Kept s (if c then fault else ok tt (write s))) [
    | true ↦ tt
    | false ↦ h s
  ];
}

set_n-Frames : (p v : Ptr) → Frames (set_n p v)
unfolding set_n
set_n-Frames p v = store-Frames p _ (λ s. (refl, refl))

set_gen-Frames : (p v : Ptr) → Frames (set_gen p v)
unfolding set_gen
set_gen-Frames p v = store-Frames p _ (λ s. (refl, refl))

set_a-Frames : (p v : Ptr) → Frames (set_a p v)
unfolding set_a
set_a-Frames p v = store-Frames p _ (λ s. (refl, refl))

set_fp-Frames : (p v : Ptr) → Frames (set_fp p v)
unfolding set_fp
set_fp-Frames p v = store-Frames p _ (λ s. (refl, refl))

set_lobjs-Frames : (p v : Ptr) → Frames (set_lobjs p v)
unfolding set_lobjs
set_lobjs-Frames p v = store-Frames p _ (λ s. (refl, refl))

set_lobj_next-Frames : (p v : Ptr) → Frames (set_lobj_next p v)
unfolding set_lobj_next
set_lobj_next-Frames p v = store-Frames p _ (λ s. (refl, refl))

pure-Frames : {A : Type 0} (a : A) → Frames (pure a)
pure-Frames a = record { keeps = λ s. (refl, refl) }

gets-Frames : {A : Type 0} (f : State → A) → Frames (gets f)
gets-Frames f = record { keeps = λ s. (refl, refl) }

freelist-Frames : (p : Ptr) → Frames (set_freelist p)
freelist-Frames p = record { keeps = λ s. (refl, refl) }

total-Frames : Frames (λ s. ok tt (record s { rp_total = s.rp_total + 1 }))
total-Frames = record { keeps = λ s. (refl, refl) }

died-Frames : {A : Type 0} → Frames {A = A} (λ s. died)
died-Frames = record { keeps = λ s. tt }

out_of_fuel-Frames : {A : Type 0} → Frames {A = A} (λ s. out_of_fuel)
out_of_fuel-Frames = record { keeps = λ s. tt }

fragment-Frames : (k : ℕ) (np : Ptr) → Frames (fragment k np)
unfolding fragment
fragment-Frames zero np = out_of_fuel-Frames
fragment-Frames (suc k) np =
    chain (gets State.global_freelist) _ (gets-Frames State.global_freelist) λ base.
      branch (ltb (np + sizeof_rp) (base + bytes_alloc_by_sbrk)) _ _
        (chain _ _ (set_n-Frames np (np + sizeof_rp))
          λ _. chain _ _ total-Frames λ _. fragment-Frames k (np + sizeof_rp))
        (pure-Frames np)

link_chunk-Frames : (sb : Ptr) → Frames (link_chunk sb)
unfolding link_chunk
link_chunk-Frames sb =
    branch (is_rp_aligned sb) _ _
      (chain (gets State.global_freelist) _ (gets-Frames State.global_freelist) λ old.
        chain _ _ (freelist-Frames sb) λ _.
          chain _ _ total-Frames λ _. chain _ _ (fragment-Frames 100 sb) λ np. set_n-Frames np old)
      died-Frames

module _ (malloc : ℕ → ℕ → Ptr) where
  malloc-Frames : (n : ℕ) → Frames (malloc_with malloc n)
  unfolding malloc_with
  malloc-Frames n = record { keeps = λ s. (refl, refl) }

  call_sbrk-Frames : Frames (call_sbrk malloc)
  unfolding call_sbrk
  call_sbrk-Frames =
      chain _ _ (malloc-Frames (bytes_alloc_by_sbrk + sizeof_rp + sizeof_rp))
        λ sb. branch (sb == null) _ _ (pure-Frames tt) (link_chunk-Frames (align_sb sb))

  take_page-Frames : Frames (take_page malloc)
  unfolding take_page
  take_page-Frames =
      chain (gets State.global_freelist) _ (gets-Frames State.global_freelist) λ free_list.
        chain _ _ (branch (free_list == null) _ _ call_sbrk-Frames (pure-Frames tt)) λ _.
          chain (gets State.global_freelist) _ (gets-Frames State.global_freelist) λ np.
            chain _ _ (load-Frames State.rp_n np)
              λ n. chain _ _ (freelist-Frames n) λ _. pure-Frames np

  alloc_new_page-Frames : (gen : Ptr) → Frames (alloc_new_page malloc gen)
  unfolding alloc_new_page
  alloc_new_page-Frames gen = chain _ _ take_page-Frames λ np. chain _ _ (set_n-Frames np null) λ _.
      chain _ _ (set_gen-Frames np gen) λ _. chain _ _ (load-Frames State.gen_fp gen) λ fp.
        chain _ _
          (branch (fp == null) _ _ (set_fp-Frames gen np)
            (chain _ _ (load-Frames State.gen_a gen) λ a. set_n-Frames (last_rp_of_gen a) np))
          λ _. pure-Frames (data_of np)

  alloc_lobjs-Frames : (n : ℕ) → Frames (alloc_lobjs malloc n)
  unfolding alloc_lobjs
  alloc_lobjs-Frames n =
      chain (malloc_with malloc (lobjs_bytes n)) _ (malloc-Frames (lobjs_bytes n))
        λ lobjs. branch (lobjs == null) _ (pure lobjs) died-Frames (pure-Frames lobjs)

  alloc_large-Frames : (gen : Ptr) (n : ℕ) → Frames (alloc_large malloc gen n)
  unfolding alloc_large
  alloc_large-Frames gen n = chain _ _ (alloc_lobjs-Frames n) λ lobjs.
      chain _ _ (load-Frames State.ro_lobjs (get_ro_from_gen gen)) λ old.
        chain _ _ (set_lobj_next-Frames lobjs old)
          λ _. chain _ _ (set_lobjs-Frames (get_ro_from_gen gen) lobjs) λ _. pure-Frames (lobjs + 8)

  alloc_gen-Frames : (gen : Ptr) (n : ℕ) → Frames (alloc_gen malloc gen n)
  unfolding alloc_gen
  alloc_gen-Frames gen n =
      branch (ltb allocatable_words_in_region_page n) _ _ (alloc_large-Frames gen n) (
        chain _ _ (load-Frames State.gen_a gen) λ t1.
          branch (ltb (rp_boundary t1) (t1 + 8 * n)) _ _
            (chain _ _ (alloc_new_page-Frames gen) λ a. chain _ _ (set_a-Frames gen a) λ _.
              chain _ _ (load-Frames State.gen_a gen)
                λ t1'. chain _ _ (set_a-Frames gen (t1' + 8 * n)) λ _. pure-Frames t1')
            (chain _ _ (set_a-Frames gen (t1 + 8 * n)) λ _. pure-Frames t1))

  pub alloc-Frames : (r : Ptr) (n : ℕ) → Frames (alloc malloc r n)
  unfolding alloc
  alloc-Frames r n = alloc_gen-Frames (clear_status_bits r) n

  -- An allocation that ends leaves the words and characters as they were.
  pub alloc-keeps :
      (r : Ptr) (n : ℕ) (s : State) (p : Ptr) (s' : State)
      → alloc malloc r n s ≡ ok p s'
      → (s'.word ≡ s.word) × (s'.byte ≡ s.byte)
  alloc-keeps r n s p s' run = subst (λ e. Kept s e) run (Frames.keeps (alloc-Frames r n) s)
