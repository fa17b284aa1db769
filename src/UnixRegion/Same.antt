-- ===== src/UnixRegion/Same.antt =====
-- The Unix allocator does what the Xen allocator does, unless a page is needed and there is none.
use unikernel_with_region_in.Base.{
  ℕ, ◌+◌, ◌*◌, ◌<◌, ◌≤◌, ◌≡◌, ◌≢◌, ◌⊎◌, refl, ◌==◌, ltb, ==_of_ne, Bool-cases, inl, inr, lt→ltb,
  le→not_ltb,
}
use unikernel_with_region_in.State.{
  Ptr, null, State, died, upd, set_fp, set_p, set_lobjs, load, malloc_with, load_of_ne_null,
}
use unikernel_with_region_in.Region
use unikernel_with_region_in.Region.Layout.{
  allocatable_words_in_region_page, bytes_alloc_by_sbrk, sizeof_rp, clear_status_bits, rp_boundary,
}
use unikernel_with_region_in.UnixRegion.{
  call_sbrk, take_page, alloc_new_page, allocate_region0, allocate_region, alloc_gen, alloc,
}

abbrev pub chunk_bytes : ℕ
chunk_bytes = bytes_alloc_by_sbrk + sizeof_rp + sizeof_rp

-- The descriptor that allocateRegion has filled in before it takes a page.
abbrev emptied : State → Ptr → State
emptied s r = record s {
  gen_fp = upd s.gen_fp r null;
  ro_p = upd s.ro_p r s.topregion;
  ro_lobjs = upd s.ro_lobjs r null;
}

module _ (malloc : ℕ → ℕ → Ptr) where
  -- There is a free page, or `malloc` gives a chunk.
  abbrev pub HasPage : State → Type 0
  HasPage s = (s.global_freelist ≢ null) ⊎ (malloc s.mallocs chunk_bytes ≢ null)

  call_sbrk-same :
      (s : State)
      → malloc s.mallocs chunk_bytes ≢ null
      → call_sbrk malloc s ≡ Region.call_sbrk malloc s
  unfolding call_sbrk Region.call_sbrk malloc_with
  call_sbrk-same s chunk = rw (==_of_ne (malloc s.mallocs chunk_bytes) null chunk) refl

  take_page-same : (s : State) → HasPage s → take_page malloc s ≡ Region.take_page malloc s
  unfolding take_page Region.take_page
  take_page-same s (inl free) = rw (==_of_ne s.global_freelist null free) refl
  take_page-same s (inr chunk) = elim (Bool-cases (s.global_freelist == null)) [
    | inl h ↦ rw (h, call_sbrk-same s chunk) refl
    | inr h ↦ rw (h) refl
  ]

  take_page-dies :
      (s : State)
      → s.global_freelist ≡ null
      → malloc s.mallocs chunk_bytes ≡ null
      → take_page malloc s ≡ died
  unfolding take_page call_sbrk malloc_with
  take_page-dies s empty fails = rw (empty, fails) refl

  alloc_new_page-same :
      (gen : Ptr) (s : State)
      → HasPage s
      → alloc_new_page malloc gen s ≡ Region.alloc_new_page malloc gen s
  unfolding alloc_new_page Region.alloc_new_page
  alloc_new_page-same gen s h = rw (take_page-same s h) refl

  alloc_new_page-dies :
      (gen : Ptr) (s : State)
      → s.global_freelist ≡ null
      → malloc s.mallocs chunk_bytes ≡ null
      → alloc_new_page malloc gen s ≡ died
  unfolding alloc_new_page
  alloc_new_page-dies gen s empty fails = rw (take_page-dies s empty fails) refl

  alloc_gen-same :
      (gen n : ℕ) (s : State)
      → HasPage s
      → alloc_gen malloc gen n s ≡ Region.alloc_gen malloc gen n s
  unfolding alloc_gen Region.alloc_gen load
  alloc_gen-same gen n s h = elim (Bool-cases (ltb allocatable_words_in_region_page n)) [
    | inl e ↦ rw (e) refl
    | inr e ↦ rw (e) (elim (Bool-cases (gen == null)) [
      | inl g ↦ rw (g) refl
      | inr g ↦ rw (g) (elim (Bool-cases (ltb (rp_boundary (s.gen_a gen)) (s.gen_a gen + 8 * n))) [
        | inl f ↦ rw (f, alloc_new_page-same gen s h) refl
        | inr f ↦ rw (f) refl
      ])
    ])
  ]

  allocate_region-same :
      (r : Ptr) (s : State)
      → HasPage s
      → allocate_region malloc r s ≡ Region.allocate_region malloc r s
  unfolding allocate_region allocate_region0 Region.allocate_region Region.allocate_region0 set_fp
      set_p set_lobjs
  allocate_region-same r s h = elim (Bool-cases (clear_status_bits r == null)) [
    | inl g ↦ rw (g) refl
    | inr g ↦
        rw (g, g, g, alloc_new_page-same (clear_status_bits r) (emptied s (clear_status_bits r)) h)
          refl
  ]

  allocate_region-dies :
      (r : Ptr) (s : State)
      → s.global_freelist ≡ null
      → malloc s.mallocs chunk_bytes ≡ null
      → clear_status_bits r ≢ null
      → allocate_region malloc r s ≡ died
  unfolding allocate_region allocate_region0 set_fp set_p set_lobjs
  allocate_region-dies r s empty fails ne =
      let g = ==_of_ne (clear_status_bits r) null ne in
      rw
        (
          g,
          g,
          g,
          alloc_new_page-dies (clear_status_bits r) (emptied s (clear_status_bits r)) empty fails,
        )
        refl

-- On Unix, where there is a free page or `malloc` gives a chunk, `alloc` and `allocateRegion` do
-- exactly what they do on Xen, so that all that holds of them there holds here.
pub unix_same_lem :
    (malloc : ℕ → ℕ → Ptr) (r n : ℕ) (s : State)
    → (s.global_freelist ≢ null) ⊎ (malloc s.mallocs chunk_bytes ≢ null)
    → (alloc malloc r n s ≡ Region.alloc malloc r n s)
      × (allocate_region malloc r s ≡ Region.allocate_region malloc r s)
unfolding alloc Region.alloc
unix_same_lem malloc r n s h =
    (alloc_gen-same malloc (clear_status_bits r) n s h, allocate_region-same malloc r s h)

-- On Unix, where there is no free page and `malloc` fails, allocating a region, or at most 1022 words
-- that do not fit the last page of a region, ends the program; it does not go through NULL as on Xen.
pub unix_dies_lem :
    (malloc : ℕ → ℕ → Ptr) (r n : ℕ) (s : State)
    → s.global_freelist ≡ null
    → malloc s.mallocs chunk_bytes ≡ null
    → clear_status_bits r ≢ null
    → n ≤ allocatable_words_in_region_page
    → rp_boundary (s.gen_a (clear_status_bits r)) < s.gen_a (clear_status_bits r) + 8 * n
    → (alloc malloc r n s ≡ died) × (allocate_region malloc r s ≡ died)
unfolding alloc alloc_gen
unix_dies_lem malloc r n s empty fails ne small full =
    let g = clear_status_bits r in
    (
      rw
          (
            le→not_ltb allocatable_words_in_region_page n small,
            load_of_ne_null State.gen_a g s ne,
            lt→ltb (rp_boundary (s.gen_a g)) (s.gen_a g + 8 * n) full,
            alloc_new_page-dies malloc g s empty fails,
          )
          refl,
      allocate_region-dies malloc r s empty fails ne,
    )
