-- ===== src/Region/Supply.antt =====
-- Chunks that malloc has ready, and what a call takes of the free pages and of them.
use unikernel_with_region_in.Base.{
  ℕ, zero, suc, ◌+◌, ◌*◌, ◌^◌, ◌<◌, ◌≤◌, ◌≡◌, ◌≢◌, ◌⊎◌, inl, inr, refl, List, [], ◌∷◌, ◌++◌, count,
  count-append, length, arith, ap, subst, ◌==◌, ltb, ltb→lt, not_ltb→le, Bool-cases,
}
use unikernel_with_region_in.State.{Ptr, null, State}
use unikernel_with_region_in.Region.{align_sb}
use unikernel_with_region_in.Region.Layout.{sizeof_rp}
use unikernel_with_region_in.Region.Refill.{Delivers, chunk_start, refilled}
use unikernel_with_region_in.Region.Sbrk.{
  sbrk_request, chunk, chunk-suc, grown, align_sb_lem, count-chunk_below, count-chunk_above,
}
use unikernel_with_region_in.Region.View.{Desc, all_pages}

-- What a call has taken: at most one page of the free list, or a chunk of 100 pages from `malloc` when
-- the list is empty, and one page of it. No other pages are in use or free then.
abbrev pub Spends :
    (ℕ → ℕ → Ptr) → State → List Ptr → List Desc → State → List Ptr → List Desc → Type 0
Spends malloc s fl ds s' fl' ds' =
    ((s'.mallocs ≡ s.mallocs)
      × (length fl ≤ suc (length fl'))
      × ((x : Ptr) → count x (fl' ++ all_pages ds') ≤ count x (fl ++ all_pages ds)))
    ⊎ ((s'.mallocs ≡ s.mallocs + 1)
        × (length fl ≡ 0)
        × (100 ≤ suc (length fl'))
        × ((x : Ptr)
            → count x (fl' ++ all_pages ds')
              ≤ count x (all_pages ds) + count x (chunk 100 (chunk_start malloc s))))

pub Spends-length :
    (malloc : ℕ → ℕ → Ptr) (s : State) (fl : List Ptr) (ds : List Desc) (s' : State)
    (fl' : List Ptr) (ds' : List Desc)
    → Spends malloc s fl ds s' fl' ds'
    → length fl ≤ suc (length fl')
Spends-length malloc s fl ds s' fl' ds' (inl h) = h.1
Spends-length malloc s fl ds s' fl' ds' (inr h) = omega (arith, h.1)

-- From a state `s₀` where the page `np` is free, and `fs` behind it, a call leads to `s'`.
abbrev pub Turns : (ℕ → ℕ → Ptr) → State → List Ptr → List Desc → State → Ptr → List Ptr → Type 0
Turns malloc s fl ds s₀ np fs =
    (s' : State) (fs' : List Ptr) (ds' : List Desc)
    → s'.mallocs ≡ s₀.mallocs
    → fs' ≡ fs
    → ((x : Ptr) → count x (fs ++ all_pages ds') ≤ count x ((np ∷ fs) ++ all_pages ds))
    → Spends malloc s fl ds s' fs' ds'

pub free-Turns :
    (malloc : ℕ → ℕ → Ptr) (s : State) (np : Ptr) (fs : List Ptr) (ds : List Desc)
    → Turns malloc s (np ∷ fs) ds s np fs
free-Turns malloc s np fs ds s' fs' ds' e f c = rw f (inl (e, omega arith, c))

length-chunk : (k : ℕ) (b : Ptr) → length (chunk k b) ≡ k
unfolding chunk
length-chunk zero b = refl
length-chunk (suc k) b = ap suc (length-chunk k (b + sizeof_rp))

pub refilled-Turns :
    (malloc : ℕ → ℕ → Ptr) (s : State) (ds : List Desc)
    → Turns malloc s [] ds
        (refilled malloc s)
        (chunk_start malloc s)
        (chunk 99 (chunk_start malloc s + sizeof_rp))
unfolding grown
refilled-Turns malloc s ds s' fs' ds' e f c =
    let b = chunk_start malloc s in
    let fs = chunk 99 (b + sizeof_rp) in
    rw f (
      inr (
        e,
        refl,
        omega (arith, length-chunk 99 (b + sizeof_rp)),
        λ x.
            omega
              (arith, c x, count-append x (b ∷ fs) (all_pages ds), ap (count x) (chunk-suc 99 b)),
      ))

-- The block that call number `first + i` of `malloc` gives for a chunk.
abbrev pub block_at : (ℕ → ℕ → Ptr) → ℕ → ℕ → Ptr
block_at malloc first i = malloc (first + i) sbrk_request

abbrev pub Outside : Ptr → Ptr → Type 0
Outside p b = (p < b) ⊎ (b + sbrk_request ≤ p)

-- The next `n` calls of `malloc`, from number `first` on, give blocks for chunks in the address space
-- that overlap neither each other nor the pages `ps`.
pub record IsSupply (malloc : ℕ → ℕ → Ptr) (n first : ℕ) (ps : List Ptr) : Type 0 where
  pub ne_null : (i : ℕ) → i < n → block_at malloc first i ≢ null
  pub fits : (i : ℕ) → i < n → block_at malloc first i + sbrk_request < 2 ^ 64
  pub apart :
      (i j : ℕ)
      → i < j
      → j < n
      → (block_at malloc first i + sbrk_request ≤ block_at malloc first j)
        ⊎ (block_at malloc first j + sbrk_request ≤ block_at malloc first i)
  pub used : (i : ℕ) (p : Ptr) → i < n → count p ps ≢ 0 → Outside p (block_at malloc first i)

pub IsSupply-fewer :
    (malloc : ℕ → ℕ → Ptr) (n first first' : ℕ) (ps ps' : List Ptr)
    → IsSupply malloc n first ps
    → first' ≡ first
    → ((x : Ptr) → count x ps' ≤ count x ps)
    → IsSupply malloc n first' ps'
IsSupply-fewer malloc n first first' ps ps' h e fewer = rw e (record {
  ne_null = h.ne_null;
  fits = h.fits;
  apart = h.apart;
  used = λ i p l c. h.used i p l (omega (arith, fewer p, c));
})

-- A page of a chunk lies in the block.
in_block : (b p : Ptr) → count p (chunk 100 (align_sb b)) ≢ 0 → (b ≤ p) × (p < b + sbrk_request)
in_block b p h =
    let facts = align_sb_lem b in
    (
      elim (Bool-cases (ltb p b)) [
        | inl e ↦
            absurd (h (count-chunk_below p 100 (align_sb b) (omega (arith, ltb→lt _ _ e, facts))))
        | inr e ↦ not_ltb→le _ _ e
      ],
      elim (Bool-cases (ltb p (b + sbrk_request))) [
        | inl e ↦ ltb→lt _ _ e
        | inr e ↦
            absurd
              (h (count-chunk_above p 100 (align_sb b) (omega (arith, not_ltb→le _ _ e, facts))))
      ],
    )

module _ (malloc : ℕ → ℕ → Ptr) (n first : ℕ) (ps : List Ptr)
    (h : IsSupply malloc (suc n) first ps) where
  shift : (i : ℕ) → first + 1 + i ≡ first + suc i
  shift i = omega arith

  first-Outside :
      (i : ℕ) (p : Ptr)
      → i < n
      → (block_at malloc first 0 ≤ p) × (p < block_at malloc first 0 + sbrk_request)
      → Outside p (block_at malloc first (suc i))
  first-Outside i p l (from, to) = elim (h.apart 0 (suc i) (omega arith) (omega arith)) [
    | inl e ↦ inl (omega arith)
    | inr e ↦ inr (omega arith)
  ]

  -- The first chunk is taken.
  pub IsSupply-next :
      (first' : ℕ) (ps' : List Ptr)
      → first' ≡ first + 1
      → ((x : Ptr)
          → count x ps' ≤ count x ps + count x (chunk 100 (align_sb (malloc first sbrk_request))))
      → IsSupply malloc n first' ps'
  IsSupply-next first' ps' e more = rw e (record {
    ne_null = λ i l. rw (shift i) (h.ne_null (suc i) (omega (arith, l)));
    fits = λ i l. rw (shift i) (h.fits (suc i) (omega (arith, l)));
    apart = λ i j l m.
        rw (shift i, shift j) (h.apart (suc i) (suc j) (omega (arith, l)) (omega (arith, m)));
    used = λ i p l c. rw (shift i) (elim (Bool-cases (count p ps == 0)) [
      | inl z ↦
          first-Outside i p l (in_block (block_at malloc first 0) p (ground (arith, more p, z, c)))
      | inr z ↦ h.used (suc i) p (omega (arith, l)) (ground (arith, z))
    ]);
  })

-- What is left after a call.
abbrev pub Left : (ℕ → ℕ → Ptr) → ℕ → ℕ → List Ptr → State → List Ptr → List Desc → Type 0
Left malloc m n fl s' fl' ds' =
    (n' : ℕ) × IsSupply malloc n' s'.mallocs (fl' ++ all_pages ds')
    × (length fl + 100 * n ≤ m + length fl' + 100 * n')

module _ (malloc : ℕ → ℕ → Ptr) (n : ℕ) (s : State) (fl : List Ptr) (ds : List Desc)
    (h : IsSupply malloc n s.mallocs (fl ++ all_pages ds)) where
  -- A page can be had.
  pub IsSupply-Delivers : 0 < length fl + 100 * n → fl ≡ [] → Delivers malloc s ds
  IsSupply-Delivers some none =
      let l : 0 < n = omega (arith, ap length none, some) in
      let e : block_at malloc s.mallocs 0 ≡ malloc s.mallocs sbrk_request =
        ap (λ m. malloc m sbrk_request) (omega arith) in
      record {
        ne_null = subst (λ b. b ≢ null) e (h.ne_null 0 l);
        fits = subst (λ b. b + sbrk_request < 2 ^ 64) e (h.fits 0 l);
        apart = λ p c.
            subst (Outside p) e (h.used 0 p l (omega (arith, c, count-append p fl (all_pages ds))));
      }

pub IsSupply-Left :
    (malloc : ℕ → ℕ → Ptr) (n : ℕ) (s : State) (fl : List Ptr) (ds : List Desc) (s' : State)
    (fl' : List Ptr) (ds' : List Desc)
    → IsSupply malloc n s.mallocs (fl ++ all_pages ds)
    → 0 < length fl + 100 * n
    → Spends malloc s fl ds s' fl' ds'
    → Left malloc 1 n fl s' fl' ds'
IsSupply-Left malloc n s fl ds s' fl' ds' h some (inl (e, l, c)) = (
  n,
  IsSupply-fewer malloc n s.mallocs s'.mallocs (fl ++ all_pages ds) (fl' ++ all_pages ds') h e c,
  omega (arith, l),
)
IsSupply-Left malloc zero s fl ds s' fl' ds' h some (inr (e, z, l, c)) =
    absurd (omega (arith, some, z))
IsSupply-Left malloc (suc n) s fl ds s' fl' ds' h some (inr (e, z, l, c)) = (
  n,
  IsSupply-next malloc n s.mallocs (fl ++ all_pages ds) h s'.mallocs (fl' ++ all_pages ds') e
      (λ x. omega (arith, c x, count-append x fl (all_pages ds))),
  omega (arith, z, l),
)
