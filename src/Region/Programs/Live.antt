-- ===== src/Region/Programs/Live.antt =====
-- The objects that a program holds: each in a page of its region, and no two overlapping.
use unikernel_with_region_in.Base.{
  ℕ, ◌+◌, ◌*◌, ◌≤◌, ◌≡◌, ◌≢◌, ◌⊎◌, inl, inr, List, [], ◌∷◌, ◌++◌, ◌==◌, if◌then◌else◌, count,
  count-append, All, arith, Bool-cases,
}
use unikernel_with_region_in.State.{Ptr, State}
use unikernel_with_region_in.Region.Layout.{sizeof_rp}
use unikernel_with_region_in.Region.View.{Desc, pages, all_pages, all_addrs}

-- An object: the address of its region's descriptor, where it starts, and its words.
pub record Block : Type 0 where
  pub region : Ptr
  pub start : Ptr
  pub words : ℕ

abbrev pub end_of : Block → Ptr
end_of b = b.start + 8 * b.words

abbrev pub Disjoint : Block → Block → Type 0
Disjoint b c = (end_of b ≤ c.start) ⊎ (end_of c ≤ b.start)

abbrev pub IsApart : List Block → Type 0
IsApart [] = Unit
IsApart (b ∷ bs) = All (Disjoint b) bs × IsApart bs

-- The objects that are not in a region.
unfoldable pub without : Ptr → List Block → List Block
without r [] = []
without r (b ∷ bs) = let rest = without r bs in if b.region == r then rest else b ∷ rest

-- The objects that are in one of the regions.
unfoldable pub within : List Ptr → List Block → List Block
within rs [] = []
within rs (b ∷ bs) = let rest = within rs bs in if count b.region rs == 0 then rest else b ∷ rest

-- An object is in the page `p` of the region `d`, and in front of the allocation pointer if the page is
-- the last one.
pub record Here (s : State) (d : Desc) (b : Block) (p : Ptr) : Type 0 where
  pub region : b.region ≡ d.addr
  pub page : count p (pages d) ≢ 0
  pub from_data : p + 16 ≤ b.start
  pub to_end : end_of b ≤ p + sizeof_rp
  pub used : (count p d.front ≢ 0) ⊎ ((p ≡ d.last) × (end_of b ≤ s.gen_a d.addr))

abbrev pub IsHoused : State → List Desc → Block → Type 0
IsHoused s [] b = ⊥
IsHoused s (d ∷ ds) b = ((p : Ptr) × Here s d b p) ⊎ IsHoused s ds b

-- The objects of a program in a memory with the regions `ds`.
pub record IsLive (s : State) (ds : List Desc) (bs : List Block) : Type 0 where
  pub housed : All (IsHoused s ds) bs
  pub apart : IsApart bs

pub IsHoused-frame :
    (s s' : State) (ds : List Desc) (b : Block)
    → ((x : Ptr) → count x (all_addrs ds) ≢ 0 → s'.gen_a x ≡ s.gen_a x)
    → IsHoused s ds b
    → IsHoused s' ds b
IsHoused-frame s s' [] b same h = elim h [ ]
IsHoused-frame s s' (d ∷ ds) b same (inl (p, h)) = inl (
  p,
  record {
    region = h.region;
    page = h.page;
    from_data = h.from_data;
    to_end = h.to_end;
    used = rw (same d.addr (ground arith)) h.used;
  },
)
IsHoused-frame s s' (d ∷ ds) b same (inr h) =
    inr (IsHoused-frame s s' ds b (λ x n. same x (ground arith)) h)

-- The page of an object.
pub page_of :
    (s : State) (ds : List Desc) (b : Block)
    → IsHoused s ds b
    → (p : Ptr) × (count p (all_pages ds) ≢ 0) × (p + 16 ≤ b.start) × (end_of b ≤ p + sizeof_rp)
page_of s [] b h = elim h [ ]
page_of s (d ∷ ds) b (inl (p, h)) =
    (p, omega (arith, count-append p (pages d) (all_pages ds), h.page), h.from_data, h.to_end)
page_of s (d ∷ ds) b (inr h) =
    let (p, e, f, g) = page_of s ds b h in
    (p, omega (arith, count-append p (pages d) (all_pages ds), e), f, g)

-- Objects of a stack with `d` between `xs` and `ys`.
pub split :
    (s : State) (xs : List Desc) (d : Desc) (ys : List Desc) (b : Block)
    → IsHoused s (xs ++ d ∷ ys) b
    → IsHoused s xs b ⊎ (((p : Ptr) × Here s d b p) ⊎ IsHoused s ys b)
split s [] d ys b (inl h) = inr (inl h)
split s [] d ys b (inr h) = inr (inr h)
split s (e ∷ xs) d ys b (inl h) = inl (inl h)
split s (e ∷ xs) d ys b (inr h) = elim (split s xs d ys b h) [ inl g ↦ inl (inr g) | inr g ↦ inr g ]

pub in_left :
    (s : State) (xs ys : List Desc) (b : Block) → IsHoused s xs b → IsHoused s (xs ++ ys) b
in_left s [] ys b h = elim h [ ]
in_left s (x ∷ xs) ys b (inl h) = inl h
in_left s (x ∷ xs) ys b (inr h) = inr (in_left s xs ys b h)

pub in_right :
    (s : State) (xs ys : List Desc) (b : Block) → IsHoused s ys b → IsHoused s (xs ++ ys) b
in_right s [] ys b h = h
in_right s (x ∷ xs) ys b h = inr (in_right s xs ys b h)

module _ {P Q : Block → Type 0} where
  pub All-map : (bs : List Block) → ((b : Block) → P b → Q b) → All P bs → All Q bs
  All-map [] f h = tt
  All-map (b ∷ bs) f h = (f b h.0, All-map bs f h.1)

  -- What is left after the objects of `r` are lost.
  pub without-All :
      (r : Ptr) (bs : List Block)
      → ((b : Block) → b.region ≢ r → P b → Q b)
      → All P bs
      → All Q (without r bs)
  unfolding without
  without-All r [] f h = tt
  without-All r (b ∷ bs) f h = elim (Bool-cases (b.region == r)) [
    | inl e ↦ rw e (without-All r bs f h.1)
    | inr e ↦ rw e (f b (ground (arith, e)) h.0, without-All r bs f h.1)
  ]

pub without-IsApart : (r : Ptr) (bs : List Block) → IsApart bs → IsApart (without r bs)
unfolding without
without-IsApart r [] h = tt
without-IsApart r (b ∷ bs) h = elim (Bool-cases (b.region == r)) [
  | inl e ↦ rw e (without-IsApart r bs h.1)
  | inr e ↦ rw e (
    without-All {P = Disjoint b} {Q = Disjoint b} r bs (λ c ne d. d) h.0,
    without-IsApart r bs h.1,
  )
]
