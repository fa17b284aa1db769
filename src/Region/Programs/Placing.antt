-- ===== src/Region/Programs/Placing.antt =====
-- A new object does not overlap the objects that the program holds.
use unikernel_with_region_in.Base.{
  ℕ, ◌+◌, ◌%◌, ◌<◌, ◌≤◌, ◌≡◌, ◌≢◌, ◌⊎◌, inl, inr, refl, sym, subst, ◌∙◌, List, [], ◌∷◌, ◌++◌, ◌==◌,
  count, count-append, All, arith, Bool-cases,
}
use unikernel_with_region_in.State.{Ptr, State}
use unikernel_with_region_in.Region.Alloc.Total.{Placed}
use unikernel_with_region_in.Region.Chain.{count-ending}
use unikernel_with_region_in.Region.Focus.{count-all_pages, count-all_addrs}
use unikernel_with_region_in.Region.Layout.{sizeof_rp}
use unikernel_with_region_in.Region.Layout.Masks.{IsPage}
use unikernel_with_region_in.Region.View.{Desc, all_pages, all_addrs, Inv}
use unikernel_with_region_in.Region.Programs.Live.{
  Block, end_of, Disjoint, Here, IsHoused, IsHoused-frame, page_of, split, in_left, in_right,
}

All-count : (P : Ptr → Type 0) (x : Ptr) (ps : List Ptr) → All P ps → count x ps ≢ 0 → P x
All-count P x [] h n = absurd (n refl)
All-count P x (p ∷ ps) h n = elim (Bool-cases (x == p)) [
  | inl e ↦ subst P {x = p} (ground (arith, e)) h.0
  | inr e ↦ All-count P x ps h.1 (ground (arith, e))
]

-- Two pages do not overlap.
pages_apart :
    (p q : Ptr)
    → p % sizeof_rp ≡ 0
    → q % sizeof_rp ≡ 0
    → p ≢ q
    → (p + sizeof_rp ≤ q) ⊎ (q + sizeof_rp ≤ p)
pages_apart p q e f ne = omega arith

module _ (s s' : State) (fl fl' : List Ptr) (xs : List Desc) (d d' : Desc) (ys : List Desc)
    (t n : ℕ) (inv : Inv s fl (xs ++ d ∷ ys)) (inv' : Inv s' fl' (xs ++ d' ∷ ys))
    (place : Placed s s' (xs ++ d ∷ ys) d d' t n) where
  parts :
      (x : Ptr)
      → count x (all_pages xs) + count x d.front + count x (d.last ∷ []) + count x (all_pages ys)
        < 2
  parts x = omega (
    arith,
    inv.distinct x,
    count-append x fl (all_pages (xs ++ d ∷ ys)),
    count-all_pages x xs d ys,
    count-ending x d.front d.last,
  )

  abbrev new : Block
  new = record { region = d.addr; start = t; words = n }

  last_page : IsPage d'.last
  last_page = All-count IsPage d'.last (fl' ++ all_pages (xs ++ d' ∷ ys)) inv'.pages (
      ground (
        arith,
        count-append d'.last fl' (all_pages (xs ++ d' ∷ ys)),
        count-all_pages d'.last xs d' ys,
        count-ending d'.last d'.front d'.last,
      ))

  elsewhere :
      (b : Block) (p : Ptr)
      → count p (all_pages (xs ++ d ∷ ys)) ≢ 0
      → p + 16 ≤ b.start
      → end_of b ≤ p + sizeof_rp
      → p ≢ d'.last
      → Disjoint new b
  elsewhere b p inside from to ne =
      let is : IsPage p =
        All-count IsPage p (fl ++ all_pages (xs ++ d ∷ ys)) inv.pages
          (omega (arith, count-append p fl (all_pages (xs ++ d ∷ ys)), inside)) in
      elim (pages_apart p d'.last is.aligned last_page.aligned ne) [
        | inl e ↦ inr (omega (arith, e, to, place.from_data))
        | inr e ↦ inl (omega (arith, e, from, place.to_end))
      ]

  -- An object of `d` itself.
  beside : (b : Block) (p : Ptr) → Here s d b p → Disjoint new b
  beside b p h = elim (Bool-cases (p == d'.last)) [
    | inr ne ↦
        elsewhere b p (omega (arith, count-all_pages p xs d ys, h.page)) h.from_data h.to_end
          (ground (arith, ne))
    | inl e ↦
        let same : p ≡ d'.last = ground (arith, e) in
        elim place.fresh [
          | inl (f, l, a) ↦ elim h.used [
            | inl early ↦ absurd (ground (arith, parts p, same, l, early))
            | inr (last, used) ↦ inr (omega (arith, a, used))
          ]
          | inr (f, absent) ↦
              absurd (ground (arith, absent, same, h.page, count-all_pages p xs d ys))
        ]
  ]

  -- An object of another region.
  apart_from :
      (b : Block) (p : Ptr)
      → (count p (all_pages xs) ≢ 0) ⊎ (count p (all_pages ys) ≢ 0)
      → p + 16 ≤ b.start
      → end_of b ≤ p + sizeof_rp
      → Disjoint new b
  apart_from b p place_of from to =
      let inside : count p (all_pages (xs ++ d ∷ ys)) ≢ 0 =
        ground (arith, place_of, count-all_pages p xs d ys) in
      elsewhere b p inside from to λ same. elim place.fresh [
        | inl (f, l, a) ↦ ground (arith, parts p, same, l, place_of)
        | inr (f, absent) ↦ ground (arith, absent, same, inside)
      ]

  pub new-Disjoint : (b : Block) → IsHoused s (xs ++ d ∷ ys) b → Disjoint new b
  new-Disjoint b h = elim (split s xs d ys b h) [
    | inl left ↦ let (p, e, f, g) = page_of s xs b left in apart_from b p (inl e) f g
    | inr (inl (p, here)) ↦ beside b p here
    | inr (inr right) ↦ let (p, e, f, g) = page_of s ys b right in apart_from b p (inr e) f g
  ]

  -- The region has the new object.
  new-Here : Here s' d' new d'.last
  new-Here = record {
    region = sym place.same_region.0;
    page = ground (arith, count-ending d'.last d'.front d'.last);
    from_data = place.from_data;
    to_end = place.to_end;
    used = inr (refl, rw place.same_region.0 (omega (arith, place.next)));
  }

  pub new-IsHoused : IsHoused s' (xs ++ d' ∷ ys) new
  new-IsHoused = in_right s' xs (d' ∷ ys) new (inl (d'.last, new-Here))

  -- The old objects of the region stay in their pages.
  kept-Here : (b : Block) (p : Ptr) → Here s d b p → Here s' d' b p
  kept-Here b p h = record {
    region = h.region ∙ sym place.same_region.0;
    page = ground (
      arith,
      h.page,
      place.fresh,
      count-ending p d.front d.last,
      count-ending p d'.front d'.last,
    );
    from_data = h.from_data;
    to_end = h.to_end;
    used = elim place.fresh [
      | inl (f, l, a) ↦ elim h.used [
        | inl early ↦ inl (rw f early)
        | inr (last, used) ↦
            inr (last ∙ sym l, rw place.same_region.0 (omega (arith, used, a, place.next)))
      ]
      | inr (f, absent) ↦ inl (rw f h.page)
    ];
  }

  others :
      (x : Ptr)
      → (count x (all_addrs xs) ≢ 0) ⊎ (count x (all_addrs ys) ≢ 0)
      → s'.gen_a x ≡ s.gen_a x
  others x h = place.spares x λ e. ground (arith, inv.regions x, count-all_addrs x xs d ys, e, h)

  pub kept-IsHoused : (b : Block) → IsHoused s (xs ++ d ∷ ys) b → IsHoused s' (xs ++ d' ∷ ys) b
  kept-IsHoused b h = elim (split s xs d ys b h) [
    | inl left ↦ in_left s' xs (d' ∷ ys) b (IsHoused-frame s s' xs b (λ x n. others x (inl n)) left)
    | inr (inl (p, here)) ↦ in_right s' xs (d' ∷ ys) b (inl (p, kept-Here b p here))
    | inr (inr right) ↦
        in_right s' xs (d' ∷ ys) b (inr (IsHoused-frame s s' ys b (λ x n. others x (inr n)) right))
  ]
