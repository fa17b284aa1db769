-- ===== src/Region/Programs/Fresh.antt =====
-- An allocation in any region of the stack that the program names by the address of its descriptor, and
-- what a program that writes into the new object leaves as it was.
use unikernel_with_region_in.Base.{
  ℕ, ◌+◌, ◌%◌, ◌<◌, ◌≤◌, ◌≡◌, ◌≢◌, ◌⊎◌, inl, inr, refl, sym, ap, subst, ◌∙◌, List, [], ◌∷◌, ◌++◌,
  length, count, count-append, arith, ◌==◌, Bool-cases,
}
use unikernel_with_region_in.State.{Ptr, State, ok}
use unikernel_with_region_in.Region.{alloc}
use unikernel_with_region_in.Region.Frame.{alloc-keeps}
use unikernel_with_region_in.Region.Layout.{
  sizeof_rp, clear_status_bits, allocatable_words_in_region_page,
}
use unikernel_with_region_in.Region.Supply.{Spends}
use unikernel_with_region_in.Region.View.{Desc, all_pages, all_addrs}
use unikernel_with_region_in.Region.Programs.Live.{
  Block, end_of, Disjoint, IsHoused, IsHoused-frame, page_of,
}
use unikernel_with_region_in.Region.Programs.Ready.{
  IsReady, IsReady-objects, page_at_hand, spent, addrs-replace, alloc-IsReady,
}

-- The `n` addresses from `a` on are in no page that is free or in use.
abbrev pub Clear : Ptr → ℕ → List Ptr → List Desc → Type 0
Clear a n fl ds = (p : Ptr) → count p (fl ++ all_pages ds) ≢ 0 → (a + n ≤ p) ⊎ (p + sizeof_rp ≤ a)

module _ (k : ℕ) where
  -- What a piece of a program leaves that takes at most `n` free pages and writes into its own new
  -- objects only.
  pub record Extends (n : ℕ) (s : State) (fl : List Ptr) (ds : List Desc) (s' : State)
      (fl' : List Ptr) (ds' : List Desc) (bs' : List Block) : Type 0 where
    pub ready : IsReady k s' fl' ds' bs'
    pub same_addrs : all_addrs ds' ≡ all_addrs ds
    pub fewer : (x : Ptr) → count x (fl' ++ all_pages ds') ≤ count x (fl ++ all_pages ds)
    pub spent_pages : length fl ≤ n + length fl'
    pub kept :
        (b : Block)
        → IsHoused s ds b
        → IsHoused s' ds' b
          × ((q : Ptr)
              → b.start ≤ q
              → q < end_of b
              → (s'.word q ≡ s.word q) × (s'.byte q ≡ s.byte q))
    pub outside : (q : Ptr) → Clear q 1 fl ds → (s'.word q ≡ s.word q) × (s'.byte q ≡ s.byte q)

  pub Extends-none :
      (s : State) (fl : List Ptr) (ds : List Desc) (bs : List Block)
      → IsReady k s fl ds bs
      → Extends 0 s fl ds s fl ds bs
  Extends-none s fl ds bs h = record {
    ready = h;
    same_addrs = refl;
    fewer = λ x. omega arith;
    spent_pages = omega arith;
    kept = λ b g. (g, λ q from to. (refl, refl));
    outside = λ q c. (refl, refl);
  }

  pub Clear-fewer :
      (a n : ℕ) (fl fl' : List Ptr) (ds ds' : List Desc)
      → ((x : Ptr) → count x (fl' ++ all_pages ds') ≤ count x (fl ++ all_pages ds))
      → Clear a n fl ds
      → Clear a n fl' ds'
  Clear-fewer a n fl fl' ds ds' fewer c p used = c p (omega (arith, fewer p, used))

  pub Extends-then :
      (m n : ℕ) (s : State) (fl : List Ptr) (ds : List Desc) (s1 : State) (fl1 : List Ptr)
      (ds1 : List Desc) (bs1 : List Block) (s2 : State) (fl2 : List Ptr) (ds2 : List Desc)
      (bs2 : List Block)
      → Extends m s fl ds s1 fl1 ds1 bs1
      → Extends n s1 fl1 ds1 s2 fl2 ds2 bs2
      → Extends (m + n) s fl ds s2 fl2 ds2 bs2
  Extends-then m n s fl ds s1 fl1 ds1 bs1 s2 fl2 ds2 bs2 e f = record {
    ready = f.ready;
    same_addrs = f.same_addrs ∙ e.same_addrs;
    fewer = λ x. omega (arith, e.fewer x, f.fewer x);
    spent_pages = omega (arith, e.spent_pages, f.spent_pages);
    kept = λ b g. (
      (f.kept b (e.kept b g).0).0,
      λ q from to.
          let one = (e.kept b g).1 q from to in
          let two = (f.kept b (e.kept b g).0).1 q from to in (two.0 ∙ one.0, two.1 ∙ one.1),
    );
    outside = λ q c.
        let one = e.outside q c in
        let two = f.outside q (Clear-fewer q 1 fl fl1 ds ds1 e.fewer c) in
        (two.0 ∙ one.0, two.1 ∙ one.1);
  }

module _ (malloc : ℕ → ℕ → Ptr) (k : ℕ) (s : State) (fl : List Ptr) (bs : List Block) (r : Ptr)
    (n : ℕ) where
  -- A new object of `n` words, and what follows from whatever is written into it.
  pub record Fresh (ds : List Desc) : Type 0 where
    pub block : Block
    pub state : State
    pub free : List Ptr
    pub regions : List Desc
    pub returns : alloc malloc r n s ≡ ok block.start state
    pub housed : IsHoused state regions block
    pub words : block.words ≡ n
    pub aligned : block.start % 8 ≡ 0
    pub in_page :
        (p : Ptr) × (count p (fl ++ all_pages ds) ≢ 0)
        × (p + 16 ≤ block.start)
        × (end_of block ≤ p + sizeof_rp)
    pub apart : (b : Block) → IsHoused s ds b → Disjoint block b
    pub written :
        (w b : Ptr → ℕ)
        → ((q : Ptr) → (q < block.start) ⊎ (end_of block ≤ q) → (w q ≡ s.word q) × (b q ≡ s.byte q))
        → Extends k 1 s fl ds (record state { word = w; byte = b }) free regions (block ∷ bs)

  -- The pages that a call has taken at a state with a free page are not new ones.
  Spends-fewer :
      (ds : List Desc) (s' : State) (fl' : List Ptr) (ds' : List Desc)
      → 0 < length fl
      → Spends malloc s fl ds s' fl' ds'
      → (x : Ptr) → count x (fl' ++ all_pages ds') ≤ count x (fl ++ all_pages ds)
  Spends-fewer ds s' fl' ds' free (inl h) = h.2
  Spends-fewer ds s' fl' ds' free (inr h) = absurd (omega (arith, free, h.1))

  Fresh-between :
      (xs : List Desc) (d : Desc) (ys : List Desc)
      → clear_status_bits r ≡ d.addr
      → n ≤ allocatable_words_in_region_page
      → 0 < length fl
      → IsReady k s fl (xs ++ d ∷ ys) bs
      → Fresh (xs ++ d ∷ ys)
  Fresh-between xs d ys region small free h =
      let ds = xs ++ d ∷ ys in
      let new =
        alloc-IsReady malloc k s fl bs xs d ys r n h region small
          (page_at_hand malloc k s fl bs ds free) in
      let ds' = xs ++ new.it ∷ ys in
      let held = new.ready.live.housed.0 in
      let keeps = alloc-keeps malloc r n s new.block.start new.state new.returns in
      let fewer = Spends-fewer ds new.state new.free ds' free new.spends in
      let (p, used, from, to) = page_of new.state ds' new.block held in
      let used : count p (fl ++ all_pages ds) ≢ 0 =
        omega (arith, fewer p, used, count-append p new.free (all_pages ds')) in
      record {
        block = new.block;
        state = new.state;
        free = new.free;
        regions = ds';
        returns = new.returns;
        housed = held;
        words = new.shape.1;
        aligned = new.aligned;
        in_page = (p, used, from, to);
        apart = λ b g. (new.kept b g).0;
        written = λ w b same. record {
          ready = IsReady-objects k new.state new.free ds' (new.block ∷ bs) w b new.ready;
          same_addrs = addrs-replace xs d new.it ys new.same_addr;
          fewer = fewer;
          spent_pages = spent malloc k s fl bs xs d ys r n new;
          kept = λ c g. (
            IsHoused-frame new.state (record new.state { word = w; byte = b }) ds' c (λ x m. refl)
                (new.kept c g).1,
            λ q l m.
                same q
                  (elim (new.kept c g).0 [ inl e ↦ inr (omega arith) | inr e ↦ inl (omega arith) ]),
          );
          outside = λ q c.
              same q (elim (c p used) [ inl e ↦ inl (omega arith) | inr e ↦ inr (omega arith) ]);
        };
      }

  find_region :
      (a : Ptr) (ds : List Desc)
      → count a (all_addrs ds) ≢ 0
      → (xs : List Desc) × (d : Desc) × (ys : List Desc) × (ds ≡ xs ++ d ∷ ys) × (a ≡ d.addr)
  find_region a [] m = absurd (m refl)
  find_region a (d ∷ ds) m = elim (Bool-cases (a == d.addr)) [
    | inl e ↦ ([], d, ds, refl, ground (arith, e))
    | inr e ↦
        let (xs, c, ys, f, g) = find_region a ds (ground arith) in
        (d ∷ xs, c, ys, ap (λ es. d ∷ es) f, g)
  ]

  pub alloc-Fresh :
      (ds : List Desc)
      → count (clear_status_bits r) (all_addrs ds) ≢ 0
      → n ≤ allocatable_words_in_region_page
      → 0 < length fl
      → IsReady k s fl ds bs
      → Fresh ds
  alloc-Fresh ds m small free =
      let (xs, d, ys, e, g) = find_region (clear_status_bits r) ds m in
      subst (λ es. IsReady k s fl es bs → Fresh es) (sym e) (Fresh-between xs d ys g small free)
