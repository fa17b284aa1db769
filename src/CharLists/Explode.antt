-- ===== src/CharLists/Explode.antt =====
-- explodeStringML in a program that runs: the string is an object of the program.
use unikernel_with_region_in.Base.{
  ℕ, zero, suc, ◌+◌, ◌-◌, ◌/◌, ◌<◌, ◌≤◌, ◌≡◌, ◌≢◌, refl, sym, ap, subst, ◌∙◌, List, [], ◌∷◌, ◌++◌,
  length, arith, ==_refl, ==_of_ne,
}
use unikernel_with_region_in.State.{Ptr, null, State, ok, upd, load_of_ne_null, set_word}
use unikernel_with_region_in.Region.{alloc}
use unikernel_with_region_in.Region.Frame.{alloc-keeps}
use unikernel_with_region_in.Region.Layout.{clear_status_bits}
use unikernel_with_region_in.Region.View.{Desc}
use unikernel_with_region_in.Region.Programs.Live.{Block, IsHoused, page_of}
use unikernel_with_region_in.Region.Programs.Ready.{IsReady, page_at_hand, spent, alloc-IsReady}
use unikernel_with_region_in.Strings.{nil, char_word, explode_from, explode_string_ml}
use unikernel_with_region_in.Strings.Compare.{text, chars, size_string_lem}
use unikernel_with_region_in.CharLists.Cells.{IsList}
use unikernel_with_region_in.CharLists.Growing.{
  char_words, AreCells, made_onto, beside, cell_made, cells_made, explode_from_lem,
}

-- All but the last one of `c` and `cs`.
abbrev pub but_last : ℕ → List ℕ → List ℕ
but_last c [] = []
but_last c (x ∷ xs) = c ∷ but_last x xs

but_last-chars : (f : Ptr → ℕ) (m : ℕ) (p : Ptr) → but_last (f p) (chars f m (p + 1)) ≡ chars f m p
but_last-chars f zero p = refl
but_last-chars f (suc m) p = ap (λ cs. f p ∷ cs) (but_last-chars f m (p + 1))

-- What `explodeStringML` puts into the list.
abbrev pub exploded : List ℕ → List ℕ
exploded [] = []
exploded (c ∷ cs) = c ∷ but_last c cs

module _ (malloc : ℕ → ℕ → Ptr) (k : ℕ) (xs ys : List Desc) (r : Ptr) where
  -- The outcome of `explodeStringML` on the string of `n` characters at `p`: the cells of the list are
  -- objects besides `bs`.
  abbrev pub GivesList : ℕ → State → List Ptr → Desc → List Block → Ptr → Type 0
  GivesList n s fl d bs p =
      (x : Ptr) × (s' : State) × (fl' : List Ptr) × (d' : Desc) × (cells : List Block)
      × (explode_string_ml malloc r p s ≡ ok x s')
      × IsReady k s' fl' (xs ++ d' ∷ ys) (made_onto cells bs)
      × IsList s'.word x (char_words (exploded (chars s.byte n (p + 8))))
      × AreCells s'.word x cells
      × (text s' p ≡ text s p)
      × (length fl ≤ n + length fl')

  explode-run :
      (m : ℕ) (s s1 s' : State) (p t : Ptr)
      → p ≢ null
      → t ≢ null
      → s.word p / 64 ≡ suc m
      → alloc malloc r 2 s ≡ ok t s1
      → explode_from malloc m r
          (p + 8)
          t
          (record s1 { word = upd s1.word t (char_word (s1.byte (p + 8))) })
        ≡ ok tt s'
      → explode_string_ml malloc r p s ≡ ok t s'
  unfolding explode_string_ml set_word
  explode-run m s s1 s' p t np nt size given run =
      rw
        (
          size_string_lem p s np,
          size,
          ==_of_ne (suc m) 0 (omega arith),
          given,
          load_of_ne_null State.byte (p + 8) s1 (omega arith),
          ==_of_ne t null nt,
        )
        (let less : suc m - 1 ≡ m = omega arith in rw (less, run) refl)

  explode_cells :
      (m : ℕ) (s : State) (fl : List Ptr) (d : Desc) (bs : List Block) (b : Block)
      → IsReady k s fl (xs ++ d ∷ ys) bs
      → IsHoused s (xs ++ d ∷ ys) b
      → 0 < b.words
      → clear_status_bits r ≡ d.addr
      → s.word b.start / 64 ≡ suc m
      → suc m ≤ length fl
      → GivesList (suc m) s fl d bs b.start
  explode_cells m s fl d bs b h hb full region size free =
      let new =
        alloc-IsReady malloc k s fl bs xs d ys r 2 h region (omega arith)
          (page_at_hand malloc k s fl bs (xs ++ d ∷ ys) (omega arith)) in
      let s1 = new.state in
      let t = new.block.start in
      let v = char_word (s1.byte (b.start + 8)) in
      let keeps = alloc-keeps malloc r 2 s t s1 new.returns in
      let s2 : State = record s1 { word = upd s1.word t v } in
      let one =
        cell_made malloc k xs ys r s fl d bs new t s2.word (λ q nt nh. rw (==_of_ne q t nt) refl) in
      let held = one.ready.live.housed.0 in
      let (_, _, above, _) = page_of s2 (xs ++ new.it ∷ ys) new.block held in
      let (_, _, above_b, _) = page_of s (xs ++ d ∷ ys) b hb in
      let (s', fl', d', cells, run, more, made, blocks) =
        explode_from_lem malloc k xs ys r m s2 new.free new.it (new.block ∷ bs) (b.start + 8)
          new.block one.ready held new.shape.1 (region ∙ sym new.same_addr)
          (omega (arith, spent malloc k s fl bs xs d ys r 2 new)) (omega arith) in
      let all =
        cells_made malloc k xs ys r m s fl d bs new t s2 s' fl' d'
          (made_onto cells (new.block ∷ bs)) one more in
      let stored : s'.word t ≡ v =
        (more.kept new.block held).1 t (omega arith) (omega (arith, new.shape.1)) (omega arith)
        ∙ rw (==_refl t) refl in
      let tag : s'.word b.start ≡ s.word b.start =
        (all.kept b hb).1 b.start (omega arith) (omega arith)
          (beside new.block b b.start new.shape.1 (new.kept b hb).0 (omega arith)
            (omega arith)).0 in
      (
        t,
        s',
        fl',
        d',
        new.block ∷ cells,
        explode-run m s s1 s' b.start t (omega (arith, above_b)) (omega (arith, above)) size
            new.returns run,
        all.ready,
        subst (λ f. IsList s'.word t (char_words (exploded (chars f (suc m) (b.start + 8)))))
            keeps.1
            (rw (but_last-chars s1.byte m (b.start + 8))
              (omega (arith, new.aligned), omega (arith, above), stored, made)),
        (refl, new.shape.1, blocks),
        rw (tag, all.same_bytes) refl,
        all.spent,
      )

  -- A string of the program and a free page for each of its characters: `explodeStringML` in a region
  -- of the stack ends and returns a list, the elements of which are the first character and then, again
  -- from the first one on, all characters but the last. Its cells are new objects: they overlap neither
  -- each other nor the objects `bs` of the program. The string reads as before and the invariant holds
  -- again. Nothing is asked of the addresses that `alloc` finds.
  pub explode_string_ml_lem :
      (s : State) (fl : List Ptr) (d : Desc) (bs : List Block) (b : Block)
      → IsReady k s fl (xs ++ d ∷ ys) bs
      → IsHoused s (xs ++ d ∷ ys) b
      → 0 < b.words
      → clear_status_bits r ≡ d.addr
      → s.word b.start / 64 ≤ length fl
      → GivesList (s.word b.start / 64) s fl d bs b.start
  unfolding explode_string_ml
  explode_string_ml_lem s fl d bs b h hb full region free = by_size (s.word b.start / 64) refl free
    where
      by_size : (n : ℕ) → s.word b.start / 64 ≡ n → n ≤ length fl → GivesList n s fl d bs b.start
      by_size zero e f =
          let (_, _, above, _) = page_of s (xs ++ d ∷ ys) b hb in
          (
            nil,
            s,
            fl,
            d,
            [],
            rw (size_string_lem b.start s (omega (arith, above)), e) refl,
            h,
            omega arith,
            refl,
            refl,
            omega arith,
          )
      by_size (suc m) e f = explode_cells m s fl d bs b h hb full region e f
