-- ===== src/CharLists/Growing.antt =====
-- The loop of explodeStringML, which hangs one cell after the other on a list.
use unikernel_with_region_in.Base.{
  ℕ, zero, suc, ◌+◌, ◌<◌, ◌≤◌, ◌≡◌, ◌≢◌, inl, inr, refl, sym, ap, subst, ◌∙◌, List, [], ◌∷◌, ◌++◌,
  length, arith, ==_refl, ==_of_ne,
}
use unikernel_with_region_in.State.{Ptr, null, State, ok, upd, load_of_ne_null, set_word}
use unikernel_with_region_in.Region.Frame.{alloc-keeps}
use unikernel_with_region_in.Region.Layout.{clear_status_bits}
use unikernel_with_region_in.Region.View.{Desc}
use unikernel_with_region_in.Region.Programs.Live.{
  Block, end_of, Disjoint, IsHoused, IsHoused-frame, page_of,
}
use unikernel_with_region_in.Region.Programs.Ready.{
  IsReady, page_at_hand, spent, NewObject, alloc-IsReady, IsReady-objects,
}
use unikernel_with_region_in.Strings.{nil, char_word, explode_from}
use unikernel_with_region_in.Strings.Compare.{chars}
use unikernel_with_region_in.CharLists.Cells.{IsList}

-- The elements of a list of characters, as they stand in its cells.
abbrev pub char_words : List ℕ → List ℕ
char_words [] = []
char_words (c ∷ cs) = char_word c ∷ char_words cs

-- The cells of the list at `p`, in order, are these objects.
abbrev pub AreCells : (Ptr → ℕ) → Ptr → List Block → Type 0
AreCells f p [] = p ≡ nil
AreCells f p (b ∷ bs) = (b.start ≡ p) × (b.words ≡ 2) × AreCells f (f (p + 8)) bs

-- Objects that have been made one after the other, in front of those that were there.
abbrev pub made_onto : List Block → List Block → List Block
made_onto [] bs = bs
made_onto (c ∷ cs) bs = made_onto cs (c ∷ bs)

-- A word of an object is none of those of a cell that does not overlap it.
pub beside :
    (a b : Block) (q : Ptr)
    → a.words ≡ 2
    → Disjoint a b
    → b.start ≤ q
    → q < end_of b
    → (q ≢ a.start) × (q ≢ a.start + 8)
beside a b q two (inl h) from to = (omega arith, omega arith)
beside a b q two (inr h) from to = (omega arith, omega arith)

module _ (malloc : ℕ → ℕ → Ptr) (k : ℕ) (xs ys : List Desc) (r : Ptr) where
  -- What `n` steps leave that write the rest of the cell at `hole`, or whole new cells.
  pub record Grows (n : ℕ) (hole : Ptr) (s : State) (fl : List Ptr) (d : Desc) (s' : State)
      (fl' : List Ptr) (d' : Desc) (bs' : List Block) : Type 0 where
    pub ready : IsReady k s' fl' (xs ++ d' ∷ ys) bs'
    pub spent : length fl ≤ n + length fl'
    pub same_addr : d'.addr ≡ d.addr
    pub same_bytes : s'.byte ≡ s.byte
    pub kept :
        (b : Block)
        → IsHoused s (xs ++ d ∷ ys) b
        → IsHoused s' (xs ++ d' ∷ ys) b
          × ((q : Ptr) → b.start ≤ q → q < end_of b → q ≢ hole → s'.word q ≡ s.word q)

  -- A cell that `alloc` has given is filled, and the word at `hole` may be written too.
  pub cell_made :
      (s : State) (fl : List Ptr) (d : Desc) (bs : List Block)
      (new : NewObject malloc k s fl bs xs d ys r 2) (hole : Ptr) (w : Ptr → ℕ)
      → ((q : Ptr) → q ≢ new.block.start → q ≢ hole → w q ≡ new.state.word q)
      → Grows 1 hole s fl d (record (new.state) { word = w }) new.free new.it (new.block ∷ bs)
  cell_made s fl d bs new hole w same =
      let s1 = new.state in
      let keeps = alloc-keeps malloc r 2 s new.block.start s1 new.returns in
      record {
        ready =
            IsReady-objects k s1 new.free (xs ++ new.it ∷ ys) (new.block ∷ bs) w s1.byte new.ready;
        spent = spent malloc k s fl bs xs d ys r 2 new;
        same_addr = new.same_addr;
        same_bytes = keeps.1;
        kept = λ b g. (
          IsHoused-frame s1 (record s1 { word = w }) (xs ++ new.it ∷ ys) b (λ x m. refl)
              (new.kept b g).1,
          λ q from to ne.
              same q (beside new.block b q new.shape.1 (new.kept b g).0 from to).0 ne
              ∙ ap (λ f. f q) keeps.0,
        );
      }

  -- One cell, and then `n` more that hang on it.
  pub cells_made :
      (n : ℕ) (s : State) (fl : List Ptr) (d : Desc) (bs : List Block)
      (new : NewObject malloc k s fl bs xs d ys r 2) (hole : Ptr) (s2 : State) (s' : State)
      (fl' : List Ptr) (d' : Desc) (bs' : List Block)
      → Grows 1 hole s fl d s2 new.free new.it (new.block ∷ bs)
      → Grows n (new.block.start + 8) s2 new.free new.it s' fl' d' bs'
      → Grows (suc n) hole s fl d s' fl' d' bs'
  cells_made n s fl d bs new hole s2 s' fl' d' bs' one more = record {
    ready = more.ready;
    spent = omega (arith, one.spent, more.spent);
    same_addr = more.same_addr ∙ one.same_addr;
    same_bytes = more.same_bytes ∙ one.same_bytes;
    kept = λ b g. (
      (more.kept b (one.kept b g).0).0,
      λ q from to ne.
          (more.kept b (one.kept b g).0).1 q from to
            (beside new.block b q new.shape.1 (new.kept b g).0 from to).1
          ∙ (one.kept b g).1 q from to ne,
    );
  }

  -- The outcome of the loop on the `n` characters from `p` on, with a last cell `c`.
  abbrev pub Explodes : ℕ → State → List Ptr → Desc → List Block → Ptr → Block → Type 0
  Explodes n s fl d bs p c =
      (s' : State) × (fl' : List Ptr) × (d' : Desc) × (cells : List Block) × (explode_from malloc n
          r p c.start s
        ≡ ok tt s')
      × Grows n (c.start + 8) s fl d s' fl' d' (made_onto cells bs)
      × IsList s'.word (s'.word (c.start + 8)) (char_words (chars s.byte n p))
      × AreCells s'.word (s'.word (c.start + 8)) cells

  -- A word of an object is written.
  written :
      (s : State) (fl : List Ptr) (d : Desc) (bs : List Block) (q v : ℕ)
      → IsReady k s fl (xs ++ d ∷ ys) bs
      → Grows 0 q s fl d (record s { word = upd s.word q v }) fl d bs
  written s fl d bs q v h = record {
    ready = IsReady-objects k s fl (xs ++ d ∷ ys) bs (upd s.word q v) s.byte h;
    spent = omega arith;
    same_addr = refl;
    same_bytes = refl;
    kept = λ b g. (
      IsHoused-frame s (record s { word = upd s.word q v }) (xs ++ d ∷ ys) b (λ x n. refl) g,
      λ x from to ne. rw (==_of_ne x q ne) refl,
    );
  }

  pub explode_from_lem :
      (n : ℕ) (s : State) (fl : List Ptr) (d : Desc) (bs : List Block) (p : Ptr) (c : Block)
      → IsReady k s fl (xs ++ d ∷ ys) bs
      → IsHoused s (xs ++ d ∷ ys) c
      → c.words ≡ 2
      → clear_status_bits r ≡ d.addr
      → n ≤ length fl
      → p ≢ null
      → Explodes n s fl d bs p c
  unfolding explode_from set_word
  explode_from_lem zero s fl d bs p c h hc two region free np = (
    record s { word = upd s.word (c.start + 8) nil },
    fl,
    d,
    [],
    rw (==_of_ne (c.start + 8) null (omega arith)) refl,
    written s fl d bs (c.start + 8) nil h,
    rw (==_refl (c.start + 8)) (omega arith),
    rw (==_refl (c.start + 8)) refl,
  )
  explode_from_lem (suc n) s fl d bs p c h hc two region free np =
      let new =
        alloc-IsReady malloc k s fl bs xs d ys r 2 h region (omega arith)
          (page_at_hand malloc k s fl bs (xs ++ d ∷ ys) (omega arith)) in
      let s1 = new.state in
      let t = new.block.start in
      let v = char_word (s1.byte p) in
      let hole = c.start + 8 in
      let keeps = alloc-keeps malloc r 2 s t s1 new.returns in
      let s2 : State = record s1 { word = upd (upd s1.word t v) hole t } in
      let one =
        cell_made s fl d bs new hole s2.word
          (λ q nt nh. rw (==_of_ne q hole nh, ==_of_ne q t nt) refl) in
      let held = one.ready.live.housed.0 in
      let (_, _, above, _) = page_of s2 (xs ++ new.it ∷ ys) new.block held in
      let away =
        beside new.block c hole new.shape.1 (new.kept c hc).0 (omega arith) (omega arith) in
      let (s', fl', d', cells, run, more, made, blocks) =
        explode_from_lem n s2 new.free new.it (new.block ∷ bs) (p + 1) new.block one.ready held
          new.shape.1 (region ∙ sym new.same_addr)
          (omega (arith, spent malloc k s fl bs xs d ys r 2 new)) (omega arith) in
      let linked : s'.word hole ≡ t =
        (more.kept c (one.kept c hc).0).1 hole (omega arith) (omega arith) away.1
        ∙ rw (==_refl hole) refl in
      let stored : s'.word t ≡ v =
        (more.kept new.block held).1 t (omega arith) (omega (arith, new.shape.1)) (omega arith)
        ∙ rw (==_of_ne t hole (λ e. away.0 (sym e)), ==_refl t) refl in
      (
        s',
        fl',
        d',
        new.block ∷ cells,
        rw
            (
              new.returns,
              load_of_ne_null State.byte p s1 np,
              ==_of_ne t null (omega (arith, above)),
              ==_of_ne hole null (omega arith),
            )
            run,
        cells_made n s fl d bs new hole s2 s' fl' d' (made_onto cells (new.block ∷ bs)) one more,
        subst (λ f. IsList s'.word (s'.word hole) (char_words (chars f (suc n) p))) keeps.1
            (rw linked (omega (arith, new.aligned), omega (arith, above), stored, made)),
        rw linked (refl, new.shape.1, blocks),
      )
