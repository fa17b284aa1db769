-- ===== src/CommandLine/Building.antt =====
-- sml_commandline_args: the list of the arguments, in regions of a program that runs.
use unikernel_with_region_in.Base.{
  ℕ, zero, suc, ◌+◌, ◌*◌, ◌/◌, ◌%◌, ◌<◌, ◌≤◌, ◌≡◌, ◌≢◌, inl, inr, refl, ap, ap₂, ◌∙◌, List, [], ◌∷◌,
  length, arith,
}
use unikernel_with_region_in.State.{Ptr, null, State}
use unikernel_with_region_in.Region.View.{Desc}
use unikernel_with_region_in.Region.Programs.Live.{Block, IsHoused}
use unikernel_with_region_in.Region.Programs.Fresh.{Clear, Extends, Clear-fewer}
use unikernel_with_region_in.Strings.{nil}
use unikernel_with_region_in.Strings.Compare.{chars}
use unikernel_with_region_in.CStrings.Text.{IsText}

chars-agree :
    (f g : Ptr → ℕ) (n : ℕ) (p : Ptr)
    → ((q : Ptr) → p ≤ q → q < p + n → f q ≡ g q)
    → chars f n p ≡ chars g n p
chars-agree f g zero p same = refl
chars-agree f g (suc n) p same =
    ap₂ (λ c cs. c ∷ cs) (same p (omega arith) (omega arith))
      (chars-agree f g n (p + 1) (λ q from to. same q (omega arith) (omega arith)))

IsText-agree :
    (f g : Ptr → ℕ) (p : Ptr) (cs : List ℕ)
    → ((q : Ptr) → p ≤ q → q < p + (length cs + 1) → f q ≡ g q)
    → IsText g p cs
    → IsText f p cs
IsText-agree f g p [] same t = same p (omega arith) (omega arith) ∙ t
IsText-agree f g p (c ∷ cs) same t = (
  same p (omega arith) (omega arith) ∙ t.0,
  t.1,
  IsText-agree f g (p + 1) cs (λ q from to. same q (omega arith) (omega arith)) t.2,
)

-- The block is a string at `p` with the characters `cs`.
pub record IsStringOf (s : State) (ds : List Desc) (p : Ptr) (cs : List ℕ) (block : Block)
    : Type 0 where
  pub start : block.start ≡ p
  pub housed : IsHoused s ds block
  pub size : s.word block.start / 64 ≡ length cs
  pub room : 0 < block.words
  pub fits : length cs + 8 ≤ 8 * block.words
  pub content : chars s.byte (length cs) (block.start + 8) ≡ cs

-- The block is a pair at `p`, a cell of a list.
pub record IsPair (s : State) (ds : List Desc) (p : Ptr) (block : Block) : Type 0 where
  pub start : block.start ≡ p
  pub housed : IsHoused s ds block
  pub words : block.words ≡ 2
  pub aligned : p % 4 ≡ 0

-- The ML list at `x` has strings with the characters `css`; its cells and strings are the blocks of the
-- last argument, a cell and its string after the other.
abbrev pub IsStringList : State → List Desc → Ptr → List (List ℕ) → List Block → Type 0
IsStringList s ds x [] [] = x ≡ nil
IsStringList s ds x [] (b ∷ bs) = ⊥
IsStringList s ds x (cs ∷ css) [] = ⊥
IsStringList s ds x (cs ∷ css) (b ∷ []) = ⊥
IsStringList s ds x (cs ∷ css) (b ∷ c ∷ bs) =
    IsPair s ds x b × IsStringOf s ds (s.word x) cs c × IsStringList s ds (s.word (x + 8)) css bs

-- The entry at `a` of the array of arguments is a C string of the characters `cs`, and neither is in a
-- page of the allocator.
pub record IsArg (s : State) (fl : List Ptr) (ds : List Desc) (a : Ptr) (cs : List ℕ) : Type 0 where
  pub entry : a ≢ null
  pub entry_clear : Clear a 1 fl ds
  pub ne_null : s.word a ≢ null
  pub it : IsText s.byte (s.word a) cs
  pub clear : Clear (s.word a) (length cs + 1) fl ds
  pub short : length cs ≤ 8167

abbrev pub IsArgs : State → List Ptr → List Desc → Ptr → List (List ℕ) → Type 0
IsArgs s fl ds a [] = Unit
IsArgs s fl ds a (cs ∷ css) = IsArg s fl ds a cs × IsArgs s fl ds (a + 8) css

module _ (k n : ℕ) (s : State) (fl : List Ptr) (ds : List Desc) (s' : State) (fl' : List Ptr)
    (ds' : List Desc) (bs' : List Block) (e : Extends k n s fl ds s' fl' ds' bs') where
  pub IsStringOf-kept :
      (p : Ptr) (cs : List ℕ) (b : Block) → IsStringOf s ds p cs b → IsStringOf s' ds' p cs b
  IsStringOf-kept p cs b h =
      let (housed, same) = e.kept b h.housed in
      record {
        start = h.start;
        housed = housed;
        size = ap (λ w. w / 64) (same b.start (omega arith) (omega (arith, h.room))).0 ∙ h.size;
        room = h.room;
        fits = h.fits;
        content =
            chars-agree s'.byte s.byte (length cs) (b.start + 8)
              (λ q from to. (same q (omega arith) (omega (arith, h.fits))).1)
            ∙ h.content;
      }

  IsPair-kept :
      (p : Ptr) (b : Block)
      → IsPair s ds p b
      → IsPair s' ds' p b × (s'.word p ≡ s.word p) × (s'.word (p + 8) ≡ s.word (p + 8))
  IsPair-kept p b h =
      let (housed, same) = e.kept b h.housed in
      (
        record { start = h.start; housed = housed; words = h.words; aligned = h.aligned },
        (same p (omega (arith, h.start)) (omega (arith, h.start, h.words))).0,
        (same (p + 8) (omega (arith, h.start)) (omega (arith, h.start, h.words))).0,
      )

  pub IsStringList-kept :
      (x : Ptr) (css : List (List ℕ)) (bs : List Block)
      → IsStringList s ds x css bs
      → IsStringList s' ds' x css bs
  IsStringList-kept x [] [] h = h
  IsStringList-kept x [] (b ∷ bs) h = elim h [ ]
  IsStringList-kept x (cs ∷ css) [] h = elim h [ ]
  IsStringList-kept x (cs ∷ css) (b ∷ []) h = elim h [ ]
  IsStringList-kept x (cs ∷ css) (b ∷ c ∷ bs) (pair, string, rest) =
      let (pair', first, second) = IsPair-kept x b pair in
      (
        pair',
        rw first (IsStringOf-kept (s.word x) cs c string),
        rw second (IsStringList-kept (s.word (x + 8)) css bs rest),
      )

  pub IsArg-kept : (a : Ptr) (cs : List ℕ) → IsArg s fl ds a cs → IsArg s' fl' ds' a cs
  IsArg-kept a cs h =
      let same = (e.outside a h.entry_clear).0 in
      record {
        entry = h.entry;
        entry_clear = Clear-fewer k a 1 fl fl' ds ds' e.fewer h.entry_clear;
        ne_null = rw same h.ne_null;
        it = rw same (
            IsText-agree s'.byte s.byte (s.word a) cs
              (λ q from to.
                (e.outside q (λ p used. elim (h.clear p used) [
                  | inl l ↦ inl (omega arith)
                  | inr l ↦ inr (omega arith)
                ])).1)
              h.it);
        clear = rw same (Clear-fewer k (s.word a) (length cs + 1) fl fl' ds ds' e.fewer h.clear);
        short = h.short;
      }
