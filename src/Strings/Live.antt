-- ===== src/Strings/Live.antt =====
-- concatStringML in a program that runs: its strings are objects of the program.
use unikernel_with_region_in.Base.{
  ℕ, ◌+◌, ◌*◌, ◌/◌, ◌<◌, ◌≤◌, ◌≡◌, ◌≢◌, ◌⊎◌, inl, inr, List, ◌∷◌, ◌++◌, length, arith,
}
use unikernel_with_region_in.State.{Ptr, State, ok}
use unikernel_with_region_in.Region.Layout.{clear_status_bits, allocatable_words_in_region_page}
use unikernel_with_region_in.Region.View.{Desc}
use unikernel_with_region_in.Region.Programs.Live.{Block, IsHoused, page_of}
use unikernel_with_region_in.Region.Programs.Ready.{
  IsReady, page_at_hand, spent, alloc-IsReady, IsReady-objects,
}
use unikernel_with_region_in.Strings.{concat_string_ml, string_words}
use unikernel_with_region_in.Strings.Compare.{text}
use unikernel_with_region_in.Strings.Concat.{concatenated, concat_string_ml_lem}
use unikernel_with_region_in.Strings.Copy.{Apart}

-- How many characters the string at `p` has.
abbrev pub size_at : State → Ptr → ℕ
size_at s p = s.word p / 64

-- An object is a string.
abbrev pub IsString : State → Block → Type 0
IsString s b = b.words ≡ string_words (size_at s b.start)

pub string_words_fits : (n : ℕ) → n ≤ 8167 → string_words n ≤ allocatable_words_in_region_page
unfolding string_words
string_words_fits n h = ground arith

pub string_words_room : (n : ℕ) → n ≤ 8167 → n + 9 ≤ 8 * string_words n
unfolding string_words
string_words_room n h = ground arith

-- The characters of a string and those of another one that does not overlap it.
chars-Apart :
    (str l w res n v : ℕ)
    → l + 9 ≤ 8 * w
    → n + 9 ≤ 8 * v
    → (res + 8 * v ≤ str) ⊎ (str + 8 * w ≤ res)
    → Apart (str + 8) l (res + 8) (n + 1) × (str ≢ res)
chars-Apart str l w res n v room room' (inl h) = (inr (omega arith), omega arith)
chars-Apart str l w res n v room room' (inr h) = (inl (omega arith), omega arith)

-- Two strings, which may be the same one, of at most 8167 characters together, that lie in objects of
-- regions of the stack, and a free page: `concatStringML` in a region of the stack ends and returns a
-- new object of the program, which overlaps no other one and is a string of the characters of the
-- first string and then of the second; both read as before, the invariant holds again, and at most one
-- page of the free list is gone. Nothing is asked of the address that `alloc` finds.
pub concat_live_lem :
    (malloc : ℕ → ℕ → Ptr) (k : ℕ) (s : State) (fl : List Ptr) (bs : List Block) (xs : List Desc)
    (d : Desc) (ys : List Desc) (r : Ptr) (b1 b2 : Block)
    → IsReady k s fl (xs ++ d ∷ ys) bs
    → clear_status_bits r ≡ d.addr
    → 0 < length fl
    → IsHoused s (xs ++ d ∷ ys) b1
    → IsHoused s (xs ++ d ∷ ys) b2
    → IsString s b1
    → IsString s b2
    → size_at s b1.start + size_at s b2.start ≤ 8167
    → (b : Block) × (s' : State) × (fl' : List Ptr) × (d' : Desc) × (concat_string_ml malloc r
          b1.start b2.start s
        ≡ ok b.start s')
      × IsReady k s' fl' (xs ++ d' ∷ ys) (b ∷ bs)
      × (text s' b.start ≡ text s b1.start ++ text s b2.start)
      × (text s' b1.start ≡ text s b1.start)
      × (text s' b2.start ≡ text s b2.start)
      × (length fl ≤ 1 + length fl')
concat_live_lem malloc k s fl bs xs d ys r b1 b2 h region free h1 h2 t1 t2 small =
    let n = size_at s b1.start + size_at s b2.start in
    let new =
      alloc-IsReady malloc k s fl bs xs d ys r (string_words n) h region (string_words_fits n small)
        (page_at_hand malloc k s fl bs (xs ++ d ∷ ys) free) in
    let b = new.block in
    let room : n + 9 ≤ 8 * b.words = omega (arith, string_words_room n small, new.shape.1) in
    let (p, _, from, to) = page_of new.state (xs ++ new.it ∷ ys) b new.ready.live.housed.0 in
    let (p1, _, from1, to1) = page_of s (xs ++ d ∷ ys) b1 h1 in
    let (p2, _, from2, to2) = page_of s (xs ++ d ∷ ys) b2 h2 in
    let a1 =
      chars-Apart b1.start (size_at s b1.start) b1.words b.start n b.words
        (rw t1 (string_words_room (size_at s b1.start) (omega (arith, small)))) room
        (new.kept b1 h1).0 in
    let a2 =
      chars-Apart b2.start (size_at s b2.start) b2.words b.start n b.words
        (rw t2 (string_words_room (size_at s b2.start) (omega (arith, small)))) room
        (new.kept b2 h2).0 in
    let made =
      concat_string_ml_lem malloc r b1.start b2.start b.start s new.state (omega (arith, from1))
        (omega (arith, from2)) (omega (arith, from)) a1.1 a2.1 (omega (arith, small)) a1.0 a2.0
        new.returns in
    let after = concatenated s new.state b1.start b2.start b.start in
    (
      b,
      after,
      new.free,
      new.it,
      made.0,
      IsReady-objects k new.state new.free (xs ++ new.it ∷ ys) (b ∷ bs) after.word after.byte
          new.ready,
      made.1,
      made.2,
      made.3,
      spent malloc k s fl bs xs d ys r (string_words n) new,
    )
