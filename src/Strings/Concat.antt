-- ===== src/Strings/Concat.antt =====
-- The new string of `concatStringML`.
use unikernel_with_region_in.Base.{
  ℕ, zero, suc, ◌+◌, ◌*◌, ◌/◌, ◌%◌, ◌^◌, ◌<◌, ◌≡◌, ◌≢◌, inl, refl, ap, ap₂, sym, ◌∙◌, arith,
  ==_of_ne, ==_refl, List, [], ◌∷◌, ◌++◌, length,
}
use native.Mathlib.Nat.{mod-eq_of_lt}
use unikernel_with_region_in.Base.Bits.{bit_or_step, bit_or-zero}
use unikernel_with_region_in.State.{Ptr, null, State, ok, upd, set_word, set_byte}
use unikernel_with_region_in.Region.{alloc}
use unikernel_with_region_in.Region.Frame.{alloc-keeps}
use unikernel_with_region_in.Strings.{
  val_tag_string, size_string, string_words, alloc_string, concat_string_ml,
}
use unikernel_with_region_in.Strings.Compare.{chars, text, size_string_lem}
use unikernel_with_region_in.Strings.Copy.{
  put, Apart, chars-put-Apart, chars-put, length-chars, copy-put,
}

pub tag-size : (n : ℕ) → n < 2 ^ 58 → val_tag_string n / 64 ≡ n
tag-size n h = ground (arith, bit_or_step (n * 64 % 2 ^ 64) 1, bit_or-zero (n * 64 % 2 ^ 64 / 2))

chars-append :
    (f : Ptr → ℕ) (a b : ℕ) (p : Ptr) → chars f (a + b) p ≡ chars f a p ++ chars f b (p + a)
chars-append f zero b p = ap₂ (λ k q. chars f k q) (omega arith) (omega arith)
chars-append f (suc a) b p =
    ap (λ k. chars f k p) {y = suc (a + b)} (omega arith)
    ∙ ap (λ cs. f p ∷ cs)
        (chars-append f a b (p + 1)
          ∙ ap (λ q. chars f a (p + 1) ++ chars f b q) {y = p + suc a} (omega arith))

-- The two texts in a row from `p` on, with a 0 behind them.
abbrev joined : List ℕ → List ℕ → Ptr → (Ptr → ℕ) → Ptr → ℕ
joined xs ys p f = put (0 ∷ []) (p + length xs + length ys) (put ys (p + length xs) (put xs p f))

chars-joined :
    (xs ys : List ℕ) (p : Ptr) (f : Ptr → ℕ)
    → chars (joined xs ys p f) (length xs + length ys) p ≡ xs ++ ys
chars-joined xs ys p f =
    let inner = put ys (p + length xs) (put xs p f) in
    chars-put-Apart (length xs + length ys) p (0 ∷ []) (p + length xs + length ys) inner
      (inl (omega arith))
    ∙ chars-append inner (length xs) (length ys) p
    ∙ ap₂ (λ cs ds. cs ++ ds)
        (chars-put-Apart (length xs) p ys (p + length xs) (put xs p f) (inl (omega arith))
          ∙ chars-put xs p f)
        (chars-put ys (p + length xs) (put xs p f))

-- `s'`, with the words of `s` and the tag of the new string, and the characters `b`.
abbrev pub tagged : State → State → Ptr → ℕ → (Ptr → ℕ) → State
tagged s s' res n b = record s' { word = upd s.word res (val_tag_string n); byte = b }

-- The memory after `concatStringML`.
abbrev pub concatenated : State → State → Ptr → Ptr → Ptr → State
concatenated s s' str1 str2 res = record s' {
  word = upd s.word res (val_tag_string (s.word str1 / 64 + s.word str2 / 64));
  byte = joined (text s str1) (text s str2) (res + 8) s.byte;
}

module _ (malloc : ℕ → ℕ → Ptr) where
  pub alloc_string-run :
      (r : Ptr) (n : ℕ) (s : State) (res : Ptr) (s' : State)
      → alloc malloc r (string_words n) s ≡ ok res s'
      → res ≢ null
      → alloc_string malloc r n s ≡ ok res (tagged s s' res n s.byte)
  unfolding alloc_string set_word
  alloc_string-run r n s res s' run ne =
      let kept = alloc-keeps malloc r (string_words n) s res s' run in
      rw (run, ==_of_ne res null ne)
        (ap₂ (λ w b. ok res (record s' { word = upd w res (val_tag_string n); byte = b })) kept.0
          kept.1)

  size-tagged :
      (s s' : State) (str res : Ptr) (n : ℕ) (b : Ptr → ℕ)
      → str ≢ null
      → str ≢ res
      → size_string str (tagged s s' res n b) ≡ ok (s.word str / 64) (tagged s s' res n b)
  size-tagged s s' str res n b ne out =
      size_string_lem str (tagged s s' res n b) ne ∙ rw (==_of_ne str res out) refl

  -- The characters that are left when the second string is read behind the first one's copy.
  joined-bytes :
      (s : State) (str1 str2 res : Ptr)
      → Apart (str2 + 8) (s.word str2 / 64) (res + 8) (s.word str1 / 64 + s.word str2 / 64 + 1)
      → (let b = put (text s str1) (res + 8) s.byte in
          put
            (0 ∷ [])
            (res + 8 + s.word str1 / 64 + s.word str2 / 64)
            (put (chars b (s.word str2 / 64) (str2 + 8)) (res + 8 + s.word str1 / 64) b))
        ≡ joined (text s str1) (text s str2) (res + 8) s.byte
  joined-bytes s str1 str2 res a2 =
      let e1 = length-chars s.byte (s.word str1 / 64) (str1 + 8) in
      let e2 = length-chars s.byte (s.word str2 / 64) (str2 + 8) in
      rw
        (
          chars-put-Apart (s.word str2 / 64) (str2 + 8) (text s str1) (res + 8) s.byte
              (ground (arith, e1, a2)),
          e1,
          e2,
        )
        refl

  concat-run :
      (r str1 str2 res : Ptr) (s s' : State)
      → str1 ≢ null
      → str2 ≢ null
      → res ≢ null
      → str1 ≢ res
      → str2 ≢ res
      → s.word str1 / 64 + s.word str2 / 64 < 2 ^ 58
      → Apart (str1 + 8) (s.word str1 / 64) (res + 8) (s.word str1 / 64 + s.word str2 / 64 + 1)
      → Apart (str2 + 8) (s.word str2 / 64) (res + 8) (s.word str1 / 64 + s.word str2 / 64 + 1)
      → alloc malloc r (string_words (s.word str1 / 64 + s.word str2 / 64)) s ≡ ok res s'
      → concat_string_ml malloc r str1 str2 s ≡ ok res (concatenated s s' str1 str2 res)
  unfolding concat_string_ml set_byte
  concat-run r str1 str2 res s s' n1 n2 n3 o1 o2 fits a1 a2 run =
      let l1 = s.word str1 / 64 in
      let l2 = s.word str2 / 64 in
      rw
        (
          size_string_lem str1 s n1,
          size_string_lem str2 s n2,
          mod-eq_of_lt {n = l1 + l2} {m = 2 ^ 64} (omega arith),
          alloc_string-run r (l1 + l2) s res s' run n3,
          size-tagged s s' str1 res (l1 + l2) s.byte n1 o1,
          copy-put l1 (str1 + 8) (res + 8) (tagged s s' res (l1 + l2) s.byte) (omega arith)
              (omega arith) (ground arith),
          size-tagged s s' str2 res (l1 + l2) (put (text s str1) (res + 8) s.byte) n2 o2,
          copy-put l2 (str2 + 8) (res + 8 + l1)
              (tagged s s' res (l1 + l2) (put (text s str1) (res + 8) s.byte)) (omega arith)
              (omega arith) (ground arith),
          ==_of_ne (res + 8 + l1 + l2) null (omega arith),
        )
        (ap (λ b. ok res (tagged s s' res (l1 + l2) b)) (joined-bytes s str1 str2 res a2))

chars-joined-Apart :
    (k : ℕ) (p : Ptr) (xs ys : List ℕ) (q : Ptr) (f : Ptr → ℕ)
    → Apart p k q (length xs + length ys + 1)
    → chars (joined xs ys q f) k p ≡ chars f k p
chars-joined-Apart k p xs ys q f h =
    chars-put-Apart k p (0 ∷ []) (q + length xs + length ys) (put ys (q + length xs) (put xs q f))
      (ground arith)
    ∙ chars-put-Apart k p ys (q + length xs) (put xs q f) (ground arith)
    ∙ chars-put-Apart k p xs q f (ground arith)

-- A string outside the new one reads as before.
text-kept :
    (s s' : State) (str1 str2 res str : Ptr)
    → str ≢ res
    → Apart (str + 8) (s.word str / 64) (res + 8) (s.word str1 / 64 + s.word str2 / 64 + 1)
    → text (concatenated s s' str1 str2 res) str ≡ text s str
text-kept s s' str1 str2 res str out apart =
    let e1 = length-chars s.byte (s.word str1 / 64) (str1 + 8) in
    let e2 = length-chars s.byte (s.word str2 / 64) (str2 + 8) in
    rw (==_of_ne str res out) (
      chars-joined-Apart (s.word str / 64) (str + 8) (text s str1) (text s str2) (res + 8) s.byte
        (ground (arith, e1, e2, apart)))

text-joined :
    (s s' : State) (str1 str2 res : Ptr)
    → s.word str1 / 64 + s.word str2 / 64 < 2 ^ 58
    → text (concatenated s s' str1 str2 res) res ≡ text s str1 ++ text s str2
text-joined s s' str1 str2 res fits =
    let e1 = length-chars s.byte (s.word str1 / 64) (str1 + 8) in
    let e2 = length-chars s.byte (s.word str2 / 64) (str2 + 8) in
    rw (==_refl res, tag-size (s.word str1 / 64 + s.word str2 / 64) fits)
      (ap (λ k. chars (joined (text s str1) (text s str2) (res + 8) s.byte) k (res + 8))
          (ap₂ (λ m n. m + n) (sym e1) (sym e2))
        ∙ chars-joined (text s str1) (text s str2) (res + 8) s.byte)

-- Two strings, which may be the same one, of fewer than 2^58 characters together, and a block from
-- `alloc` for the new string that meets neither: `concatStringML` ends and returns the block, which
-- holds the characters of the first string and then those of the second; both read as before.
pub concat_string_ml_lem :
    (malloc : ℕ → ℕ → Ptr) (r str1 str2 res : Ptr) (s s' : State)
    → str1 ≢ null
    → str2 ≢ null
    → res ≢ null
    → str1 ≢ res
    → str2 ≢ res
    → s.word str1 / 64 + s.word str2 / 64 < 2 ^ 58
    → Apart (str1 + 8) (s.word str1 / 64) (res + 8) (s.word str1 / 64 + s.word str2 / 64 + 1)
    → Apart (str2 + 8) (s.word str2 / 64) (res + 8) (s.word str1 / 64 + s.word str2 / 64 + 1)
    → alloc malloc r (string_words (s.word str1 / 64 + s.word str2 / 64)) s ≡ ok res s'
    → let after = concatenated s s' str1 str2 res in
      (concat_string_ml malloc r str1 str2 s ≡ ok res after)
      × (text after res ≡ text s str1 ++ text s str2)
      × (text after str1 ≡ text s str1)
      × (text after str2 ≡ text s str2)
concat_string_ml_lem malloc r str1 str2 res s s' n1 n2 n3 o1 o2 fits a1 a2 run = (
  concat-run malloc r str1 str2 res s s' n1 n2 n3 o1 o2 fits a1 a2 run,
  text-joined s s' str1 str2 res fits,
  text-kept s s' str1 str2 res str1 o1 a1,
  text-kept s s' str1 str2 res str2 o2 a2,
)
