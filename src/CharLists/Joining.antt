-- ===== src/CharLists/Joining.antt =====
-- implodeStringML.
use unikernel_with_region_in.Base.{
  ℕ, zero, suc, ◌+◌, ◌-◌, ◌/◌, ◌^◌, ◌<◌, ◌≤◌, ◌≡◌, ◌≢◌, inl, inr, refl, ap, ap₂, sym, ◌∙◌, arith,
  ==_of_ne, ==_refl, List, [], ◌∷◌, ◌++◌, length, length-append,
}
use native.Mathlib.Nat.{mod-eq_of_lt}
use unikernel_with_region_in.State.{Ptr, null, State, ok, upd, set_byte, load_of_ne_null}
use unikernel_with_region_in.Region.{alloc}
use unikernel_with_region_in.Strings.{string_words, val_tag_string}
use unikernel_with_region_in.Strings.Compare.{text, chars, size_string_lem}
use unikernel_with_region_in.Strings.Concat.{tagged, tag-size, alloc_string-run}
use unikernel_with_region_in.Strings.Copy.{put, Apart, copy-put, chars-put-Apart, length-chars}
use unikernel_with_region_in.CStrings.Text.{chars-put_text}
use unikernel_with_region_in.CStrings.Convert.{with_text}
use unikernel_with_region_in.CharLists.{sum_sizes, store_strings, implode_string_ml}
use unikernel_with_region_in.CharLists.Cells.{IsList, Avoids, is_cons-cell, is_cons-end, IsList-upd}

-- The characters of the strings at `ps`, one string after the other.
abbrev pub all_text : State → List Ptr → List ℕ
all_text s [] = []
all_text s (p ∷ ps) = text s p ++ all_text s ps

-- The strings do not meet the `l` characters from `q` on, nor the tag at `res`.
abbrev pub AllApart : State → List Ptr → Ptr → Ptr → ℕ → Type 0
AllApart s [] res q l = Unit
AllApart s (p ∷ ps) res q l =
    (p ≢ null) × (p ≢ res) × Apart (p + 8) (s.word p / 64) q l × AllApart s ps res q l

length-text_at : (s : State) (p : Ptr) → length (text s p) ≡ s.word p / 64
length-text_at s p = length-chars s.byte (s.word p / 64) (p + 8)

sum_sizes_lem :
    (k : ℕ) (p : Ptr) (ps : List Ptr) (n : ℕ) (s : State) (res q : Ptr) (l : ℕ)
    → length ps < k
    → n + length (all_text s ps) < 2 ^ 64
    → AllApart s ps res q l
    → IsList s.word p ps
    → sum_sizes k p n s ≡ ok (n + length (all_text s ps)) s
unfolding sum_sizes
sum_sizes_lem zero p ps n s res q l h w a i = absurd (omega arith)
sum_sizes_lem (suc k) p [] n s res q l h w a i =
    rw (is_cons-end p i) (ap (λ m. ok m s) (omega arith))
sum_sizes_lem (suc k) p (x ∷ ps) n s res q l h w a i =
    let m = s.word x / 64 in
    let size : length (all_text s (x ∷ ps)) ≡ m + length (all_text s ps) =
      length-append (text s x) (all_text s ps)
      ∙ ap (λ j. j + length (all_text s ps)) (length-text_at s x) in
    rw
      (
        is_cons-cell p i.0,
        load_of_ne_null State.word p s i.1,
        i.2,
        size_string_lem x s a.0,
        load_of_ne_null State.word (p + 8) s (omega arith),
        mod-eq_of_lt {n = n + m} {m = 2 ^ 64} (omega (arith, size)),
      )
      (sum_sizes_lem k (s.word (p + 8)) ps (n + m) s res q l (omega arith) (omega (arith, size)) a.3
          i.3
        ∙ ap (λ j. ok j s) (omega (arith, size)))

put-append :
    (cs ds : List ℕ) (q : Ptr) (f : Ptr → ℕ)
    → put (cs ++ ds) q f ≡ put ds (q + length cs) (put cs q f)
put-append [] ds q f = ap (λ p. put ds p f) (omega arith)
put-append (c ∷ cs) ds q f =
    put-append cs ds (q + 1) (upd f q c)
    ∙ ap (λ p. put ds p (put cs (q + 1) (upd f q c))) (omega arith)

append_assoc : (xs ys zs : List ℕ) → (xs ++ ys) ++ zs ≡ xs ++ (ys ++ zs)
append_assoc [] ys zs = refl
append_assoc (x ∷ xs) ys zs = ap (λ ws. x ∷ ws) (append_assoc xs ys zs)

narrower : (p k q l m : ℕ) → m ≤ l → Apart p k q l → Apart p k q m
narrower p k q l m h (inl e) = inl e
narrower p k q l m h (inr e) = inr (omega arith)

-- Characters written from `q` on leave the strings as they were.
all_text-put :
    (s : State) (ps : List Ptr) (res q : Ptr) (l : ℕ) (cs : List ℕ)
    → AllApart s ps res q l
    → length cs ≤ l
    → all_text (record s { byte = put cs q s.byte }) ps ≡ all_text s ps
all_text-put s [] res q l cs a h = refl
all_text-put s (p ∷ ps) res q l cs a h =
    ap₂ (λ bs ds. bs ++ ds)
      (chars-put-Apart (s.word p / 64) (p + 8) cs q s.byte
        (narrower (p + 8) (s.word p / 64) q l (length cs) h a.2))
      (all_text-put s ps res q l cs a.3 h)

AllApart-rest :
    (s s' : State) (ps : List Ptr) (res q : Ptr) (m l : ℕ)
    → s'.word ≡ s.word
    → m ≤ l
    → AllApart s ps res q l
    → AllApart s' ps res (q + m) (l - m)
AllApart-rest s s' [] res q m l w h a = tt
AllApart-rest s s' (p ∷ ps) res q m l w h a =
    (a.0, a.1, rw w (later a.2), AllApart-rest s s' ps res q m l w h a.3)
  where
    later : Apart (p + 8) (s.word p / 64) q l → Apart (p + 8) (s.word p / 64) (q + m) (l - m)
    later (inl e) = inl (omega arith)
    later (inr e) = inr (omega arith)

written :
    (s : State) (cs : List ℕ) (q m : ℕ)
    → length cs ≡ m
    → (ds es : List ℕ) → ds ≡ es
    → put (ds ++ (0 ∷ [])) (q + m) (put cs q s.byte) ≡ put ((cs ++ es) ++ (0 ∷ [])) q s.byte
written s cs q m len ds es same =
    ap₂ (λ xs n. put (xs ++ (0 ∷ [])) (q + n) (put cs q s.byte)) same (sym len)
    ∙ sym (put-append cs (es ++ (0 ∷ [])) q s.byte)
    ∙ ap (λ xs. put xs q s.byte) (sym (append_assoc cs es (0 ∷ [])))

store_strings-put :
    (k : ℕ) (p q : Ptr) (ps : List Ptr) (s : State) (res : Ptr) (l : ℕ)
    → length ps < k
    → q ≢ null
    → IsList s.word p ps
    → AllApart s ps res q l
    → length (all_text s ps) < l
    → store_strings k p q s ≡ ok tt (with_text s (all_text s ps) q)
unfolding store_strings set_byte
store_strings-put zero p q ps s res l h nq i a room = absurd (omega arith)
store_strings-put (suc k) p q [] s res l h nq i a room =
    rw (is_cons-end p i, ==_of_ne q null nq) refl
store_strings-put (suc k) p q (x ∷ ps) s res l h nq i a room =
    let m = s.word x / 64 in
    let cs = text s x in
    let s1 : State = record s { byte = put cs q s.byte } in
    let len : length cs ≡ m = length-text_at s x in
    let size : length (all_text s (x ∷ ps)) ≡ length cs + length (all_text s ps) =
      length-append cs (all_text s ps) in
    let same : all_text s1 ps ≡ all_text s ps =
      all_text-put s ps res q l cs a.3 (omega (arith, size, room)) in
    let rest =
      store_strings-put k (s.word (p + 8)) (q + m) ps s1 res (l - m) (omega arith) (omega arith) i.3
        (AllApart-rest s s1 ps res q m l refl (omega (arith, size, room, len)) a.3)
        (omega (arith, ap length same, size, room, len)) in
    rw
      (
        is_cons-cell p i.0,
        load_of_ne_null State.word p s i.1,
        i.2,
        size_string_lem x s a.0,
        copy-put m (x + 8) q s (omega arith) nq
            (narrower (x + 8) m q l m (omega (arith, size, room, len)) a.2),
        load_of_ne_null State.word (p + 8) s1 (omega arith),
      )
      (rest
        ∙ ap (λ b. ok tt (record s { byte = b }))
            (written s cs q m len (all_text s1 ps) (all_text s ps) same))

all_text-tagged :
    (s s' : State) (ps : List Ptr) (res q : Ptr) (l n : ℕ)
    → AllApart s ps res q l
    → all_text (tagged s s' res n s.byte) ps ≡ all_text s ps
all_text-tagged s s' [] res q l n a = refl
all_text-tagged s s' (p ∷ ps) res q l n a =
    ap₂ (λ xs ys. xs ++ ys) (ap (λ m. chars s.byte (m / 64) (p + 8)) (rw (==_of_ne p res a.1) refl))
      (all_text-tagged s s' ps res q l n a.3)

AllApart-tagged :
    (s s' : State) (ps : List Ptr) (res q : Ptr) (l n : ℕ)
    → AllApart s ps res q l
    → AllApart (tagged s s' res n s.byte) ps res q l
AllApart-tagged s s' [] res q l n a = tt
AllApart-tagged s s' (p ∷ ps) res q l n a =
    (a.0, a.1, rw (==_of_ne p res a.1) a.2, AllApart-tagged s s' ps res q l n a.3)

-- For a list of strings of fewer than 2^58 characters together, fuel for each cell and the end, and a
-- block from `alloc` that is no cell of the list and meets none of the strings: `implodeStringML` ends
-- and returns the block, which holds the characters of all strings in order as a string.
pub implode_string_ml_lem :
    (malloc : ℕ → ℕ → Ptr) (k : ℕ) (r xs res : Ptr) (ps : List Ptr) (s s' : State)
    → let cs = all_text s ps in
      length ps < k
      → length cs < 2 ^ 58
      → res ≢ null
      → IsList s.word xs ps
      → Avoids s.word xs ps res
      → AllApart s ps res (res + 8) (length cs + 1)
      → alloc malloc r (string_words (length cs)) s ≡ ok res s'
      → let after = with_text (tagged s s' res (length cs) s.byte) cs (res + 8) in
        (implode_string_ml malloc k r xs s ≡ ok res after) × (text after res ≡ cs)
unfolding implode_string_ml
implode_string_ml_lem malloc k r xs res ps s s' fuel fits nr l out apart run =
    let cs = all_text s ps in
    let n = length cs in
    let s1 = tagged s s' res n s.byte in
    let same : all_text s1 ps ≡ cs = all_text-tagged s s' ps res (res + 8) (n + 1) n apart in
    let summed : sum_sizes k xs 0 s ≡ ok n s =
      sum_sizes_lem k xs ps 0 s res (res + 8) (n + 1) fuel (omega arith) apart l
      ∙ ap (λ m. ok m s) (omega arith) in
    (
      rw
          (
            summed,
            alloc_string-run malloc r n s res s' run nr,
            store_strings-put k xs (res + 8) ps s1 res (n + 1) fuel (omega arith)
                (IsList-upd s.word xs res (val_tag_string n) ps out l)
                (AllApart-tagged s s' ps res (res + 8) (n + 1) n apart)
                (omega (arith, ap length same)),
          )
          (ap (λ ds. ok res (with_text s1 ds (res + 8))) same),
      rw (==_refl res, tag-size n fits) (chars-put_text cs (0 ∷ []) (res + 8) s.byte),
    )
