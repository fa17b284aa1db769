-- ===== src/Strings/Compare.antt =====
-- The comparisons order strings by their characters.
use unikernel_with_region_in.Base.{
  ℕ, zero, suc, ◌+◌, ◌/◌, ◌≡◌, ◌≢◌, refl, ap₂, arith, Bool, true, false, not, ltb, ◌==◌,
  if◌then◌else◌, ==_refl, lt→ltb, le→not_ltb, Bool-cases, inl, inr, List, [], ◌∷◌,
}
use unikernel_with_region_in.Base.Int.{ℤ, pos, negsuc, ltb_ℤ}
use unikernel_with_region_in.State.{Ptr, null, State, ok, ◌>>=◌, pure, load_of_ne_null}
use unikernel_with_region_in.Strings.{
  ml_bool, size_string, cmp_from, by_length, or_else, shorter, mystrcmp, less_string_ml,
  lesseq_string_ml, greater_string_ml, greatereq_string_ml, eq_from, equal_string_ml,
}

-- The `k` characters from `p` on.
abbrev pub chars : (Ptr → ℕ) → ℕ → Ptr → List ℕ
chars f zero p = []
chars f (suc k) p = f p ∷ chars f k (p + 1)

-- The characters of the string at `p`.
abbrev pub text : State → Ptr → List ℕ
text s p = chars s.byte (s.word p / 64) (p + 8)

-- The lexicographic order: -1, 0 or 1.
unfoldable pub lex : List ℕ → List ℕ → ℤ
lex [] [] = pos 0
lex [] (y ∷ ys) = negsuc 0
lex (x ∷ xs) [] = pos 1
lex (x ∷ xs) (y ∷ ys) = if ltb x y then negsuc 0 else if ltb y x then pos 1 else lex xs ys

lex_refl : (xs : List ℕ) → lex xs xs ≡ pos 0
unfolding lex
lex_refl [] = refl
lex_refl (x ∷ xs) = ground (arith, lex_refl xs)

shorter-suc : (a b : ℕ) → shorter (suc a) (suc b) ≡ suc (shorter a b)
shorter-suc a b = ground arith

by_length-suc : (a b : ℕ) → by_length (suc a) (suc b) ≡ by_length a b
unfolding by_length
by_length-suc a b = ground arith

cmp-lex :
    (l1 l2 : ℕ) (p1 p2 : Ptr) (s : State)
    → p1 ≢ null
    → p2 ≢ null
    → (cmp_from (shorter l1 l2) p1 p2 >>= λ r. pure (or_else r (by_length l1 l2))) s
      ≡ ok (lex (chars s.byte l1 p1) (chars s.byte l2 p2)) s
unfolding cmp_from lex
cmp-lex zero zero p1 p2 s n1 n2 = unfold by_length in refl
cmp-lex zero (suc b) p1 p2 s n1 n2 = unfold by_length in rw (lt→ltb 0 (suc b) (omega arith)) refl
cmp-lex (suc a) zero p1 p2 s n1 n2 =
    unfold by_length in rw (lt→ltb 0 (suc a) (omega arith), le→not_ltb (suc a) 0 (omega arith)) refl
cmp-lex (suc a) (suc b) p1 p2 s n1 n2 =
    rw (shorter-suc a b, load_of_ne_null State.byte p1 s n1, load_of_ne_null State.byte p2 s n2)
      (elim (Bool-cases (ltb (s.byte p1) (s.byte p2))) [
        | inl h ↦ rw (h) refl
        | inr h ↦ elim (Bool-cases (ltb (s.byte p2) (s.byte p1))) [
          | inl i ↦ rw (h, i) refl
          | inr i ↦
              rw (h, i, by_length-suc a b)
                (cmp-lex a b (p1 + 1) (p2 + 1) s (omega arith) (omega arith))
        ]
      ])

pub size_string_lem : (p : Ptr) (s : State) → p ≢ null → size_string p s ≡ ok (s.word p / 64) s
unfolding size_string
size_string_lem p s ne = rw (load_of_ne_null State.word p s ne) refl

-- `mystrcmp` on two strings, which may be the same one, returns -1, 0 or 1 by the lexicographic order
-- of their characters, whatever their lengths are, and changes nothing.
mystrcmp_lem :
    (s1 s2 : Ptr) (s : State)
    → s1 ≢ null
    → s2 ≢ null
    → mystrcmp s1 s2 s ≡ ok (lex (text s s1) (text s s2)) s
unfolding mystrcmp
mystrcmp_lem s1 s2 s n1 n2 = elim (Bool-cases (s1 == s2)) [
  | inl h ↦ let e : s1 ≡ s2 = ground arith in rw (h, e, lex_refl (text s s2)) refl
  | inr h ↦
      rw (h, size_string_lem s1 s n1, size_string_lem s2 s n2)
        (cmp-lex (s.word s1 / 64) (s.word s2 / 64) (s1 + 8) (s2 + 8) s (omega arith) (omega arith))
]

-- The order that each primitive tests, `ok` with the ML truth value.
abbrev pub answers : (ℤ → Bool) → State → Ptr → Ptr → ℕ
answers test s s1 s2 = ml_bool (test (lex (text s s1) (text s s2)))

-- The four order primitives answer by the lexicographic order of the characters, each with its own
-- relation, and change nothing.
order_string_ml_lem :
    (s1 s2 : Ptr) (s : State)
    → s1 ≢ null
    → s2 ≢ null
    → (less_string_ml s1 s2 s ≡ ok (answers (λ c. ltb_ℤ c (pos 0)) s s1 s2) s)
      × (lesseq_string_ml s1 s2 s ≡ ok (answers (λ c. not (ltb_ℤ (pos 0) c)) s s1 s2) s)
      × (greater_string_ml s1 s2 s ≡ ok (answers (λ c. ltb_ℤ (pos 0) c) s s1 s2) s)
      × (greatereq_string_ml s1 s2 s ≡ ok (answers (λ c. not (ltb_ℤ c (pos 0))) s s1 s2) s)
unfolding less_string_ml lesseq_string_ml greater_string_ml greatereq_string_ml
order_string_ml_lem s1 s2 s n1 n2 =
    let run = mystrcmp_lem s1 s2 s n1 n2 in
    (rw (run) refl, rw (run) refl, rw (run) refl, rw (run) refl)

-- Equal lists of characters.
unfoldable pub same : List ℕ → List ℕ → Bool
same [] [] = true
same [] (y ∷ ys) = false
same (x ∷ xs) [] = false
same (x ∷ xs) (y ∷ ys) = if x == y then same xs ys else false

pub same_refl : (xs : List ℕ) → same xs xs ≡ true
unfolding same
same_refl [] = refl
same_refl (x ∷ xs) = rw (==_refl x) (same_refl xs)

pub same→≡ : (xs ys : List ℕ) → same xs ys ≡ true → xs ≡ ys
unfolding same
same→≡ [] [] h = refl
same→≡ [] (y ∷ ys) h = ground arith
same→≡ (x ∷ xs) [] h = ground arith
same→≡ (x ∷ xs) (y ∷ ys) h = elim (Bool-cases (x == y)) [
  | inl i ↦ ap₂ (λ a bs. a ∷ bs) (ground arith) (same→≡ xs ys (ground arith))
  | inr i ↦ ground arith
]

same-lengths :
    (f : Ptr → ℕ) (a b : ℕ) (p q : Ptr) → a ≢ b → same (chars f a p) (chars f b q) ≡ false
unfolding same
same-lengths f zero zero p q ne = absurd (ne refl)
same-lengths f zero (suc b) p q ne = refl
same-lengths f (suc a) zero p q ne = refl
same-lengths f (suc a) (suc b) p q ne =
    rw (same-lengths f a b (p + 1) (q + 1) (omega arith)) (ground arith)

eq_from-same :
    (k : ℕ) (p1 p2 : Ptr) (s : State)
    → p1 ≢ null
    → p2 ≢ null
    → eq_from k p1 p2 s ≡ ok (same (chars s.byte k p1) (chars s.byte k p2)) s
unfolding eq_from same
eq_from-same zero p1 p2 s n1 n2 = refl
eq_from-same (suc k) p1 p2 s n1 n2 =
    rw (load_of_ne_null State.byte p1 s n1, load_of_ne_null State.byte p2 s n2)
      (elim (Bool-cases (s.byte p1 == s.byte p2)) [
        | inl h ↦ rw (h) (eq_from-same k (p1 + 1) (p2 + 1) s (omega arith) (omega arith))
        | inr h ↦ rw (h) refl
      ])

-- `equalStringML` on two strings, which may be the same one, is true exactly if they have the same
-- characters, and changes nothing.
equal_string_ml_lem :
    (s1 s2 : Ptr) (s : State)
    → s1 ≢ null
    → s2 ≢ null
    → equal_string_ml s1 s2 s ≡ ok (ml_bool (same (text s s1) (text s s2))) s
unfolding equal_string_ml
equal_string_ml_lem s1 s2 s n1 n2 = elim (Bool-cases (s1 == s2)) [
  | inl h ↦ let e : s1 ≡ s2 = ground arith in rw (h, e, same_refl (text s s2)) refl
  | inr h ↦
      rw (h, size_string_lem s1 s n1, size_string_lem s2 s n2)
        (elim (Bool-cases (s.word s1 / 64 == s.word s2 / 64)) [
          | inl i ↦
              let e : s.word s1 / 64 ≡ s.word s2 / 64 = ground arith in
              rw
                (
                  i,
                  eq_from-same (s.word s1 / 64) (s1 + 8) (s2 + 8) s (omega arith) (omega arith),
                  e,
                )
                refl
          | inr i ↦
              let ne : s.word s1 / 64 ≢ s.word s2 / 64 = ground arith in
              rw (i, same-lengths s.byte (s.word s1 / 64) (s.word s2 / 64) (s1 + 8) (s2 + 8) ne)
                refl
        ])
]

-- The comparisons of two strings, which may be the same one: `mystrcmp` returns -1, 0 or 1 by the
-- lexicographic order of their characters, whatever their lengths are; the four order primitives
-- answer by that order, each with its own relation; `equalStringML` is true exactly if they have the
-- same characters. None of them changes anything.
pub compare_strings_lem :
    (s1 s2 : Ptr) (s : State)
    → s1 ≢ null
    → s2 ≢ null
    → (mystrcmp s1 s2 s ≡ ok (lex (text s s1) (text s s2)) s)
      × (less_string_ml s1 s2 s ≡ ok (answers (λ c. ltb_ℤ c (pos 0)) s s1 s2) s)
      × (lesseq_string_ml s1 s2 s ≡ ok (answers (λ c. not (ltb_ℤ (pos 0) c)) s s1 s2) s)
      × (greater_string_ml s1 s2 s ≡ ok (answers (λ c. ltb_ℤ (pos 0) c) s s1 s2) s)
      × (greatereq_string_ml s1 s2 s ≡ ok (answers (λ c. not (ltb_ℤ c (pos 0))) s s1 s2) s)
      × (equal_string_ml s1 s2 s ≡ ok (ml_bool (same (text s s1) (text s s2))) s)
compare_strings_lem s1 s2 s n1 n2 =
    let (lt, le, gt, ge) = order_string_ml_lem s1 s2 s n1 n2 in
    (mystrcmp_lem s1 s2 s n1 n2, lt, le, gt, ge, equal_string_ml_lem s1 s2 s n1 n2)
