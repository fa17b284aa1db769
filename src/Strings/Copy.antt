-- ===== src/Strings/Copy.antt =====
-- What copying characters does to the memory.
use unikernel_with_region_in.Base.{
  ℕ, zero, suc, ◌+◌, ◌<◌, ◌≤◌, ◌≡◌, ◌≢◌, ◌⊎◌, refl, ap, ap₂, ◌∙◌, arith, ==_of_ne, ==_refl, List,
  [], ◌∷◌, length,
}
use unikernel_with_region_in.State.{Ptr, null, State, ok, upd, set_byte, load_of_ne_null}
use unikernel_with_region_in.Strings.{copy}
use unikernel_with_region_in.Strings.Compare.{chars}

-- The characters `cs` from `q` on, and `f` elsewhere.
abbrev pub put : List ℕ → Ptr → (Ptr → ℕ) → Ptr → ℕ
put [] q f = f
put (c ∷ cs) q f = put cs (q + 1) (upd f q c)

-- Two stretches of memory do not meet.
abbrev pub Apart : Ptr → ℕ → Ptr → ℕ → Type 0
Apart p k q l = (p + k ≤ q) ⊎ (q + l ≤ p)

put-before : (cs : List ℕ) (q x : Ptr) (f : Ptr → ℕ) → x < q → put cs q f x ≡ f x
put-before [] q x f h = refl
put-before (c ∷ cs) q x f h =
    put-before cs (q + 1) x (upd f q c) (omega arith) ∙ rw (==_of_ne x q (omega arith)) refl

pub put-outside :
    (cs : List ℕ) (q x : Ptr) (f : Ptr → ℕ) → (x < q) ⊎ (q + length cs ≤ x) → put cs q f x ≡ f x
put-outside [] q x f h = refl
put-outside (c ∷ cs) q x f h =
    put-outside cs (q + 1) x (upd f q c) (ground arith) ∙ rw (==_of_ne x q (ground arith)) refl

pub chars-put-Apart :
    (k : ℕ) (p : Ptr) (cs : List ℕ) (q : Ptr) (f : Ptr → ℕ)
    → Apart p k q (length cs)
    → chars (put cs q f) k p ≡ chars f k p
chars-put-Apart zero p cs q f h = refl
chars-put-Apart (suc k) p cs q f h =
    ap₂ (λ a bs. a ∷ bs) (put-outside cs q p f (ground arith))
      (chars-put-Apart k (p + 1) cs q f (ground arith))

pub chars-put : (cs : List ℕ) (q : Ptr) (f : Ptr → ℕ) → chars (put cs q f) (length cs) q ≡ cs
chars-put [] q f = refl
chars-put (c ∷ cs) q f =
    ap₂ (λ a bs. a ∷ bs) (put-before cs (q + 1) q (upd f q c) (omega arith) ∙ rw (==_refl q) refl)
      (chars-put cs (q + 1) (upd f q c))

pub length-chars : (f : Ptr → ℕ) (k : ℕ) (p : Ptr) → length (chars f k p) ≡ k
length-chars f zero p = refl
length-chars f (suc k) p = ap suc (length-chars f k (p + 1))

pub copy-put :
    (k : ℕ) (p q : Ptr) (s : State)
    → p ≢ null
    → q ≢ null
    → Apart p k q k
    → copy k p q s ≡ ok tt (record s { byte = put (chars s.byte k p) q s.byte })
unfolding copy set_byte
copy-put zero p q s np nq h = refl
copy-put (suc k) p q s np nq h =
    rw (load_of_ne_null State.byte p s np, ==_of_ne q null nq)
      (copy-put k (p + 1) (q + 1) (record s { byte = upd s.byte q (s.byte p) }) (omega arith)
          (omega arith) (ground arith)
        ∙ ap (λ cs. ok tt (record s { byte = put cs (q + 1) (upd s.byte q (s.byte p)) }))
            (chars-put-Apart k (p + 1) (s.byte p ∷ []) q s.byte (ground arith)))
