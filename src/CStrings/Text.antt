-- ===== src/CStrings/Text.antt =====
-- C strings in memory.
use unikernel_with_region_in.Base.{
  ℕ, ◌+◌, ◌<◌, ◌≡◌, ◌≢◌, ◌⊎◌, arith, ==_of_ne, ==_refl, refl, inl, ap, ap₂, ◌∙◌, ◌++◌, List, [],
  ◌∷◌, length,
}
use unikernel_with_region_in.State.{Ptr, upd}
use unikernel_with_region_in.Strings.Compare.{chars}
use unikernel_with_region_in.Strings.Copy.{put, put-outside}

-- The characters `cs`, none of them 0, stand from `p` on, with a 0 behind them.
abbrev pub IsText : (Ptr → ℕ) → Ptr → List ℕ → Type 0
IsText f p [] = f p ≡ 0
IsText f p (c ∷ cs) = (f p ≡ c) × (c ≢ 0) × IsText f (p + 1) cs

-- A write outside of the text.
pub IsText-upd :
    (f : Ptr → ℕ) (p q v : ℕ) (cs : List ℕ)
    → (q < p) ⊎ (p + length cs < q)
    → IsText f p cs
    → IsText (upd f q v) p cs
IsText-upd f p q v [] out t = rw (==_of_ne p q (ground arith)) t
IsText-upd f p q v (c ∷ cs) out t =
    (rw (==_of_ne p q (ground arith)) t.0, t.1, IsText-upd f (p + 1) q v cs (ground arith) t.2)

-- The characters of a text are not 0.
abbrev pub IsPlain : List ℕ → Type 0
IsPlain [] = Unit
IsPlain (c ∷ cs) = (c ≢ 0) × IsPlain cs

pub IsText-IsPlain : (f : Ptr → ℕ) (p : Ptr) (cs : List ℕ) → IsText f p cs → IsPlain cs
IsText-IsPlain f p [] t = tt
IsText-IsPlain f p (c ∷ cs) t = (t.1, IsText-IsPlain f (p + 1) cs t.2)

-- A text that has been written.
pub IsText-put :
    (cs : List ℕ) (p : Ptr) (f : Ptr → ℕ) → IsPlain cs → IsText (put (cs ++ (0 ∷ [])) p f) p cs
IsText-put [] p f h = rw (==_refl p) refl
IsText-put (c ∷ cs) p f h = (
  put-outside (cs ++ (0 ∷ [])) (p + 1) p (upd f p c) (inl (omega arith)) ∙ rw (==_refl p) refl,
  h.0,
  IsText-put cs (p + 1) (upd f p c) h.1,
)

pub chars-put_text :
    (cs ds : List ℕ) (p : Ptr) (f : Ptr → ℕ) → chars (put (cs ++ ds) p f) (length cs) p ≡ cs
chars-put_text [] ds p f = refl
chars-put_text (c ∷ cs) ds p f =
    ap₂ (λ a bs. a ∷ bs)
      (put-outside (cs ++ ds) (p + 1) p (upd f p c) (inl (omega arith)) ∙ rw (==_refl p) refl)
      (chars-put_text cs ds (p + 1) (upd f p c))

pub length-text : (cs : List ℕ) → length (cs ++ (0 ∷ [])) ≡ length cs + 1
length-text [] = refl
length-text (c ∷ cs) = ground (arith, length-text cs)

pub IsText-end : (f : Ptr → ℕ) (p : Ptr) (cs : List ℕ) → IsText f p cs → f (p + length cs) ≡ 0
IsText-end f p [] t = ap f {y = p} (omega arith) ∙ t
IsText-end f p (c ∷ cs) t = ap f {y = p + 1 + length cs} (omega arith) ∙ IsText-end f (p + 1) cs t.2
