-- ===== src/CStrings/Minus.antt =====
-- mkSMLMinus works in place.
use unikernel_with_region_in.Base.{
  ℕ, zero, suc, ◌+◌, ◌<◌, ◌≤◌, ◌≡◌, ◌≢◌, ◌⊎◌, refl, arith, if◌then◌else◌, ◌==◌, ==_of_ne, List, [],
  ◌∷◌, ◌++◌, length, Bool-cases, inl, inr, false,
}
use unikernel_with_region_in.State.{Ptr, null, State, ok, upd, set_byte, load_of_ne_null}
use unikernel_with_region_in.Strings.Copy.{put, put-outside}
use unikernel_with_region_in.CStrings.{minus_from, mk_sml_minus, sml_char}
use unikernel_with_region_in.CStrings.Text.{
  IsText, IsText-upd, IsText-put, IsText-IsPlain, IsPlain, length-text,
}

-- How Standard ML writes a character of a number: not at all if it is `+` (43), `~` (126) for `-` (45)
-- and `E` (69) for `e` (101).
abbrev pub spelling : ℕ → List ℕ
spelling c =
    if c == 43 then [] else if c == 45 then 126 ∷ [] else if c == 101 then 69 ∷ [] else c ∷ []

-- The text as Standard ML writes it.
unfoldable pub sml_text : List ℕ → List ℕ
sml_text [] = []
sml_text (c ∷ cs) = spelling c ++ sml_text cs

spelling-sml_char : (c : ℕ) → (c == 43) ≡ false → spelling c ≡ sml_char c ∷ []
spelling-sml_char c e = elim (Bool-cases (c == 45)) [
  | inl f ↦ rw (e, f) refl
  | inr f ↦ elim (Bool-cases (c == 101)) [ inl g ↦ rw (e, f, g) refl | inr g ↦ rw (e, f, g) refl ]
]

minus_from-put :
    (k : ℕ) (p q : Ptr) (cs : List ℕ) (s : State)
    → length cs < k
    → q ≢ null
    → q ≤ p
    → IsText s.byte p cs
    → minus_from k p q s ≡ ok tt (record s { byte = put (sml_text cs ++ (0 ∷ [])) q s.byte })
unfolding minus_from set_byte sml_text
minus_from-put zero p q cs s h nq le t = absurd (omega arith)
minus_from-put (suc k) p q [] s h nq le t =
    rw (load_of_ne_null State.byte p s (omega arith), t, ==_of_ne q null nq) refl
minus_from-put (suc k) p q (c ∷ cs) s h nq le t =
    rw (load_of_ne_null State.byte p s (omega arith), t.0, ==_of_ne c 0 t.1)
      (elim (Bool-cases (c == b'+')) [
        | inl e ↦ rw (e) (minus_from-put k (p + 1) q cs s (omega arith) nq (omega arith) t.2)
        | inr e ↦
            rw (spelling-sml_char c e, e, ==_of_ne q null nq)
              (minus_from-put k (p + 1) (q + 1) cs (record s { byte = upd s.byte q (sml_char c) })
                (omega arith) (omega arith) (omega arith)
                (IsText-upd s.byte (p + 1) q (sml_char c) cs (ground arith) t.2))
      ])

sml_text-IsPlain : (cs : List ℕ) → IsPlain cs → IsPlain (sml_text cs)
unfolding sml_text
sml_text-IsPlain [] h = tt
sml_text-IsPlain (c ∷ cs) h = elim (Bool-cases (c == b'+')) [
  | inl e ↦ rw (e) (sml_text-IsPlain cs h.1)
  | inr e ↦ rw (spelling-sml_char c e) (ground (arith, h.0), sml_text-IsPlain cs h.1)
]

pub sml_text-shorter : (cs : List ℕ) → length (sml_text cs) ≤ length cs
unfolding sml_text
sml_text-shorter [] = omega arith
sml_text-shorter (c ∷ cs) = elim (Bool-cases (c == 43)) [
  | inl e ↦ rw e (omega (arith, sml_text-shorter cs))
  | inr e ↦ rw (spelling-sml_char c e) (omega (arith, sml_text-shorter cs))
]

-- With fuel for each character of a C string and its 0, `mkSMLMinus` ends and leaves in place the text
-- without its plus signs, with `~` for `-` and `E` for `e`; no byte outside of the old text changes.
pub mk_sml_minus_lem :
    (k : ℕ) (p : Ptr) (cs : List ℕ) (s : State) (x : Ptr)
    → p ≢ null
    → length cs < k
    → IsText s.byte p cs
    → (x < p) ⊎ (p + length cs < x)
    → let after = put (sml_text cs ++ (0 ∷ [])) p s.byte in
      (mk_sml_minus k p s ≡ ok tt (record s { byte = after }))
      × IsText after p (sml_text cs)
      × (after x ≡ s.byte x)
unfolding mk_sml_minus
mk_sml_minus_lem k p cs s x ne fuel t out = (
  minus_from-put k p p cs s fuel ne (omega arith) t,
  IsText-put (sml_text cs) p s.byte (sml_text-IsPlain cs (IsText-IsPlain s.byte p cs t)),
  put-outside (sml_text cs ++ (0 ∷ [])) p x s.byte
      (ground (arith, sml_text-shorter cs, length-text (sml_text cs))),
)
