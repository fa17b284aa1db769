-- ===== src/CStrings/Counting.antt =====
-- countChar.
use unikernel_with_region_in.Base.{
  ℕ, zero, suc, ◌+◌, ◌<◌, ◌≡◌, ◌≢◌, ap, ◌∙◌, arith, if◌then◌else◌, ◌==◌, ==_of_ne, List, [], ◌∷◌,
  length, count,
}
use unikernel_with_region_in.State.{Ptr, null, State, ok, load_of_ne_null}
use unikernel_with_region_in.CStrings.{count_from, count_char}
use unikernel_with_region_in.CStrings.Text.{IsText}

count_from_lem :
    (k c : ℕ) (p : Ptr) (n : ℕ) (cs : List ℕ) (s : State)
    → length cs < k
    → p ≢ null
    → IsText s.byte p cs
    → count_from k c p n s ≡ ok (n + count c cs) s
unfolding count_from
count_from_lem zero c p n cs s h ne t = absurd (omega arith)
count_from_lem (suc k) c p n [] s h ne t =
    rw (load_of_ne_null State.byte p s ne, t) (ap (λ m. ok m s) (omega arith))
count_from_lem (suc k) c p n (d ∷ cs) s h ne t =
    rw (load_of_ne_null State.byte p s ne, t.0, ==_of_ne d 0 t.1)
      (count_from_lem k c (p + 1) (if d == c then n + 1 else n) cs s (omega arith) (omega arith) t.2
        ∙ ap (λ m. ok m s) (ground arith))

-- With fuel for each character of a C string and its 0, `countChar` ends and returns how often the
-- character occurs.
pub count_char_lem :
    (k c : ℕ) (p : Ptr) (cs : List ℕ) (s : State)
    → length cs < k
    → p ≢ null
    → IsText s.byte p cs
    → count_char k c p s ≡ ok (count c cs) s
unfolding count_char
count_char_lem k c p cs s h ne t =
    count_from_lem k c p 0 cs s h ne t ∙ ap (λ m. ok m s) (omega arith)
