-- ===== src/CStrings/Copying.antt =====
-- Copying a C string.
use unikernel_with_region_in.Base.{
  ℕ, zero, suc, ◌+◌, ◌<◌, ◌≡◌, ◌≢◌, refl, arith, ==_of_ne, List, [], ◌∷◌, ◌++◌, length,
}
use unikernel_with_region_in.State.{Ptr, null, State, ok, upd, set_byte, load_of_ne_null}
use unikernel_with_region_in.Strings.Copy.{put, Apart}
use unikernel_with_region_in.CStrings.{copy_text}
use unikernel_with_region_in.CStrings.Text.{IsText, IsText-upd}

pub copy_text-put :
    (k : ℕ) (p q : Ptr) (cs : List ℕ) (s : State)
    → length cs < k
    → p ≢ null
    → q ≢ null
    → IsText s.byte p cs
    → Apart p (length cs + 1) q (length cs + 1)
    → copy_text k p q s ≡ ok tt (record s { byte = put (cs ++ (0 ∷ [])) q s.byte })
unfolding copy_text set_byte
copy_text-put zero p q cs s h np nq t a = absurd (omega arith)
copy_text-put (suc k) p q [] s h np nq t a =
    rw (load_of_ne_null State.byte p s np, t, ==_of_ne q null nq) refl
copy_text-put (suc k) p q (c ∷ cs) s h np nq t a =
    rw (load_of_ne_null State.byte p s np, t.0, ==_of_ne c 0 t.1, ==_of_ne q null nq)
      (copy_text-put k (p + 1) (q + 1) cs (record s { byte = upd s.byte q c }) (omega arith)
        (omega arith) (omega arith) (IsText-upd s.byte (p + 1) q c cs (ground arith) t.2)
        (ground arith))
