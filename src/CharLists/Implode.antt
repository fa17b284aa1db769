-- ===== src/CharLists/Implode.antt =====
-- implodeCharsML.
use unikernel_with_region_in.Base.{
  ℕ, zero, suc, ◌+◌, ◌%◌, ◌^◌, ◌<◌, ◌≡◌, ◌≢◌, refl, ap, sym, ◌∙◌, arith, ==_of_ne, ==_refl, List,
  [], ◌∷◌, ◌++◌, length, false,
}
use native.Mathlib.Nat.{mod-eq_of_lt}
use unikernel_with_region_in.State.{Ptr, null, State, ok, upd, set_byte, load_of_ne_null}
use unikernel_with_region_in.Region.{alloc}
use unikernel_with_region_in.Region.Layout.{is_inf_and_atbot}
use unikernel_with_region_in.Strings.{string_words, val_tag_string}
use unikernel_with_region_in.Strings.Compare.{text, chars}
use unikernel_with_region_in.Strings.Concat.{tagged, tag-size, alloc_string-run}
use unikernel_with_region_in.Strings.Copy.{put}
use unikernel_with_region_in.CStrings.Text.{chars-put_text}
use unikernel_with_region_in.CStrings.Convert.{with_text}
use unikernel_with_region_in.CharLists.{list_length, store_chars, implode_chars_ml}
use unikernel_with_region_in.CharLists.Cells.{IsList, Avoids, is_cons-cell, is_cons-end, IsList-upd}

-- `(unsigned char)` of each element.
abbrev pub low_bytes : List ℕ → List ℕ
low_bytes [] = []
low_bytes (x ∷ xs) = x % 256 ∷ low_bytes xs

pub length-low_bytes : (xs : List ℕ) → length (low_bytes xs) ≡ length xs
length-low_bytes [] = refl
length-low_bytes (x ∷ xs) = ap suc (length-low_bytes xs)

list_length_lem :
    (k : ℕ) (p : Ptr) (xs : List ℕ) (n : ℕ) (s : State)
    → length xs < k
    → n + length xs < 2 ^ 64
    → IsList s.word p xs
    → list_length k p n s ≡ ok (n + length xs) s
unfolding list_length
list_length_lem zero p xs n s h w l = absurd (omega arith)
list_length_lem (suc k) p [] n s h w l = rw (is_cons-end p l) (ap (λ m. ok m s) (omega arith))
list_length_lem (suc k) p (x ∷ xs) n s h w l =
    rw
      (
        is_cons-cell p l.0,
        load_of_ne_null State.word (p + 8) s (omega arith),
        mod-eq_of_lt {n = n + 1} {m = 2 ^ 64} (omega arith),
      )
      (list_length_lem k (s.word (p + 8)) xs (n + 1) s (omega arith) (omega arith) l.3
        ∙ ap (λ m. ok m s) (omega arith))

store_chars-put :
    (k : ℕ) (p q : Ptr) (xs : List ℕ) (s : State)
    → length xs < k
    → q ≢ null
    → IsList s.word p xs
    → store_chars k p q s ≡ ok tt (with_text s (low_bytes xs) q)
unfolding store_chars set_byte
store_chars-put zero p q xs s h nq l = absurd (omega arith)
store_chars-put (suc k) p q [] s h nq l = rw (is_cons-end p l, ==_of_ne q null nq) refl
store_chars-put (suc k) p q (x ∷ xs) s h nq l =
    let s1 = record s { byte = upd s.byte q (x % 256) } in
    rw
      (
        is_cons-cell p l.0,
        load_of_ne_null State.word p s l.1,
        l.2,
        ==_of_ne q null nq,
        load_of_ne_null State.word (p + 8) s1 (omega arith),
      )
      (store_chars-put k (s.word (p + 8)) (q + 1) xs s1 (omega arith) (omega arith) l.3)

-- For a list of fewer than 2^58 elements, fuel for each cell and the end, a region that is not to be
-- reset, and a block from `alloc` that is no cell of the list, `implodeCharsML` ends and returns the
-- block, which holds the low bytes of the elements as a string.
pub implode_chars_ml_lem :
    (malloc : ℕ → ℕ → Ptr) (lobjs k : ℕ) (r xs res : Ptr) (cs : List ℕ) (s s' : State)
    → is_inf_and_atbot r ≡ false
    → length cs < k
    → length cs < 2 ^ 58
    → res ≢ null
    → IsList s.word xs cs
    → Avoids s.word xs cs res
    → alloc malloc r (string_words (length cs)) s ≡ ok res s'
    → let after = with_text (tagged s s' res (length cs) s.byte) (low_bytes cs) (res + 8) in
      (implode_chars_ml malloc lobjs k r xs s ≡ ok res after) × (text after res ≡ low_bytes cs)
unfolding implode_chars_ml
implode_chars_ml_lem malloc lobjs k r xs res cs s s' keep fuel fits nr l out run =
    let counted : list_length k xs 0 s ≡ ok (length cs) s =
      list_length_lem k xs cs 0 s fuel (omega arith) l ∙ ap (λ n. ok n s) (omega arith) in
    (
      rw
          (
            keep,
            counted,
            alloc_string-run malloc r (length cs) s res s' run nr,
            store_chars-put k xs (res + 8) cs (tagged s s' res (length cs) s.byte) fuel
                (omega arith) (IsList-upd s.word xs res (val_tag_string (length cs)) cs out l),
          )
          refl,
      rw (==_refl res, tag-size (length cs) fits)
          (ap (λ n. chars (put (low_bytes cs ++ (0 ∷ [])) (res + 8) s.byte) n (res + 8))
              (sym (length-low_bytes cs))
            ∙ chars-put_text (low_bytes cs) (0 ∷ []) (res + 8) s.byte),
    )
