-- ===== src/Floats/Printed.antt =====
-- stringOfFloat of Math.c on a double that snprintf writes with a point.
use unikernel_with_region_in.Base.{
  ℕ, ◌+◌, ◌^◌, ◌<◌, ◌≡◌, ◌≢◌, refl, arith, false, ◌==◌, ==_of_ne, List, [], ◌∷◌, length, count, inl,
  inr, Bool-cases,
}
use unikernel_with_region_in.State.{Ptr, null, State, ok, load_of_ne_null}
use unikernel_with_region_in.Region.{alloc}
use unikernel_with_region_in.Strings.{string_words}
use unikernel_with_region_in.Strings.Compare.{text}
use unikernel_with_region_in.Strings.Concat.{tagged}
use unikernel_with_region_in.Strings.Copy.{Apart}
use unikernel_with_region_in.CStrings.{count_char}
use unikernel_with_region_in.CStrings.Text.{IsPlain, IsText-put}
use unikernel_with_region_in.CStrings.Convert.{with_text, convert_string_to_ml_lem}
use unikernel_with_region_in.CStrings.Counting.{count_char_lem}
use unikernel_with_region_in.CStrings.Minus.{sml_text, sml_text-shorter, mk_sml_minus_lem}
use unikernel_with_region_in.Floats.Print.{Printing, ten_million, string_of_float, printed_string}

-- Points stay.
point_count : (cs : List ℕ) → count b'.' (sml_text cs) ≡ count b'.' cs
unfolding sml_text
point_count [] = refl
point_count (c ∷ cs) = elim (Bool-cases (c == b'+')) [
  | inl e ↦ rw (e) (ground (arith, point_count cs, e))
  | inr e ↦ rw (e) (ground (arith, point_count cs, e))
]

-- The memory after snprintf has written `cs`, and after mkSMLMinus.
abbrev pub rewritten : State → List ℕ → Ptr → State
rewritten s cs buf = with_text (with_text s cs buf) (sml_text cs) buf

-- For a double that snprintf writes as a text with a point, which is not that of a NaN, and a block
-- from `alloc` that does not meet the buffer: `stringOfFloat` ends and returns the block as a string
-- of this text in the notation of Standard ML.
pub string_of_float_lem :
    (malloc : ℕ → ℕ → Ptr) (lib : Printing) (k : ℕ) (r buf arg res : Ptr) (cs : List ℕ)
    (s s' : State)
    → arg ≢ null
    → buf ≢ null
    → res ≢ null
    → IsPlain cs
    → 0 < count b'.' cs
    → length cs < k
    → length cs < 2 ^ 58
    → let d = s.word arg in
      let whole = lib.floor d in
      lib.print_parts buf
          (lib.to_int whole)
          (lib.to_int (lib.times (lib.minus d whole) ten_million))
          s
        ≡ ok tt (with_text s cs buf)
      → let s2 = rewritten s cs buf in
        let ds = sml_text cs in
        lib.is_minus_nan buf s2 ≡ ok false s2
        → lib.strlen buf s2 ≡ ok (length ds) s2
        → Apart buf (length ds + 1) (res + 8) (length ds + 1)
        → alloc malloc r (string_words (length ds)) s2 ≡ ok res s'
        → let after = with_text (tagged s2 s' res (length ds) s2.byte) ds (res + 8) in
          (string_of_float malloc lib k r buf arg s ≡ ok res after) × (text after res ≡ ds)
unfolding string_of_float printed_string
string_of_float_lem malloc lib k r buf arg res cs s s' na nb nr plain point fuel small printed
      ordinary len apart run =
    let s1 = with_text s cs buf in
    let s2 = rewritten s cs buf in
    let ds = sml_text cs in
    let shorter = sml_text-shorter cs in
    let written =
      mk_sml_minus_lem k buf cs s1 (buf + length cs + 1) nb fuel (IsText-put cs buf s.byte plain)
        (inr (omega arith)) in
    let counted : (c : ℕ) → count_char k c buf s2 ≡ ok (count c ds) s2 =
      λ c. count_char_lem k c buf ds s2 (omega (arith, shorter)) nb written.1 in
    let converted =
      convert_string_to_ml_lem malloc lib.strlen k r buf res ds s2 s' len nb nr
        (omega (arith, shorter)) (omega (arith, shorter)) written.1 apart run in
    (
      rw
          (
            load_of_ne_null State.word arg s na,
            printed,
            written.0,
            counted b'.',
            counted b'E',
            counted b'n',
            ==_of_ne (count b'.' ds) 0 (omega (arith, point_count cs)),
            ordinary,
          )
          converted.0,
      converted.1,
    )
