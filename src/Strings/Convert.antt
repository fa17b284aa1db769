-- ===== src/Strings/Convert.antt =====
-- The new string of `convertBinStringToML`.
use unikernel_with_region_in.Base.{
  ℕ, ◌+◌, ◌^◌, ◌<◌, ◌≡◌, ◌≢◌, inl, refl, ap, sym, ◌∙◌, arith, ==_of_ne, ==_refl, [], ◌∷◌,
}
use unikernel_with_region_in.State.{Ptr, null, State, ok, set_byte}
use unikernel_with_region_in.Region.{alloc}
use unikernel_with_region_in.Strings.{string_words, convert_bin_string_to_ml}
use unikernel_with_region_in.Strings.Compare.{chars, text}
use unikernel_with_region_in.Strings.Concat.{tagged, tag-size, alloc_string-run}
use unikernel_with_region_in.Strings.Copy.{
  put, Apart, chars-put-Apart, chars-put, length-chars, copy-put,
}

-- The memory after the conversion of the `l` characters at `c_str`.
abbrev pub converted : State → State → Ptr → ℕ → Ptr → State
converted s s' res l c_str =
    tagged s s' res l (put (0 ∷ []) (res + 8 + l) (put (chars s.byte l c_str) (res + 8) s.byte))

-- For `l` characters, fewer than 2^58 and any of them 0, and a block from `alloc` that does not meet
-- them, `convertBinStringToML` ends and returns the block, which holds a string of just these
-- characters with a 0 behind them.
pub convert_bin_string_to_ml_lem :
    (malloc : ℕ → ℕ → Ptr) (r : Ptr) (l : ℕ) (c_str res : Ptr) (s s' : State)
    → c_str ≢ null
    → res ≢ null
    → l < 2 ^ 58
    → Apart c_str l (res + 8) (l + 1)
    → alloc malloc r (string_words l) s ≡ ok res s'
    → let after = converted s s' res l c_str in
      (convert_bin_string_to_ml malloc r l c_str s ≡ ok res after)
      × (text after res ≡ chars s.byte l c_str)
      × (after.byte (res + 8 + l) ≡ 0)
unfolding convert_bin_string_to_ml set_byte
convert_bin_string_to_ml_lem malloc r l c_str res s s' nc nr fits apart run =
    let b = put (chars s.byte l c_str) (res + 8) s.byte in
    (
      rw
          (
            alloc_string-run malloc r l s res s' run nr,
            copy-put l c_str (res + 8) (tagged s s' res l s.byte) nc (omega arith) (ground arith),
            ==_of_ne (res + 8 + l) null (omega arith),
          )
          refl,
      rw (==_refl res, tag-size l fits)
          (chars-put-Apart l (res + 8) (0 ∷ []) (res + 8 + l) b (inl (omega arith))
            ∙ ap (λ k. chars b k (res + 8)) (sym (length-chars s.byte l c_str))
            ∙ chars-put (chars s.byte l c_str) (res + 8) s.byte),
      rw (==_refl (res + 8 + l)) refl,
    )
