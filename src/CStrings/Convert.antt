-- ===== src/CStrings/Convert.antt =====
-- Strings of ML as C strings and back.
use unikernel_with_region_in.Base.{
  ℕ, ◌+◌, ◌/◌, ◌^◌, ◌<◌, ◌≤◌, ◌≡◌, ◌≢◌, ◌⊎◌, inl, inr, refl, arith, true, false, if◌then◌else◌, ltb,
  ==_refl, List, [], ◌∷◌, ◌++◌, length, none, some, Bool-cases,
}
use unikernel_with_region_in.State.{Ptr, null, State, Cmd, ok}
use unikernel_with_region_in.Math.{given}
use unikernel_with_region_in.Region.{alloc}
use unikernel_with_region_in.Strings.{string_words}
use unikernel_with_region_in.Strings.Compare.{text, size_string_lem}
use unikernel_with_region_in.Strings.Concat.{tagged, tag-size, alloc_string-run}
use unikernel_with_region_in.Strings.Copy.{put, Apart, put-outside}
use unikernel_with_region_in.CStrings.{
  does_not_fit, convert_string_to_c, convert_string_to_c_or_raise, convert_string_to_ml,
}
use unikernel_with_region_in.CStrings.Copying.{copy_text-put}
use unikernel_with_region_in.CStrings.Text.{
  IsText, IsText-IsPlain, IsText-put, IsText-end, chars-put_text, length-text,
}

-- The memory with the C string `cs` at `q`.
abbrev pub with_text : State → List ℕ → Ptr → State
with_text s cs q = record s { byte = put (cs ++ (0 ∷ [])) q s.byte }

-- For a C string whose length `strlen` finds, fewer than 2^58 characters, and a block from `alloc` that
-- does not meet it, `convertStringToML` ends and returns the block, which holds a string of just these
-- characters, with a 0 behind them.
pub convert_string_to_ml_lem :
    (malloc : ℕ → ℕ → Ptr) (strlen : Ptr → Cmd ℕ) (k : ℕ) (r c_str res : Ptr) (cs : List ℕ)
    (s s' : State)
    → strlen c_str s ≡ ok (length cs) s
    → c_str ≢ null
    → res ≢ null
    → length cs < k
    → length cs < 2 ^ 58
    → IsText s.byte c_str cs
    → Apart c_str (length cs + 1) (res + 8) (length cs + 1)
    → alloc malloc r (string_words (length cs)) s ≡ ok res s'
    → let after = with_text (tagged s s' res (length cs) s.byte) cs (res + 8) in
      (convert_string_to_ml malloc strlen k r c_str s ≡ ok res after)
      × (text after res ≡ cs)
      × IsText after.byte (res + 8) cs
unfolding convert_string_to_ml
convert_string_to_ml_lem malloc strlen k r c_str res cs s s' len nc nr fuel fits t apart run = (
  rw
      (
        len,
        alloc_string-run malloc r (length cs) s res s' run nr,
        copy_text-put k c_str (res + 8) cs (tagged s s' res (length cs) s.byte) fuel nc
            (omega arith) t apart,
      )
      refl,
  rw (==_refl res, tag-size (length cs) fits) (chars-put_text cs (0 ∷ []) (res + 8) s.byte),
  IsText-put cs (res + 8) s.byte (IsText-IsPlain s.byte c_str cs t),
)

-- On Xen `convertStringToC` writes the whole string and its 0 whatever the size of the buffer is: if
-- the buffer has no room for the 0, the byte that the 0 falls on lies outside of the buffer and is
-- written.
pub convert_string_to_c_overruns :
    (k : ℕ) (ml_str buf buflen : ℕ) (cs : List ℕ) (s : State)
    → ml_str ≢ null
    → buf ≢ null
    → length cs < k
    → IsText s.byte (ml_str + 8) cs
    → Apart (ml_str + 8) (length cs + 1) buf (length cs + 1)
    → buflen ≤ length cs
    → let after = with_text s cs buf in
      (convert_string_to_c k ml_str buf buflen s ≡ ok tt after)
      × (buf + buflen ≤ buf + length cs)
      × (after.byte (buf + length cs) ≡ 0)
unfolding convert_string_to_c
convert_string_to_c_overruns k ml_str buf buflen cs s ns nb fuel t apart short = (
  rw (size_string_lem ml_str s ns) (elim (Bool-cases (does_not_fit (s.word ml_str / 64) buflen)) [
    | inl e ↦ rw (e) (copy_text-put k (ml_str + 8) buf cs s fuel (omega arith) nb t apart)
    | inr e ↦ rw (e) (copy_text-put k (ml_str + 8) buf cs s fuel (omega arith) nb t apart)
  ]),
  omega arith,
  IsText-end (with_text s cs buf).byte buf cs
      (IsText-put cs buf s.byte (IsText-IsPlain s.byte (ml_str + 8) cs t)),
)

room :
    (n buflen : ℕ)
    → 0 < buflen
    → buflen < 2 ^ 64
    → ltb n buflen ≡ true
    → does_not_fit n buflen ≡ false
room n buflen h w e = ground arith

no_room :
    (n buflen : ℕ)
    → 0 < buflen
    → buflen < 2 ^ 64
    → ltb n buflen ≡ false
    → does_not_fit n buflen ≡ true
no_room n buflen h w e = ground arith

-- For an ML string none of whose characters is 0, with a 0 behind them, and a buffer of at least one
-- byte that the string and its 0, written there, would not meet: on Unix `convertStringToC` raises the
-- exception and writes nothing if the buffer has no room for the string and its 0; else it writes the
-- string and its 0. Outside of the buffer nothing changes.
pub convert_string_to_c_or_raise_lem :
    (k : ℕ) (ml_str buf buflen : ℕ) (cs : List ℕ) (s : State) (x : Ptr)
    → ml_str ≢ null
    → buf ≢ null
    → 0 < buflen
    → buflen < 2 ^ 64
    → length cs < k
    → s.word ml_str / 64 ≡ length cs
    → IsText s.byte (ml_str + 8) cs
    → Apart (ml_str + 8) (length cs + 1) buf (length cs + 1)
    → (x < buf) ⊎ (buf + buflen ≤ x)
    → (convert_string_to_c_or_raise k ml_str buf buflen s
        ≡ (if ltb (length cs) buflen then ok none (with_text s cs buf) else ok (some given) s))
      × ((if ltb (length cs) buflen then with_text s cs buf else s).byte x ≡ s.byte x)
unfolding convert_string_to_c_or_raise
convert_string_to_c_or_raise_lem k ml_str buf buflen cs s x ns nb pos fits fuel size t apart out =
    elim (Bool-cases (ltb (length cs) buflen)) [
      | inl h ↦ (
        rw
            (
              size_string_lem ml_str s ns,
              size,
              h,
              room (length cs) buflen pos fits h,
              copy_text-put k (ml_str + 8) buf cs s fuel (omega arith) nb t apart,
            )
            refl,
        rw (h) (put-outside (cs ++ (0 ∷ [])) buf x s.byte (ground (arith, length-text cs))),
      )
      | inr h ↦ (
        rw (size_string_lem ml_str s ns, size, h, no_room (length cs) buflen pos fits h) refl,
        rw (h) refl,
      )
    ]
