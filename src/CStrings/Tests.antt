-- ===== src/CStrings/Tests.antt =====
-- The theorems on C strings at concrete texts.
use unikernel_with_region_in.Base.{ℕ, ◌≤◌, ◌≡◌, refl, inl, inr, arith, List, [], ◌∷◌, length, some}
use unikernel_with_region_in.State.{Ptr, State, Cmd, pure, ok}
use unikernel_with_region_in.Math.{given}
use unikernel_with_region_in.Region.{alloc}
use unikernel_with_region_in.Strings.{string_words}
use unikernel_with_region_in.Strings.Compare.{text}
use unikernel_with_region_in.Strings.Concat.{tagged}
use unikernel_with_region_in.Strings.Copy.{put}
use unikernel_with_region_in.CStrings.{
  convert_string_to_c, convert_string_to_c_or_raise, convert_string_to_ml, mk_sml_minus,
}
use unikernel_with_region_in.CStrings.Convert.{
  with_text, convert_string_to_ml_lem, convert_string_to_c_overruns,
  convert_string_to_c_or_raise_lem,
}
use unikernel_with_region_in.CStrings.Minus.{sml_text, mk_sml_minus_lem}
use unikernel_with_region_in.CStrings.Text.{IsText}
use unikernel_with_region_in.Example.{nothing, at, line, memory, allocated, no_block, alloc_two}

-- "-e+" at 1000.
abbrev number : State
number = memory nothing (line 1000 (b'-' ∷ b'e' ∷ b'+' ∷ []) nothing)

number-IsText : IsText number.byte 1000 (b'-' ∷ b'e' ∷ b'+' ∷ [])
number-IsText = (refl, omega arith, (refl, omega arith, (refl, omega arith, refl)))

mk_sml_minus_lem_example :
    let after = put (b'~' ∷ b'E' ∷ 0 ∷ []) 1000 number.byte in
    (mk_sml_minus 4 1000 number ≡ ok tt (record number { byte = after }))
    × IsText after 1000 (b'~' ∷ b'E' ∷ [])
    × (after 2000 ≡ 0)
unfolding sml_text
mk_sml_minus_lem_example =
    mk_sml_minus_lem 4 1000 (b'-' ∷ b'e' ∷ b'+' ∷ []) number 2000 (omega arith) (omega arith)
      number-IsText (inr (omega arith))

-- "ab" at 1008, behind the tag of an ML string.
abbrev words : Ptr → ℕ
words = at 1000 129 nothing

abbrev characters : Ptr → ℕ
characters = line 1008 (97 ∷ 98 ∷ []) nothing

abbrev ab : List ℕ
ab = 97 ∷ 98 ∷ []

ab-IsText : IsText characters 1008 ab
ab-IsText = (refl, omega arith, (refl, omega arith, refl))

-- A `strlen` that is right at this string.
abbrev two : Ptr → Cmd ℕ
two p = pure 2

alloc_runs :
    alloc no_block 64 (string_words (length ab)) (memory words characters)
    ≡ ok 16368 (allocated words characters)
unfolding string_words
alloc_runs = alloc_two words characters

convert_string_to_ml_lem_example :
    let s = memory words characters in
    let after = with_text (tagged s (allocated words characters) 16368 2 s.byte) ab 16376 in
    (convert_string_to_ml no_block two 3 64 1008 s ≡ ok 16368 after)
    × (text after 16368 ≡ ab)
    × IsText after.byte 16376 ab
convert_string_to_ml_lem_example =
    convert_string_to_ml_lem no_block two 3 64 1008 16368 ab (memory words characters)
      (allocated words characters) refl (omega arith) (omega arith) (omega arith) (omega arith)
      ab-IsText (inl (omega arith)) alloc_runs

no_room :
    let s = memory words characters in
    (convert_string_to_c 3 1000 2000 2 s ≡ ok tt (with_text s ab 2000))
    × (2002 ≤ 2002)
    × ((with_text s ab 2000).byte 2002 ≡ 0)
no_room =
    convert_string_to_c_overruns 3 1000 2000 2 ab (memory words characters) (omega arith)
      (omega arith) (omega arith) ab-IsText (inl (omega arith)) (omega arith)

convert_string_to_c_or_raise_lem_example :
    let s = memory words characters in
    (convert_string_to_c_or_raise 3 1000 2000 2 s ≡ ok (some given) s) × (s.byte 2002 ≡ s.byte 2002)
convert_string_to_c_or_raise_lem_example =
    convert_string_to_c_or_raise_lem 3 1000 2000 2 ab (memory words characters) 2002 (omega arith)
      (omega arith) (omega arith) (omega arith) (omega arith) refl ab-IsText (inl (omega arith))
      (inr (omega arith))
