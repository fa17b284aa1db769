-- ===== src/CharLists/Tests.antt =====
-- The theorem on lists of characters at a concrete list.
use unikernel_with_region_in.Base.{ℕ, inl, ◌≡◌, refl, arith, [], ◌∷◌}
use unikernel_with_region_in.State.{Ptr, ok}
use unikernel_with_region_in.Region.Layout.{is_inf_and_atbot, clear_status_bits}
use unikernel_with_region_in.Strings.{string_words}
use unikernel_with_region_in.Strings.Compare.{text}
use unikernel_with_region_in.Strings.Concat.{tagged}
use unikernel_with_region_in.CStrings.Convert.{with_text}
use unikernel_with_region_in.CharLists.{implode_chars_ml, implode_string_ml}
use unikernel_with_region_in.CharLists.Joining.{implode_string_ml_lem}
use unikernel_with_region_in.CharLists.Implode.{implode_chars_ml_lem}
use unikernel_with_region_in.Example.{
  nothing, at, line, memory, allocated, no_block, alloc_two, live, region, first_string,
  second_string, first_string-Here, live-IsReady,
}
use unikernel_with_region_in.CharLists.Explode.{GivesList, explode_string_ml_lem}

-- A list of two cells, at 1000 and 1016.
abbrev cells : Ptr → ℕ
cells = at 1000 97 (at 1008 1016 (at 1016 354 (at 1024 3 nothing)))

implode_chars_ml_lem_example :
    let s = memory cells nothing in
    let after =
      with_text (tagged s (allocated cells nothing) 16368 2 s.byte) (97 ∷ 98 ∷ []) 16376 in
    (implode_chars_ml no_block 0 3 64 1000 s ≡ ok 16368 after) × (text after 16368 ≡ 97 ∷ 98 ∷ [])
unfolding is_inf_and_atbot string_words
implode_chars_ml_lem_example =
    implode_chars_ml_lem no_block 0 3 64 1000 16368 (97 ∷ 354 ∷ []) (memory cells nothing)
      (allocated cells nothing) refl (omega arith) (omega arith) (omega arith)
      (refl, omega arith, refl, (refl, omega arith, refl, omega arith))
      (omega arith, omega arith, (omega arith, omega arith, tt)) (alloc_two cells nothing)

explode_string_ml_lem_example :
    GivesList no_block 1 [] [] 64 2 live
      (16384 ∷ 24576 ∷ [])
      region
      (first_string ∷ second_string ∷ [])
      8208
unfolding clear_status_bits
explode_string_ml_lem_example =
    explode_string_ml_lem no_block 1 [] [] 64 live (16384 ∷ 24576 ∷ []) region
      (first_string ∷ second_string ∷ []) first_string live-IsReady (inl (8192, first_string-Here))
      (omega arith) refl (omega arith)

-- "ab" at 1000 and "c" at 2000, and a list of them at 3000.
abbrev string_list : Ptr → ℕ
string_list =
    at 1000 129 (at 2000 65 (at 3000 1000 (at 3008 3016 (at 3016 2000 (at 3024 3 nothing)))))

abbrev letters : Ptr → ℕ
letters = line 1008 (97 ∷ 98 ∷ []) (at 2008 99 nothing)

implode_string_ml_lem_example :
    let s = memory string_list letters in
    let after =
      with_text
        (tagged s (allocated string_list letters) 16368 3 s.byte)
        (97 ∷ 98 ∷ 99 ∷ [])
        16376 in
    (implode_string_ml no_block 3 64 3000 s ≡ ok 16368 after)
    × (text after 16368 ≡ 97 ∷ 98 ∷ 99 ∷ [])
unfolding string_words
implode_string_ml_lem_example =
    implode_string_ml_lem no_block 3 64 3000 16368 (1000 ∷ 2000 ∷ []) (memory string_list letters)
      (allocated string_list letters) (omega arith) (omega arith) (omega arith)
      (refl, omega arith, refl, (refl, omega arith, refl, omega arith))
      (omega arith, omega arith, (omega arith, omega arith, tt))
      (
        omega arith,
        omega arith,
        inl (omega arith),
        (omega arith, omega arith, inl (omega arith), tt),
      )
      (alloc_two string_list letters)
