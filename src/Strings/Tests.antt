-- ===== src/Strings/Tests.antt =====
-- A memory with two strings, and the theorems on strings at it.
use unikernel_with_region_in.Base.{ℕ, ◌+◌, ◌≡◌, refl, inl, ◌≤◌, length, List, [], ◌∷◌, arith}
use unikernel_with_region_in.Base.Int.{negsuc}
use unikernel_with_region_in.Region.Layout.{clear_status_bits, rp_boundary, last_rp_of_gen}
use unikernel_with_region_in.State.{
  load, set_a, set_n, set_gen, set_fp, set_word, fault, died, out_of_fuel, Ptr, State, Run, ok,
}
use unikernel_with_region_in.Region.{alloc, alloc_new_page, take_page}
use unikernel_with_region_in.Strings.{
  mystrcmp, less_string_ml, lesseq_string_ml, greater_string_ml, greatereq_string_ml,
  equal_string_ml, concat_string_ml, convert_bin_string_to_ml, explode_string_ml, explode_from,
  size_string, string_words,
}
use unikernel_with_region_in.Strings.Compare.{text, lex, same, compare_strings_lem}
use unikernel_with_region_in.Strings.Convert.{converted, convert_bin_string_to_ml_lem}
use unikernel_with_region_in.Strings.Concat.{concatenated, concat_string_ml_lem}
use unikernel_with_region_in.Strings.Live.{concat_live_lem}
use unikernel_with_region_in.Region.View.{Desc}
use unikernel_with_region_in.Region.Programs.Live.{Block}
use unikernel_with_region_in.Region.Programs.Ready.{IsReady}
use unikernel_with_region_in.Example.{
  nothing, at, line, memory, allocated, no_block, alloc_two, live, region, first_string,
  second_string, first_string-Here, second_string-Here, live-IsReady,
}

-- "ab" at 1000 and "c" at 2000.
abbrev words : Ptr → ℕ
words = at 1000 129 (at 2000 65 nothing)

abbrev characters : Ptr → ℕ
characters = line 1008 (97 ∷ 98 ∷ []) (at 2008 99 nothing)

abbrev strings : State
strings = memory words characters

compare_strings_lem_example :
    (mystrcmp 1000 2000 strings ≡ ok (negsuc 0) strings)
    × (less_string_ml 1000 2000 strings ≡ ok 3 strings)
    × (lesseq_string_ml 1000 2000 strings ≡ ok 3 strings)
    × (greater_string_ml 1000 2000 strings ≡ ok 1 strings)
    × (greatereq_string_ml 1000 2000 strings ≡ ok 1 strings)
    × (equal_string_ml 1000 2000 strings ≡ ok 1 strings)
unfolding lex same
compare_strings_lem_example = compare_strings_lem 1000 2000 strings (omega arith) (omega arith)

abbrev taken : State
taken = allocated words characters

alloc_runs : alloc no_block 64 (string_words 3) strings ≡ ok 16368 taken
unfolding string_words
alloc_runs = alloc_two words characters

concat_string_ml_lem_example :
    let after = concatenated strings taken 1000 2000 16368 in
    (concat_string_ml no_block 64 1000 2000 strings ≡ ok 16368 after)
    × (text after 16368 ≡ 97 ∷ 98 ∷ 99 ∷ [])
    × (text after 1000 ≡ 97 ∷ 98 ∷ [])
    × (text after 2000 ≡ 99 ∷ [])
concat_string_ml_lem_example =
    concat_string_ml_lem no_block 64 1000 2000 16368 strings taken (omega arith) (omega arith)
      (omega arith) (omega arith) (omega arith) (omega arith) (inl (omega arith))
      (inl (omega arith)) alloc_runs

-- The three characters from 1008 on, of which the last is 0.
convert_bin_string_to_ml_lem_example :
    let after = converted strings taken 16368 3 1008 in
    (convert_bin_string_to_ml no_block 64 3 1008 strings ≡ ok 16368 after)
    × (text after 16368 ≡ 97 ∷ 98 ∷ 0 ∷ [])
    × (after.byte 16379 ≡ 0)
convert_bin_string_to_ml_lem_example =
    convert_bin_string_to_ml_lem no_block 64 3 1008 16368 strings taken (omega arith) (omega arith)
      (omega arith) (inl (omega arith)) alloc_runs

-- The first two elements of the list that a run returns.
abbrev first_two : Run Ptr → List ℕ
first_two (ok p s) = s.word p ∷ s.word (s.word (p + 8)) ∷ []
first_two fault = []
first_two died = []
first_two out_of_fuel = []

-- The list of "ab" is that of "aa": the first character is not skipped after it is read.
explode_repeats : first_two (explode_string_ml no_block 64 1000 strings) ≡ 97 ∷ 97 ∷ []
unfolding explode_string_ml explode_from size_string alloc alloc_new_page take_page load set_a set_n
    set_gen set_fp set_word clear_status_bits rp_boundary last_rp_of_gen
explode_repeats = refl

concat_live_lem_example :
    (b : Block) × (s' : State) × (fl' : List Ptr) × (d' : Desc) × (concat_string_ml no_block 64 8208
        8224 live
      ≡ ok b.start s')
    × IsReady 1 s' fl' (d' ∷ []) (b ∷ first_string ∷ second_string ∷ [])
    × (text s' b.start ≡ 97 ∷ 98 ∷ 99 ∷ [])
    × (text s' 8208 ≡ 97 ∷ 98 ∷ [])
    × (text s' 8224 ≡ 99 ∷ [])
    × (2 ≤ 1 + length fl')
unfolding string_words clear_status_bits
concat_live_lem_example =
    concat_live_lem no_block 1 live (16384 ∷ 24576 ∷ []) (first_string ∷ second_string ∷ []) []
      region [] 64 first_string second_string live-IsReady refl (omega arith)
      (inl (8192, first_string-Here)) (inl (8192, second_string-Here)) refl refl (omega arith)
