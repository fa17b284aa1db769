-- ===== src/Table/Tests.antt =====
-- The theorem on tables at a concrete memory.
use unikernel_with_region_in.Base.{[], ◌∷◌}
use unikernel_with_region_in.Base.{ℕ, ◌/◌, ◌≡◌, refl, inl, [], arith, ◌==◌, if◌then◌else◌}
use unikernel_with_region_in.State.{Ptr, null, State, ok, load, set_a}
use unikernel_with_region_in.Region.{alloc}
use unikernel_with_region_in.Region.Layout.{clear_status_bits, rp_boundary}
use unikernel_with_region_in.Table.{word_table_init}
use unikernel_with_region_in.Table.Init.{with_table, elements, word_table_init_lem}

abbrev at : Ptr → ℕ → Ptr → ℕ
at p v q = if q == p then v else 0

abbrev memory : State
memory = record {
  rp_n = at 0 0;
  rp_gen = at 8192 64;
  gen_a = at 64 8208;
  gen_fp = at 64 8192;
  ro_p = at 0 0;
  ro_lobjs = at 0 0;
  lobj_next = at 0 0;
  word = at 1000 129;
  byte = at 0 0;
  topregion = 64;
  global_freelist = 0;
  rp_total = 1;
  mallocs = 0;
  freed = [];
}

abbrev no_block : ℕ → ℕ → Ptr
no_block i n = null

abbrev allocated : State
allocated = record memory { gen_a = λ q. if q == 64 then 8240 else memory.gen_a q }

alloc_runs : alloc no_block 64 4 memory ≡ ok 8208 allocated
unfolding alloc load set_a clear_status_bits rp_boundary
alloc_runs = refl

word_table_init_lem_example :
    let after = with_table memory allocated 8208 3 7 in
    (word_table_init no_block 64 3 7 memory ≡ ok 8208 after)
    × (after.word 8208 / 64 ≡ 3)
    × (elements after.word 3 8216 ≡ 7 ∷ 7 ∷ 7 ∷ [])
    × (after.word 1000 ≡ 129)
word_table_init_lem_example =
    word_table_init_lem no_block 64 3 7 8208 memory allocated 1000 (omega arith) (omega arith)
      alloc_runs (inl (omega arith))
