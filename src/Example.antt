-- ===== src/Example.antt =====
-- A small memory for tests: a region at 64 with room for two words on its last page, a free page, and
-- words and characters that a test chooses. Then two strings as the objects of a program.
use unikernel_with_region_in.Base.{
  ℕ, inl, inr, arith, suc, ◌≡◌, refl, List, [], ◌∷◌, ◌==◌, if◌then◌else◌,
}
use unikernel_with_region_in.State.{Ptr, null, State, ok, load, set_a}
use unikernel_with_region_in.Region.{alloc}
use unikernel_with_region_in.Region.View.{Desc}
use unikernel_with_region_in.Region.Programs.Live.{Block, Here}
use unikernel_with_region_in.Region.Programs.Ready.{IsReady}
use unikernel_with_region_in.Region.Layout.{clear_status_bits, rp_boundary}

abbrev pub at : Ptr → ℕ → (Ptr → ℕ) → Ptr → ℕ
at p v f q = if q == p then v else f q

abbrev pub nothing : Ptr → ℕ
nothing q = 0

-- The characters `cs` from `p` on.
abbrev pub line : Ptr → List ℕ → (Ptr → ℕ) → Ptr → ℕ
line p [] f = f
line p (c ∷ cs) f = line (suc p) cs (at p c f)

abbrev pub memory : (Ptr → ℕ) → (Ptr → ℕ) → State
memory words bytes = record {
  rp_n = nothing;
  rp_gen = at 8192 64 nothing;
  gen_a = at 64 16368 nothing;
  gen_fp = at 64 8192 nothing;
  ro_p = nothing;
  ro_lobjs = nothing;
  lobj_next = nothing;
  word = words;
  byte = bytes;
  topregion = 64;
  global_freelist = 16384;
  rp_total = 2;
  mallocs = 0;
  freed = [];
}

-- After two words were taken.
abbrev pub allocated : (Ptr → ℕ) → (Ptr → ℕ) → State
allocated words bytes = record (memory words bytes) {
  gen_a = at 64 16384 (memory words bytes).gen_a;
}

abbrev pub no_block : ℕ → ℕ → Ptr
no_block i n = null

pub alloc_two :
    (words bytes : Ptr → ℕ)
    → alloc no_block 64 2 (memory words bytes) ≡ ok 16368 (allocated words bytes)
unfolding alloc load set_a clear_status_bits rp_boundary
alloc_two words bytes = refl

-- "ab" at 8208 and "c" at 8224, in the page of the region at 64, and two free pages.
abbrev pub live : State
live =
    record (memory (at 8208 129 (at 8224 65 nothing))
      (line 8216 (97 ∷ 98 ∷ []) (at 8232 99 nothing))) { rp_n = at 16384 24576 nothing }

abbrev pub region : Desc
region = record { addr = 64; front = []; last = 8192; large = [] }

abbrev pub first_string : Block
first_string = record { region = 64; start = 8208; words = 2 }

abbrev pub second_string : Block
second_string = record { region = 64; start = 8224; words = 2 }

pub first_string-Here : Here live region first_string 8192
first_string-Here = record {
  region = refl;
  page = omega arith;
  from_data = omega arith;
  to_end = omega arith;
  used = inr (refl, omega arith);
}

pub second_string-Here : Here live region second_string 8192
second_string-Here = record {
  region = refl;
  page = omega arith;
  from_data = omega arith;
  to_end = omega arith;
  used = inr (refl, omega arith);
}

pub live-IsReady :
    IsReady 1 live (16384 ∷ 24576 ∷ []) (region ∷ []) (first_string ∷ second_string ∷ [])
live-IsReady = record {
  inv = record {
    free = omega arith;
    stack = (
      record {
        here = refl;
        ne_null = omega arith;
        aligned = omega arith;
        fits = omega arith;
        gen = record {
          chain = omega arith;
          page = omega arith;
          at = omega arith;
          word_aligned = omega arith;
          owned = ground arith;
        };
        large = omega arith;
      },
      refl,
    );
    pages = omega arith;
    distinct = λ x. ground arith;
    regions = λ x. ground arith;
    large = λ x. ground arith;
  };
  live = record {
    housed = (inl (8192, first_string-Here), (inl (8192, second_string-Here), tt));
    apart = ((inl (omega arith), tt), (tt, tt));
  };
  fuel = (omega arith, tt);
  some_fuel = omega arith;
}
