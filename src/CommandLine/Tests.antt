-- ===== src/CommandLine/Tests.antt =====
-- The command line at concrete arguments.
use unikernel_with_region_in.Base.{
  ℕ, zero, suc, ◌+◌, ◌<◌, ◌≤◌, ◌≡◌, ◌≢◌, inl, refl, arith, ap, ◌==◌, ==_of_ne, if◌then◌else◌, Bool,
  some, List, [], ◌∷◌, length, count,
}
use unikernel_with_region_in.State.{Ptr, State, Cmd, ok}
use unikernel_with_region_in.Region.Layout.{clear_status_bits}
use unikernel_with_region_in.Region.Programs.Ready.{IsReady, IsReady-objects}
use unikernel_with_region_in.CStrings.Text.{IsText}
use unikernel_with_region_in.CommandLine.{Arguments, parse_from, parse_cmd_line_args}
use unikernel_with_region_in.CommandLine.Building.{IsArg}
use unikernel_with_region_in.CommandLine.Converting.{IsStrlen}
use unikernel_with_region_in.CommandLine.Args.{GivesArgs, sml_commandline_args_lem}
use unikernel_with_region_in.Example.{
  nothing, at, no_block, live, region, first_string, second_string, live-IsReady,
}

-- A strlen that looks at `n` characters at most.
unfoldable scan : ℕ → (Ptr → ℕ) → Ptr → ℕ
scan zero f p = 0
scan (suc n) f p = let rest = scan n f (p + 1) in if f p == 0 then 0 else suc rest

scan-length :
    (n : ℕ) (f : Ptr → ℕ) (p : Ptr) (cs : List ℕ)
    → length cs < n
    → IsText f p cs
    → scan n f p ≡ length cs
unfolding scan
scan-length zero f p cs l t = absurd (omega (arith, l))
scan-length (suc n) f p [] l t = rw t refl
scan-length (suc n) f p (c ∷ cs) l t =
    rw (==_of_ne (f p) 0 (λ e. t.1 (omega (arith, t.0, e))))
      (ap suc (scan-length n f (p + 1) cs (omega (arith, l)) t.2))

abbrev strlen : Ptr → Cmd ℕ
strlen p s = ok (scan 8168 s.byte p) s

strlen-IsStrlen : IsStrlen strlen
strlen-IsStrlen s p cs nn short t =
    ap (λ n. ok n s) (scan-length 8168 s.byte p cs (omega (arith, short)) t)

-- The array of arguments is at 1000, and the one argument, "ab", at 2000.
abbrev started : State
started = record live {
  word = at 1000 3000 (at 1008 2000 nothing);
  byte = at 2000 97 (at 2001 98 nothing);
}

abbrev arguments : Arguments
arguments = record { commandline_argc = 2; commandline_argv = 1000; app_arg_index = 1 }

started-IsReady :
    IsReady 1 started (16384 ∷ 24576 ∷ []) (region ∷ []) (first_string ∷ second_string ∷ [])
started-IsReady =
    IsReady-objects 1 live (16384 ∷ 24576 ∷ []) (region ∷ []) (first_string ∷ second_string ∷ [])
      started.word started.byte live-IsReady

page_above : (p : Ptr) → count p (16384 ∷ 24576 ∷ 8192 ∷ []) ≢ 0 → 8192 ≤ p
page_above p used = ground (arith, used)

ab-IsArg : IsArg started (16384 ∷ 24576 ∷ []) (region ∷ []) 1008 (97 ∷ 98 ∷ [])
ab-IsArg = record {
  entry = omega arith;
  entry_clear = λ p used. inl (omega (arith, page_above p used));
  ne_null = omega arith;
  it = (refl, omega arith, (refl, omega arith, refl));
  clear = λ p used. inl (omega (arith, page_above p used));
  short = omega arith;
}

sml_commandline_args_lem_example :
    GivesArgs no_block strlen 1 8168 arguments 64 64 started
      (16384 ∷ 24576 ∷ [])
      (region ∷ [])
      (first_string ∷ second_string ∷ [])
      ((97 ∷ 98 ∷ []) ∷ [])
unfolding clear_status_bits
sml_commandline_args_lem_example =
    sml_commandline_args_lem no_block strlen 1 8168 strlen-IsStrlen (omega arith) arguments 64 64
      started (16384 ∷ 24576 ∷ []) (region ∷ []) (first_string ∷ second_string ∷ [])
      ((97 ∷ 98 ∷ []) ∷ []) refl started-IsReady (omega arith) (omega arith) (omega arith)
      (ab-IsArg, tt)

-- Only the first parameter is compared with "-h": the loop ends behind it.
abbrev is_50 : Ptr → Bool
is_50 p = p == 50

help_second :
    parse_cmd_line_args is_50 3 600 (60 ∷ 50 ∷ [])
    ≡ some (record { commandline_argc = 3; commandline_argv = 600; app_arg_index = 1 })
unfolding parse_cmd_line_args parse_from
help_second = refl
