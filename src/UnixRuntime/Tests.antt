-- ===== src/UnixRuntime/Tests.antt =====
-- The start and the ends of a Unix program at a concrete kernel and program.
use unikernel_with_region_in.Base.{
  ℕ, ◌≡◌, refl, Bool, true, ◌==◌, Option, none, some, List, [], ◌∷◌,
}
use unikernel_with_region_in.Base.Int.{ℤ, pos, negsuc}
use unikernel_with_region_in.State.{State, Run, ok, Ptr, Cmd, pure, ◌>>=◌, malloc_with, store, load}
use unikernel_with_region_in.CommandLine.{Arguments, parse_cmd_line_args, parse_from}
use unikernel_with_region_in.Runtime.{Globals, at_start, sml_set_fail_number, max_int_d, min_int_d}
use unikernel_with_region_in.Runtime
use unikernel_with_region_in.UnixRuntime.{
  Rlimit, Kernel, Exit, Ending, raises, set_stack_size, set_stack_size_unlimited, terminate_ml,
  uncaught_exception, finish, main,
}
use unikernel_with_region_in.UnixRuntime.Start.{raised, xen_finish, unix_main_lem}
use unikernel_with_region_in.Example.{nothing, at, memory}

-- A kernel that keeps the limit and lets it be set.
abbrev limited : Kernel Rlimit
limited = record { getrlimit = λ l. some l; setrlimit = λ lim l. (lim, true) }

abbrev eight_of_64 : Rlimit
eight_of_64 = record { rlim_cur = 8; rlim_max = 64 }

abbrev limits_only : ℤ → ℕ
limits_only (pos n) = max_int_d
limits_only (negsuc n) = min_int_d

-- Fail has the number 5; the exception at 3000 carries the string at 4000, and its name is at 7000.
abbrev before : State
before = memory (at 1000 1100 (at 1100 5 (at 3008 4000 nothing))) nothing

abbrev fails : Arguments → Ptr → Cmd (Globals × Ending)
fails args ctx = do g ← sml_set_fail_number 1000 1 at_start; pure (g, raises 7000 5 3000)

-- The parameter at 50 is "-h".
abbrev is_50 : Ptr → Bool
is_50 p = p == 50

unix_main_lem_example :
    main limited limits_only is_50 (λ i n. 9000) fails 2 600 (60 ∷ []) eight_of_64 before
    ≡ Runtime.main limits_only
        (λ i n. 9000)
        (λ ctx.
          fails (record { commandline_argc = 2; commandline_argv = 600; app_arg_index = 1 }) ctx
          >>= λ (g, e). xen_finish (raised eight_of_64) g e)
        before
unix_main_lem_example =
    unix_main_lem limited (λ l. l) limits_only is_50 (λ i n. 9000) fails 2 600 (60 ∷ []) eight_of_64
      before (λ l. refl)

-- The name and the argument of the exception are printed, and the status is -1.
abbrev exit_of : {K : Type 0} → Run (Exit K) → Option (ℤ × List Ptr × K)
exit_of r = elim r [ ok x s ↦ some (x.status, x.printed, x.kernel) | _ ↦ none ]

fails_with_name :
    exit_of (main limited limits_only is_50 (λ i n. 9000) fails 2 600 (60 ∷ []) eight_of_64 before)
    ≡ some (negsuc 0, 7008 ∷ 4008 ∷ [], record { rlim_cur = 64; rlim_max = 64 })
unfolding main set_stack_size_unlimited set_stack_size parse_cmd_line_args parse_from malloc_with
    store load sml_set_fail_number finish uncaught_exception
fails_with_name = refl

helps :
    exit_of (main limited limits_only is_50 (λ i n. 9000) fails 2 600 (50 ∷ []) eight_of_64 before)
    ≡ some (pos 0, [], record { rlim_cur = 64; rlim_max = 64 })
unfolding main set_stack_size_unlimited set_stack_size parse_cmd_line_args parse_from
helps = refl

-- A status of 2^32 - 1 is -1 as an `int`.
terminates_with : (terminate_ml eight_of_64 4294967295).status ≡ negsuc 0
unfolding terminate_ml
terminates_with = refl
