-- ===== src/UnixRuntime/Start.antt =====
-- The start and the ends of a program on Unix against those on Xen.
use unikernel_with_region_in.Base.{
  ℕ, ◌+◌, ◌≡◌, refl, Bool, false, not, ◌||◌, ◌&&◌, fun_ext, Bool-cases, inl, inr, ◌==◌, Option,
  none, some, List, [], ◌∷◌, ◌++◌, if◌then◌else◌,
}
use unikernel_with_region_in.Base.Int.{ℤ, pos, negsuc}
use unikernel_with_region_in.State.{
  State, Run, ok, fault, died, out_of_fuel, Ptr, Cmd, pure, and_then, ◌>>=◌, load,
}
use unikernel_with_region_in.Strings.{data_of_string}
use unikernel_with_region_in.CommandLine.{Arguments, parse_from, parse_cmd_line_args}
use unikernel_with_region_in.Runtime.{Globals, max_int, min_int, max_int_d, min_int_d}
use unikernel_with_region_in.Runtime
use unikernel_with_region_in.UnixRuntime.{
  Rlimit, Kernel, Exit, Ending, falls_through, terminates, raises, to_int, set_stack_size,
  set_stack_size_unlimited, terminate_ml, uncaught_exception, finish, main,
}

-- The end of a program by the functions of the Xen runtime, and with the statuses of Unix.
abbrev pub xen_finish : {K : Type 0} → K → Globals → Ending → Cmd (Exit K)
xen_finish k g falls_through = pure (record { status = pos 1; printed = []; kernel = k })
xen_finish k g (terminates status) =
    pure (record { status = to_int (Runtime.terminate_ml status); printed = []; kernel = k })
xen_finish k g (raises exn_str n ep) = do
  (g', strings) ← Runtime.uncaught_exception n ep g
  pure (record { status = negsuc 0; printed = data_of_string exn_str ∷ strings; kernel = k })

pure_then :
    {A B C : Type 0} (r : Run A) (u : A → B) (w : B → C)
    → and_then r (λ a. pure (w (u a))) ≡ and_then (and_then r (λ a. pure (u a))) (λ b. pure (w b))
pure_then (ok a s) u w = refl
pure_then fault u w = refl
pure_then died u w = refl
pure_then out_of_fuel u w = refl

two_then :
    {A B C D : Type 0} (r : Run A) (m : Cmd B) (u : A → B → C) (w : C → D)
    → and_then r (λ a. m >>= λ b. pure (w (u a b)))
      ≡ and_then (and_then r (λ a. m >>= λ b. pure (u a b))) (λ c. pure (w c))
two_then (ok a s) m u w = pure_then (m s) (u a) w
two_then fault m u w = refl
two_then died m u w = refl
two_then out_of_fuel m u w = refl

finish_same :
    {K : Type 0} (k : K) (g : Globals) (e : Ending) (s : State)
    → finish k g e s ≡ xen_finish k g e s
unfolding finish terminate_ml Runtime.terminate_ml uncaught_exception Runtime.uncaught_exception
finish_same k g falls_through s = refl
finish_same k g (terminates status) s = refl
finish_same k g (raises exn_str n ep) s =
    two_then
      ((if n == g.fail_number
          then (do a ← load State.word (ep + 8); pure (data_of_string a ∷ []))
          else pure [])
        s)
      (if n == g.syserr_number
        then (do a ← load State.word (ep + 8); b ← load State.word a; pure (data_of_string b ∷ []))
        else pure [])
      (λ a b. (record g { uncaught_exnname = n }, a ++ b))
      (λ p. record { status = negsuc 0; printed = data_of_string exn_str ∷ p.1; kernel = k })

-- The limit of the stack is raised to its maximum.
abbrev pub raised : Rlimit → Rlimit
raised l = record { rlim_cur = l.rlim_max; rlim_max = l.rlim_max }

set_stack_size_kernel :
    {K : Type 0} (kernel : Kernel K) (limit_of : K → Rlimit) (k : K)
    → ((j : K) → kernel.getrlimit j ≡ some (limit_of j))
    → (l : Option Rlimit) × (set_stack_size_unlimited kernel k
        ≡ some (l, (kernel.setrlimit (raised (limit_of k)) k).0))
unfolding set_stack_size_unlimited set_stack_size
set_stack_size_kernel kernel limit_of k answers =
    let lim = raised (limit_of k) in
    let after = (kernel.setrlimit lim k).0 in
    elim (Bool-cases (kernel.setrlimit lim k).1) [
      | inl e ↦ (some (limit_of after), rw (set_stack_size, answers k, e, answers after) refl)
      | inr e ↦ (none, rw (set_stack_size, answers k, e) refl)
    ]

-- Whether the first parameter asks for help.
abbrev pub asks_help : (Ptr → Bool) → List Ptr → Bool
asks_help is_help [] = false
asks_help is_help (p ∷ ps) = is_help p

parse_first :
    (is_help : Ptr → Bool) (argc argv : ℕ) (parameters : List Ptr)
    → parse_cmd_line_args is_help argc argv parameters ≡ (
        if asks_help is_help parameters
        then none
        else some (record { commandline_argc = argc; commandline_argv = argv; app_arg_index = 1 }))
unfolding parse_cmd_line_args parse_from
parse_first is_help argc argv [] = refl
parse_first is_help argc argv (p ∷ ps) = elim (Bool-cases (is_help p)) [
  | inl e ↦ rw e refl
  | inr e ↦ rw e refl
]

-- What main tests first.
abbrev pub integers_fit : (ℤ → ℕ) → Bool
integers_fit to_double =
    not (not (to_double max_int == max_int_d) || not (to_double min_int == min_int_d))

-- Where getrlimit always answers, `main` on Unix, unless it dies at its test of the integers, calls
-- setrlimit once, with the maximum for both limits, and goes on whether or not that succeeds: what the
-- kernel has in the end is what this call leaves. If the first parameter asks for help and the limits
-- of integers are as expected, the program ends with status 0 before it takes memory. Otherwise it
-- does what `main` on Xen does with the compiled program, whose list of arguments begins with the
-- first parameter, whatever that is, and then ends with the status of its terminateML, with 1 where it
-- returns, or with -1 after it has printed the name of the exception and then what the Xen runtime
-- prints.
pub unix_main_lem :
    {K : Type 0} (kernel : Kernel K) (limit_of : K → Rlimit) (to_double : ℤ → ℕ)
    (is_help : Ptr → Bool) (malloc : ℕ → ℕ → Ptr) (code : Arguments → Ptr → Cmd (Globals × Ending))
    (argc argv : ℕ) (parameters : List Ptr) (k : K) (s : State)
    → ((j : K) → kernel.getrlimit j ≡ some (limit_of j))
    → let k' = (kernel.setrlimit (raised (limit_of k)) k).0 in
      let args : Arguments = record {
        commandline_argc = argc;
        commandline_argv = argv;
        app_arg_index = 1;
      } in
      let xen_code : Ptr → Cmd (Exit K) = λ ctx. code args ctx >>= λ (g, e). xen_finish k' g e in
      main kernel to_double is_help malloc code argc argv parameters k s ≡ (
        if asks_help is_help parameters && integers_fit to_double
        then ok (record { status = pos 0; printed = []; kernel = k' }) s
        else Runtime.main to_double malloc xen_code s)
unfolding main Runtime.main
unix_main_lem kernel limit_of to_double is_help malloc code argc argv parameters k s answers =
    let (l, stacked) = set_stack_size_kernel kernel limit_of k answers in
    let parsed = parse_first is_help argc argv parameters in
    elim (Bool-cases
      (not (to_double max_int == max_int_d) || not (to_double min_int == min_int_d))) [
        | inl bad ↦ rw bad (elim (Bool-cases (asks_help is_help parameters)) [
          | inl h ↦ rw h refl
          | inr h ↦ rw h refl
        ])
        | inr fits ↦
            rw (fits, stacked, parsed)
              (elim (Bool-cases (asks_help is_help parameters)) [
                | inl h ↦ rw h refl
                | inr h ↦ rw h (
                    rw
                      (fun_ext (λ g. fun_ext (λ e.
                        fun_ext (finish_same (kernel.setrlimit (raised (limit_of k)) k).0 g e))))
                      refl)
              ])
      ]
