-- ===== src/UnixRuntime.antt =====
-- UnixRuntimeMini/src/RuntimeMini/Runtime.c, where it differs from the Xen runtime: the stack limit,
-- and the start and the ends of a program, which leave it with an exit status; and stringOfFloat of
-- its Math.c. The calls getrlimit and setrlimit are a parameter, as is sprintf. `died` stands for die
-- and die2, which exit with -1.
pub mod Start
mod Tests
use unikernel_with_region_in.Base.{
  ℕ, ◌+◌, ◌-◌, ◌%◌, ◌^◌, Bool, not, ◌||◌, ◌&&◌, ◌==◌, ltb, Option, none, some, List, [], ◌∷◌, ◌++◌,
  if◌then◌else◌,
}
use unikernel_with_region_in.Base.Int.{ℤ, pos, negsuc, sub_ℕ}
use unikernel_with_region_in.State.{
  died, store, malloc_with, Ptr, null, State, Cmd, pure, ◌>>=◌, ◌>>◌, Done, load,
}
use unikernel_with_region_in.Strings.{data_of_string}
use unikernel_with_region_in.CStrings.{mk_sml_minus, count_char}
use unikernel_with_region_in.Floats.Print.{Printing, printed_string}
use unikernel_with_region_in.CommandLine.{Arguments, parse_cmd_line_args}
use unikernel_with_region_in.Runtime.{
  Globals, at_start, max_int, min_int, max_int_d, min_int_d, sizeof_context,
}

pub record Rlimit : Type 0 where
  pub rlim_cur : ℕ
  pub rlim_max : ℕ

-- The limit of the stack, which the kernel keeps in `K`: `none` for a result of -1 from getrlimit, and
-- `false` from setrlimit.
pub record Kernel (K : Type 0) : Type 0 where
  pub getrlimit : K → Option Rlimit
  pub setrlimit : Rlimit → K → K × Bool

abbrev pub rlim_infinity : ℕ
rlim_infinity = 18446744073709551615

-- How a program has ended: the status that it exits with, the ML strings it has printed as it did, and
-- what the kernel has of it then.
pub record Exit (K : Type 0) : Type 0 where
  pub status : ℤ
  pub printed : List Ptr
  pub kernel : K

-- The last call of the compiled program: none where it returns, terminateML with its status, or
-- uncaught_exception with the name, the number and the value of the exception.
pub data Ending : Type 0 where
  falls_through : Ending
  terminates : (status : ℕ) → Ending
  raises : (exn_str : Ptr) (n : ℕ) (ep : Ptr) → Ending

-- A `long` as an `int`.
abbrev pub to_int : ℕ → ℤ
to_int n = let m = n % 2 ^ 32 in if ltb m (2 ^ 31) then pos m else sub_ℕ m (2 ^ 32)

module _ {K : Type 0} (kernel : Kernel K) where
  -- The static variable `limit`, where it is set, and the kernel; `none` where the program dies. The
  -- parameter is not used.
  unfoldable pub set_stack_size : ℕ → K → Option (Option Rlimit × K)
  set_stack_size size k = elim (kernel.getrlimit k) [
    | none ↦ none
    | some oldlim ↦
        let lim : Rlimit = record { rlim_cur = oldlim.rlim_max; rlim_max = oldlim.rlim_max } in
        let (k', done) = kernel.setrlimit lim k in
        if done
        then elim (kernel.getrlimit k') [ none ↦ none | some limit ↦ some (some limit, k') ]
        else some (none, k')
  ]

  unfoldable pub set_stack_size_unlimited : K → Option (Option Rlimit × K)
  unfolding set_stack_size
  set_stack_size_unlimited k = set_stack_size rlim_infinity k

unfoldable pub terminate_ml : {K : Type 0} → K → ℕ → Exit K
terminate_ml k status = record { status = to_int status; printed = []; kernel = k }

-- The field of the context that it sets too is gone with the program.
unfoldable pub uncaught_exception : {K : Type 0} → K → Ptr → ℕ → Ptr → Globals → Cmd (Exit K)
uncaught_exception k exn_str n ep g = do
  failure ←
      (if n == g.fail_number
        then (do a ← load State.word (ep + 8); pure (data_of_string a ∷ []))
        else pure [])
  syserr ←
      (if n == g.syserr_number
        then (do a ← load State.word (ep + 8); b ← load State.word a; pure (data_of_string b ∷ []))
        else pure [])
  pure (record {
    status = negsuc 0;
    printed = data_of_string exn_str ∷ (failure ++ syserr);
    kernel = k;
  })

-- What follows the compiled program: EXIT_FAILURE where it returns.
unfoldable pub finish : {K : Type 0} → K → Globals → Ending → Cmd (Exit K)
unfolding terminate_ml uncaught_exception
finish k g falls_through = pure (record { status = pos 1; printed = []; kernel = k })
finish k g (terminates status) = pure (terminate_ml k status)
finish k g (raises exn_str n ep) = uncaught_exception k exn_str n ep g

-- `code` is the compiled program, which is given the context and reads the arguments; it leaves the
-- numbers that it has registered for Fail and SysErr. printUsage ends the program with status 0.
unfoldable pub main :
    {K : Type 0}
    → Kernel K
    → (ℤ → ℕ)
    → (Ptr → Bool)
    → (ℕ → ℕ → Ptr)
    → (Arguments → Ptr → Cmd (Globals × Ending))
    → (argc : ℕ) → (argv : Ptr) → (parameters : List Ptr) → K
    → Cmd (Exit K)
unfolding malloc_with set_stack_size_unlimited parse_cmd_line_args finish
main kernel to_double is_help malloc code argc argv parameters k =
    if not (to_double max_int == max_int_d) || not (to_double min_int == min_int_d)
    then (λ _. died)
    else elim (set_stack_size_unlimited kernel k) [
      | none ↦ λ _. died
      | some p ↦ elim (parse_cmd_line_args is_help argc argv parameters) [
        | none ↦ pure (record { status = pos 0; printed = []; kernel = p.1 })
        | some args ↦ do
          ctx ← malloc_with malloc sizeof_context
          store ctx (λ s. record s { topregion = null })
          (g, e) ← code args ctx
          finish p.1 g e
      ]
    ]

-- `print_12g` is sprintf(buf, "%.12g", d).
unfoldable pub string_of_float :
    (ℕ → ℕ → Ptr) → Printing → (print_12g : Ptr → ℕ → Done) → ℕ → Ptr → Ptr → Ptr → Cmd Ptr
string_of_float malloc lib print_12g fuel r buf arg = do
  d ← load State.word arg
  print_12g buf d
  mk_sml_minus fuel buf
  points ← count_char fuel b'.' buf
  exponents ← count_char fuel b'E' buf
  nans ← count_char fuel b'n' buf
  (if points == 0 && (exponents == 0 && nans == 0) then lib.append_point_zero buf else pure tt)
  printed_string malloc lib fuel r buf
