-- ===== src/CommandLine.antt =====
-- The arguments of the command line, UnixRuntimeMini/src/RuntimeMini/CommandLine.c. Whether an
-- argument is "-h" or "-help" is for the C library's strcmp to say.
pub mod Args
pub mod Building
pub mod Converting
mod Tests
use mathlib.Core.Option
use unikernel_with_region_in.Base.{
  ℕ, zero, suc, ◌+◌, ◌-◌, ◌*◌, Bool, Option, none, some, List, [], ◌∷◌, if◌then◌else◌,
}
use unikernel_with_region_in.State.{Ptr, State, Cmd, pure, ◌>>=◌, ◌>>◌, load, set_word}
use unikernel_with_region_in.Region.{alloc}
use unikernel_with_region_in.Strings.{nil}
use unikernel_with_region_in.CStrings.{convert_string_to_ml}

-- The global variables of the file.
pub record Arguments : Type 0 where
  pub commandline_argc : ℕ
  pub commandline_argv : Ptr
  pub app_arg_index : ℕ

-- The loop of parseCmdLineArgs over the parameters behind the program's name: `none` is printUsage,
-- which exits; the loop ends behind a parameter that does not match.
unfoldable pub parse_from : (Ptr → Bool) → List Ptr → ℕ → Option ℕ
parse_from is_help [] i = some i
parse_from is_help (p ∷ ps) i = if is_help p then none else some i

unfoldable pub parse_cmd_line_args : (Ptr → Bool) → ℕ → Ptr → List Ptr → Option Arguments
parse_cmd_line_args is_help argc argv parameters =
    Option.map (λ i. record { commandline_argc = argc; commandline_argv = argv; app_arg_index = i })
      (parse_from is_help parameters 1)

module _ (malloc : ℕ → ℕ → Ptr) (strlen : Ptr → Cmd ℕ) (fuel : ℕ) (args : Arguments) where
  unfoldable pub sml_commandline_name : Ptr → Cmd Ptr
  sml_commandline_name r = do
    name ← load State.word args.commandline_argv
    convert_string_to_ml malloc strlen fuel r name

  -- The loop of sml_commandline_args, which has `k` more arguments to take.
  unfoldable pub args_from : ℕ → Ptr → Ptr → ℕ → Ptr → Cmd Ptr
  unfolding set_word
  args_from zero pair_rho str_rho counter res_list = pure res_list
  args_from (suc k) pair_rho str_rho counter res_list = do
    arg ← load State.word (args.commandline_argv + 8 * (counter - 1))
    ml_str ← convert_string_to_ml malloc strlen fuel str_rho arg
    pair ← alloc malloc pair_rho 2
    set_word pair ml_str
    set_word (pair + 8) res_list
    args_from k pair_rho str_rho (counter - 1) pair

  unfoldable pub sml_commandline_args : Ptr → Ptr → Cmd Ptr
  sml_commandline_args pair_rho str_rho =
      let argc = args.commandline_argc in
      args_from (argc - args.app_arg_index) pair_rho str_rho argc nil
