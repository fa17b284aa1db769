-- ===== src/CommandLine/Args.antt =====
-- sml_commandline_args: its loop, from the last argument to the first.
use unikernel_with_region_in.Base.{
  ℕ, suc, ◌+◌, ◌-◌, ◌*◌, ◌<◌, ◌≤◌, ◌≡◌, ◌≢◌, refl, ap, ap₂, subst, ◌∙◌, List, [], ◌∷◌, ◌++◌, length,
  count, arith, ==_refl, ==_of_ne,
}
use unikernel_with_region_in.State.{Ptr, null, State, Cmd, ok, upd, load_of_ne_null, set_word}
use unikernel_with_region_in.Region.{alloc}
use unikernel_with_region_in.Region.Frame.{alloc-keeps}
use unikernel_with_region_in.Region.Layout.{clear_status_bits}
use unikernel_with_region_in.Region.View.{Desc, all_addrs}
use unikernel_with_region_in.Region.Programs.Live.{Block}
use unikernel_with_region_in.Region.Programs.Ready.{IsReady}
use unikernel_with_region_in.Region.Programs.Fresh.{
  Extends, Extends-none, Extends-then, alloc-Fresh,
}
use unikernel_with_region_in.Strings.{nil}
use unikernel_with_region_in.CStrings.{convert_string_to_ml}
use unikernel_with_region_in.CommandLine.{Arguments, args_from, sml_commandline_args}
use unikernel_with_region_in.CommandLine.Building.{
  IsStringList, IsArg, IsArgs, IsStringList-kept, IsStringOf-kept, IsArg-kept,
}
use unikernel_with_region_in.CommandLine.Converting.{IsStrlen, converts}

-- The outcome of sml_commandline_args on the arguments `css`: the blocks of the list are new objects
-- besides the program's `bs`.
abbrev pub GivesArgs :
    (ℕ → ℕ → Ptr)
    → (Ptr → Cmd ℕ)
    → ℕ
    → ℕ
    → Arguments
    → Ptr
    → Ptr
    → State
    → List Ptr
    → List Desc
    → List Block
    → List (List ℕ)
    → Type 0
GivesArgs malloc strlen k fuel args pr sr s fl ds bs css =
    (x : Ptr) × (s' : State) × (fl' : List Ptr) × (ds' : List Desc) × (made : List Block)
    × (sml_commandline_args malloc strlen fuel args pr sr s ≡ ok x s')
    × IsStringList s' ds' x css made
    × Extends k (2 * length css) s fl ds s' fl' ds' (made ++ bs)

module _ (malloc : ℕ → ℕ → Ptr) (strlen : Ptr → Cmd ℕ) (k fuel : ℕ) (is_strlen : IsStrlen strlen)
    (enough : 8167 < fuel) where
  module _ (args : Arguments) (pr sr : Ptr) where
    -- A run of the loop: the list that it has made, the blocks of the list, and the state.
    pub record Lists (steps n : ℕ) (s : State) (fl : List Ptr) (ds : List Desc) (bs : List Block)
        (a x : Ptr) (css : List (List ℕ)) : Type 0 where
      pub list : Ptr
      pub state : State
      pub free : List Ptr
      pub regions : List Desc
      pub made : List Block
      pub runs :
          (m left counter : ℕ)
          → left ≡ steps + m
          → a + 8 * steps ≡ args.commandline_argv + 8 * counter
          → steps ≤ counter
          → args_from malloc strlen fuel args left pr sr counter x s
            ≡ args_from malloc strlen fuel args m pr sr (counter - steps) list state
      pub extends : Extends k n s fl ds state free regions (made ++ bs)
      pub holds : IsStringList state regions list css made

    -- One step, from what its three calls return.
    step_runs :
        (s s1 s2 : State) (str t x counter m : ℕ)
        → let a = args.commandline_argv + 8 * (counter - 1) in
          a ≢ null
          → t ≢ null
          → convert_string_to_ml malloc strlen fuel sr (s.word a) s ≡ ok str s1
          → alloc malloc pr 2 s1 ≡ ok t s2
          → args_from malloc strlen fuel args (suc m) pr sr counter x s
            ≡ args_from malloc strlen fuel args m pr sr
                (counter - 1)
                t
                (record s2 { word = upd (upd s1.word t str) (t + 8) x; byte = s1.byte })
    unfolding args_from set_word
    step_runs s s1 s2 str t x counter m na nt run given =
        let keeps = alloc-keeps malloc pr 2 s1 t s2 given in
        rw
          (
            load_of_ne_null State.word (args.commandline_argv + 8 * (counter - 1)) s na,
            run,
            given,
            ==_of_ne t null nt,
            ==_of_ne (t + 8) null (omega arith),
          )
          (ap₂
            (λ f b.
              args_from malloc strlen fuel args m pr sr (counter - 1) t
                (record s2 { word = upd (upd f t str) (t + 8) x; byte = b }))
            keeps.0 keeps.1)

    one_more :
        (s : State) (fl : List Ptr) (ds : List Desc) (made bs : List Block) (a x : Ptr)
        (cs : List ℕ) (css : List (List ℕ))
        → IsReady k s fl ds (made ++ bs)
        → count (clear_status_bits pr) (all_addrs ds) ≢ 0
        → count (clear_status_bits sr) (all_addrs ds) ≢ 0
        → 2 ≤ length fl
        → IsArg s fl ds a cs
        → IsStringList s ds x css made
        → Lists 1 2 s fl ds bs a x (cs ∷ css)
    one_more s fl ds made bs a x cs css h in_pr in_sr free arg rest =
        let held = made ++ bs in
        let c =
          converts malloc strlen k fuel is_strlen enough s fl ds held sr a cs h in_sr (omega arith)
            arg in
        let e1 = c.extends in
        let new =
          alloc-Fresh malloc k c.state c.free (c.block ∷ held) pr 2 c.regions
            (rw e1.same_addrs in_pr) (omega arith) (omega (arith, e1.spent_pages)) e1.ready in
        let t = new.block.start in
        let (_, _, above, _) = new.in_page in
        let w = upd (upd c.state.word t c.block.start) (t + 8) x in
        let e2 = new.written w c.state.byte (λ q out. (
          rw
              (
                ==_of_ne q (t + 8) (ground (arith, out, new.words)),
                ==_of_ne q t (ground (arith, out, new.words)),
              )
              refl,
          refl,
        )) in
        let s2 : State = record (new.state) { word = w; byte = c.state.byte } in
        let both =
          Extends-then k 1 1 s fl ds c.state c.free c.regions (c.block ∷ held) s2 new.free
            new.regions (new.block ∷ c.block ∷ held) e1 e2 in
        record {
          list = t;
          state = s2;
          free = new.free;
          regions = new.regions;
          made = new.block ∷ c.block ∷ made;
          runs = λ m left counter more at some.
              let here : args.commandline_argv + 8 * (counter - 1) ≡ a = omega (arith, at, some) in
              let one : left ≡ suc m = omega (arith, more) in
              rw one (
                step_runs s c.state new.state c.block.start t x counter m (rw here arg.entry)
                  (omega (arith, above)) (rw here c.runs) new.returns);
          extends = both;
          holds = (
            record {
              start = refl;
              housed = e2.ready.live.housed.0;
              words = new.words;
              aligned = omega (arith, new.aligned);
            },
            rw (==_of_ne t (t + 8) (omega arith), ==_refl t)
                (IsStringOf-kept k 1 c.state c.free c.regions s2 new.free new.regions
                  (new.block ∷ c.block ∷ held) e2 c.block.start cs c.block c.it),
            rw (==_refl (t + 8)) (
                IsStringList-kept k 2 s fl ds s2 new.free new.regions (new.block ∷ c.block ∷ held)
                  both x css made rest),
          );
        }

    all_args :
        (s : State) (fl : List Ptr) (ds : List Desc) (bs : List Block) (a : Ptr)
        (css : List (List ℕ))
        → IsReady k s fl ds bs
        → count (clear_status_bits pr) (all_addrs ds) ≢ 0
        → count (clear_status_bits sr) (all_addrs ds) ≢ 0
        → 2 * length css ≤ length fl
        → IsArgs s fl ds a css
        → Lists (length css) (2 * length css) s fl ds bs a nil css
    all_args s fl ds bs a [] h in_pr in_sr free as_given = record {
      list = nil;
      state = s;
      free = fl;
      regions = ds;
      made = [];
      runs = λ m left counter more at some.
          let none_left : left ≡ m = omega (arith, more) in
          let same : counter - 0 ≡ counter = omega arith in rw (none_left, same) refl;
      extends = Extends-none k s fl ds bs h;
      holds = refl;
    }
    all_args s fl ds bs a (cs ∷ css) h in_pr in_sr free (arg, others) =
        let rest = all_args s fl ds bs (a + 8) css h in_pr in_sr (omega (arith, free)) others in
        let e = rest.extends in
        let last =
          one_more rest.state rest.free rest.regions rest.made bs a rest.list cs css e.ready
            (rw e.same_addrs in_pr) (rw e.same_addrs in_sr) (omega (arith, free, e.spent_pages))
            (IsArg-kept k (2 * length css) s fl ds rest.state rest.free rest.regions
              (rest.made ++ bs) e a cs arg)
            rest.holds in
        record {
          list = last.list;
          state = last.state;
          free = last.free;
          regions = last.regions;
          made = last.made;
          runs = λ m left counter more at some.
              rest.runs (suc m) left counter (omega (arith, more)) (omega (arith, at))
                (omega (arith, some))
              ∙ last.runs m (suc m) (counter - length css) (omega arith) (omega (arith, at, some))
                  (omega (arith, some))
              ∙ ap (λ j. args_from malloc strlen fuel args m pr sr j last.list last.state)
                  {y = counter - suc (length css)} (omega arith);
          extends =
              subst (λ i. Extends k i s fl ds last.state last.free last.regions (last.made ++ bs))
                {x = 2 * length css + 2} (omega arith)
                (Extends-then k (2 * length css) 2 s fl ds rest.state rest.free rest.regions
                  (rest.made ++ bs) last.state last.free last.regions (last.made ++ bs) e
                  last.extends);
          holds = last.holds;
        }

    -- The arguments from number `app_arg_index` on are C strings of `css`, each of at most 8167
    -- characters, outside of the pages of the allocator; the regions for the pairs and for the strings
    -- are on the stack, and may be the same one; and there are two free pages for each argument, fuel
    -- for 8168 characters, and a strlen that finds their lengths. Then sml_commandline_args ends and
    -- returns a list of strings of just these characters, in order. Its cells and strings are new
    -- objects: they overlap neither each other nor the objects `bs` of the program. The invariant of
    -- the allocator holds again, and the objects of the program and what is outside of the pages are
    -- as they were.
    pub sml_commandline_args_lem :
        (s : State) (fl : List Ptr) (ds : List Desc) (bs : List Block) (css : List (List ℕ))
        → args.commandline_argc ≡ args.app_arg_index + length css
        → IsReady k s fl ds bs
        → count (clear_status_bits pr) (all_addrs ds) ≢ 0
        → count (clear_status_bits sr) (all_addrs ds) ≢ 0
        → 2 * length css ≤ length fl
        → IsArgs s fl ds (args.commandline_argv + 8 * args.app_arg_index) css
        → GivesArgs malloc strlen k fuel args pr sr s fl ds bs css
    unfolding sml_commandline_args args_from
    sml_commandline_args_lem s fl ds bs css as_many h in_pr in_sr free as_given =
        let made =
          all_args s fl ds bs (args.commandline_argv + 8 * args.app_arg_index) css h in_pr in_sr
            free as_given in
        (
          made.list,
          made.state,
          made.free,
          made.regions,
          made.made,
          made.runs 0 (args.commandline_argc - args.app_arg_index) args.commandline_argc
              (omega (arith, as_many)) (omega (arith, as_many)) (omega (arith, as_many)),
          made.holds,
          made.extends,
        )
