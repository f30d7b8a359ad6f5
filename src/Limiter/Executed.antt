-- ===== src/Limiter/Executed.antt =====
-- Which program main of srvctl/src/limiter.c executes, and with which attributes.
use ngim.Base.{
  ℕ, zero, suc, ◌<◌, ◌≡◌, sym, inl, inr, true, false, none, some, List, [], ◌∷◌, ◌++◌, length, take,
  drop, take-append-drop, length-take, length-drop, Option-cases, if-ind, arith,
}
use ngim.Cmdline.{Str, Parsed, Result, failure, index}
use ngim.Cmdline.Bounds.{InRange, cmdline_parse-InRange}
use ngim.Limiter.{Confinement, System, validate_cmdline, confine}
use ngim.Limiter.Params.{Config, limiter_params, limiter_args}
use ngim.Limiter.Main.{
  limiter_parse, arguments_of, Ran, usage, died, executed, die_usage, execute, if_parsed, main,
}
use ngim.Limiter.Confined.{IsConfined, confine-IsConfined}

-- The program with its arguments is the end of the command line, after the name of the limiter.
abbrev pub IsProgram : List Str → List Str → Type 0
IsProgram argv program =
    (before : List Str) × ((argv ≡ before ++ program)
      × ((0 < length before) × (0 < length program)))

module _ (config : Config) (s : System) (c : Confinement) where
  limiter_parse-InRange : (argv : List Str) → InRange (length argv) (limiter_parse config argv).0
  unfolding limiter_parse
  limiter_parse-InRange argv =
      cmdline_parse-InRange argv false (limiter_params config) (some limiter_args) (λ _. none)

  IsExecuted : List Str → Parsed → Ran → Type 0
  IsExecuted argv st (usage text) = Unit
  IsExecuted argv st died = Unit
  IsExecuted argv st (executed program c') =
      IsProgram argv program × IsConfined s st.selected (arguments_of st.vars) c c'

  die_usage-IsExecuted :
      (argv : List Str) (st : Parsed) → IsExecuted argv st (die_usage config argv)
  unfolding die_usage IsExecuted
  die_usage-IsExecuted [] st = tt
  die_usage-IsExecuted (argv0 ∷ argv) st = tt

  execute-IsExecuted :
      (argv : List Str) (i : ℕ) (st : Parsed)
      → suc i < length argv
      → validate_cmdline st.selected ≡ true
      → IsExecuted argv st
          (execute (drop (suc i) argv) (confine s st.selected (arguments_of st.vars) c))
  unfolding IsExecuted
  execute-IsExecuted argv i st h v =
      let args = arguments_of st.vars in
      elim (Option-cases (confine s st.selected args c)) [
        | inl none_left ↦ rw none_left tt
        | inr (c', e) ↦ rw e (
          (
            take (suc i) argv,
            (
              sym (take-append-drop (suc i) argv),
              (omega (arith, length-take (suc i) argv), omega (arith, length-drop (suc i) argv, h)),
            ),
          ),
          confine-IsConfined s st.selected args c c' v e,
        )
      ]

  if_parsed-IsExecuted :
      (argv : List Str) (r : Result) (st : Parsed)
      → InRange (length argv) r
      → IsExecuted argv st (if_parsed config s c argv (r, st))
  unfolding if_parsed
  if_parsed-IsExecuted argv failure st h = die_usage-IsExecuted argv st
  if_parsed-IsExecuted argv (index zero) st h = die_usage-IsExecuted argv st
  if_parsed-IsExecuted argv (index (suc i)) st h =
      if-ind (IsExecuted argv st) (validate_cmdline st.selected)
        (λ v. execute-IsExecuted argv i st (omega (arith, h)) v) (λ _. die_usage-IsExecuted argv st)

  main-Executed :
      (argv : List Str) → IsExecuted argv (limiter_parse config argv).1 (main config s c argv)
  unfolding main
  main-Executed argv =
      if_parsed-IsExecuted argv (limiter_parse config argv).0 (limiter_parse config argv).1
        (limiter_parse-InRange argv)

  -- What the limiter executes is a program with its arguments, which end the command line, and it
  -- has what the options before it ask for: the number of the priority, or the end of the system's
  -- range that it is beyond; for every resource the limit that is given for memory, if it is one of
  -- memory, and then the limit that is given for it, as a number for both limits or as a soft one that
  -- is at most the hard one, and no other limit changed; the jail or the root directory that is given;
  -- and the given user and group as ngim_priv_drop promises.
  pub main-IsExecuted :
      (argv program : List Str) (c' : Confinement)
      → main config s c argv ≡ executed program c'
      → IsProgram argv program
        × (let st : Parsed = (limiter_parse config argv).1 in
            IsConfined s st.selected (arguments_of st.vars) c c')
  unfolding IsExecuted
  main-IsExecuted argv program c' e = rw e at (main-Executed argv)
