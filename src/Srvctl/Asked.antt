-- ===== src/Srvctl/Asked.antt =====
-- What main of srvctl/src/srvctl.c runs for a command line.
use ngim.Base.{
  ◌≡◌, ◌⊎◌, refl, sym, ◌∙◌, Bool, true, false, Option, none, some, List, has, if-ind, Option-cases,
  inl, inr, arith,
}
use ngim.Cmdline.{string_of, Str, Parsed, Result, failure, index, is_some}
use ngim.Srvctl.Main.{
  World, Ran, usage, showed_status, listed, killed, acted, dispatch, if_accepted, if_parsed, main,
  service_parse, arguments_of,
}
use ngim.Srvctl.Options.{
  cmd_list, cmd_status, cmd_killall, cmd_utc, Signals, Arguments, Choice, validate_cmdline,
}
use ngim.Srvctl.Accepted.{NoneOf, OneOf, given, IsMode, IsAccepted, validate_cmdline_iff}
use ngim.Srvctl.Action.{command_action}
use ngim.Srvctl.Walks.{command_status, command_list, command_killall}

-- What was run, for a choice that was made: a walk with no name and no command, or exactly one command
-- with a name.
abbrev pub IsDone : Signals → World → Parsed → Choice → Ran → Type 0
IsDone s w st c usage = ⊥
IsDone s w st c (showed_status utc rows) =
    (has st.selected cmd_status ≡ true)
    × ((utc ≡ has st.selected cmd_utc)
        × ((rows ≡ command_status w.load w.now w.old w.statuses)
            × (((arguments_of st.vars).name ≡ none) × NoneOf (given st.selected))))
IsDone s w st c (listed rows) =
    (has st.selected cmd_list ≡ true)
    × ((rows ≡ command_list w.all)
        × (((arguments_of st.vars).name ≡ none) × NoneOf (given st.selected)))
IsDone s w st c (killed bytes) =
    (has st.selected cmd_killall ≡ true)
    × ((bytes ≡ command_killall w.controls w.targets)
        × (((arguments_of st.vars).name ≡ none) × NoneOf (given st.selected)))
IsDone s w st c (acted name o) =
    (o
      ≡ command_action w.answers s.sigterm st.selected c.signum name (arguments_of st.vars).priority
          (w.files name))
    × (((arguments_of st.vars).name ≡ some name) × OneOf (given st.selected))

-- The usage is printed where there is nothing to be accepted, and else what is asked for is done.
abbrev pub IsAsked : Signals → Option Str → World → Result → Parsed → Ran → Type 0
IsAsked s env w failure st ran = ran ≡ usage
IsAsked s env w (index i) st ran =
    ((ran ≡ usage) × ((c : Choice) → ¬ IsAccepted s env st.selected (arguments_of st.vars) c))
    ⊎ ((c : Choice) × (IsAccepted s env st.selected (arguments_of st.vars) c × IsDone s w st c ran))

unnamed : (name : Option Str) → is_some name ≡ false → name ≡ none
unnamed none h = refl
unnamed (some s) h = absurd (cc)

named : (name : Option Str) → is_some name ≡ true → name ≡ some (string_of name)
named none h = absurd (cc)
named (some s) h = refl

-- A mode without a name has no command, and the one with a name has one.
mode_other :
    (list status killall utc name : Bool) (bs : List Bool)
    → IsMode list status killall utc name bs
    → (list ≡ true) ⊎ ((status ≡ true) ⊎ (killall ≡ true))
    → (name ≡ false) × NoneOf bs
unfolding IsMode
mode_other list status killall utc true bs (one, rest) h = absurd (ground (arith, one, h))
mode_other list status killall utc false bs (one, (none_given, rest)) h = (refl, none_given refl)

mode_name :
    (list status killall utc name : Bool) (bs : List Bool)
    → IsMode list status killall utc name bs
    → list ≡ false
    → status ≡ false
    → killall ≡ false
    → (name ≡ true) × OneOf bs
unfolding IsMode
mode_name list status killall utc true bs (one, (none_given, (given_one, rest))) l s k =
    (refl, given_one refl)
mode_name list status killall utc false bs (one, rest) l s k = absurd (ground (arith, one, l, s, k))

module _ (s : Signals) (env : Option Str) (w : World) where
  dispatch-IsDone :
      (st : Parsed) (c : Choice)
      → IsAccepted s env st.selected (arguments_of st.vars) c
      → IsDone s w st c (dispatch s env w st.selected (arguments_of st.vars) c)
  unfolding dispatch
  dispatch-IsDone st c a =
      let args : Arguments = arguments_of st.vars in
      let list : Bool = has st.selected cmd_list in
      let status : Bool = has st.selected cmd_status in
      let killall : Bool = has st.selected cmd_killall in
      let utc : Bool = has st.selected cmd_utc in
      let bs : List Bool = given st.selected in
      let other : (list ≡ true) ⊎ ((status ≡ true) ⊎ (killall ≡ true))
          → (args.name ≡ none) × NoneOf bs =
        λ h.
          let (no_name, no_command) =
            mode_other list status killall utc (is_some args.name) bs a.mode h in
          (unnamed args.name no_name, no_command) in
      if-ind (IsDone s w st c) status (λ h. (h, (a.utc, (refl, other (inr (inl h))))))
        (λ no_status.
          if-ind (IsDone s w st c) list (λ h. (h, (refl, other (inl h))))
            (λ no_list.
              if-ind (IsDone s w st c) killall (λ h. (h, (refl, other (inr (inr h)))))
                (λ no_killall.
                  let (has_name, one) =
                    mode_name list status killall utc (is_some args.name) bs a.mode no_list
                      no_status no_killall in
                  (refl, (named args.name has_name, one)))))

  if_parsed-IsAsked : (r : Result) (st : Parsed) → IsAsked s env w r st (if_parsed s env w (r, st))
  unfolding if_parsed if_accepted
  if_parsed-IsAsked failure st = refl
  if_parsed-IsAsked (index i) st =
      let args : Arguments = arguments_of st.vars in
      let iff = validate_cmdline_iff s env st.selected args in
      elim (Option-cases (validate_cmdline s env st.selected args)) [
        | inl refused ↦
            rw refused
              (inl (refl, λ c a. let no : none ≡ some c = sym refused ∙ (iff c).1 a in absurd (cc)))
        | inr (c, e) ↦
            let a : IsAccepted s env st.selected args c = (iff c).0 e in
            rw e (inr (c, (a, dispatch-IsDone st c a)))
      ]

  -- main prints the usage exactly for the command lines that validate_cmdline_iff does not accept, or
  -- that cannot be parsed. For the others it makes the walk that is asked for, with no name and no
  -- command, or the one command for the service that is named, with the signal and the priority of the
  -- command line.
  pub main-IsAsked :
      (argv : List Str)
      → IsAsked s env w (service_parse argv).0 (service_parse argv).1 (main s env w argv)
  unfolding main
  main-IsAsked argv = let r : Result × Parsed = service_parse argv in if_parsed-IsAsked r.0 r.1
