-- ===== src/Limiter/Main.antt =====
-- main of srvctl/src/limiter.c, from its command line up to execvp.
use ngim.Base.{ℕ, zero, suc, false, Option, none, some, List, [], ◌∷◌, drop, if◌then◌else◌}
use ngim.Cmdline.{Str, string_of, Parsed, Result, failure, index, cmdline_parse}
use ngim.Limiter.{Arguments, Confinement, System, validate_cmdline, confine}
use ngim.Limiter.Params.{
  Config, arg_chroot, arg_jail, arg_jail_host, arg_jail_ip, arg_limit_mem, arg_priority,
  arg_priv_group, arg_priv_user, arg_rlims, limiter_params, limiter_args,
}
use ngim.Limiter.Usage.{usage_message}

unfoldable pub limiter_parse : Config → List Str → Result × Parsed
unfolding cmdline_parse
limiter_parse config argv =
    cmdline_parse argv false (limiter_params config) (some limiter_args) (λ _. none)

-- The variables as the functions read them.
abbrev pub arguments_of : (ℕ → Option Str) → Arguments
arguments_of vars = record {
  chroot = string_of (vars arg_chroot);
  jail = string_of (vars arg_jail);
  jail_host = string_of (vars arg_jail_host);
  jail_ip = string_of (vars arg_jail_ip);
  limit_mem = string_of (vars arg_limit_mem);
  priority = string_of (vars arg_priority);
  priv_group = vars arg_priv_group;
  priv_user = vars arg_priv_user;
  rlims = λ r. vars (arg_rlims r);
}

-- The limiter ended with its usage message or with another one, or it called execvp with these
-- strings and attributes.
pub data Ran : Type 0 where
  usage : Str → Ran
  died : Ran
  executed : List Str → Confinement → Ran

-- Without argv[0], an assertion fails.
unfoldable pub die_usage : Config → List Str → Ran
unfolding limiter_params usage_message
die_usage config [] = died
die_usage config (argv0 ∷ argv) = usage (usage_message argv0 (limiter_params config))

abbrev pub execute : List Str → Option Confinement → Ran
execute program none = died
execute program (some c) = executed program c

module _ (config : Config) (s : System) (c : Confinement) where
  unfoldable pub if_parsed : List Str → Result × Parsed → Ran
  unfolding die_usage validate_cmdline confine
  if_parsed argv (failure, st) = die_usage config argv
  if_parsed argv (index zero, st) = die_usage config argv
  if_parsed argv (index (suc i), st) =
      if validate_cmdline st.selected
      then execute (drop (suc i) argv) (confine s st.selected (arguments_of st.vars) c)
      else die_usage config argv

  -- main, after ngim_base_app_init.
  unfoldable pub main : List Str → Ran
  unfolding if_parsed limiter_parse
  main argv = if_parsed argv (limiter_parse config argv)
