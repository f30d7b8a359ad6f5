-- ===== src/Srvctl/Main.antt =====
-- main of srvctl/src/srvctl.c: the tables of the command line, and the choice of the command.
use ngim.Base.{ℕ, Bool, true, Option, none, some, List, [], ◌∷◌, has, codes, if◌then◌else◌}
use ngim.Cmdline.{string_of, Str, Param, Parsed, Result, failure, index, cmdline_parse}
use ngim.Tai.{Tain}
use ngim.Srvctl.Action.{command_action}
use ngim.Srvctl.Files.{Files, Answers, Outcome, Pipe}
use ngim.Srvctl.Options.{
  cmd_help, cmd_base, cmd_down, cmd_kill, cmd_killall, cmd_list, cmd_priority, cmd_restart,
  cmd_signal, cmd_sigterm, cmd_start, cmd_status, cmd_stop, cmd_term, cmd_up, cmd_utc, Signals,
  Arguments, Choice, validate_cmdline,
}
use ngim.Srvctl.Walks.{
  Entry, ListRow, Walk, command_list, Active, StatusRow, command_status, Target, Told,
  command_killall,
}

abbrev pub cmd_name : ℕ
cmd_name = 64

abbrev pub arg_base : ℕ
arg_base = 0

abbrev pub arg_name : ℕ
arg_name = 1

abbrev pub arg_priority : ℕ
arg_priority = 2

abbrev pub arg_sign : ℕ
arg_sign = 3

abbrev pub param : Str → ℕ → Option ℕ → Param
param name cmd arg = record { name = name; cmd = cmd; arg = arg }

abbrev pub service_params : List Param
service_params =
    param (codes "--help") cmd_help none
    ∷ param (codes "-h") cmd_help none
    ∷ param (codes "--base") cmd_base (some arg_base)
    ∷ param (codes "--down") cmd_down none
    ∷ param (codes "--kill-all") cmd_killall none
    ∷ param (codes "--kill") cmd_kill none
    ∷ param (codes "--list") cmd_list none
    ∷ param (codes "--name") cmd_name (some arg_name)
    ∷ param (codes "--priority") cmd_priority (some arg_priority)
    ∷ param (codes "--restart") cmd_restart none
    ∷ param (codes "--signal") cmd_signal (some arg_sign)
    ∷ param (codes "--sigterm") cmd_sigterm (some arg_sign)
    ∷ param (codes "--start") cmd_start none
    ∷ param (codes "--status") cmd_status none
    ∷ param (codes "--stop") cmd_stop none
    ∷ param (codes "--term") cmd_term none
    ∷ param (codes "--up") cmd_up none
    ∷ param (codes "--utc") cmd_utc none
    ∷ []

abbrev pub service_args : List ℕ
service_args = arg_name ∷ []

unfoldable pub service_parse : List Str → Result × Parsed
unfolding cmdline_parse
service_parse argv = cmdline_parse argv true service_params (some service_args) (λ _. none)

-- The variables that validate_cmdline reads.
abbrev pub arguments_of : (ℕ → Option Str) → Arguments
arguments_of vars = record {
  base = string_of (vars arg_base);
  sign = string_of (vars arg_sign);
  name = vars arg_name;
  priority = string_of (vars arg_priority);
}

-- What the commands find: the directories, and for one service its files with the answers of the
-- system.
pub record World : Type 0 where
  pub all : Option (List Entry)
  pub statuses : Option (List Active)
  pub targets : Option (List Target)
  pub controls : Str → Pipe
  pub answers : ℕ → Answers
  pub files : Str → Files
  pub now : ℕ → Tain
  pub old : Tain
  pub load : List ℕ → ℕ

pub data Ran : Type 0 where
  usage : Ran
  showed_status : (utc : Bool) → Walk StatusRow → Ran
  listed : Walk ListRow → Ran
  killed : Told → Ran
  acted : Str → Outcome → Ran

module _ (s : Signals) (env : Option Str) (w : World) where
  -- The choice of the command.
  unfoldable pub dispatch : ℕ → Arguments → Choice → Ran
  unfolding command_status command_list command_killall command_action
  dispatch selected args c =
      let name = string_of args.name in
      if has selected cmd_status
      then showed_status c.utc (command_status w.load w.now w.old w.statuses)
      else if has selected cmd_list
      then listed (command_list w.all)
      else if has selected cmd_killall
      then killed (command_killall w.controls w.targets)
      else acted name
          (command_action w.answers s.sigterm selected c.signum name args.priority (w.files name))

  unfoldable pub if_accepted : ℕ → Arguments → Option Choice → Ran
  unfolding dispatch
  if_accepted selected args none = usage
  if_accepted selected args (some c) = dispatch selected args c

  unfoldable pub if_parsed : Result × Parsed → Ran
  unfolding if_accepted validate_cmdline
  if_parsed (failure, st) = usage
  if_parsed (index i, st) =
      let args = arguments_of st.vars in
      if_accepted st.selected args (validate_cmdline s env st.selected args)

  -- main
  unfoldable pub main : List Str → Ran
  unfolding if_parsed service_parse
  main argv = if_parsed (service_parse argv)
