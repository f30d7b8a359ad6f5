-- ===== src/Tainlog/Main.antt =====
-- tainlog and main of srvctl/src/tainlog.c: the setup, and the loop with the files that it writes.
use mathlib.Core.Option
use ngim.Base.{
  ℕ, zero, suc, Bool, true, false, Option, none, some, List, [], ◌∷◌, ℤ, codes, if◌then◌else◌,
  length, bit_or,
}
use ngim.Cmdline.{string_of, Str, Param, Parsed, Result, failure, index, cmdline_parse}
use ngim.Create.{FileProt, Place, Calls, create_directory}
use ngim.Priv
use ngim.Priv.{Process, Host, dropped, failed, died, priv_drop, priv_none}
use ngim.Tai.{Tain}
use ngim.Tainlog.{Input, readline, read_stamp, format_tainlog}
use ngim.Tainlog.Files.{Log, Answers, open_tainlog, append_tainlog}
use ngim.Tainlog.Options.{
  cmd_help, cmd_keep, cmd_keepall, cmd_logdir, cmd_buffer, cmd_file, Arguments, Options,
  validate_cmdline,
}

abbrev pub cmd_user : ℕ
cmd_user = 16

abbrev pub cmd_group : ℕ
cmd_group = 32

abbrev pub arg_root : ℕ
arg_root = 0

abbrev pub arg_logdir : ℕ
arg_logdir = 1

abbrev pub arg_keep : ℕ
arg_keep = 2

abbrev pub arg_user : ℕ
arg_user = 3

abbrev pub arg_group : ℕ
arg_group = 4

abbrev pub arg_buffer : ℕ
arg_buffer = 5

abbrev pub arg_file : ℕ
arg_file = 6

abbrev pub param : Str → ℕ → Option ℕ → Param
param name cmd arg = record { name = name; cmd = cmd; arg = arg }

abbrev pub logger_params : List Param
logger_params =
    param (codes "--help") cmd_help none
    ∷ param (codes "-h") cmd_help none
    ∷ param (codes "--keep") cmd_keep (some arg_keep)
    ∷ param (codes "-k") cmd_keep (some arg_keep)
    ∷ param (codes "--keep-all") cmd_keepall none
    ∷ param (codes "-a") cmd_keepall none
    ∷ param (codes "--logdir") cmd_logdir (some arg_logdir)
    ∷ param (codes "-l") cmd_logdir (some arg_logdir)
    ∷ param (codes "--user") cmd_user (some arg_user)
    ∷ param (codes "-u") cmd_user (some arg_user)
    ∷ param (codes "--group") cmd_group (some arg_group)
    ∷ param (codes "-g") cmd_group (some arg_group)
    ∷ param (codes "--logsize") cmd_file (some arg_file)
    ∷ param (codes "-s") cmd_file (some arg_file)
    ∷ param (codes "--line-buffer") cmd_buffer (some arg_buffer)
    ∷ param (codes "-b") cmd_buffer (some arg_buffer)
    ∷ []

abbrev pub logger_args : List ℕ
logger_args = arg_root ∷ []

unfoldable pub logger_parse : List Str → Result × Parsed
unfolding cmdline_parse
logger_parse argv = cmdline_parse argv true logger_params (some logger_args) (λ _. none)

abbrev pub arguments_of : (ℕ → Option Str) → Arguments
arguments_of vars = record {
  root = vars arg_root;
  keep = string_of (vars arg_keep);
  logdir = string_of (vars arg_logdir);
  file = string_of (vars arg_file);
  buffer = string_of (vars arg_buffer);
}

-- A round of the loop, from format_tainlog on; nothing is appended if no line was read. The result has
-- `wrapped`.
unfoldable pub append_line : Answers → Options → Tain → Bool → List ℕ → Log → Option (Log × Bool)
unfolding format_tainlog append_tainlog
append_line a o stamp wrapped [] l = some (l, wrapped)
append_line a o stamp wrapped (c ∷ cs) l =
    let (buffer, wrapped') = format_tainlog stamp wrapped (c ∷ cs) in
    Option.map (λ l'. (l', wrapped')) (append_tainlog a o.filesize o.keepnum stamp buffer l)

-- The end of a round.
abbrev pub after_line : Option (Log × Bool) → (eof : Bool) → (Log → Bool → Option Log) → Option Log
after_line none eof next = none
after_line (some (l, wrapped)) eof next = if eof then some l else next l wrapped

-- The loop of tainlog, where the answers to the `i`-th line are `an i`; `none` means that the fuel ran
-- out.
unfoldable pub append_loop :
    ℕ → (ℕ → Answers) → Options → Tain → Bool → List Input → Log → Option Log
unfolding readline read_stamp append_line
append_loop zero an o stamp wrapped input l = none
append_loop (suc fuel) an o stamp wrapped input l =
    let r = readline o.bufsize input in
    let stamp' = read_stamp stamp input in
    after_line (append_line (an fuel) o stamp' wrapped r.line l) r.eof
      (λ l' wrapped'. append_loop fuel an o stamp' wrapped' r.left l')

-- FPROT_DIR_TAINLOG
abbrev pub fprot_dir_tainlog : FileProt → ℕ
fprot_dir_tainlog b =
    bit_or b.uread (bit_or b.uwrite (bit_or b.uexecute (bit_or b.gread b.gexecute)))

-- What the setup finds: the databases of users, the calls for the log directory, and the files in it.
pub record World : Type 0 where
  pub host : Host
  pub process : Process
  pub can_chdir : Bool
  pub memory : Bool
  pub has_pool : Bool
  pub bits : FileProt
  pub logdir : Calls
  pub place : Place
  pub can_enter : Bool
  pub opening : Answers
  pub appending : ℕ → Answers
  pub log : Log

-- The program ended before the loop, or the loop came to its end with these files and credentials.
pub data Ending : Type 0 where
  stopped : Ending
  ended : Process → Option Log → Ending

module _ (w : World) (o : Options) (stamp : Tain) (input : List Input) where
  -- setup_tainlog, which leaves the permissions of an existing directory, and the loop, with
  -- `stamp` what the variable holds at first.
  unfoldable pub log_input : Process → Ending
  unfolding append_loop open_tainlog create_directory
  log_input p =
      let (place, made) = create_directory w.logdir (fprot_dir_tainlog w.bits) false w.place in
      let run =
        append_loop (suc (length input)) w.appending o stamp false input
          (open_tainlog w.opening w.log) in
      if made then if w.can_enter then ended p run else stopped else stopped

  -- tainlog, after the privileges were dropped.
  unfoldable pub tainlog_dropped : Process → Ending
  unfolding log_input
  tainlog_dropped p =
      if w.can_chdir
      then if w.memory then if w.has_pool then log_input p else stopped else stopped
      else stopped

  unfoldable pub if_dropped : Priv.Result → Ending
  unfolding tainlog_dropped
  if_dropped (dropped p) = tainlog_dropped p
  if_dropped (failed p) = stopped
  if_dropped (died p) = stopped

  -- tainlog
  unfoldable pub tainlog : (user group : Option Str) → Ending
  unfolding if_dropped priv_drop
  tainlog user group = if_dropped (priv_drop w.host priv_none user group w.process)

module _ (atoi : Str → ℤ) (w : World) (stamp : Tain) (input : List Input) where
  unfoldable pub if_valid : Parsed → Option Options → Ending
  unfolding tainlog
  if_valid st none = stopped
  if_valid st (some o) = tainlog w o stamp input (st.vars arg_user) (st.vars arg_group)

  unfoldable pub if_parsed : Result × Parsed → Ending
  unfolding if_valid validate_cmdline
  if_parsed (failure, st) = stopped
  if_parsed (index i, st) = if_valid st (validate_cmdline atoi st.selected (arguments_of st.vars))

  -- main
  unfoldable pub main : List Str → Ending
  unfolding if_parsed logger_parse
  main argv = if_parsed (logger_parse argv)
