-- ===== src/Taiconv/Main.antt =====
-- The command line and main of srvctl/src/taiconv.c.
use ngim.Base.{ℕ, Bool, true, Option, none, some, List, [], ◌∷◌, ◌&&◌, has, if◌then◌else◌}
use ngim.Cmdline.{Str, Param, Parsed, Result, failure, index, cmdline_parse}
use ngim.Priv.{Process, Host, dropped, failed, died, priv_none, priv_drop}
use ngim.Priv
use ngim.Tai.Apr.{AprTime}
use ngim.Taiconv.{Clock}
use ngim.Taiconv.Read.{convert_read_all, convert_read_nrm}
use ngim.Taiconv.Mmap.{convert_mmap_all, convert_mmap_nrm}

abbrev pub cmd_help : ℕ
cmd_help = 1

abbrev pub cmd_local : ℕ
cmd_local = 2

abbrev pub cmd_utc : ℕ
cmd_utc = 4

abbrev pub cmd_all : ℕ
cmd_all = 8

-- The number of the variable `arg_file`.
abbrev pub arg_file : ℕ
arg_file = 0

abbrev flag : Str → ℕ → Param
flag name cmd = record { name = name; cmd = cmd; arg = none }

-- "--local-time" and the other long names.
abbrev local_time : Str
local_time = b'-' ∷ b'-' ∷ b'l' ∷ b'o' ∷ b'c' ∷ b'a' ∷ b'l' ∷ b'-' ∷ b't' ∷ b'i' ∷ b'm' ∷ b'e' ∷ []

abbrev pub taiconv_params : List Param
taiconv_params =
    flag (b'-' ∷ b'-' ∷ b'h' ∷ b'e' ∷ b'l' ∷ b'p' ∷ []) cmd_help
    ∷ flag (b'-' ∷ b'h' ∷ []) cmd_help
    ∷ flag local_time cmd_local
    ∷ flag (b'-' ∷ b'l' ∷ []) cmd_local
    ∷ flag (b'-' ∷ b'-' ∷ b'u' ∷ b't' ∷ b'c' ∷ []) cmd_utc
    ∷ flag (b'-' ∷ b'u' ∷ []) cmd_utc
    ∷ flag (b'-' ∷ b'-' ∷ b'a' ∷ b'l' ∷ b'l' ∷ []) cmd_all
    ∷ flag (b'-' ∷ b'a' ∷ []) cmd_all
    ∷ []

abbrev pub taiconv_args : List ℕ
taiconv_args = arg_file ∷ []

-- The call of ngim_cmdline_parse, while `arg_file` is NULL.
unfoldable pub taiconv_parse : List Str → Result × Parsed
taiconv_parse argv = cmdline_parse argv true taiconv_params (some taiconv_args) (λ _. none)

-- What validate_cmdline leaves in `arg_func_format` and `arg_all`.
pub record Choice : Type 0 where
  pub utc : Bool
  pub all : Bool

-- validate_cmdline: `none` is a negative return value.
unfoldable pub validate_cmdline : ℕ → Option Choice
validate_cmdline selected =
    if has selected cmd_help
    then none
    else if has selected cmd_local && has selected cmd_utc
    then none
    else some (record { utc = has selected cmd_utc; all = has selected cmd_all })

-- APR's times and the two formats of libbase/lib/iso8601.c, which read APR's calendar.
pub record Formats : Type 1 where
  pub apr : AprTime
  pub utc_format : AprTime.Time apr → List ℕ
  pub local_format : AprTime.Time apr → List ℕ

abbrev pub clock_for : Formats → Choice → Clock
clock_for f choice = record {
  apr = f.apr;
  format = if choice.utc then f.utc_format else f.local_format;
}

-- An input: its bytes, whether each of the two functions can open it, and whether its size can be
-- read and it can be mapped to memory.
pub record Source : Type 0 where
  pub content : List ℕ
  pub mmap_opens : Bool
  pub read_opens : Bool
  pub mapped : Bool

pub record World : Type 0 where
  pub stdin : Source
  pub files : Str → Source
  pub host : Host
  pub process : Process

abbrev pub source_of : World → Option Str → Source
source_of w none = w.stdin
source_of w (some name) = w.files name

-- How the program ends: with its usage, without its input, while it drops its privileges, by an
-- assertion, or after it printed the bytes with these credentials.
pub data Outcome : Type 0 where
  usage unopened unprivileged aborted : Outcome
  printed : List ℕ → Process → Outcome

-- Standard input is open.
abbrev pub opens : Option Str → Bool → Bool
opens none can = true
opens (some name) can = can

unfoldable pub finish : Option (List ℕ) → Process → Outcome
finish none p = aborted
finish (some out) p = printed out p

-- "Drop unneeded privileges", and the conversion, also where they could not be dropped.
unfoldable pub if_dropped : Option (List ℕ) → Priv.Result → Outcome
unfolding finish
if_dropped converted (dropped p) = finish converted p
if_dropped converted (failed p) = finish converted p
if_dropped converted (died p) = unprivileged

module _ (clock : Clock) (all : Bool) (w : World) where
  unfoldable pub unprivileged_run : Option (List ℕ) → Outcome
  unfolding if_dropped priv_drop
  unprivileged_run converted = if_dropped converted (priv_drop w.host priv_none none none w.process)

  abbrev pub mmap_converted : List ℕ → Option (List ℕ)
  mmap_converted s = if all then convert_mmap_all clock s else convert_mmap_nrm clock s

  abbrev pub read_converted : List ℕ → Option (List ℕ)
  read_converted s = if all then convert_read_all clock s else convert_read_nrm clock s

  -- convert_mmap: `none` is the return value 0.
  unfoldable pub convert_mmap : Option Str → Option Outcome
  unfolding unprivileged_run
  convert_mmap file =
      let source = source_of w file in
      if opens file source.mmap_opens
      then if source.mapped then some (unprivileged_run (mmap_converted source.content)) else none
      else some unopened

  unfoldable pub convert_read : Option Str → Outcome
  unfolding unprivileged_run
  convert_read file =
      let source = source_of w file in
      if opens file source.read_opens
      then unprivileged_run (read_converted source.content)
      else unopened

  unfoldable pub or_read : Option Str → Option Outcome → Outcome
  unfolding convert_read
  or_read file none = convert_read file
  or_read file (some outcome) = outcome

unfoldable pub main_valid : Formats → World → Option Str → Option Choice → Outcome
unfolding or_read convert_mmap
main_valid f w file none = usage
main_valid f w file (some choice) =
    let clock = clock_for f choice in
    or_read clock choice.all w file (convert_mmap clock choice.all w file)

unfoldable pub main_parsed : Formats → World → Result × Parsed → Outcome
unfolding main_valid validate_cmdline
main_parsed f w (failure, parsed) = usage
main_parsed f w (index i, parsed) =
    main_valid f w (parsed.vars arg_file) (validate_cmdline parsed.selected)

-- main
unfoldable pub main : Formats → World → List Str → Outcome
unfolding main_parsed taiconv_parse
main f w argv = main_parsed f w (taiconv_parse argv)
