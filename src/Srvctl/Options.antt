-- ===== src/Srvctl/Options.antt =====
-- validate_cmdline of srvctl/src/srvctl.c. The numbers of the signals are a parameter.
use ngim.Base.{
  ℕ, ◌+◌, Bool, true, false, Option, none, some, List, [], ◌∷◌, ◌&&◌, ◌||◌, not, has, ltb, ◌==◌,
  length, if◌then◌else◌,
}
use ngim.Cmdline.{Str, str_eq, is_some}

abbrev pub priority_maxlen : ℕ
priority_maxlen = 512

abbrev pub cmd_help : ℕ
cmd_help = 1

abbrev pub cmd_base : ℕ
cmd_base = 2

abbrev pub cmd_down : ℕ
cmd_down = 4

abbrev pub cmd_kill : ℕ
cmd_kill = 8

abbrev pub cmd_killall : ℕ
cmd_killall = 16

abbrev pub cmd_list : ℕ
cmd_list = 32

abbrev pub cmd_priority : ℕ
cmd_priority = 128

abbrev pub cmd_restart : ℕ
cmd_restart = 256

abbrev pub cmd_signal : ℕ
cmd_signal = 512

abbrev pub cmd_sigterm : ℕ
cmd_sigterm = 1024

abbrev pub cmd_start : ℕ
cmd_start = 2048

abbrev pub cmd_status : ℕ
cmd_status = 4096

abbrev pub cmd_stop : ℕ
cmd_stop = 8192

abbrev pub cmd_term : ℕ
cmd_term = 16384

abbrev pub cmd_up : ℕ
cmd_up = 32768

abbrev pub cmd_utc : ℕ
cmd_utc = 65536

-- DIR_BASE
abbrev pub dir_base : Str
dir_base = b'/' ∷ b's' ∷ b'e' ∷ b'r' ∷ b'v' ∷ b'i' ∷ b'c' ∷ b'e' ∷ b's' ∷ []

-- The numbers that signal.h gives the signals of the table service_signals.
pub record Signals : Type 0 where
  pub sigalrm : ℕ
  pub sigcont : ℕ
  pub sighup : ℕ
  pub sigstop : ℕ
  pub sigterm : ℕ
  pub sigusr1 : ℕ
  pub sigusr2 : ℕ
  pub sigwinch : ℕ

-- service_signals, without its last entry.
abbrev pub service_signals : Signals → List (Str × ℕ)
service_signals s =
    (b'A' ∷ b'L' ∷ b'R' ∷ b'M' ∷ [], s.sigalrm)
    ∷ (b'C' ∷ b'O' ∷ b'N' ∷ b'T' ∷ [], s.sigcont)
    ∷ (b'H' ∷ b'U' ∷ b'P' ∷ [], s.sighup)
    ∷ (b'S' ∷ b'T' ∷ b'O' ∷ b'P' ∷ [], s.sigstop)
    ∷ (b'T' ∷ b'E' ∷ b'R' ∷ b'M' ∷ [], s.sigterm)
    ∷ (b'U' ∷ b'S' ∷ b'R' ∷ b'1' ∷ [], s.sigusr1)
    ∷ (b'U' ∷ b'S' ∷ b'R' ∷ b'2' ∷ [], s.sigusr2)
    ∷ (b'W' ∷ b'I' ∷ b'N' ∷ b'C' ∷ b'H' ∷ [], s.sigwinch)
    ∷ []

-- The loop of service_signal_byname; `none` is -1.
unfoldable pub signal_byname : Str → List (Str × ℕ) → Option ℕ
signal_byname name [] = none
signal_byname name ((n, signum) ∷ signals) =
    let rest = signal_byname name signals in if str_eq name n then some signum else rest

-- The variables that ngim_cmdline_parse wrote. One whose parameter was given is set.
pub record Arguments : Type 0 where
  pub base : Str
  pub sign : Str
  pub name : Option Str
  pub priority : Str

-- What validate_cmdline leaves; `utc` is the choice of `arg_func_format`.
pub record Choice : Type 0 where
  pub base : Str
  pub signum : ℕ
  pub utc : Bool

-- The loop over `arg_priority`.
unfoldable pub all_digits : Str → Bool
all_digits [] = true
all_digits (c ∷ s) = let rest = all_digits s in if ltb c b'0' || ltb b'9' c then false else rest

-- The test of `arg_priority`.
unfoldable pub valid_priority : Str → Bool
unfolding all_digits
valid_priority s = if ltb priority_maxlen (length s) then false else all_digits s

-- What a test adds to `commands`.
abbrev pub one_if : Bool → ℕ
one_if b = if b then 1 else 0

abbrev pub signals : ℕ → Bool
signals selected = has selected cmd_signal || has selected cmd_sigterm

-- "Count the number of commands".
unfoldable pub commands : ℕ → ℕ
commands selected =
    one_if (has selected cmd_priority)
    + (one_if (has selected cmd_up)
        + (one_if (has selected cmd_down)
            + (one_if (has selected cmd_restart)
                + (one_if (signals selected)
                    + (one_if (has selected cmd_start)
                        + (one_if (has selected cmd_stop)
                            + (one_if (has selected cmd_term)
                                + one_if (has selected cmd_kill))))))))

-- "Must have either list, status, killall, or name": the tests after the commands were counted.
unfoldable pub valid_mode : (list status killall utc name : Bool) → ℕ → Bool
valid_mode list status killall utc name n =
    if (list && name)
      || ((status && name)
          || ((killall && name)
              || ((status && list)
                  || ((list && killall) || ((killall && status) || (utc && not status))))))
    then false
    else if status
    then not (ltb 0 n)
    else if killall || list
    then not (ltb 0 n)
    else if name
    then (if ltb 1 n then false else if n == 0 then false else true)
    else false

module _ (s : Signals) (env : Option Str) where
  -- "Base is optional": `env` is the variable ENV_SRVCTL_BASE of the environment.
  unfoldable pub base_of : ℕ → Arguments → Str
  base_of selected args =
      if has selected cmd_base then args.base else elim env [ none ↦ dir_base | some b ↦ b ]

  -- "Signal name"; `none` is an unknown one. `arg_signum` is 0 at first.
  unfoldable pub signum_of : ℕ → Arguments → Option ℕ
  unfolding signal_byname
  signum_of selected args =
      if signals selected then signal_byname args.sign (service_signals s) else some 0

  -- From the check of the modes on.
  unfoldable pub check_mode : ℕ → Arguments → Option ℕ → Option Choice
  unfolding valid_mode commands base_of
  check_mode selected args none = none
  check_mode selected args (some signum) =
      if valid_mode (has selected cmd_list) (has selected cmd_status) (has selected cmd_killall)
        (has selected cmd_utc) (is_some args.name) (commands selected)
      then some
          (record { base = base_of selected args; signum = signum; utc = has selected cmd_utc })
      else none

  -- validate_cmdline; `none` is a negative return value.
  unfoldable pub validate_cmdline : ℕ → Arguments → Option Choice
  unfolding valid_priority check_mode signum_of
  validate_cmdline selected args =
      if has selected cmd_help
      then none
      else if has selected cmd_priority && not (valid_priority args.priority)
      then none
      else check_mode selected args (signum_of selected args)
