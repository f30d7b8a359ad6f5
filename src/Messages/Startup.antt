-- ===== src/Messages/Startup.antt =====
-- libbase/lib/init.c: the start of a program, and forking. The calls of APR are answers.
use ngim.Base.{ℕ, true, false, Option, none, some, codes, if◌then◌else◌}
use ngim.Cmdline.{Str, str_eq}
use ngim.Messages.{
  Program, Outcome, returned, exited, verbose, info, warning, fatal, set_progname, set_error_level,
  error6, die_aprerror4, cleanup,
}

-- What a call returns, a failure with what apr_strerror has to say of it.
pub data Status : Type 0 where
  success : Status
  failure : (text : Option Str) → Status

-- What the calls of the start answer; `env` is the value of NGIM_ERROR_LEVEL.
pub record Answers : Type 0 where
  pub apr_init : Status
  pub pool : Status
  pub open_stderr : Status
  pub open_stdout : Status
  pub open_stdin : Status
  pub atexit : Status
  pub env : Option Str

-- The static variables before the start.
abbrev pub unstarted : Program
unstarted = record {
  progname = none;
  error_level = info;
  apr = false;
  g_pool = false;
  g_apr_stdin = false;
  g_apr_stdout = false;
  g_apr_stderr = false;
  cleans_up = false;
  printed = codes "";
}

unfoldable pub warn_error1 : Str → Program → Program
unfolding error6
warn_error1 s p = error6 warning (some s) none none none none none p

unfoldable pub die_aprerror1 : (text : Option Str) → Str → Program → Outcome
unfolding die_aprerror4
die_aprerror1 text s p = die_aprerror4 text (some s) none none none p

abbrev pub invalid_value : Str
invalid_value = codes "invalid value for environment variable NGIM_ERROR_LEVEL"

-- seterrorlevel
unfoldable pub level_from_env : Option Str → Program → Program
unfolding set_error_level warn_error1
level_from_env none p = p
level_from_env (some value) p =
    if str_eq value (codes "verbose")
    then set_error_level verbose p
    else if str_eq value (codes "info")
    then set_error_level info p
    else if str_eq value (codes "warning")
    then set_error_level warning p
    else if str_eq value (codes "fatal")
    then set_error_level fatal p
    else warn_error1 invalid_value p

abbrev pub and_then : Outcome → (Program → Outcome) → Outcome
and_then (returned p) next = next p
and_then (exited code p) next = exited code p

-- `if (APR_FAIL(status, ...)) die_aprerror1(status, message)`, where `done` is what success changes.
unfoldable pub or_die : Status → Str → (done : Program → Program) → Program → Outcome
unfolding die_aprerror1
or_die success message done p = returned (done p)
or_die (failure text) message done p = die_aprerror1 text message p

-- "Cleanup at exit"
unfoldable pub register_cleanup : Status → Program → Outcome
unfolding die_aprerror1
register_cleanup success p = returned (record p { cleans_up = true })
register_cleanup (failure text) p = die_aprerror1 text (codes "atexit failed") (cleanup p)

abbrev pub no_stdio : Str
no_stdio = codes "failed to open standard I/O"

unfoldable pub init : Answers → Program → Outcome
unfolding or_die register_cleanup level_from_env
init a p =
    and_then
      (or_die a.pool (codes "failed to create the global memory pool")
        (λ p. record p { g_pool = true }) p)
      λ p. and_then (or_die a.open_stderr no_stdio (λ p. record p { g_apr_stderr = true }) p) λ p.
        and_then (or_die a.open_stdout no_stdio (λ p. record p { g_apr_stdout = true }) p) λ p.
          and_then (or_die a.open_stdin no_stdio (λ p. record p { g_apr_stdin = true }) p)
            λ p. and_then (register_cleanup a.atexit p) λ p. returned (level_from_env a.env p)

abbrev pub no_apr : Str
no_apr = codes "failed to initialize APR"

unfoldable pub base_init : Answers → Program → Outcome
unfolding or_die init
base_init a p = and_then (or_die a.apr_init no_apr (λ p. record p { apr = true }) p) (λ p. init a p)

unfoldable pub base_app_init : (name : Option Str) → Answers → Program → Outcome
unfolding or_die init
base_app_init name a p =
    and_then (or_die a.apr_init no_apr (λ p. record p { apr = true }) p)
      (λ p. init a (set_progname name p))

-- What apr_proc_fork answers.
pub data Forked : Type 0 where
  in_parent : (pid : ℕ) → Forked
  in_child : Forked
  not_forked : Forked

-- The return value with the outcome; `none` is -1.
unfoldable pub base_fork : Forked → (again : Status) → Program → Option ℕ × Outcome
unfolding or_die
base_fork (in_parent pid) again p = (some pid, returned p)
base_fork in_child again p = (
  some 0,
  or_die again (codes "failed to initialize APR after fork") (λ p. record p { apr = true }) p,
)
base_fork not_forked again p = (none, returned p)
