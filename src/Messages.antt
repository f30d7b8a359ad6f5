-- ===== src/Messages.antt =====
-- libbase/lib/error.c: messages to standard error, and what init.c does at the exit of the program.
-- The state is that of the static variables of both files, with what was printed; a write to
-- standard error prints all of it. Error levels are not negative, as the macros of base.h are.
pub mod Startup
pub mod Lines
pub mod Started
pub mod Printed
mod Examples
use ngim.Base.{
  ℕ, ◌++◌, Bool, true, false, Option, none, some, ◌||◌, ltb, ◌==◌, codes, if◌then◌else◌,
}
use ngim.Cmdline.{Str, is_some}

abbrev pub verbose : ℕ
verbose = 0

abbrev pub info : ℕ
info = 1

abbrev pub warning : ℕ
warning = 2

abbrev pub fatal : ℕ
fatal = 3

abbrev pub exit_failure : ℕ
exit_failure = 1

-- The static variables of error.c and the global ones of init.c, where `apr` is whether APR is
-- initialized and `cleans_up` whether cleanup is to be called at the exit.
pub record Program : Type 0 where
  pub progname : Option Str
  pub error_level : ℕ
  pub apr : Bool
  pub g_pool : Bool
  pub g_apr_stdin : Bool
  pub g_apr_stdout : Bool
  pub g_apr_stderr : Bool
  pub cleans_up : Bool
  pub printed : Str

-- The program goes on, or has ended with an exit status.
pub data Outcome : Type 0 where
  returned : Program → Outcome
  exited : ℕ → Program → Outcome

abbrev pub set_progname : Option Str → Program → Program
set_progname name p = record p { progname = name }

abbrev pub strlevel : ℕ → Str
strlevel level =
    if level == fatal
    then codes "fatal"
    else if level == warning
    then codes "warning"
    else if level == info
    then codes "information"
    else if level == verbose
    then codes "debug"
    else codes "unknown"

-- ngim_seterrorlevel
unfoldable pub set_error_level : ℕ → Program → Program
set_error_level level p = record p { error_level = if ltb level fatal then level else fatal }

-- apr_file_puts to standard error.
abbrev pub puts : Str → Program → Program
puts s p = record p { printed = p.printed ++ s }

-- `if (s) apr_file_puts(s, g_apr_stderr)`
abbrev pub puts_part : Option Str → Program → Program
puts_part none p = p
puts_part (some s) p = puts s p

abbrev pub puts_progname : Option Str → Program → Program
puts_progname none p = p
puts_progname (some name) p = puts (codes ": ") (puts name p)

unfoldable pub error6 : ℕ → (s1 s2 s3 s4 s5 s6 : Option Str) → Program → Program
error6 level s1 s2 s3 s4 s5 s6 p =
    let p1 = puts_progname p.progname (puts (codes ": ") (puts (strlevel level) p)) in
    let p2 = puts_part s3 (puts_part s2 (puts_part s1 p1)) in
    let p3 = puts_part s6 (puts_part s5 (puts_part s4 p2)) in
    if ltb level p.error_level then p else if p.g_apr_stderr then puts (codes "\n") p3 else p

-- `text` is what apr_strerror stores in the buffer, and `none` is that it returns NULL.
unfoldable pub aprerror4 : ℕ → (text s1 s2 s3 s4 : Option Str) → Program → Program
unfolding error6
aprerror4 level none s1 s2 s3 s4 p = error6 level s1 s2 s3 s4 none none p
aprerror4 level (some text) s1 s2 s3 s4 p =
    let given = is_some s1 || is_some s2 || is_some s3 || is_some s4 in
    error6 level s1 s2 s3 s4 (if given then some (codes ": ") else none) (some text) p

-- cleanup of init.c
abbrev pub cleanup : Program → Program
cleanup p = record p {
  progname = none;
  g_apr_stderr = false;
  g_apr_stdout = false;
  g_apr_stdin = false;
  g_pool = false;
  apr = false;
}

-- exit, which calls what atexit was given.
unfoldable pub exit : ℕ → Program → Outcome
exit code p = exited code (if p.cleans_up then cleanup p else p)

unfoldable pub die_error6 : (s1 s2 s3 s4 s5 s6 : Option Str) → Program → Outcome
unfolding error6 exit
die_error6 s1 s2 s3 s4 s5 s6 p = exit exit_failure (error6 fatal s1 s2 s3 s4 s5 s6 p)

unfoldable pub die_aprerror4 : (text s1 s2 s3 s4 : Option Str) → Program → Outcome
unfolding aprerror4 exit
die_aprerror4 text s1 s2 s3 s4 p = exit exit_failure (aprerror4 fatal text s1 s2 s3 s4 p)

-- apr_exit_why_e, by the bits that the macros of APR test.
pub record ExitWhy : Type 0 where
  pub check_exit : Bool
  pub check_signaled : Bool
  pub check_core_dump : Bool

unfoldable pub strexitwhy : ExitWhy → Str
strexitwhy reason =
    if reason.check_exit
    then codes "normally"
    else if reason.check_signaled
    then if reason.check_core_dump
      then codes "due to a signal (core dumped)"
      else codes "due to a signal"
    else codes "for unknown reason"
