-- ===== src/Messages/Examples.antt =====
-- Starts of a program, and what it prints afterwards.
use ngim.Base.{◌≡◌, refl, true, false, Option, none, some, [], ◌∷◌, codes}
use ngim.Cmdline.{Str, str_eq}
use ngim.Messages.{
  Program, returned, exited, warning, info, verbose, fatal, error6, exit_failure, die_error6,
}
use ngim.Messages.Startup.{
  success, failure, Answers, unstarted, level_from_env, register_cleanup, base_app_init,
}
use ngim.Messages.Printed.{set_error_levels, base_app_init-error6, base_app_init-die_error6}

-- NGIM_ERROR_LEVEL is fatal.
abbrev quiet : Answers
quiet = record {
  apr_init = success;
  pool = success;
  open_stderr = success;
  open_stdout = success;
  open_stdin = success;
  atexit = success;
  env = some (codes "fatal");
}

abbrev scanner_name : Option Str
scanner_name = some (codes "scanner")

abbrev quiet_program : Program
quiet_program = record {
  progname = scanner_name;
  error_level = fatal;
  apr = true;
  g_pool = true;
  g_apr_stdin = true;
  g_apr_stdout = true;
  g_apr_stderr = true;
  cleans_up = true;
  printed = [];
}

quiet_start : base_app_init scanner_name quiet unstarted ≡ returned quiet_program
unfolding base_app_init str_eq
quiet_start = refl

abbrev no_memory : Option Str
no_memory = some (codes "out of memory")

base_app_init-error6_example :
    (error6 warning no_memory none none none none none quiet_program).printed ≡ []
unfolding str_eq
base_app_init-error6_example =
    base_app_init-error6 scanner_name quiet quiet_program quiet_start no_memory none none none none
      none warning

base_app_init-die_error6_example :
    (q : Program) × ((die_error6 no_memory none none none none none
          (set_error_levels (4 ∷ verbose ∷ 7 ∷ []) quiet_program)
        ≡ exited exit_failure q)
      × (q.printed ≡ codes "fatal: scanner: out of memory\n"))
unfolding str_eq
base_app_init-die_error6_example =
    base_app_init-die_error6 scanner_name quiet quiet_program quiet_start no_memory none none none
      none none (4 ∷ verbose ∷ 7 ∷ [])

-- A value that names no level is reported, and the level stays.
abbrev unset : Program
unset = record quiet_program { error_level = info }

unknown_level :
    (level_from_env (some (codes "debug")) unset).printed
    ≡ codes "warning: scanner: invalid value for environment variable NGIM_ERROR_LEVEL\n"
unfolding level_from_env str_eq
unknown_level = refl

-- A failure of atexit closes standard error before its message, which is lost.
abbrev unregistered : Program
unregistered = record unset { cleans_up = false }

abbrev cleaned_up : Program
cleaned_up = record {
  progname = none;
  error_level = info;
  apr = false;
  g_pool = false;
  g_apr_stdin = false;
  g_apr_stdout = false;
  g_apr_stderr = false;
  cleans_up = false;
  printed = [];
}

atexit_failed : register_cleanup (failure none) unregistered ≡ exited exit_failure cleaned_up
unfolding register_cleanup
atexit_failed = refl
