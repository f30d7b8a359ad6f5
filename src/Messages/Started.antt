-- ===== src/Messages/Started.antt =====
-- What the start of a program in libbase/lib/init.c leaves: the level and the name of messages.
use ngim.Base.{
  ℕ, ◌≤◌, ◌≡◌, refl, true, Option, none, some, List, [], ◌∷◌, codes, if◌then◌else◌, if-ind, if_true,
  arith,
}
use ngim.Cmdline.{Str, str_eq, is_some}
use ngim.Messages.{Program, Outcome, returned, fatal, warning, info, verbose, set_error_level, exit}
use ngim.Messages.Startup.{
  Answers, Status, success, failure, unstarted, warn_error1, invalid_value, level_from_env,
  and_then, or_die, register_cleanup, init, die_aprerror1, base_app_init,
}
use ngim.Messages.Lines.{line, error6-line}

-- A call that the program dies of when it fails has succeeded if the start returns.
or_die-returned :
    (st : Status) (message : Str) (done : Program → Program) (p : Program)
    (next : Program → Outcome) {q : Program}
    → and_then (or_die st message done p) next ≡ returned q
    → next (done p) ≡ returned q
unfolding or_die die_aprerror1 exit
or_die-returned success message done p next h = h
or_die-returned (failure text) message done p next h = absurd (cc)

register_cleanup-returned :
    (st : Status) (p : Program) (next : Program → Outcome) {q : Program}
    → and_then (register_cleanup st p) next ≡ returned q
    → next (record p { cleans_up = true }) ≡ returned q
unfolding register_cleanup die_aprerror1 exit
register_cleanup-returned success p next h = h
register_cleanup-returned (failure text) p next h = absurd (cc)

-- The program after its start, before it looks at the environment.
abbrev ready : Option Str → Program
ready name = record {
  progname = name;
  error_level = info;
  apr = true;
  g_pool = true;
  g_apr_stdin = true;
  g_apr_stdout = true;
  g_apr_stderr = true;
  cleans_up = true;
  printed = [];
}

base_app_init-returned :
    (name : Option Str) (a : Answers) (p : Program)
    → base_app_init name a unstarted ≡ returned p
    → level_from_env a.env (ready name) ≡ p
unfolding base_app_init init
base_app_init-returned name a p h =
    let h1 = or_die-returned a.apr_init _ _ _ _ h in
    let h2 = or_die-returned a.pool _ _ _ _ h1 in
    let h3 = or_die-returned a.open_stderr _ _ _ _ h2 in
    let h4 = or_die-returned a.open_stdout _ _ _ _ h3 in
    let h5 = or_die-returned a.open_stdin _ _ _ _ h4 in
    let h6 = register_cleanup-returned a.atexit _ _ h5 in cc

-- The least level that is shown, by the value of the environment variable.
abbrev level_names : List (Str × ℕ)
level_names =
    (codes "verbose", verbose)
    ∷ (codes "info", info)
    ∷ (codes "warning", warning)
    ∷ (codes "fatal", fatal)
    ∷ []

abbrev level_named : Str → List (Str × ℕ) → Option ℕ
level_named value [] = none
level_named value ((name, level) ∷ names) =
    if str_eq value name then some level else level_named value names

abbrev pub shown_from : Option ℕ → ℕ
shown_from none = info
shown_from (some level) = level

abbrev pub named_level : Option Str → Option ℕ
named_level none = none
named_level (some value) = level_named value level_names

abbrev pub complaint : Option Str → Option Str → Str
complaint name none = []
complaint name (some value) =
    if is_some (level_named value level_names)
    then []
    else line name warning (some invalid_value) none none none none none

-- What the start of a program leaves: whatever NGIM_ERROR_LEVEL is, the name is set, standard error
-- is open, and the level is one that shows fatal messages.
pub record IsStarted (name env : Option Str) (p : Program) : Type 0 where
  pub progname : p.progname ≡ name
  pub up : p.g_apr_stderr ≡ true
  pub level : p.error_level ≡ shown_from (named_level env)
  pub printed : p.printed ≡ complaint name env

set_error_level-IsStarted :
    (name : Option Str) (value : Str) (n : ℕ)
    → n ≤ fatal
    → level_named value level_names ≡ some n
    → IsStarted name (some value) (set_error_level n (ready name))
unfolding set_error_level
set_error_level-IsStarted name value n h e = record {
  progname = refl;
  up = refl;
  level = rw e (ground arith);
  printed = rw e refl;
}

complain-IsStarted :
    (name : Option Str) (value : Str)
    → level_named value level_names ≡ none
    → IsStarted name (some value) (warn_error1 invalid_value (ready name))
unfolding warn_error1
complain-IsStarted name value e =
    rw (error6-line warning (some invalid_value) none none none none none (ready name) refl)
      (record { progname = refl; up = refl; level = rw e refl; printed = rw e refl })

level_from_env-IsStarted :
    (name env : Option Str) → IsStarted name env (level_from_env env (ready name))
unfolding level_from_env
level_from_env-IsStarted name none = record {
  progname = refl;
  up = refl;
  level = refl;
  printed = refl;
}
level_from_env-IsStarted name (some value) =
    let S : Program → Type 0 = IsStarted name (some value) in
    if-ind S (str_eq value (codes "verbose"))
      (λ t. set_error_level-IsStarted name value verbose (omega arith) (if_true _ _ t))
      (λ n0.
        if-ind S (str_eq value (codes "info"))
          (λ t. set_error_level-IsStarted name value info (omega arith) (rw n0 (if_true _ _ t)))
          (λ n1.
            if-ind S (str_eq value (codes "warning"))
              (λ t.
                set_error_level-IsStarted name value warning (omega arith)
                  (rw n0 (rw n1 (if_true _ _ t))))
              (λ n2.
                if-ind S (str_eq value (codes "fatal"))
                  (λ t.
                    set_error_level-IsStarted name value fatal (omega arith)
                      (rw n0 (rw n1 (rw n2 (if_true _ _ t)))))
                  (λ n3. complain-IsStarted name value (rw n0 (rw n1 (rw n2 (rw n3 refl))))))))

pub started :
    (name : Option Str) (a : Answers) (p : Program)
    → base_app_init name a unstarted ≡ returned p
    → IsStarted name a.env p
started name a p h =
    let e : level_from_env a.env (ready name) ≡ p = base_app_init-returned name a p h in
    rw e at (level_from_env-IsStarted name a.env)
