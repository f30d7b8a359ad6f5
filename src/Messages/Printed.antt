-- ===== src/Messages/Printed.antt =====
-- What the functions of libbase/lib/error.c print, after a start as in libbase/lib/init.c.
use ngim.Base.{
  ℕ, ◌≤◌, ◌≡◌, refl, ◌∙◌, Option, none, some, List, [], ◌∷◌, ◌++◌, leb, le→leb, if◌then◌else◌,
  if-ind, arith,
}
use ngim.Cmdline.{Str}
use ngim.Messages.{
  Program, returned, exited, fatal, set_error_level, error6, exit, cleanup, exit_failure,
  die_error6,
}
use ngim.Messages.Startup.{Answers, unstarted, base_app_init}
use ngim.Messages.Lines.{line, error6-printed}
use ngim.Messages.Started.{shown_from, named_level, complaint, started}

-- The calls of ngim_seterrorlevel with these levels.
abbrev pub set_error_levels : List ℕ → Program → Program
set_error_levels [] p = p
set_error_levels (level ∷ levels) p = set_error_levels levels (set_error_level level p)

-- Only the level differs, and it is one that shows fatal messages.
record IsAudible (p q : Program) : Type 0 where
  progname : q.progname ≡ p.progname
  up : q.g_apr_stderr ≡ p.g_apr_stderr
  level : q.error_level ≤ fatal
  printed : q.printed ≡ p.printed

set_error_level-IsAudible :
    (n : ℕ) (p q : Program) → IsAudible p q → IsAudible p (set_error_level n q)
unfolding set_error_level
set_error_level-IsAudible n p q h = record {
  progname = h.progname;
  up = h.up;
  level = ground arith;
  printed = h.printed;
}

set_error_levels-IsAudible :
    (levels : List ℕ) (p q : Program) → IsAudible p q → IsAudible p (set_error_levels levels q)
set_error_levels-IsAudible [] p q h = h
set_error_levels-IsAudible (level ∷ levels) p q h =
    set_error_levels-IsAudible levels p (set_error_level level q)
      (set_error_level-IsAudible level p q h)

shown_from-le : (env : Option Str) → shown_from (named_level env) ≤ fatal
shown_from-le none = omega arith
shown_from-le (some value) = ground arith

exit-printed :
    (code : ℕ) (p : Program)
    → (q : Program) × ((exit code p ≡ exited code q) × (q.printed ≡ p.printed))
unfolding exit
exit-printed code p = (
  if p.cleans_up then cleanup p else p,
  (refl, if-ind (λ (q : Program). q.printed ≡ p.printed) p.cleans_up (λ _. refl) (λ _. refl)),
)

module _ (name : Option Str) (a : Answers) (p : Program)
    (h : base_app_init name a unstarted ≡ returned p) (s1 s2 s3 s4 s5 s6 : Option Str) where
  -- After a start of the program, a message is a line of standard error exactly when its level is at
  -- least the one that NGIM_ERROR_LEVEL names, or that of information where it names none; the line
  -- has the level, the name of the program and the parts. Before that only a warning of a value that
  -- names no level was printed.
  pub base_app_init-error6 :
      (level : ℕ)
      → ((error6 level s1 s2 s3 s4 s5 s6 p).printed
          ≡ complaint name a.env
            ++ (if leb (shown_from (named_level a.env)) level
                then line name level s1 s2 s3 s4 s5 s6
                else []))
  base_app_init-error6 level =
      let st = started name a p h in
      error6-printed level s1 s2 s3 s4 s5 s6 p st.up
      ∙ rw st.progname (rw st.level (rw st.printed refl))

  -- A fatal message is never suppressed: whatever NGIM_ERROR_LEVEL was at the start, and whatever
  -- levels were set since, it is printed before the program exits.
  pub base_app_init-die_error6 :
      (levels : List ℕ)
      → (q : Program) × ((die_error6 s1 s2 s3 s4 s5 s6 (set_error_levels levels p)
            ≡ exited exit_failure q)
          × (q.printed ≡ complaint name a.env ++ line name fatal s1 s2 s3 s4 s5 s6))
  unfolding die_error6
  base_app_init-die_error6 levels =
      let st = started name a p h in
      let p' : Program = set_error_levels levels p in
      let au : IsAudible p p' = set_error_levels-IsAudible levels p p (record {
        progname = refl;
        up = refl;
        level = rw st.level (shown_from-le a.env);
        printed = refl;
      }) in
      let (q, (e, same)) = exit-printed exit_failure (error6 fatal s1 s2 s3 s4 s5 s6 p') in
      (
        q,
        (
          e,
          same
              ∙ (error6-printed fatal s1 s2 s3 s4 s5 s6 p' (au.up ∙ st.up)
                  ∙ rw (le→leb p'.error_level fatal au.level)
                      (rw au.progname (rw au.printed (rw st.progname (rw st.printed refl))))),
        ),
      )
