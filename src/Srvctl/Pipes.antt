-- ===== src/Srvctl/Pipes.antt =====
-- Whether a monitor reads the control pipe decides in srvctl/src/srvctl.c what it is told, and how the
-- command ends, but not which services have links.
use ngim.Base.{
  ℕ, ◌≡◌, refl, sym, ap, ◌∙◌, Bool, true, false, Option, none, some, List, [], ◌∷◌, has, if_both,
}
use ngim.Cmdline.{Str}
use ngim.Monitor.{monitor_cmd_kill, monitor_cmd_terminate, monitor_cmd_wakeup}
use ngim.Srvctl.Options.{
  cmd_priority, cmd_start, cmd_up, cmd_down, cmd_restart, cmd_stop, cmd_kill, cmd_signal,
  cmd_sigterm, cmd_term,
}
use ngim.Srvctl.Files.{
  Link, Files, Pipe, absent, refused, broken, ready, Answers, Outcome, done, died, files_of,
  and_then, service_realname, active_loop, service_active, service_linkname, service_create_up,
  service_remove_up, add_link, service_add, remove_link, service_remove, monitor_command,
}
use ngim.Srvctl.Action.{
  add_again, add_written, put_priority, write_priority, priority_known, service_priority,
  start_inactive, start, stop, active_command, if_active, existing_action, service_exists,
  exists_known, command_action,
}

-- The same answers, with a monitor that reads the control pipe.
abbrev pub with_reader : Answers → Answers
with_reader a = record a { control = ready }

active_loop_same :
    (a : Answers) (name : Str) (links : List Link)
    → active_loop (with_reader a) name links ≡ active_loop a name links
unfolding active_loop service_realname
active_loop_same a name [] = refl
active_loop_same a name (l ∷ links) = rw (active_loop_same a name links) refl

service_active_same :
    (a : Answers) (name : Str) (f : Files)
    → service_active (with_reader a) name f ≡ service_active a name f
unfolding service_active
service_active_same a name f = rw (active_loop_same a name f.active) refl

monitor_command-active :
    (p : Pipe) (nonblocking : Bool) (cmd : ℕ) (f : Files)
    → (files_of (monitor_command p nonblocking cmd f)).active ≡ f.active
unfolding monitor_command
monitor_command-active absent nonblocking cmd f = refl
monitor_command-active refused true cmd f = refl
monitor_command-active refused false cmd f = refl
monitor_command-active broken nonblocking cmd f = refl
monitor_command-active ready nonblocking cmd f = refl

-- The two outcomes leave the same links.
abbrev HaveLinks : Outcome → Outcome → Type 0
HaveLinks o o' = (files_of o).active ≡ (files_of o').active

-- A command to a monitor at the end, through whichever pipe.
and_then-HaveLinks :
    (o : Outcome) (p : Pipe) (nonblocking : Bool) (cmd : ℕ)
    → HaveLinks (and_then o (monitor_command p nonblocking cmd)) o
and_then-HaveLinks (done f) p nonblocking cmd = monitor_command-active p nonblocking cmd f
and_then-HaveLinks (died f) p nonblocking cmd = refl

told_same :
    (o : Outcome) (p p' : Pipe) (nonblocking : Bool) (cmd : ℕ)
    → HaveLinks
        (and_then o (monitor_command p nonblocking cmd))
        (and_then o (monitor_command p' nonblocking cmd))
told_same (done f) p p' nonblocking cmd =
    monitor_command-active p nonblocking cmd f ∙ sym (monitor_command-active p' nonblocking cmd f)
told_same (died f) p p' nonblocking cmd = refl

-- The same after a first operation.
then_told_same :
    (o : Outcome) (next : Files → Outcome) (p p' : Pipe) (nonblocking : Bool) (cmd : ℕ)
    → HaveLinks
        (and_then o (λ f. and_then (next f) (monitor_command p nonblocking cmd)))
        (and_then o (λ f. and_then (next f) (monitor_command p' nonblocking cmd)))
then_told_same (done f) next p p' nonblocking cmd = told_same (next f) p p' nonblocking cmd
then_told_same (died f) next p p' nonblocking cmd = refl

module _ (an : ℕ → Answers) where
  abbrev pub read : ℕ → Answers
  read i = with_reader (an i)

  start_same :
      (active : Option Bool) (name : Str) (f : Files)
      → HaveLinks (start read active name f) (start an active name f)
  unfolding start start_inactive service_create_up service_add service_linkname add_link
  start_same none name f = refl
  start_same (some active) name f =
      if_both HaveLinks active (λ _. refl)
        (λ _.
          then_told_same (service_create_up (an 2) f) (service_add (an 3) name) ready (an 4).control
            false monitor_cmd_wakeup)

  stop_same : (name : Str) (f : Files) → HaveLinks (stop read name f) (stop an name f)
  unfolding stop service_remove_up service_remove service_linkname remove_link
  stop_same name f =
      then_told_same (service_remove_up (an 2) f) (service_remove (an 3) name) ready (an 4).control
        true monitor_cmd_terminate

  active_command_same :
      (sigterm selected signum : ℕ) (name : Str) (f : Files)
      → HaveLinks
          (active_command read sigterm selected signum name f)
          (active_command an sigterm selected signum name f)
  unfolding active_command service_create_up service_remove_up
  active_command_same sigterm selected signum name f =
      let up : Outcome = service_create_up (an 2) f in
      let down : Outcome = service_remove_up (an 2) f in
      let pipe : Pipe = (an 3).control in
      if_both HaveLinks (has selected cmd_up) (λ _. refl)
        (λ _.
          if_both HaveLinks (has selected cmd_down) (λ _. refl)
            (λ _.
              if_both HaveLinks (has selected cmd_restart)
                (λ _. told_same up ready pipe false monitor_cmd_kill)
                (λ _.
                  if_both HaveLinks (has selected cmd_stop) (λ _. stop_same name f)
                    (λ _.
                      if_both HaveLinks (has selected cmd_kill)
                        (λ _. told_same up ready pipe true monitor_cmd_terminate)
                        (λ _.
                          if_both HaveLinks (has selected cmd_signal)
                            (λ _. told_same (done f) ready pipe false signum)
                            (λ _.
                              if_both HaveLinks (has selected cmd_sigterm)
                                (λ _. told_same down ready pipe false signum)
                                (λ _.
                                  if_both HaveLinks (has selected cmd_term)
                                    (λ _. told_same down ready pipe false sigterm)
                                    (λ _. refl))))))))

  priority_same :
      (active : Option Bool) (name priority : Str) (f : Files)
      → priority_known read active name priority f ≡ priority_known an active name priority f
  unfolding priority_known write_priority put_priority add_again add_written service_add
      service_linkname add_link service_remove remove_link
  priority_same none name priority f = refl
  priority_same (some active) name priority f = refl

  if_active_same :
      (active : Option Bool) (sigterm selected signum : ℕ) (name : Str) (f : Files)
      → HaveLinks
          (if_active read active sigterm selected signum name f)
          (if_active an active sigterm selected signum name f)
  unfolding if_active
  if_active_same none sigterm selected signum name f = refl
  if_active_same (some active) sigterm selected signum name f =
      if_both HaveLinks active (λ _. active_command_same sigterm selected signum name f) (λ _. refl)

  existing_action_same :
      (sigterm selected signum : ℕ) (name priority : Str) (f : Files)
      → HaveLinks
          (existing_action read sigterm selected signum name priority f)
          (existing_action an sigterm selected signum name priority f)
  unfolding existing_action service_priority
  existing_action_same sigterm selected signum name priority f =
      let active : Option Bool = service_active (an 1) name f in
      rw (service_active_same (an 1) name f) (
        if_both HaveLinks (has selected cmd_priority)
          (λ _. ap (λ o. (files_of o).active) (priority_same active name priority f))
          (λ _.
            if_both HaveLinks (has selected cmd_start) (λ _. start_same active name f)
              (λ _. if_active_same active sigterm selected signum name f)))

  exists_known_same :
      (exists : Option Bool) (sigterm selected signum : ℕ) (name priority : Str) (f : Files)
      → HaveLinks
          (exists_known read exists sigterm selected signum name priority f)
          (exists_known an exists sigterm selected signum name priority f)
  unfolding exists_known
  exists_known_same none sigterm selected signum name priority f = refl
  exists_known_same (some exists) sigterm selected signum name priority f =
      if_both HaveLinks exists (λ _. existing_action_same sigterm selected signum name priority f)
        (λ _. refl)

  -- Whatever is the matter with the control pipe, a command leaves the same links.
  pub command_action_same :
      (sigterm selected signum : ℕ) (name priority : Str) (f : Files)
      → (files_of (command_action read sigterm selected signum name priority f)).active
        ≡ (files_of (command_action an sigterm selected signum name priority f)).active
  unfolding command_action service_exists
  command_action_same sigterm selected signum name priority f =
      exists_known_same (service_exists an f) sigterm selected signum name priority f
