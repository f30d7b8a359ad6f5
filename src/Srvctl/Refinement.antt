-- ===== src/Srvctl/Refinement.antt =====
-- Every command of srvctl/src/srvctl.c for a service does to it what is promised.
use ngim.Base.{
  ℕ, ◌≡◌, refl, sym, ap, ◌∙◌, Bool, true, false, some, has, if◌then◌else◌, if_both, arith,
}
use ngim.Cmdline.{Str}
use ngim.Monitor.{monitor_cmd_kill, monitor_cmd_terminate, monitor_cmd_wakeup}
use ngim.Srvctl.Options.{
  cmd_priority, cmd_start, cmd_up, cmd_down, cmd_restart, cmd_stop, cmd_kill, cmd_signal,
  cmd_sigterm, cmd_term,
}
use ngim.Srvctl.Files.{
  Files, Answers, Outcome, done, files_of, and_then, linkname_of, unlink, has_entry, put_command,
  monitor_command, service_create_up, service_remove_up,
}
use ngim.Srvctl.Action.{
  write_priority, priority_known, service_priority, start, stop, active_command, if_active,
  existing_action, service_exists, exists_known, command_action,
}
use ngim.Srvctl.Links.{IsLinked, unlink-In, unlink-AreOther}
use ngim.Srvctl.Working.{
  Works, linked, service_active_works, service_create_up_works, service_remove_up_works,
  monitor_command_works, service_remove_works, IsName,
}
use ngim.Srvctl.Effects.{
  Service, service_of, tell, promised_active, promised, IsFree, free_entry, added, added-linked,
  start_inactive_effect, stop_effect, unlink-linked, write_active, write_inactive,
}

abbrev with_active : Bool → Files → Service
with_active b f = record { active = b; up = f.up; told = f.commands }

module _ (an : ℕ → Answers) (works : (i : ℕ) → Works (an i)) (name : Str)
    (is_name : IsName name) where
  -- The outcome does to the service what is said.
  abbrev Does : Outcome → Service → Type 0
  Does o s = service_of name (files_of o) ≡ s

  from_outcome :
      (o : Outcome) (f : Files) (s : Service) → o ≡ done f → service_of name f ≡ s → Does o s
  from_outcome o f s e h = ap (λ x. service_of name (files_of x)) e ∙ h

  priority-Does :
      (priority : Str) (f : Files)
      → IsLinked name f
      → IsFree name (linkname_of name (some priority)) f
      → (active : Bool) → linked name f.active ≡ active
      → Does (priority_known an (some active) name priority f) (service_of name f)
  unfolding priority_known
  priority-Does priority f u free true h =
      let f1 : Files = record f { active = unlink (linkname_of name f.priority) f.active } in
      let next : Files → Outcome = write_priority an true name priority in
      let fresh : has_entry (linkname_of name (some priority)) f1.active ≡ false =
        free_entry an works name is_name (linkname_of name (some priority)) f1.active
          (λ l m e. free l (unlink-In (linkname_of name f.priority) f.active l m).0 e)
          (unlink-AreOther name f.priority f.active u) in
      let f2 : Files = added an works name is_name (record f1 { priority = some priority }) in
      from_outcome _ f2 _
        (ap (λ o. and_then o next) (service_remove_works (an 2) (works 2) name f)
          ∙ write_active an works name is_name priority f1 fresh)
        (ap (λ b. with_active b f)
          (added-linked an works name is_name (record f1 { priority = some priority }) ∙ sym h))
  priority-Does priority f u free false h =
      from_outcome _ (record f { priority = some priority }) _
        (write_inactive an works name is_name priority f) refl

  start-Does :
      (f : Files)
      → IsFree name (linkname_of name f.priority) f
      → (active : Bool) → linked name f.active ≡ active
      → Does (start an (some active) name f) (
          if active
          then service_of name f
          else tell monitor_cmd_wakeup (record (service_of name f) { active = true; up = true }))
  unfolding start
  start-Does f free true h = refl
  start-Does f free false h =
      let f1 : Files = added an works name is_name (record f { up = true }) in
      from_outcome _ (put_command monitor_cmd_wakeup f1) _
        (start_inactive_effect an works name is_name f h free)
        (ap (λ b. with_active b (put_command monitor_cmd_wakeup f1))
          (added-linked an works name is_name (record f { up = true })))

  stop-Does :
      (f : Files)
      → IsLinked name f
      → Does
          (stop an name f)
          (tell monitor_cmd_terminate (record (service_of name f) { active = false; up = false }))
  stop-Does f u =
      let f1 : Files =
        put_command monitor_cmd_terminate
          (record f { up = false; active = unlink (linkname_of name f.priority) f.active }) in
      from_outcome _ f1 _ (stop_effect an works name is_name f)
        (ap (λ b. with_active b f1) (unlink-linked an works name is_name f u))

  up-Does :
      (nonblocking : Bool) (cmd : ℕ) (f : Files)
      → Does
          (and_then (service_create_up (an 2) f) (monitor_command (an 3).control nonblocking cmd))
          (tell cmd (record (service_of name f) { up = true }))
  up-Does nonblocking cmd f =
      let f1 : Files = record f { up = true } in
      let next : Files → Outcome = monitor_command (an 3).control nonblocking cmd in
      from_outcome _ (put_command cmd f1) _
        (ap (λ o. and_then o next) (service_create_up_works (an 2) (works 2) f)
          ∙ monitor_command_works (an 3) (works 3) nonblocking cmd f1)
        refl

  down-Does :
      (cmd : ℕ) (f : Files)
      → Does
          (and_then (service_remove_up (an 2) f) (monitor_command (an 3).control false cmd))
          (tell cmd (record (service_of name f) { up = false }))
  down-Does cmd f =
      let f1 : Files = record f { up = false } in
      let next : Files → Outcome = monitor_command (an 3).control false cmd in
      from_outcome _ (put_command cmd f1) _
        (ap (λ o. and_then o next) (service_remove_up_works (an 2) (works 2) f)
          ∙ monitor_command_works (an 3) (works 3) false cmd f1)
        refl

  create-Does :
      (f : Files) → Does (service_create_up (an 2) f) (record (service_of name f) { up = true })
  create-Does f =
      from_outcome _ (record f { up = true }) _ (service_create_up_works (an 2) (works 2) f) refl

  remove-Does :
      (f : Files) → Does (service_remove_up (an 2) f) (record (service_of name f) { up = false })
  remove-Does f =
      from_outcome _ (record f { up = false }) _ (service_remove_up_works (an 2) (works 2) f) refl

  tell-Does :
      (cmd : ℕ) (f : Files)
      → Does (monitor_command (an 3).control false cmd f) (tell cmd (service_of name f))
  tell-Does cmd f =
      from_outcome _ (put_command cmd f) _ (monitor_command_works (an 3) (works 3) false cmd f) refl

  active-Does :
      (sigterm selected signum : ℕ) (f : Files)
      → IsLinked name f
      → Does
          (active_command an sigterm selected signum name f)
          (promised_active sigterm selected signum (service_of name f))
  unfolding active_command promised_active
  active-Does sigterm selected signum f u =
      if_both Does (has selected cmd_up) (λ _. create-Does f)
        (λ _.
          if_both Does (has selected cmd_down) (λ _. remove-Does f)
            (λ _.
              if_both Does (has selected cmd_restart) (λ _. up-Does false monitor_cmd_kill f)
                (λ _.
                  if_both Does (has selected cmd_stop) (λ _. stop-Does f u)
                    (λ _.
                      if_both Does (has selected cmd_kill)
                        (λ _. up-Does true monitor_cmd_terminate f)
                        (λ _.
                          if_both Does (has selected cmd_signal) (λ _. tell-Does signum f)
                            (λ _.
                              if_both Does (has selected cmd_sigterm) (λ _. down-Does signum f)
                                (λ _.
                                  if_both Does (has selected cmd_term) (λ _. down-Does sigterm f)
                                    (λ _. refl))))))))

  existing-Does :
      (sigterm selected signum : ℕ) (priority : Str) (f : Files)
      → IsLinked name f
      → IsFree name (linkname_of name f.priority) f
      → IsFree name (linkname_of name (some priority)) f
      → Does
          (existing_action an sigterm selected signum name priority f)
          (promised sigterm selected signum (service_of name f))
  unfolding existing_action service_priority if_active promised
  existing-Does sigterm selected signum priority f u free free' =
      let active : Bool = linked name f.active in
      rw (service_active_works (an 1) (works 1) name f) (
        if_both Does (has selected cmd_priority) (λ _. priority-Does priority f u free' active refl)
          (λ _.
            if_both Does (has selected cmd_start) (λ _. start-Does f free active refl)
              (λ _.
                if_both Does active (λ _. active-Does sigterm selected signum f u) (λ _. refl))))

  -- Where every call of the system succeeds, a monitor reads the control pipe, the service's directory
  -- exists under a name that is not empty, has no slash and begins with no dot, its links have the
  -- name that its priority gives it, and no other service's link has that name or the one after the
  -- command: command_action does what is promised for each command.
  pub command_action-promised :
      (sigterm selected signum : ℕ) (priority : Str) (f : Files)
      → f.service ≡ some true
      → IsLinked name f
      → IsFree name (linkname_of name f.priority) f
      → IsFree name (linkname_of name (some priority)) f
      → service_of name (files_of (command_action an sigterm selected signum name priority f))
        ≡ promised sigterm selected signum (service_of name f)
  unfolding command_action exists_known service_exists
  command_action-promised sigterm selected signum priority f exists u free free' =
      let e : service_exists an f ≡ some true = ground (arith, (works 0).stats, exists) in
      ap
        (λ o.
          service_of name (files_of (exists_known an o sigterm selected signum name priority f)))
        e
      ∙ existing-Does sigterm selected signum priority f u free free'
