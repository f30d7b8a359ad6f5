-- ===== src/Srvctl/Named.antt =====
-- The names of the links to a service, after every command of srvctl/src/srvctl.c for one service.
use ngim.Base.{
  ℕ, ◌≡◌, refl, sym, ◌∙◌, inl, inr, Bool, true, false, Option, none, some, has, take, if-ind,
  if_true, if_false, Bool-cases,
}
use ngim.Cmdline.{Str}
use ngim.Monitor.{monitor_cmd_kill, monitor_cmd_terminate, monitor_cmd_wakeup}
use ngim.Srvctl.Options.{
  cmd_priority, cmd_start, cmd_up, cmd_down, cmd_restart, cmd_stop, cmd_kill, cmd_signal,
  cmd_sigterm, cmd_term,
}
use ngim.Srvctl.Files.{
  Files, Answers, Outcome, done, died, files_of, and_then, service_active, service_create_up,
  service_remove_up, service_add, service_remove, monitor_command,
}
use ngim.Srvctl.Action.{
  add_written, put_priority, write_priority, priority_known, service_priority, start_inactive,
  start, stop, active_command, if_active, existing_action, service_exists, exists_known,
  command_action,
}
use ngim.Srvctl.Links.{
  IsLinked, NotLinked, KeepsLinks, Removed, NotLinked-IsLinked, active_loop-AreOther,
  service_add-KeepsLinks, service_remove-Removed, Removed-KeepsLinks, and_then-KeepsLinks,
  monitor_command-KeepsLinks, service_create_up-KeepsLinks, service_remove_up-KeepsLinks,
  add_again-KeepsLinks,
}

put_priority-KeepsLinks :
    (a : Answers) (active : Bool) (name priority : Str) (stops : Option ℕ) (f : Files)
    → NotLinked name f
    → KeepsLinks name (put_priority a active name priority stops f)
unfolding put_priority add_written
put_priority-KeepsLinks a active name priority none f n =
    let f' : Files = record f { priority = some priority } in
    let u : IsLinked name f' = NotLinked-IsLinked name f' n in
    if-ind (KeepsLinks name) active (λ _. service_add-KeepsLinks a name f' u) (λ _. u)
put_priority-KeepsLinks a active name priority (some k) f n =
    let f' : Files = record f { priority = some (take k priority) } in
    add_again-KeepsLinks a active name f' (NotLinked-IsLinked name f' n)

-- What is known of the service's links once it is known whether it is active.
service_active-NotLinked :
    (a : Answers) (name : Str) (f : Files) → service_active a name f ≡ some false → NotLinked name f
unfolding service_active
service_active-NotLinked a name f h = elim (Bool-cases a.can_open) [
  | inl t ↦ active_loop-AreOther a name f.active (sym (if_true _ _ t) ∙ h)
  | inr t ↦ let e : none ≡ some false = sym (if_false _ _ t) ∙ h in let no : ⊥ = cc in absurd no
]

module _ (an : ℕ → Answers) (name : Str) where
  write_priority-KeepsLinks :
      (active : Bool) (priority : Str) (f : Files)
      → NotLinked name f
      → KeepsLinks name (write_priority an active name priority f)
  unfolding write_priority
  write_priority-KeepsLinks active priority f n =
      if-ind (KeepsLinks name) (an 3).can_create
        (λ _. put_priority-KeepsLinks (an 4) active name priority (an 3).put_stops f n)
        (λ _. add_again-KeepsLinks (an 4) active name f (NotLinked-IsLinked name f n))

  and_then-write_priority-KeepsLinks :
      (o : Outcome) (priority : Str)
      → Removed name o
      → KeepsLinks name (and_then o (write_priority an true name priority))
  and_then-write_priority-KeepsLinks (done f) priority n =
      write_priority-KeepsLinks true priority f n
  and_then-write_priority-KeepsLinks (died f) priority u = u

  priority_known-KeepsLinks :
      (active : Option Bool) (priority : Str) (f : Files)
      → IsLinked name f
      → service_active (an 1) name f ≡ active
      → KeepsLinks name (priority_known an active name priority f)
  unfolding priority_known
  priority_known-KeepsLinks none priority f u e = u
  priority_known-KeepsLinks (some true) priority f u e =
      and_then-write_priority-KeepsLinks (service_remove (an 2) name f) priority
        (service_remove-Removed (an 2) name f u)
  priority_known-KeepsLinks (some false) priority f u e =
      write_priority-KeepsLinks false priority f (service_active-NotLinked (an 1) name f e)

  start-KeepsLinks :
      (active : Option Bool) (f : Files)
      → IsLinked name f
      → KeepsLinks name (start an active name f)
  unfolding start start_inactive
  start-KeepsLinks none f u = u
  start-KeepsLinks (some true) f u = u
  start-KeepsLinks (some false) f u =
      and_then-KeepsLinks name (service_create_up (an 2) f) _
        (service_create_up-KeepsLinks (an 2) name f u)
        (λ f' u'.
          and_then-KeepsLinks name (service_add (an 3) name f') _
            (service_add-KeepsLinks (an 3) name f' u')
            (monitor_command-KeepsLinks (an 4).control false monitor_cmd_wakeup name))

  stop-KeepsLinks : (f : Files) → IsLinked name f → KeepsLinks name (stop an name f)
  unfolding stop
  stop-KeepsLinks f u =
      and_then-KeepsLinks name (service_remove_up (an 2) f) _
        (service_remove_up-KeepsLinks (an 2) name f u)
        (λ f' u'.
          and_then-KeepsLinks name (service_remove (an 3) name f') _
            (Removed-KeepsLinks name _ (service_remove-Removed (an 3) name f' u'))
            (monitor_command-KeepsLinks (an 4).control true monitor_cmd_terminate name))

  -- A command to the monitor, after the up file was made or removed.
  up_and_command :
      (nonblocking : Bool) (cmd : ℕ) (f : Files)
      → IsLinked name f
      → KeepsLinks name
          (and_then (service_create_up (an 2) f) (monitor_command (an 3).control nonblocking cmd))
  up_and_command nonblocking cmd f u =
      and_then-KeepsLinks name (service_create_up (an 2) f)
        (monitor_command (an 3).control nonblocking cmd)
        (service_create_up-KeepsLinks (an 2) name f u)
        (monitor_command-KeepsLinks (an 3).control nonblocking cmd name)

  down_and_command :
      (cmd : ℕ) (f : Files)
      → IsLinked name f
      → KeepsLinks name
          (and_then (service_remove_up (an 2) f) (monitor_command (an 3).control false cmd))
  down_and_command cmd f u =
      and_then-KeepsLinks name (service_remove_up (an 2) f)
        (monitor_command (an 3).control false cmd) (service_remove_up-KeepsLinks (an 2) name f u)
        (monitor_command-KeepsLinks (an 3).control false cmd name)

  active_command-KeepsLinks :
      (sigterm selected signum : ℕ) (f : Files)
      → IsLinked name f
      → KeepsLinks name (active_command an sigterm selected signum name f)
  unfolding active_command
  active_command-KeepsLinks sigterm selected signum f u =
      let K : Outcome → Type 0 = KeepsLinks name in
      if-ind K (has selected cmd_up) (λ _. service_create_up-KeepsLinks (an 2) name f u)
        (λ _.
          if-ind K (has selected cmd_down) (λ _. service_remove_up-KeepsLinks (an 2) name f u)
            (λ _.
              if-ind K (has selected cmd_restart) (λ _. up_and_command false monitor_cmd_kill f u)
                (λ _.
                  if-ind K (has selected cmd_stop) (λ _. stop-KeepsLinks f u)
                    (λ _.
                      if-ind K (has selected cmd_kill)
                        (λ _. up_and_command true monitor_cmd_terminate f u)
                        (λ _.
                          if-ind K (has selected cmd_signal)
                            (λ _. monitor_command-KeepsLinks (an 3).control false signum name f u)
                            (λ _.
                              if-ind K (has selected cmd_sigterm) (λ _. down_and_command signum f u)
                                (λ _.
                                  if-ind K (has selected cmd_term)
                                    (λ _. down_and_command sigterm f u) (λ _. u))))))))

  if_active-KeepsLinks :
      (active : Option Bool) (sigterm selected signum : ℕ) (f : Files)
      → IsLinked name f
      → KeepsLinks name (if_active an active sigterm selected signum name f)
  unfolding if_active
  if_active-KeepsLinks none sigterm selected signum f u = u
  if_active-KeepsLinks (some active) sigterm selected signum f u =
      if-ind (KeepsLinks name) active (λ _. active_command-KeepsLinks sigterm selected signum f u)
        (λ _. u)

  existing_action-KeepsLinks :
      (sigterm selected signum : ℕ) (priority : Str) (f : Files)
      → IsLinked name f
      → KeepsLinks name (existing_action an sigterm selected signum name priority f)
  unfolding existing_action service_priority
  existing_action-KeepsLinks sigterm selected signum priority f u =
      let active : Option Bool = service_active (an 1) name f in
      if-ind (KeepsLinks name) (has selected cmd_priority)
        (λ _. priority_known-KeepsLinks active priority f u refl)
        (λ _.
          if-ind (KeepsLinks name) (has selected cmd_start) (λ _. start-KeepsLinks active f u)
            (λ _. if_active-KeepsLinks active sigterm selected signum f u))

  exists_known-KeepsLinks :
      (exists : Option Bool) (sigterm selected signum : ℕ) (priority : Str) (f : Files)
      → IsLinked name f
      → KeepsLinks name (exists_known an exists sigterm selected signum name priority f)
  unfolding exists_known
  exists_known-KeepsLinks none sigterm selected signum priority f u = u
  exists_known-KeepsLinks (some exists) sigterm selected signum priority f u =
      if-ind (KeepsLinks name) exists
        (λ _. existing_action-KeepsLinks sigterm selected signum priority f u) (λ _. u)

  -- Where every link to the service has the name that its priority gives it, this still holds after
  -- every command for the service, whichever calls fail.
  pub command_action-IsLinked :
      (sigterm selected signum : ℕ) (priority : Str) (f : Files)
      → IsLinked name f
      → IsLinked name (files_of (command_action an sigterm selected signum name priority f))
  unfolding command_action
  command_action-IsLinked sigterm selected signum priority f u =
      exists_known-KeepsLinks (service_exists an f) sigterm selected signum priority f u
