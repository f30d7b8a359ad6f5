-- ===== src/Srvctl/Effects.antt =====
-- What the commands of srvctl/src/srvctl.c promise for a service, and that they keep it where every
-- call of the system succeeds.
use ngim.Base.{
  ℕ, ◌%◌, ◌≡◌, ap, ◌∙◌, Bool, true, false, some, List, [], ◌∷◌, ◌++◌, has, In, if◌then◌else◌,
  if_true,
}
use ngim.Cmdline.{Str}
use ngim.Symlink.{relative_path}
use ngim.Monitor.{monitor_cmd_kill, monitor_cmd_terminate, monitor_cmd_wakeup}
use ngim.Srvctl.Options.{
  cmd_priority, cmd_start, cmd_up, cmd_down, cmd_restart, cmd_stop, cmd_kill, cmd_signal,
  cmd_sigterm, cmd_term,
}
use ngim.Srvctl.Files.{Link, Files, Answers, done, linkname_of, unlink, has_entry, put_command}
use ngim.Srvctl.Action.{put_priority, add_written, write_priority, start_inactive, stop}
use ngim.Srvctl.Links.{LinksTo, AreOther, IsLinked, active_loop-AreOther, unlink-AreOther}
use ngim.Srvctl.Working.{
  Works, linked, active_loop_works, service_create_up_works, service_remove_up_works,
  monitor_command_works, service_remove_works, service_add_works, linked-false, linked-append,
  has_entry-false, IsName, link-LinksTo,
}

-- A service as its user sees it: whether it is active, whether it is to be restarted, and what its
-- monitor was told.
pub record Service : Type 0 where
  pub active : Bool
  pub up : Bool
  pub told : List ℕ

abbrev pub service_of : Str → Files → Service
service_of name f = record { active = linked name f.active; up = f.up; told = f.commands }

abbrev pub tell : ℕ → Service → Service
tell cmd s = record s { told = s.told ++ ((cmd % 256) ∷ []) }

-- What the command does to a service that is active.
unfoldable pub promised_active : ℕ → ℕ → ℕ → Service → Service
promised_active sigterm selected signum s =
    if has selected cmd_up
    then record s { up = true }
    else if has selected cmd_down
    then record s { up = false }
    else if has selected cmd_restart
    then tell monitor_cmd_kill (record s { up = true })
    else if has selected cmd_stop
    then tell monitor_cmd_terminate (record s { active = false; up = false })
    else if has selected cmd_kill
    then tell monitor_cmd_terminate (record s { up = true })
    else if has selected cmd_signal
    then tell signum s
    else if has selected cmd_sigterm
    then tell signum (record s { up = false })
    else if has selected cmd_term
    then tell sigterm (record s { up = false })
    else s

-- What the command does to the service.
unfoldable pub promised : ℕ → ℕ → ℕ → Service → Service
unfolding promised_active
promised sigterm selected signum s =
    let started : Service = tell monitor_cmd_wakeup (record s { active = true; up = true }) in
    if has selected cmd_priority
    then s
    else if has selected cmd_start
    then (if s.active then s else started)
    else if s.active
    then promised_active sigterm selected signum s
    else s

-- No other service has a link of this name.
abbrev pub IsFree : Str → Str → Files → Type 0
IsFree name linkname f = (l : Link) → In l f.active → l.name ≡ linkname → LinksTo name l

module _ (an : ℕ → Answers) (works : (i : ℕ) → Works (an i)) (name : Str)
    (is_name : IsName name) where
  pub linked-false-AreOther : (links : List Link) → linked name links ≡ false → AreOther name links
  linked-false-AreOther links h =
      active_loop-AreOther (an 0) name links
        (active_loop_works (an 0) (works 0) name links ∙ ap some h)

  pub free_entry :
      (linkname : Str) (links : List Link)
      → ((l : Link) → In l links → l.name ≡ linkname → LinksTo name l)
      → AreOther name links
      → has_entry linkname links ≡ false
  free_entry linkname links free other =
      has_entry-false linkname links (λ l m e. other l m (free l m e))

  -- The state after service_add for a service that has no link.
  abbrev pub added : Files → Files
  added f = record f {
    active =
        f.active
        ++ (record { name = linkname_of name f.priority; is_link = true; text = relative_path name }
            ∷ []);
  }

  pub added-linked : (f : Files) → linked name (added f).active ≡ true
  added-linked f = linked-append name f.active _ (link-LinksTo name f.priority is_name)

  pub start_inactive_effect :
      (f : Files)
      → linked name f.active ≡ false
      → IsFree name (linkname_of name f.priority) f
      → start_inactive an name f
        ≡ done (put_command monitor_cmd_wakeup (added (record f { up = true })))
  unfolding start_inactive
  start_inactive_effect f h free =
      let f1 : Files = record f { up = true } in
      let fresh : has_entry (linkname_of name f.priority) f.active ≡ false =
        free_entry (linkname_of name f.priority) f.active free (linked-false-AreOther f.active h) in
      rw
        (
          service_create_up_works (an 2) (works 2) f,
          service_add_works (an 3) (works 3) name f1 fresh,
        )
        (monitor_command_works (an 4) (works 4) false monitor_cmd_wakeup (added f1))

  pub stop_effect :
      (f : Files)
      → stop an name f
        ≡ done (
            put_command monitor_cmd_terminate
              (record f { up = false; active = unlink (linkname_of name f.priority) f.active }))
  unfolding stop
  stop_effect f =
      let f1 : Files = record f { up = false } in
      rw (service_remove_up_works (an 2) (works 2) f, service_remove_works (an 3) (works 3) name f1)
        (monitor_command_works (an 4) (works 4) true monitor_cmd_terminate _)

  pub unlink-linked :
      (f : Files)
      → IsLinked name f
      → linked name (unlink (linkname_of name f.priority) f.active) ≡ false
  unlink-linked f u = linked-false name _ (unlink-AreOther name f.priority f.active u)

  -- service_priority, from the file on, where the service has no link any more.
  pub write_active :
      (priority : Str) (f : Files)
      → has_entry (linkname_of name (some priority)) f.active ≡ false
      → write_priority an true name priority f
        ≡ done (added (record f { priority = some priority }))
  unfolding write_priority put_priority add_written
  write_active priority f fresh =
      if_true _ _ (works 3).creates
      ∙ (ap (λ o. put_priority (an 4) true name priority o f) (works 3).puts
          ∙ service_add_works (an 4) (works 4) name (record f { priority = some priority }) fresh)

  pub write_inactive :
      (priority : Str) (f : Files)
      → write_priority an false name priority f ≡ done (record f { priority = some priority })
  unfolding write_priority put_priority add_written
  write_inactive priority f =
      if_true _ _ (works 3).creates
      ∙ ap (λ o. put_priority (an 4) false name priority o f) (works 3).puts
