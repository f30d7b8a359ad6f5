-- ===== src/Srvctl/Action.antt =====
-- The commands of srvctl/src/srvctl.c for one service. The answers of the system to the `i`-th
-- operation that a command makes are `an i`.
use ngim.Base.{ℕ, Bool, true, false, Option, none, some, take, has, if◌then◌else◌}
use ngim.Cmdline.{Str}
use ngim.Monitor.{monitor_cmd_kill, monitor_cmd_terminate, monitor_cmd_wakeup}
use ngim.Srvctl.Options.{
  cmd_priority, cmd_start, cmd_up, cmd_down, cmd_restart, cmd_stop, cmd_kill, cmd_signal,
  cmd_sigterm, cmd_term,
}
use ngim.Srvctl.Files.{
  Files, Answers, Outcome, done, died, files_of, and_then, service_active, service_add,
  service_remove, service_create_up, service_remove_up, monitor_command,
}

-- What service_priority does where it cannot go on: service_add, where the service was active.
unfoldable pub add_again : Answers → Bool → Str → Files → Files
unfolding service_add
add_again a active name f = if active then files_of (service_add a name f) else f

-- service_priority, after the file was written.
unfoldable pub add_written : Answers → Bool → Str → Files → Outcome
unfolding service_add
add_written a active name f = if active then service_add a name f else done f

-- service_priority, with the result of apr_file_puts.
unfoldable pub put_priority : Answers → Bool → Str → Str → Option ℕ → Files → Outcome
unfolding add_again add_written
put_priority a active name priority none f =
    add_written a active name (record f { priority = some priority })
put_priority a active name priority (some n) f =
    died (add_again a active name (record f { priority = some (take n priority) }))

module _ (an : ℕ → Answers) where
  -- service_priority, from apr_file_open on.
  unfoldable pub write_priority : Bool → Str → Str → Files → Outcome
  unfolding put_priority add_again
  write_priority active name priority f =
      if (an 3).can_create
      then put_priority (an 4) active name priority (an 3).put_stops f
      else died (add_again (an 4) active name f)

  unfoldable pub priority_known : Option Bool → Str → Str → Files → Outcome
  unfolding write_priority service_remove
  priority_known none name priority f = died f
  priority_known (some active) name priority f =
      if active
      then and_then (service_remove (an 2) name f) (write_priority active name priority)
      else write_priority active name priority f

  -- service_priority
  unfoldable pub service_priority : Str → Str → Files → Outcome
  unfolding priority_known service_active
  service_priority name priority f = priority_known (service_active (an 1) name f) name priority f

  -- --start
  unfoldable pub start_inactive : Str → Files → Outcome
  unfolding service_create_up service_add monitor_command
  start_inactive name f = and_then (service_create_up (an 2) f) (λ f'.
      and_then (service_add (an 3) name f')
        (monitor_command (an 4).control false monitor_cmd_wakeup))

  unfoldable pub start : Option Bool → Str → Files → Outcome
  unfolding start_inactive
  start none name f = died f
  start (some active) name f = if active then done f else start_inactive name f

  -- --stop
  unfoldable pub stop : Str → Files → Outcome
  unfolding service_remove_up service_remove monitor_command
  stop name f = and_then (service_remove_up (an 2) f) (λ f'.
      and_then (service_remove (an 3) name f')
        (monitor_command (an 4).control true monitor_cmd_terminate))

  -- The commands for an active service, in the order of the tests.
  unfoldable pub active_command : ℕ → ℕ → ℕ → Str → Files → Outcome
  unfolding stop service_create_up service_remove_up monitor_command
  active_command sigterm selected signum name f =
      let restart =
        and_then (service_create_up (an 2) f)
          (monitor_command (an 3).control false monitor_cmd_kill) in
      let kill =
        and_then (service_create_up (an 2) f)
          (monitor_command (an 3).control true monitor_cmd_terminate) in
      let signal = monitor_command (an 3).control false signum f in
      let sigterm_signal =
        and_then (service_remove_up (an 2) f) (monitor_command (an 3).control false signum) in
      let term =
        and_then (service_remove_up (an 2) f) (monitor_command (an 3).control false sigterm) in
      if has selected cmd_up
      then service_create_up (an 2) f
      else if has selected cmd_down
      then service_remove_up (an 2) f
      else if has selected cmd_restart
      then restart
      else if has selected cmd_stop
      then stop name f
      else if has selected cmd_kill
      then kill
      else if has selected cmd_signal
      then signal
      else if has selected cmd_sigterm
      then sigterm_signal
      else if has selected cmd_term
      then term
      else done f

  unfoldable pub if_active : Option Bool → ℕ → ℕ → ℕ → Str → Files → Outcome
  unfolding active_command
  if_active none sigterm selected signum name f = died f
  if_active (some active) sigterm selected signum name f =
      if active then active_command sigterm selected signum name f else died f

  -- What service_exists found is true.
  unfoldable pub existing_action : ℕ → ℕ → ℕ → Str → Str → Files → Outcome
  unfolding service_priority start if_active service_active
  existing_action sigterm selected signum name priority f =
      if has selected cmd_priority
      then service_priority name priority f
      else if has selected cmd_start
      then start (service_active (an 1) name f) name f
      else if_active (service_active (an 1) name f) sigterm selected signum name f

  -- service_exists: `none` is an error message of its own.
  unfoldable pub service_exists : Files → Option Bool
  service_exists f =
      if (an 0).can_stat
      then (elim f.service [ none ↦ some false | some is_dir ↦ some is_dir ])
      else none

  -- command_action, with what service_exists returns.
  unfoldable pub exists_known : Option Bool → ℕ → ℕ → ℕ → Str → Str → Files → Outcome
  unfolding existing_action
  exists_known none sigterm selected signum name priority f = died f
  exists_known (some exists) sigterm selected signum name priority f =
      if exists then existing_action sigterm selected signum name priority f else died f

  -- command_action
  unfoldable pub command_action : ℕ → ℕ → ℕ → Str → Str → Files → Outcome
  unfolding exists_known service_exists
  command_action sigterm selected signum name priority f =
      exists_known (service_exists f) sigterm selected signum name priority f
