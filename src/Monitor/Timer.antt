-- ===== src/Monitor/Timer.antt =====
-- The signal handler of srvctl/src/monitor.c and the suspension timer.
use ngim.Base.{ℕ, Bool, true, false, [], ◌∷◌, ◌++◌, ◌+◌, ltb, leb, ◌==◌, ◌||◌, if◌then◌else◌}
use ngim.Monitor.{
  Monitor, Which, run_child, log_child, Signals, child, set_child, child_maxstarts,
  child_suspension, monitor_cmd_terminate, monitor_cmd_wakeup,
}

-- write_command, where apr_file_putc succeeds; else the monitor dies.
unfoldable pub write_command : ℕ → Monitor → Monitor
write_command cmd m = record m { control = m.control ++ (cmd ∷ []) }

-- check_suspension: the new state, and whether the timer is to be restarted.
unfoldable pub check_suspension : Which → Monitor → Monitor × Bool
unfolding write_command
check_suspension w m =
    let c = child w m in
    if c.suspended
    then (if leb child_suspension (c.suspended_periods + 1)
        then (
          write_command monitor_cmd_wakeup
              (set_child w (record c { suspended = false; suspended_periods = 0 }) m),
          false,
        )
        else (set_child w (record c { suspended_periods = c.suspended_periods + 1 }) m, true))
    else if ltb 0 c.starts
    then (
      set_child w
          (record c {
            suspended = if ltb child_maxstarts c.starts then true else c.suspended;
            starts = 0;
          })
          m,
      true,
    )
    else (m, false)

-- handle_alarm
unfoldable pub handle_alarm : Monitor → Monitor
unfolding check_suspension
handle_alarm m =
    let (m1, restart) = check_suspension log_child m in
    let (m2, restart_run) = check_suspension run_child m1 in
    if restart_run || restart
    then record m2 { alarm_pending = true }
    else record m2 { flag_timer = false }

-- handler
unfoldable pub handler : Signals → ℕ → Monitor → Monitor
unfolding handle_alarm write_command
handler s sig m =
    if sig == s.sigalrm
    then handle_alarm m
    else if sig == s.sigchld
    then (if m.flag_ignchld then m else write_command monitor_cmd_wakeup m)
    else if sig == s.sighup
    then write_command monitor_cmd_wakeup m
    else if sig == s.sigint || (sig == s.sigterm || sig == s.sigquit)
    then write_command monitor_cmd_terminate (record m { flag_intr = true })
    else m

-- The alarm goes off: it is no longer pending when the handler runs.
unfoldable pub alarm_fires : Signals → Monitor → Monitor
unfolding handler
alarm_fires s m = handler s s.sigalrm (record m { alarm_pending = false })
