-- ===== src/Monitor/Invariant/Steps.antt =====
-- Every call of the main loop in srvctl/src/monitor.c, and every signal, keeps the suspension timer
-- as it has to be.
use mathlib.Core.Option
use ngim.Base.{
  ℕ, ◌≡◌, refl, true, false, Option, none, some, List, ltb, ◌==◌, ◌&&◌, ◌||◌, if◌then◌else◌, arith,
  if-ind, Gives, Gives-some, Gives-none,
}
use ngim.Tai.{Tain}
use ngim.Monitor.{
  monitor_cmd_kill, monitor_cmd_terminate, monitor_cmd_wakeup, Monitor, Which, run_child, log_child,
  Signals,
}
use ngim.Monitor.Children.{close_pipe}
use ngim.Monitor.Commands.{
  signal_child, terminate_loop, reset_suspension, terminate_child, terminate_children,
  terminate_log, parse_command, wait_for_command, Wait, Waits, Input, interrupted, poll_failed,
  read_failed, command, termination_signals,
}
use ngim.Monitor.Kills.{terminate_loop-Gives}
use ngim.Monitor.Timer.{handler, alarm_fires}
use ngim.Monitor.Loop.{Step, Reach, reap, start, wait, alarm, signal, begin, step}
use ngim.Monitor.Invariant.{
  Timed, init-Timed, check_children-Timed, start_children-Timed, signal_child-Timed,
  write_command-Timed, set_intr-Timed, set_ignchld-Timed, set_stop-Timed, close_pipe-Timed,
  handle_alarm-Timed,
}

module _ (s : Signals) where
  handler-Timed :
      (sig : ℕ) (m : Monitor) → (sig ≡ s.sigalrm → ⊥) → Timed m → Timed (handler s sig m)
  unfolding handler
  handler-Timed sig m other h =
      if-ind Timed (sig == s.sigalrm) (λ e. absurd (other (ground arith)))
        (λ _.
          if-ind Timed (sig == s.sigchld)
            (λ _.
              if-ind Timed m.flag_ignchld (λ _. h)
                (λ _. write_command-Timed monitor_cmd_wakeup m h))
            (λ _.
              if-ind Timed (sig == s.sighup) (λ _. write_command-Timed monitor_cmd_wakeup m h)
                (λ _.
                  if-ind Timed (sig == s.sigint || (sig == s.sigterm || sig == s.sigquit))
                    (λ _.
                      write_command-Timed monitor_cmd_terminate (record m { flag_intr = true })
                        (set_intr-Timed m h))
                    (λ _. h))))

  terminate_loop-Timed :
      (w : Which) (sigs : List ℕ) (i : ℕ) (waits : ℕ → Wait) (m : Monitor)
      → Timed m
      → Gives Timed (terminate_loop s w sigs i waits m)
  terminate_loop-Timed = terminate_loop-Gives s Timed signal_child-Timed check_children-Timed

  reset_suspension-Timed : (w : Which) (m : Monitor) → Timed m → Timed (reset_suspension s w m)
  unfolding reset_suspension
  reset_suspension-Timed run_child m h = ground arith
  reset_suspension-Timed log_child m h = ground arith

  reset-Gives :
      (w : Which) (o : Option Monitor)
      → Gives Timed o
      → Gives Timed (Option.map (reset_suspension s w) o)
  reset-Gives w none h = Gives-none Timed
  reset-Gives w (some m) h =
      Gives-some Timed (reset_suspension s w m) (reset_suspension-Timed w m (h m refl))

  terminate_child-Timed :
      (w : Which) (waits : ℕ → Wait) (m : Monitor)
      → Timed m
      → Gives Timed (terminate_child s w waits m)
  unfolding terminate_child
  terminate_child-Timed w waits m h =
      reset-Gives w
        (terminate_loop s w (termination_signals s) 0 waits (record m { flag_ignchld = true }))
        (terminate_loop-Timed w (termination_signals s) 0 waits (record m { flag_ignchld = true })
          (set_ignchld-Timed m h))

  terminate_log-Timed :
      (waits : Waits) (o : Option Monitor) → Gives Timed o → Gives Timed (terminate_log s waits o)
  unfolding terminate_log
  terminate_log-Timed waits none h = Gives-none Timed
  terminate_log-Timed waits (some m) h =
      terminate_child-Timed log_child waits.log_waits m (h m refl)

  terminate_children-Timed :
      (waits : Waits) (m : Monitor) → Timed m → Gives Timed (terminate_children s waits m)
  unfolding terminate_children
  terminate_children-Timed waits m h =
      terminate_log-Timed waits (terminate_child s run_child waits.run_waits (close_pipe m))
        (terminate_child-Timed run_child waits.run_waits (close_pipe m) (close_pipe-Timed m h))

  parse_command-Timed :
      (cmd : ℕ) (waits : Waits) (m : Monitor) → Timed m → Gives Timed (parse_command s cmd waits m)
  unfolding parse_command
  parse_command-Timed cmd waits m h =
      let m' : Monitor =
        if cmd == monitor_cmd_terminate
        then record m { flag_stop = true; pipe_stdin = false }
        else m in
      let h' : Timed m' =
        if-ind Timed (cmd == monitor_cmd_terminate) (λ _. set_stop-Timed m h) (λ _. h) in
      if-ind (Gives Timed) (cmd == monitor_cmd_kill || m'.flag_stop)
        (λ _. terminate_children-Timed waits m' h')
        (λ _.
          if-ind (Gives Timed) (cmd == monitor_cmd_wakeup) (λ _. Gives-some Timed m' h')
            (λ _.
              if-ind (Gives Timed) (ltb 0 cmd && ltb cmd s.nsig)
                (λ _.
                  Gives-some Timed (signal_child run_child cmd m')
                    (signal_child-Timed run_child cmd m' h'))
                (λ _. Gives-some Timed m' h')))

  wait_for_command-Timed :
      (input : Input) (waits : Waits) (m : Monitor)
      → Timed m
      → Gives Timed (wait_for_command s input waits m)
  unfolding wait_for_command
  wait_for_command-Timed interrupted waits m h = Gives-some Timed m h
  wait_for_command-Timed poll_failed waits m h = Gives-some Timed m h
  wait_for_command-Timed read_failed waits m h = Gives-some Timed m h
  wait_for_command-Timed (command cmd) waits m h = parse_command-Timed cmd waits m h

  alarm_fires-Timed : (m : Monitor) → m.alarm_pending ≡ true → Timed m → Timed (alarm_fires s m)
  unfolding alarm_fires
  alarm_fires-Timed m p h =
      if-ind Timed (s.sigalrm == s.sigalrm) (λ _. handle_alarm-Timed m p h)
        (λ e. let no : ⊥ = ground arith in absurd no)

  Step-Timed : {m m' : Monitor} → Step s m m' → Timed m → Timed m'
  Step-Timed {m} (reap now exited) h = check_children-Timed now exited m h
  Step-Timed {m} {m'} (start now a e) h = start_children-Timed now a m h m' e
  Step-Timed {m} {m'} (wait input waits e) h = wait_for_command-Timed input waits m h m' e
  Step-Timed {m} (alarm p) h = alarm_fires-Timed m p h
  Step-Timed {m} (signal sig other) h = handler-Timed sig m other h

  -- In every state that the monitor can reach, whatever the system answers and whenever signals
  -- come: the flag of the timer says whether an alarm is pending; the timer runs while a child is
  -- suspended or was started since the last alarm; a suspended child was not started; and the
  -- periods of a suspension stay below its full length, and are 0 without one.
  pub Reach-Timed : {now : Tain} {m : Monitor} → Reach s now m → Timed m
  Reach-Timed {now} begin = init-Timed now
  Reach-Timed (step r e) = Step-Timed e (Reach-Timed r)
