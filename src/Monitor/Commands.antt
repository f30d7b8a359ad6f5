-- ===== src/Monitor/Commands.antt =====
-- The control commands of srvctl/src/monitor.c: signal_child, terminate_child, parse_command and
-- wait_for_command.
use mathlib.Core.Option
use ngim.Base.{
  ℕ, true, false, Option, none, some, List, [], ◌∷◌, ◌++◌, ltb, ◌==◌, ◌+◌, ◌&&◌, ◌||◌,
  if◌then◌else◌,
}
use ngim.Tai.{Tain}
use ngim.Monitor.{
  Monitor, Which, run_child, log_child, Signals, child, set_child, monitor_cmd_kill,
  monitor_cmd_terminate, monitor_cmd_wakeup,
}
use ngim.Monitor.Children.{close_pipe, check_children}

-- signal_child
unfoldable pub signal_child : Which → ℕ → Monitor → Monitor
signal_child w sig m =
    if (child w m).pid == 0
    then m
    else record m { kills = m.kills ++ (((child w m).pid, sig) ∷ []) }

-- The array `sigs` of terminate_child.
abbrev pub termination_signals : Signals → List ℕ
termination_signals s = s.sigterm ∷ s.sigterm ∷ s.sigint ∷ s.sigquit ∷ s.sigkill ∷ []

-- What one wait of terminate_child finds: the time, and the processes that exited.
pub record Wait : Type 0 where
  pub now : Tain
  pub exited : List ℕ

-- The waits of the rounds of terminate_child, for each child.
pub record Waits : Type 0 where
  pub run_waits : ℕ → Wait
  pub log_waits : ℕ → Wait

-- What poll and read come to in wait_for_command.
pub data Input : Type 0 where
  interrupted poll_failed read_failed : Input
  command : ℕ → Input

module _ (s : Signals) where
  -- The loop of terminate_child, from the round `i` on, with what is left of `sigs`. `none` is a
  -- read past the end of `sigs`.
  unfoldable pub terminate_loop : Which → List ℕ → ℕ → (ℕ → Wait) → Monitor → Option Monitor
  terminate_loop w [] i waits m = if (child w m).pid == 0 then some m else none
  terminate_loop w (sig ∷ sigs) i waits m =
      let m' = check_children (waits i).now (waits i).exited (signal_child w sig m) in
      let again = terminate_loop w sigs (i + 1) waits m' in
      if (child w m).pid == 0 then some m else if sig == s.sigkill then some m' else again

  -- "Reset suspension", and `flag_ignchld`.
  unfoldable pub reset_suspension : Which → Monitor → Monitor
  reset_suspension w m =
      record (set_child w
        (record (child w m) { starts = 0; suspended = false; suspended_periods = 0 }) m) {
          flag_ignchld = false;
        }

  -- terminate_child
  unfoldable pub terminate_child : Which → (ℕ → Wait) → Monitor → Option Monitor
  unfolding reset_suspension
  terminate_child w waits m =
      Option.map (reset_suspension w)
        (terminate_loop w (termination_signals s) 0 waits (record m { flag_ignchld = true }))

  unfoldable pub terminate_log : Waits → Option Monitor → Option Monitor
  terminate_log waits none = none
  terminate_log waits (some m) = terminate_child log_child waits.log_waits m

  -- The branch of parse_command that terminates both children.
  unfoldable pub terminate_children : Waits → Monitor → Option Monitor
  unfolding terminate_log
  terminate_children waits m =
      terminate_log waits (terminate_child run_child waits.run_waits (close_pipe m))

  -- parse_command
  unfoldable pub parse_command : ℕ → Waits → Monitor → Option Monitor
  parse_command cmd waits m =
      let m' =
        if cmd == monitor_cmd_terminate
        then record m { flag_stop = true; pipe_stdin = false }
        else m in
      if cmd == monitor_cmd_kill || m'.flag_stop
      then terminate_children waits m'
      else if cmd == monitor_cmd_wakeup
      then some m'
      else if ltb 0 cmd && ltb cmd s.nsig
      then some (signal_child run_child cmd m')
      else some m'

  -- wait_for_command
  unfoldable pub wait_for_command : Input → Waits → Monitor → Option Monitor
  wait_for_command (command cmd) waits m = parse_command cmd waits m
  wait_for_command interrupted waits m = some m
  wait_for_command poll_failed waits m = some m
  wait_for_command read_failed waits m = some m
