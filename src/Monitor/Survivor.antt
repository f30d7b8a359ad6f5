-- ===== src/Monitor/Survivor.antt =====
-- What a log that survives SIGKILL comes to in srvctl/src/monitor.c: parse_command has closed the
-- pipe, and the process is still there.
use mathlib.Core.Option
use ngim.Base.{
  ℕ, ◌≡◌, ◌≢◌, refl, ap, ◌∙◌, true, false, Option, none, some, List, [], ◌∷◌, arith, Gives,
  Gives-some, Gives-none, if_false,
}
use ngim.Tai.{Tain}
use ngim.Monitor.{Monitor, Which, run_child, log_child, Signals, monitor_cmd_kill}
use ngim.Monitor.Children.{
  close_pipe, create_procattr_run, Answers, start_log, run_attr_made, start_run, start_children,
  check_children, child_exited,
}
use ngim.Monitor.Commands.{
  signal_child, Waits, terminate_loop, reset_suspension, terminate_child, terminate_children,
  terminate_log, termination_signals, parse_command,
}
use ngim.Monitor.Kills.{terminate_loop-Gives}

-- A state without the pipe.
abbrev pub IsClosed : Monitor → Type 0
IsClosed m = m.pipe_write_end ≡ false

-- A state without the pipe, where run is not suspended.
abbrev pub IsLost : Monitor → Type 0
IsLost m = (m.pipe_write_end ≡ false) × (m.run.suspended ≡ false)

signal_child-IsLost : (w : Which) (sig : ℕ) (m : Monitor) → IsLost m → IsLost (signal_child w sig m)
unfolding signal_child
signal_child-IsLost w sig m h = ground arith

signal_child-IsClosed :
    (w : Which) (sig : ℕ) (m : Monitor) → IsClosed m → IsClosed (signal_child w sig m)
unfolding signal_child
signal_child-IsClosed w sig m h = ground arith

child_exited-IsLost :
    (now : Tain) (pid : ℕ) (m : Monitor) → IsLost m → IsLost (child_exited now pid m)
unfolding child_exited
child_exited-IsLost now pid m h = ground arith

child_exited-IsClosed :
    (now : Tain) (pid : ℕ) (m : Monitor) → IsClosed m → IsClosed (child_exited now pid m)
unfolding child_exited
child_exited-IsClosed now pid m h = ground arith

check_children-keeps :
    (P : Monitor → Type 0)
    → ((now : Tain) (pid : ℕ) (m : Monitor) → P m → P (child_exited now pid m))
    → (now : Tain) (pids : List ℕ) (m : Monitor) → P m
    → P (check_children now pids m)
unfolding check_children
check_children-keeps P exited now [] m h = h
check_children-keeps P exited now (pid ∷ pids) m h =
    check_children-keeps P exited now pids (child_exited now pid m) (exited now pid m h)

start_log_running : (now : Tain) (a : Answers) (m : Monitor) → m.log.pid ≢ 0 → start_log now a m ≡ m
unfolding start_log
start_log_running now a m up = ground arith

start_run_fails :
    (now : Tain) (a : Answers) (m : Monitor)
    → IsLost m
    → m.log.pid ≢ 0
    → m.run.pid ≡ 0
    → a.run_attr ≡ true
    → start_run now a m ≡ none
unfolding start_run create_procattr_run run_attr_made
start_run_fails now a m lost up down attr = ground arith

module _ (s : Signals) where
  reset-IsLost :
      (o : Option Monitor)
      → Gives IsClosed o
      → Gives IsLost (Option.map (reset_suspension s run_child) o)
  unfolding reset_suspension
  reset-IsLost none h = Gives-none IsLost
  reset-IsLost (some m) h = Gives-some IsLost (reset_suspension s run_child m) (h m refl, refl)

  reset_log-IsLost :
      (o : Option Monitor)
      → Gives IsLost o
      → Gives IsLost (Option.map (reset_suspension s log_child) o)
  unfolding reset_suspension
  reset_log-IsLost none h = Gives-none IsLost
  reset_log-IsLost (some m) h = Gives-some IsLost (reset_suspension s log_child m) (h m refl)

  terminate_log-IsLost :
      (waits : Waits) (o : Option Monitor) → Gives IsLost o → Gives IsLost (terminate_log s waits o)
  unfolding terminate_log terminate_child
  terminate_log-IsLost waits none h = Gives-none IsLost
  terminate_log-IsLost waits (some m) h =
      let m0 : Monitor = record m { flag_ignchld = true } in
      reset_log-IsLost (terminate_loop s log_child (termination_signals s) 0 waits.log_waits m0) (
        terminate_loop-Gives s IsLost signal_child-IsLost
          (check_children-keeps IsLost child_exited-IsLost) log_child (termination_signals s) 0
          waits.log_waits m0 (h m refl))

  terminate_children-IsLost :
      (waits : Waits) (m : Monitor) → Gives IsLost (terminate_children s waits m)
  unfolding terminate_children terminate_child close_pipe
  terminate_children-IsLost waits m =
      let m0 : Monitor = record (close_pipe m) { flag_ignchld = true } in
      terminate_log-IsLost waits (terminate_child s run_child waits.run_waits (close_pipe m)) (
        reset-IsLost (terminate_loop s run_child (termination_signals s) 0 waits.run_waits m0) (
          terminate_loop-Gives s IsClosed signal_child-IsClosed
            (check_children-keeps IsClosed child_exited-IsClosed) run_child (termination_signals s)
            0 waits.run_waits m0 refl))

  -- Where the command to kill is carried out and the log is still there afterwards, while run is
  -- not, the next start_children fails the assertion that there is a pipe, if the service is still
  -- wanted up, no signal asked the monitor to stop, and APR makes the attributes.
  pub survivor_fails :
      (waits : Waits) (m m' : Monitor)
      → parse_command s monitor_cmd_kill waits m ≡ some m'
      → m'.log.pid ≢ 0
      → m'.run.pid ≡ 0
      → m'.flag_intr ≡ false
      → (now : Tain) (a : Answers) → a.up ≡ true
      → a.run_attr ≡ true
      → start_children now a m' ≡ none
  unfolding parse_command start_children
  survivor_fails waits m m' e up down intr now a wanted attr =
      let lost : IsLost m' = terminate_children-IsLost waits m m' e in
      if_false (some m') (start_run now a (start_log now a m')) (ground arith)
      ∙ (ap (start_run now a) (start_log_running now a m' up)
          ∙ start_run_fails now a m' lost up down attr)
