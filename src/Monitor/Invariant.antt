-- ===== src/Monitor/Invariant.antt =====
-- What holds of the suspension timer in srvctl/src/monitor.c between any two calls, with the signal
-- handler run in between.
pub mod Steps
use mathlib.Core.Option
use ngim.Base.{
  ℕ, zero, suc, ◌+◌, ◌≤◌, ◌<◌, ◌≡◌, refl, ◌∙◌, inl, inr, Bool, true, false, Option, none, some,
  List, [], ◌∷◌, ◌++◌, ltb, ◌==◌, ◌&&◌, ◌||◌, not, if◌then◌else◌, arith, Bool-cases, Option-cases,
  if-ind, Gives, Gives-some, Gives-none,
}
use ngim.Tai.{Tain}
use ngim.Monitor.{
  monitor_cmd_kill, monitor_cmd_terminate, monitor_cmd_wakeup, Monitor, Child, Which, run_child,
  log_child, Signals, child, set_child, init, child_suspension,
}
use ngim.Monitor.Children.{
  close_pipe, create_pipe, write_status, child_exited, check_children, create_procattr_run,
  create_procattr_log, File, missing, unknown, special, regular, Launch, created, start_file,
  count_start, start_child, Answers, PipeMade, start_log, start_run, start_children, run_attr_made,
  made, not_made, inheritable,
}
use ngim.Monitor.Commands.{
  signal_child, terminate_loop, reset_suspension, terminate_child, terminate_children,
  terminate_log, parse_command, wait_for_command, Wait, Waits, Input, interrupted, poll_failed,
  read_failed, command, termination_signals,
}
use ngim.Monitor.Starts.{start_run-ind}
use ngim.Monitor.Timer.{write_command, check_suspension, handle_alarm, handler, alarm_fires}
use ngim.Monitor.Loop.{Step, Reach, reap, start, wait, alarm, signal, begin, step}

-- A suspended child, or one that was started lately, has the timer running; a suspended child was
-- not started; and the suspension has not lasted its full time.
pub record ChildTimed (timer : Bool) (c : Child) : Type 0 where
  pub suspended_timed : c.suspended ≡ true → timer ≡ true
  pub starts_timed : 0 < c.starts → timer ≡ true
  pub suspended_idle : c.suspended ≡ true → c.starts ≡ 0
  pub periods_below : c.suspended_periods < child_suspension
  pub periods_idle : c.suspended ≡ false → c.suspended_periods ≡ 0

-- The flag of the timer says whether an alarm is pending, and both children are timed.
pub record Timed (m : Monitor) : Type 0 where
  pub timer_iff : m.flag_timer ≡ m.alarm_pending
  pub run_timed : ChildTimed m.flag_timer m.run
  pub log_timed : ChildTimed m.flag_timer m.log

pub init-Timed : (now : Tain) → Timed (write_status now init)
unfolding write_status
init-Timed now = ground arith

child_exited-Timed : (now : Tain) (pid : ℕ) (m : Monitor) → Timed m → Timed (child_exited now pid m)
unfolding child_exited
child_exited-Timed now pid m h = ground arith

pub check_children-Timed :
    (now : Tain) (pids : List ℕ) (m : Monitor) → Timed m → Timed (check_children now pids m)
unfolding check_children
check_children-Timed now [] m h = h
check_children-Timed now (pid ∷ pids) m h =
    check_children-Timed now pids (child_exited now pid m) (child_exited-Timed now pid m h)

start_child-Timed :
    (now : Tain) (w : Which) (launch : Launch) (m : Monitor)
    → (child w m).suspended ≡ false
    → Timed m
    → Timed (start_child now w launch m)
unfolding start_child
start_child-Timed now run_child launch m idle h = ground arith
start_child-Timed now log_child launch m idle h = ground arith

create_procattr_log-Timed :
    (answer : PipeMade) (attr : Bool) (m : Monitor)
    → Timed m
    → Timed (create_procattr_log answer attr m).0
unfolding create_procattr_log
create_procattr_log-Timed made attr m h = ground arith
create_procattr_log-Timed not_made attr m h = ground arith
create_procattr_log-Timed inheritable attr m h = ground arith

create_procattr_log-suspended :
    (answer : PipeMade) (attr : Bool) (m : Monitor)
    → (create_procattr_log answer attr m).0.log.suspended ≡ m.log.suspended
unfolding create_procattr_log
create_procattr_log-suspended made attr m = ground arith
create_procattr_log-suspended not_made attr m = ground arith
create_procattr_log-suspended inheritable attr m = ground arith

log_made-Timed :
    (now : Tain) (launch : Launch) (p : Monitor × Bool)
    → p.0.log.suspended ≡ false
    → Timed p.0
    → Timed (if p.1 then start_child now log_child launch p.0 else p.0)
log_made-Timed now launch (m, true) idle h = start_child-Timed now log_child launch m idle h
log_made-Timed now launch (m, false) idle h = h

start_log-Timed : (now : Tain) (a : Answers) (m : Monitor) → Timed m → Timed (start_log now a m)
unfolding start_log
start_log-Timed now a m h =
    if-ind Timed (not m.log.suspended && m.log.pid == 0 && (m.run.pid == 0 || m.flag_forward))
      (λ t.
        log_made-Timed now a.log_launch (create_procattr_log a.pipe a.log_attr m)
          (create_procattr_log-suspended a.pipe a.log_attr m ∙ (ground arith))
          (create_procattr_log-Timed a.pipe a.log_attr m h))
      (λ _. h)

set_forward-Timed : (f : Bool) (m : Monitor) → Timed m → Timed (record m { flag_forward = f })
set_forward-Timed f m h = ground arith

start_run-Timed :
    (now : Tain) (a : Answers) (m : Monitor) → Timed m → Gives Timed (start_run now a m)
start_run-Timed now a m h =
    start_run-ind Timed now a m h (λ f. set_forward-Timed f m h)
      (λ f idle.
        start_child-Timed now run_child a.run_launch (record m { flag_forward = f }) idle
          (set_forward-Timed f m h))

pub start_children-Timed :
    (now : Tain) (a : Answers) (m : Monitor) → Timed m → Gives Timed (start_children now a m)
unfolding start_children
start_children-Timed now a m h =
    if-ind (Gives Timed) (m.flag_intr || not a.up) (λ _. Gives-some Timed m h)
      (λ _. start_run-Timed now a (start_log now a m) (start_log-Timed now a m h))

pub signal_child-Timed :
    (w : Which) (sig : ℕ) (m : Monitor) → Timed m → Timed (signal_child w sig m)
unfolding signal_child
signal_child-Timed run_child sig m h = ground arith
signal_child-Timed log_child sig m h = ground arith

pub write_command-Timed : (cmd : ℕ) (m : Monitor) → Timed m → Timed (write_command cmd m)
unfolding write_command
write_command-Timed cmd m h = ground arith

pub set_intr-Timed : (m : Monitor) → Timed m → Timed (record m { flag_intr = true })
set_intr-Timed m h = ground arith

pub set_ignchld-Timed : (m : Monitor) → Timed m → Timed (record m { flag_ignchld = true })
set_ignchld-Timed m h = ground arith

pub set_stop-Timed :
    (m : Monitor) → Timed m → Timed (record m { flag_stop = true; pipe_stdin = false })
set_stop-Timed m h = ground arith

pub close_pipe-Timed : (m : Monitor) → Timed m → Timed (close_pipe m)
unfolding close_pipe
close_pipe-Timed m h = ground arith

pub handle_alarm-Timed :
    (m : Monitor)
    → m.alarm_pending ≡ true
    → Timed m
    → Timed (handle_alarm (record m { alarm_pending = false }))
unfolding handle_alarm
handle_alarm-Timed m p h = ground arith
