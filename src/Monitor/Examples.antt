-- ===== src/Monitor/Examples.antt =====
-- The monitor of srvctl/src/monitor.c on concrete services: a run that respawns too fast, and a log
-- that survives SIGKILL.
use ngim.Base.{ℕ, ◌≡◌, ◌≢◌, refl, true, false, Option, none, some, [], inr, arith}
use ngim.Tai.{Tain}
use ngim.Monitor.{Monitor, run_child, log_child, Signals, init, child_init, monitor_cmd_kill}
use ngim.Monitor.Children.{
  close_pipe, write_status, regular, Answers, made, start_children, check_children, start_run,
  start_log,
}
use ngim.Monitor.Commands.{
  terminate_loop, signal_child, Wait, Waits, parse_command, terminate_child, terminate_children,
}
use ngim.Monitor.Timer.{handle_alarm, check_suspension, alarm_fires}
use ngim.Monitor.Loop.{Reach, begin, step, start, alarm}
use ngim.Monitor.Invariant.{Timed}
use ngim.Monitor.Invariant.Steps.{Reach-Timed}
use ngim.Monitor.Suspension.{suspension_lasts, IsWaiting, one_alarm, WokenAfter}
use ngim.Monitor.Terminate.{terminate_child-Terminated, Terminated}
use ngim.Monitor.Pipe.{start_children-IsPiped, IsPiped}
use ngim.Monitor.Survivor.{survivor_fails}

abbrev linux : Signals
linux = record {
  sigterm = 15;
  sigint = 2;
  sigquit = 3;
  sigkill = 9;
  sigalrm = 14;
  sigchld = 17;
  sighup = 1;
  nsig = 65;
}

abbrev at : ℕ → Tain
at t = record { sec = record { x = t }; nano = 0 }

-- Both programs are there, and start.
abbrev both_start : Answers
both_start = record {
  up = true;
  pipe = made;
  log_attr = true;
  log_launch = record { file = regular; process = some 101 };
  run_attr = true;
  run_forwarding = true;
  run_launch = record { file = regular; process = some 102 };
}

abbrev or_init : Option Monitor → Monitor
or_init none = init
or_init (some m) = m

abbrev both_run : Monitor
both_run = or_init (start_children (at 2) both_start (write_status (at 1) init))

both_run_reached : Reach linux (at 1) both_run
unfolding start_children write_status start_run start_log
both_run_reached = step begin (start (at 2) both_start refl)

both_run-alarm_pending : both_run.alarm_pending ≡ true
unfolding start_children write_status start_run start_log
both_run-alarm_pending = refl

Reach-Timed_example : Timed (alarm_fires linux both_run)
Reach-Timed_example = Reach-Timed linux (step both_run_reached (alarm both_run-alarm_pending))

-- A run that was started three times since the last alarm.
abbrev respawned : Monitor
respawned = record init {
  run = record child_init { starts = 3 };
  flag_timer = true;
  alarm_pending = true;
}

respawned-Timed : Timed respawned
respawned-Timed = ground arith

-- Between the alarms the loop reads the commands.
abbrev later : Monitor → Monitor
later m = record (one_alarm m) { control = [] }

suspension_lasts_example :
    IsWaiting run_child (later respawned)
    × (IsWaiting run_child (later (later respawned))
        × (IsWaiting run_child (later (later (later respawned)))
            × (((one_alarm (later (later (later respawned)))).run.suspended ≡ false)
                × WokenAfter [] (one_alarm (later (later (later respawned)))).control)))
unfolding handle_alarm check_suspension
suspension_lasts_example =
    suspension_lasts run_child respawned (later respawned) (later (later respawned))
      (later (later (later respawned))) respawned-Timed refl (omega arith)
      (record { timed = ground arith; suspended = refl; periods = refl })
      (record { timed = ground arith; suspended = refl; periods = refl })
      (record { timed = ground arith; suspended = refl; periods = refl })

-- A run that is suspended is not started, while its log is.
abbrev held : Monitor
held = record init { run = record child_init { suspended = true } }

abbrev held_after : Monitor
held_after = or_init (start_children (at 2) both_start held)

held_after_lem : start_children (at 2) both_start held ≡ some held_after
unfolding start_children start_run start_log
held_after_lem = refl

-- No process exits while the monitor waits.
abbrev never : ℕ → Wait
never i = record { now = at i; exited = [] }

abbrev stubborn : Monitor
stubborn = record init {
  log = record child_init { pid = 101 };
  pipe_read_end = true;
  pipe_write_end = true;
}

terminate_child-Terminated_example :
    (m' : Monitor) × ((terminate_child linux log_child never stubborn ≡ some m')
      × Terminated linux log_child stubborn m')
terminate_child-Terminated_example =
    terminate_child-Terminated linux (omega arith) (omega arith) (omega arith) log_child never
      stubborn

start_children-IsPiped_example :
    (m' : Monitor) × ((start_children (at 2) both_start stubborn ≡ some m') × IsPiped m')
start_children-IsPiped_example =
    start_children-IsPiped (at 2) both_start stubborn (refl, inr (refl, refl))

abbrev never_both : Waits
never_both = record { run_waits = never; log_waits = never }

abbrev survived : Monitor
survived = or_init (parse_command linux monitor_cmd_kill never_both stubborn)

survived_lem : parse_command linux monitor_cmd_kill never_both stubborn ≡ some survived
unfolding parse_command terminate_children terminate_child terminate_loop close_pipe check_children
    signal_child
survived_lem = refl

survived-log : survived.log.pid ≢ 0
unfolding parse_command terminate_children terminate_child terminate_loop close_pipe check_children
    signal_child
survived-log = omega arith

survivor_fails_example : start_children (at 3) both_start survived ≡ none
unfolding parse_command terminate_children terminate_child terminate_loop close_pipe check_children
    signal_child
survivor_fails_example =
    survivor_fails linux never_both stubborn survived survived_lem survived-log refl refl (at 3)
      both_start refl refl
