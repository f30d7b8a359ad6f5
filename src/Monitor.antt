-- ===== src/Monitor.antt =====
-- srvctl/src/monitor.c: the state of the supervisor of one service, and what it does to the world.
-- Flags are the C ints 0 and 1. The operations are in the modules below; what the kernel and APR
-- answer is an argument of theirs, and a failed assertion is the result `none`.
pub mod Children
pub mod Commands
pub mod Timer
pub mod Loop
pub mod Starts
pub mod Invariant
pub mod Suspension
pub mod Kills
pub mod Terminate
pub mod Pipe
pub mod Survivor
pub mod StatusFile
pub mod Setup
pub mod Made
pub mod Exclusive
mod Examples
mod SetupExamples
use ngim.Base.{ℕ, Bool, true, false, List, [], ◌∷◌, ◌++◌, ◌+◌, ◌%◌, ◌^◌, ◌==◌, not, if◌then◌else◌}
use ngim.Tai.{Tain}

-- PAUSE_*, TIMEOUT_POLL and TIMER_CHILD are lengths of waits, and no state depends on them.
abbrev pub child_maxstarts : ℕ
child_maxstarts = 2

abbrev pub child_suspension : ℕ
child_suspension = 3

-- The control commands of srvctl.h.
abbrev pub monitor_cmd_kill : ℕ
monitor_cmd_kill = b'k'

abbrev pub monitor_cmd_terminate : ℕ
monitor_cmd_terminate = b'x'

abbrev pub monitor_cmd_wakeup : ℕ
monitor_cmd_wakeup = b'w'

-- The numbers that the system's signal.h defines.
pub record Signals : Type 0 where
  pub sigterm : ℕ
  pub sigint : ℕ
  pub sigquit : ℕ
  pub sigkill : ℕ
  pub sigalrm : ℕ
  pub sigchld : ℕ
  pub sighup : ℕ
  pub nsig : ℕ

-- child_proc. A `pid` of 0 is a process that does not run; `starts` is a uint32_t.
pub record Child : Type 0 where
  pub pid : ℕ
  pub changed : Tain
  pub starts : ℕ
  pub suspended : Bool
  pub suspended_periods : ℕ

-- The two children, `run` and `log`.
pub data Which : Type 0 where
  run_child log_child : Which

-- What the status file says: the two pids and the flag.
pub record Status : Type 0 where
  pub updated : Tain
  pub run_changed : Tain
  pub log_changed : Tain
  pub run_pid : ℕ
  pub log_pid : ℕ
  pub forward : Bool

-- The static variables of monitor.c, with what it did to the world: whether an alarm is pending,
-- the commands that it wrote to its own pipe, the signals that it sent with their pids, and the
-- status files that it set out to write.
pub record Monitor : Type 0 where
  pub flag_stop : Bool
  pub flag_intr : Bool
  pub flag_forward : Bool
  pub flag_ignchld : Bool
  pub flag_timer : Bool
  pub pipe_stdin : Bool
  pub pipe_read_end : Bool
  pub pipe_write_end : Bool
  pub run : Child
  pub log : Child
  pub alarm_pending : Bool
  pub control : List ℕ
  pub kills : List (ℕ × ℕ)
  pub statuses : List Status

abbrev pub child : Which → Monitor → Child
child run_child m = m.run
child log_child m = m.log

abbrev pub set_child : Which → Child → Monitor → Monitor
set_child run_child c m = record m { run = c }
set_child log_child c m = record m { log = c }

-- child_init, of a time stamp of zeros.
abbrev pub child_init : Child
child_init = record {
  pid = 0;
  changed = record { sec = record { x = 0 }; nano = 0 };
  starts = 0;
  suspended = false;
  suspended_periods = 0;
}

-- The state after the setup in monitor(), before the first status is written.
abbrev pub init : Monitor
init = record {
  flag_stop = false;
  flag_intr = false;
  flag_forward = false;
  flag_ignchld = false;
  flag_timer = false;
  pipe_stdin = true;
  pipe_read_end = false;
  pipe_write_end = false;
  run = child_init;
  log = child_init;
  alarm_pending = false;
  control = [];
  kills = [];
  statuses = [];
}
