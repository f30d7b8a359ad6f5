-- ===== src/Monitor/SetupExamples.antt =====
-- Setups of the monitor in srvctl/src/monitor.c: a first monitor in a new directory, and a second one.
use ngim.Base.{◌≡◌, refl, true, false, none, some, [], arith}
use ngim.Create.{FileProt, Calls, directory, pipe, create_directory, create_pollset_file_in}
use ngim.Monitor.{Signals}
use ngim.Monitor.Exclusive.{
  all_handles, IsReady, setup_monitor-IsReady, setup_monitor_second, Runs, IsRunning,
  monitor-IsRunning,
}
use ngim.Monitor.Made.{Readies, Dies}
use ngim.Monitor.Setup.{
  Directory, SetupAnswers, ready, setup_monitor, create_namedpipe, MonitorAnswers, monitor,
}

abbrev bits : FileProt
bits = record { uread = 1024; uwrite = 512; uexecute = 256; gread = 64; gexecute = 16 }

-- The umask takes nothing away.
abbrev succeeds : Calls
succeeds = record {
  stat_fails = false;
  can_make = true;
  left_perms = λ perms. perms;
  can_set = true;
  can_open = true;
}

abbrev all_succeed : SetupAnswers
all_succeed = record {
  dir = succeeds;
  can_open_lock = true;
  lock_fails = false;
  control = succeeds;
  can_create_pollset = true;
  can_add_pollset = true;
  stdin = succeeds;
  can_create_pool = true;
}

abbrev new_service : Directory
new_service = record { dir = none; lock = none; control = none; stdin = none }

abbrev with_monitor : Directory
with_monitor = record {
  dir = some (record { filetype = directory; perms = 1872 });
  lock = some 41;
  control = some (record { filetype = pipe; perms = 1536 });
  stdin = some (record { filetype = pipe; perms = 1536 });
}

first_setup : setup_monitor bits 41 all_succeed new_service ≡ ready with_monitor all_handles
unfolding setup_monitor create_directory create_namedpipe create_pollset_file_in
first_setup = refl

setup_monitor-IsReady_example :
    Readies
      (IsReady bits 41 all_succeed new_service)
      (setup_monitor bits 41 all_succeed new_service)
setup_monitor-IsReady_example = setup_monitor-IsReady bits 41 all_succeed new_service

setup_monitor_second_example :
    Dies
      (λ d'.
        (d'.lock ≡ some 41)
        × ((d'.control ≡ with_monitor.control) × (d'.stdin ≡ with_monitor.stdin)))
      (setup_monitor bits 42 all_succeed with_monitor)
setup_monitor_second_example =
    setup_monitor_second bits 42 all_succeed with_monitor 41 refl (omega arith)

abbrev linux : Signals
linux = record {
  sigterm = 15;
  sigint = 2;
  sigquit = 3;
  sigkill = 9;
  sigalrm = 14;
  sigchld = 17;
  sighup = 1;
  nsig = 65;
}

abbrev answers : MonitorAnswers
answers = record {
  can_chdir = true;
  has_pool = true;
  setup = all_succeed;
  now = record { sec = record { x = 1 }; nano = 0 };
}

monitor-IsRunning_example :
    Runs
      (IsRunning bits linux 41 answers [] new_service)
      (monitor bits linux 41 answers [] new_service)
monitor-IsRunning_example = monitor-IsRunning bits linux 41 answers [] new_service
