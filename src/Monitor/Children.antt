-- ===== src/Monitor/Children.antt =====
-- The parts of srvctl/src/monitor.c that watch and start the children.
use ngim.Base.{
  ℕ, Bool, true, false, Option, none, some, List, [], ◌∷◌, ◌++◌, ◌+◌, ◌%◌, ◌^◌, ◌==◌, ◌&&◌, ◌||◌,
  not, if◌then◌else◌,
}
use ngim.Tai.{Tain}
use ngim.Monitor.{Monitor, Which, run_child, log_child, child, set_child}

-- close_pipe
unfoldable pub close_pipe : Monitor → Monitor
close_pipe m = record m { pipe_read_end = false; pipe_write_end = false }

-- What making a pipe comes to: it is made, it is not, or it is made and would be inherited.
pub data PipeMade : Type 0 where
  made not_made inheritable : PipeMade

unfoldable pub make_pipe : PipeMade → Monitor → Monitor × Bool
make_pipe made m = (record m { pipe_read_end = true; pipe_write_end = true }, true)
make_pipe not_made m = (m, false)
make_pipe inheritable m = (record m { pipe_read_end = true; pipe_write_end = true }, false)

-- create_pipe
unfoldable pub create_pipe : PipeMade → Monitor → Monitor × Bool
unfolding make_pipe close_pipe
create_pipe answer m =
    if not m.pipe_read_end || not m.pipe_write_end
    then make_pipe answer (close_pipe m)
    else (m, true)

-- write_status at the time `now`: the file that replaces the status file. A failure to write it
-- changes nothing else.
unfoldable pub write_status : Tain → Monitor → Monitor
write_status now m = record m {
  statuses =
      m.statuses
      ++ (record {
        updated = now;
        run_changed = m.run.changed;
        log_changed = m.log.changed;
        run_pid = m.run.pid;
        log_pid = m.log.pid;
        forward = m.flag_forward;
      }
          ∷ []);
}

-- A round of check_children, for a process that exited.
unfoldable pub child_exited : Tain → ℕ → Monitor → Monitor
unfolding write_status
child_exited now pid m =
    if pid == m.run.pid
    then write_status now
        (record m { run = record m.run { changed = now; pid = 0 }; flag_forward = false })
    else if pid == m.log.pid
    then write_status now (record m { log = record m.log { changed = now; pid = 0 } })
    else m

-- check_children, for the processes that the waits report.
unfoldable pub check_children : Tain → List ℕ → Monitor → Monitor
check_children now [] m = m
check_children now (pid ∷ pids) m = check_children now pids (child_exited now pid m)

-- create_procattr_run: whether the attributes are made. `attr` and `forwarding` say whether APR's
-- two groups of calls succeed; `none` is a failed assertion, on pipe_stdin or on the pipe to log.
unfoldable pub create_procattr_run : Bool → Bool → Monitor → Option (Monitor × Bool)
create_procattr_run attr forwarding m =
    if not m.pipe_stdin
    then none
    else if not attr
    then some (record m { flag_forward = false }, false)
    else if m.log.pid == 0
    then some (record m { flag_forward = false }, true)
    else if not m.pipe_write_end
    then none
    else if not forwarding
    then some (record m { flag_forward = false }, false)
    else some (record m { flag_forward = true }, true)

-- create_procattr_log: whether the attributes are made.
unfoldable pub create_procattr_log : PipeMade → Bool → Monitor → Monitor × Bool
unfolding create_pipe
create_procattr_log answer attr m = let (m', ready) = create_pipe answer m in (m', ready && attr)

-- What stat says of a program.
pub data File : Type 0 where
  missing unknown special regular : File

-- How starting a program goes: its file, and the new pid if the process is made.
pub record Launch : Type 0 where
  pub file : File
  pub process : Option ℕ

-- The end of start_child, after apr_proc_create.
unfoldable pub created : Tain → Which → Option ℕ → Monitor → Monitor
unfolding write_status
created now w none m = set_child w (record (child w m) { pid = 0 }) m
created now w (some pid) m =
    write_status now (set_child w (record (child w m) { pid = pid; changed = now }) m)

unfoldable pub start_file : Tain → Which → File → Option ℕ → Monitor → Monitor
unfolding created
start_file now w regular process m = if m.flag_intr then m else created now w process m
start_file now w missing process m = m
start_file now w unknown process m = m
start_file now w special process m = m

-- The timer and the count at the head of start_child.
unfoldable pub count_start : Which → Monitor → Monitor
count_start w m =
    let c = child w m in
    set_child w (record c { starts = (c.starts + 1) % 2 ^ 32 })
      (if m.flag_timer then m else record m { alarm_pending = true; flag_timer = true })

-- start_child
unfoldable pub start_child : Tain → Which → Launch → Monitor → Monitor
unfolding start_file count_start
start_child now w launch m = start_file now w launch.file launch.process (count_start w m)

-- What the system answers while start_children runs.
pub record Answers : Type 0 where
  pub up : Bool
  pub pipe : PipeMade
  pub log_attr : Bool
  pub log_launch : Launch
  pub run_attr : Bool
  pub run_forwarding : Bool
  pub run_launch : Launch

-- The part of start_children for log.
unfoldable pub start_log : Tain → Answers → Monitor → Monitor
unfolding create_procattr_log start_child
start_log now a m =
    if not m.log.suspended && m.log.pid == 0 && (m.run.pid == 0 || m.flag_forward)
    then (let (m', ok) = create_procattr_log a.pipe a.log_attr m in
        if ok then start_child now log_child a.log_launch m' else m')
    else m

unfoldable pub run_attr_made : Tain → Answers → Option (Monitor × Bool) → Option Monitor
unfolding start_child
run_attr_made now a none = none
run_attr_made now a (some (m, ok)) =
    some (if ok then start_child now run_child a.run_launch m else m)

-- The part of start_children for run.
unfoldable pub start_run : Tain → Answers → Monitor → Option Monitor
unfolding create_procattr_run run_attr_made
start_run now a m =
    if not m.run.suspended && m.run.pid == 0
    then run_attr_made now a (create_procattr_run a.run_attr a.run_forwarding m)
    else some m

-- start_children
unfoldable pub start_children : Tain → Answers → Monitor → Option Monitor
start_children now a m =
    if m.flag_intr || not a.up then some m else start_run now a (start_log now a m)
