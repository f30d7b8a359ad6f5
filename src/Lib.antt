-- ===== src/Lib.antt =====
-- A model of ngim: the library libbase, and the tools of srvctl, which supervise services.
--
-- Parts, and how they interact
-- libbase/lib/tai.c: labels of time, in binary and as text. The monitor stamps its status file
--   with them, tainlog names and stamps its lines with them, and taiconv reads them back.
--   Tai.antt has the labels, their order and their difference; Tai/Bytes.antt the binary format;
--   Tai/Text.antt the textual one; Tai/Apr.antt the conversion from and to APR's time. The other
--   files under Tai are proofs. A function that writes to an array returns the list of bytes; one
--   that returns a flag and writes a label returns both.
-- libbase/lib/iso8601.c: dates and times as text, which taiconv prints. Iso8601.antt has the format;
--   APR's calendar is a parameter.
-- libbase/lib/cmdline.c: the parser of all the command lines (Cmdline.antt). The variables that
--   receive arguments are a map from numbers to strings, and argv is the list of strings.
-- libbase/lib/error.c, libbase/lib/init.c: messages and the start of every program (Messages.antt,
--   Messages/Startup.antt). The state is the level, the name of the program and what was printed.
-- libbase/lib/create.c: directories, files and pollsets (Create.antt), which the setups of the
--   monitor, tainlog and the scanner make. What stands under a name is the state.
-- srvctl/src/taiconv.c: replaces the labels in its input by dates. Taiconv.antt has
--   convert_buffer, Taiconv/Read.antt the two loops over buffered input, Taiconv/Mmap.antt the two
--   over mapped memory, and Taiconv/Main.antt validate_cmdline and main. What a loop printed so far
--   is a list, and a failed assertion is `none`.
-- srvctl/src/tainlog.c: a logger, whose lines each begin with a label. Tainlog.antt has readline,
--   format_tainlog and the loop, where the log is the list of the buffers that the loop appends;
--   Tainlog/Options.antt validate_cmdline; Tainlog/Files.antt what append_tainlog does with such a
--   buffer: opening, writing, archiving and pruning of files; and Tainlog/Main.antt the loop with
--   these files and main. The directory is a list of entries.
-- srvctl/src/monitor.c: the supervisor of one service, a program `run` and its logger `log`.
--   Monitor.antt has its state, Monitor/Children.antt what watches and starts the children,
--   Monitor/Commands.antt the control commands, Monitor/Timer.antt the signal handler with the
--   timer that suspends a child, and Monitor/Loop.antt the main loop and the steps between which
--   signals come; Monitor/Setup.antt has what comes before the loop, with the lock that makes a
--   monitor the only one of its service, and main. What the kernel and APR answer is an argument.
-- srvctl/src/scanner.c: keeps a monitor running for every active service. Scanner.antt has the table
--   of services with start, clear_services and monitor_done, Scanner/Scan.antt the loop of scan, and
--   Scanner/Main.antt the signal handler, the setup and main. The table is a list of keys and values.
-- srvctl/src/srvctl.c: the command line that starts, stops and signals services. Srvctl/Options.antt
--   has validate_cmdline, Srvctl/Files.antt the operations on the files of a service, the directory
--   of active services that the scanner reads among them, and Srvctl/Action.antt command_action,
--   which writes the commands that the monitor reads. Srvctl/Effects.antt has the specification of
--   the commands: a service is active or not, to be kept up or not, and its monitor was told bytes.
--   An error message that ends the program is the outcome `died`, with the files as they are then.
--   Srvctl/Status.antt has what --status shows of the bytes that the monitor writes
--   (Monitor/StatusFile.antt). Srvctl/Walks.antt has the walks through the services, to show or list
--   them all or to end their monitors, and Srvctl/Main.antt main.
-- libbase/lib/priv.c: dropping of privileges (Priv.antt). The credentials of the process are the
--   state, and every call of the system succeeds or not as an argument says.
-- srvctl/src/limiter.c: executes a program under limits, with the privileges dropped last
--   (Limiter.antt). The attributes of the process are the state, and an error message is `none`.
--   Limiter/Params.antt has its parameters, which depend on the system, Limiter/Usage.antt the usage
--   message that is made of them, and Limiter/Main.antt main.
-- libbase/lib/symlink.c: the base name of a link, by which srvctl knows the service that a link
--   leads to (Symlink.antt).
--
-- Numbers are natural numbers with the wrap-around of uint8_t, uint32_t and uint64_t written out.
--
-- Fuel: mmap_nrm_loop has the size of its input as fuel, for every round passes a byte, and
-- tainlog_loop and append_loop the number of their reads and one more, for every round but the last
-- makes a read.
-- flush_loop has the number of the entries and one more, for every round but the last removes one.
-- terminate_loop runs along its array of signals, and every other loop along its input.
--
-- Not modelled: the calendar (a parameter of Iso8601.antt; Taiconv/Main.antt takes the two formats
-- of dates as parameters), APR and the kernel; times before the epoch, which APR has and the labels
-- made of them wrap around; the members of the sets of capabilities in Priv.antt, which are named by
-- their levels; reads and writes of taiconv that fail, and a write of the monitor to its control pipe
-- that fails, which end them; messages of the tools that do not end the program; a signal that comes
-- in the middle of a call of the monitor's loop; a command to a control pipe that nobody reads, which
-- waits.
pub mod Base
pub mod Cmdline
pub mod Create
pub mod Iso8601
pub mod Limiter
pub mod Messages
pub mod Monitor
pub mod Priv
pub mod Scanner
pub mod Srvctl
pub mod Symlink
pub mod Tai
pub mod Taiconv
pub mod Tainlog
