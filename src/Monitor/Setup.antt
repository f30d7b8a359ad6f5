-- ===== src/Monitor/Setup.antt =====
-- The setup in srvctl/src/monitor.c: the directory, the lock, the pipes, and monitor() as a whole.
use ngim.Base.{
  ℕ, Bool, true, false, Option, none, some, List, [], ◌==◌, ◌&&◌, not, ltb, length, get_or, bit_or,
  ◌||◌, if◌then◌else◌,
}
use ngim.Cmdline.{Str, is_some}
use ngim.Create.{
  FileProt, FileType, plain, directory, pipe, symlink, Node, Place, Calls, make, create_directory,
  create_pollset_file_in,
}
use ngim.Symlink.{resolve_symlink_basename}
use ngim.Tai.{Tain}
use ngim.Monitor.{Monitor, Signals, init}
use ngim.Monitor.Children.{write_status}
use ngim.Monitor.Loop.{Round, rounds}

-- FPROT_DIR_MONITOR
abbrev pub fprot_dir_monitor : FileProt → ℕ
fprot_dir_monitor b =
    bit_or b.uread (bit_or b.uwrite (bit_or b.uexecute (bit_or b.gread b.gexecute)))

-- FPROT_PIPE_CONTROL, and FPROT_PIPE_STDIN, which is the same.
abbrev pub fprot_pipe : FileProt → ℕ
fprot_pipe b = bit_or b.uread b.uwrite

-- The directory of a service as its monitors see it, with the process that holds the lock.
pub record Directory : Type 0 where
  pub dir : Place
  pub lock : Option ℕ
  pub control : Place
  pub stdin : Place

-- The static variables that the setup sets: whether they are not NULL.
pub record Handles : Type 0 where
  pub file_lock : Bool
  pub pipe_control : Bool
  pub pset_control : Bool
  pub pipe_stdin : Bool
  pub pool_runlog : Bool

-- What the calls of the setup answer; `lock_fails` is an error of the lock other than EAGAIN.
pub record SetupAnswers : Type 0 where
  pub dir : Calls
  pub can_open_lock : Bool
  pub lock_fails : Bool
  pub control : Calls
  pub can_create_pollset : Bool
  pub can_add_pollset : Bool
  pub stdin : Calls
  pub can_create_pool : Bool

-- A step of the setup goes on, or the process ends with a message.
pub data Setup : Type 0 where
  ready : Directory → Handles → Setup
  died : Directory → Setup

abbrev pub is_pipe : FileType → Bool
is_pipe plain = false
is_pipe directory = false
is_pipe pipe = true
is_pipe symlink = false

-- create_namedpipe: what stands there afterwards, and whether the pipe is open. Existing pipes get
-- their permissions set.
unfoldable pub open_namedpipe : Calls → Place → Place × Bool
open_namedpipe a p = (p, a.can_open)

unfoldable pub make_namedpipe : Calls → ℕ → Place × Bool
unfolding open_namedpipe
make_namedpipe a perms = if a.can_make then open_namedpipe a (make pipe a perms) else (none, false)

unfoldable pub check_namedpipe : Calls → ℕ → Node → Place × Bool
unfolding open_namedpipe
check_namedpipe a perms n =
    if is_pipe n.filetype
    then if a.can_set then open_namedpipe a (some (record n { perms = perms })) else (some n, false)
    else (some n, false)

unfoldable pub create_namedpipe : Calls → ℕ → Place → Place × Bool
unfolding make_namedpipe check_namedpipe
create_namedpipe a perms none = if a.stat_fails then (none, false) else make_namedpipe a perms
create_namedpipe a perms (some n) =
    if a.stat_fails then (some n, false) else check_namedpipe a perms n

-- An exclusive lock is refused while another process has it.
abbrev pub is_taken : (pid : ℕ) → Option ℕ → Bool
is_taken pid none = false
is_taken pid (some holder) = not (holder == pid)

abbrev pub no_handles : Handles
no_handles = record {
  file_lock = false;
  pipe_control = false;
  pset_control = false;
  pipe_stdin = false;
  pool_runlog = false;
}

abbrev pub and_then : Setup → (Directory → Handles → Setup) → Setup
and_then (ready d h) next = next d h
and_then (died d) next = died d

-- The process ends, and with it its lock.
abbrev pub die : (pid : ℕ) → Directory → Directory
die pid d = record d { lock = if is_taken pid d.lock then d.lock else none }

module _ (b : FileProt) (pid : ℕ) (a : SetupAnswers) where
  unfoldable pub setup_directory : Directory → Handles → Setup
  setup_directory d h =
      let (p, made) = create_directory a.dir (fprot_dir_monitor b) true d.dir in
      if made then ready (record d { dir = p }) h else died (die pid (record d { dir = p }))

  unfoldable pub create_lockfile : Directory → Handles → Setup
  create_lockfile d h =
      if not a.can_open_lock
      then died (die pid d)
      else if is_taken pid d.lock
      then died (die pid d)
      else if a.lock_fails
      then died (die pid d)
      else ready (record d { lock = some pid }) (record h { file_lock = true })

  unfoldable pub setup_control : Directory → Handles → Setup
  setup_control d h =
      let (p, opened) = create_namedpipe a.control (fprot_pipe b) d.control in
      if opened
      then ready (record d { control = p }) (record h { pipe_control = true })
      else died (die pid (record d { control = p }))

  unfoldable pub setup_pollset : Directory → Handles → Setup
  setup_pollset d h =
      if create_pollset_file_in a.can_create_pollset a.can_add_pollset
      then ready d (record h { pset_control = true })
      else died (die pid d)

  unfoldable pub setup_stdin : Directory → Handles → Setup
  setup_stdin d h =
      let (p, opened) = create_namedpipe a.stdin (fprot_pipe b) d.stdin in
      if opened
      then ready (record d { stdin = p }) (record h { pipe_stdin = true })
      else died (die pid (record d { stdin = p }))

  unfoldable pub setup_pool : Directory → Handles → Setup
  setup_pool d h =
      if a.can_create_pool then ready d (record h { pool_runlog = true }) else died (die pid d)

  unfoldable pub setup_monitor : Directory → Setup
  unfolding setup_directory create_lockfile setup_control setup_pollset setup_stdin setup_pool
  setup_monitor d = and_then (setup_directory d no_handles) λ d h.
      and_then (create_lockfile d h) λ d h.
        and_then (setup_control d h) λ d h.
          and_then (setup_pollset d h) λ d h. and_then (setup_stdin d h) λ d h. setup_pool d h

-- check_fileup, of what stands under FILE_UP.
unfoldable pub check_fileup : (stat_fails : Bool) → Place → Bool
check_fileup stat_fails p = is_some p && not stat_fails

-- What monitor() answers to besides: its directory and pool, and the time of the first status. It goes
-- on if privileges cannot be dropped.
pub record MonitorAnswers : Type 0 where
  pub can_chdir : Bool
  pub has_pool : Bool
  pub setup : SetupAnswers
  pub now : Tain

-- The process ended with a message before the loop, or ran it, with the state at its end or `none`
-- where an assertion failed.
pub data Ending : Type 0 where
  failed : Directory → Ending
  ran : Directory → Handles → Option Monitor → Ending

-- The static variables after the setup, where the children are those of child_init.
abbrev pub begin_state : Handles → Monitor
begin_state h = record init { pipe_stdin = h.pipe_stdin }

module _ (b : FileProt) (s : Signals) (pid : ℕ) (a : MonitorAnswers) (rs : List Round) where
  unfoldable pub run_loop : Setup → Ending
  unfolding rounds
  run_loop (died d) = failed d
  run_loop (ready d h) = ran d h (rounds s rs (write_status a.now (begin_state h)))

  -- monitor(), over the rounds that come.
  unfoldable pub monitor : Directory → Ending
  unfolding run_loop
  monitor d =
      if not a.can_chdir
      then failed d
      else if not a.has_pool
      then failed d
      else run_loop (setup_monitor b pid a.setup d)

-- service_displayname: `stat` is the type of what apr_stat finds without following links, `link` what
-- readlink answers. `none` is the end of the process.
abbrev pub is_symlink : FileType → Bool
is_symlink plain = false
is_symlink directory = false
is_symlink pipe = false
is_symlink symlink = true

abbrev pub or_root : Str → Option Str → Str
or_root root none = root
or_root root (some basename) = basename

unfoldable pub service_displayname :
    (stat : Option FileType) (memory : Bool) (link : Option Str) → Str → Option Str
unfolding resolve_symlink_basename
service_displayname none memory link root = none
service_displayname (some t) memory link root =
    some (if is_symlink t then or_root root (resolve_symlink_basename memory link) else root)

-- The name for messages with the outcome.
unfoldable pub run_named : Option Str → Directory → Ending → Option Str × Ending
run_named none d ending = (none, failed d)
run_named (some name) d ending = (some name, ending)

-- main, where `d` is the directory that its first argument names.
unfoldable pub main :
    FileProt
    → Signals
    → (pid : ℕ) → (stat : Option FileType) (memory : Bool) (link : Option Str) → MonitorAnswers
    → List Round
    → List Str
    → Directory
    → Option Str × Ending
unfolding service_displayname run_named monitor
main b s pid stat memory link a rs argv d =
    let root = get_or argv 1 [] in
    let name =
      if ltb 2 (length argv)
      then some (get_or argv 2 [])
      else service_displayname stat memory link root in
    if ltb (length argv) 2 || ltb 3 (length argv)
    then (none, failed d)
    else run_named name d (monitor b s pid a rs d)
