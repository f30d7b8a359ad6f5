-- ===== src/Srvctl/Walks.antt =====
-- The commands of srvctl/src/srvctl.c that walk through a directory: --list, --status and --kill-all.
-- A walk that dies has printed its rows, or told the monitors, up to there. A row has the arguments of
-- the format that it is printed with.
use ngim.Base.{
  ℕ, ◌+◌, ◌*◌, ◌-◌, Bool, true, false, Option, none, some, List, [], ◌∷◌, ◌++◌, map, ◌==◌, ◌||◌,
  not, codes, if◌then◌else◌,
}
use ngim.Cmdline.{Str, char_at}
use ngim.Monitor.{monitor_cmd_terminate}
use ngim.Tai.{Tain}
use ngim.Srvctl.Files.{
  Link, Files, Answers, Pipe, Outcome, done, died, gets, digits_of, is_valid, service_linkname,
  service_realname, service_active, monitor_command,
}
use ngim.Srvctl.Options.{priority_maxlen}
use ngim.Srvctl.Status.{Report, format_status}

-- What apr_stat finds: an entry, none, or another error.
pub data Stat : Type 0 where
  found missing unknown : Stat

-- service_file_exists and service_wantup; `none` is an error message.
unfoldable pub service_file_exists : Stat → Option Bool
service_file_exists found = some true
service_file_exists missing = some false
service_file_exists unknown = none

unfoldable pub service_wantup : Stat → Option Bool
service_wantup found = some true
service_wantup missing = some false
service_wantup unknown = none

abbrev pub format_flag : Bool → Str
format_flag flag = if flag then codes "yes" else codes "no"

abbrev pub format_wantup : Bool → Str
format_wantup wants = if wants then codes "up" else codes "down"

abbrev pub format_exists : Bool → Str
format_exists exists = if exists then codes "exists" else codes "does not exist"

-- The string of digits that service_linkname returns; `none` is arg_name itself.
abbrev pub or_unset : Option Str → Option Str
or_unset none = none
or_unset (some []) = none
or_unset (some (c ∷ ds)) = some (c ∷ ds)

abbrev pub known_priority : Option Str → Option Str
known_priority none = none
known_priority (some content) = or_unset (digits_of (gets (priority_maxlen - 1) content))

abbrev pub shown_priority : Option Str → Str
shown_priority none = codes "not set"
shown_priority (some priority) = priority

-- format_priority
unfoldable pub format_priority : Answers → Str → Files → Option Str
unfolding service_linkname
format_priority a name f = elim (service_linkname a name f) [
  | none ↦ none
  | some linkname ↦ some (shown_priority (known_priority f.priority))
]

-- An entry of DIR_ALL, with what the calls find in it.
pub record Entry : Type 0 where
  pub name : Str
  pub is_dir : Bool
  pub answers : Answers
  pub files : Files
  pub run : Stat
  pub log : Stat

pub record ListRow : Type 0 where
  pub counter : ℕ
  pub name : Str
  pub active : Str
  pub run : Str
  pub log : Str
  pub priority : Str

-- The rows, and whether the walk came to the end.
pub record Walk (R : Type 0) : Type 0 where
  pub rows : List R
  pub ended : Bool

abbrev pub list_row : ℕ → Str → (active run log : Option Bool) → Option Str → Option ListRow
list_row counter name (some active) (some run) (some log) (some priority) = some (record {
  counter = counter;
  name = name;
  active = format_flag active;
  run = format_exists run;
  log = format_exists log;
  priority = priority;
})
list_row counter name active run log priority = none

unfoldable pub list_entry : ℕ → Entry → Option ListRow
unfolding service_active service_file_exists format_priority
list_entry counter e =
    list_row counter e.name (service_active e.answers e.name e.files) (service_file_exists e.run)
      (service_file_exists e.log) (format_priority e.answers e.name e.files)

abbrev pub stopped : {R : Type 0} → Walk R
stopped = record { rows = []; ended = false }

abbrev pub with_row : {R : Type 0} → Option R → Walk R → Walk R
with_row none rest = stopped
with_row (some row) rest = record rest { rows = row ∷ rest.rows }

-- The loop of command_list, after `counter` rows.
unfoldable pub list_loop : ℕ → List Entry → Walk ListRow
unfolding list_entry
list_loop counter [] = record { rows = []; ended = true }
list_loop counter (e ∷ es) =
    let skipped = list_loop counter es in
    let rest = list_loop (counter + 1) es in
    if not e.is_dir || char_at e.name 0 == b'.'
    then skipped
    else with_row (list_entry (counter + 1) e) rest

-- command_list; `none` is a directory that cannot be opened.
unfoldable pub command_list : Option (List Entry) → Walk ListRow
unfolding list_loop
command_list none = stopped
command_list (some es) = list_loop 0 es

-- An entry of DIR_ACTIVE, for --status: `file` is what is read from its status file, and `none` is
-- one that cannot be opened or has too few bytes.
pub record Active : Type 0 where
  pub link : Link
  pub file : Option (List ℕ)
  pub answers : Answers
  pub up : Stat

pub record StatusRow : Type 0 where
  pub counter : ℕ
  pub name : Str
  pub report : Report
  pub wants : Str

abbrev pub status_row : ℕ → Option Str → Report → Option Bool → Option StatusRow
status_row counter (some name) report (some wants) =
    some (record { counter = counter; name = name; report = report; wants = format_wantup wants })
status_row counter name report wants = none

-- How the machine loads a uint32_t, the `i`-th time, and what the labels hold before.
module _ (load : List ℕ → ℕ) (now : ℕ → Tain) (old : Tain) where
  -- The loop of command_status, after `counter` rows.
  unfoldable pub status_loop : ℕ → List Active → Walk StatusRow
  unfolding service_realname service_wantup format_status
  status_loop counter [] = record { rows = []; ended = true }
  status_loop counter (a ∷ as_left) =
      let skipped = status_loop counter as_left in
      let rest = status_loop (counter + 1) as_left in
      if is_valid a.link
      then elim a.file [
        | none ↦ skipped
        | some filebuf ↦
            with_row
              (status_row (counter + 1) (service_realname a.answers a.link)
                (format_status load (now (2 * counter)) (now (2 * counter + 1)) old filebuf)
                (service_wantup a.up))
              rest
      ]
      else skipped

  -- command_status; `none` is a directory that cannot be opened.
  unfoldable pub command_status : Option (List Active) → Walk StatusRow
  unfolding status_loop
  command_status none = stopped
  command_status (some as_left) = status_loop 0 as_left

-- An entry of DIR_ACTIVE, for --kill-all: `target` is whether apr_stat finds a directory behind the
-- link, and `none` is that it fails.
pub record Target : Type 0 where
  pub link : Link
  pub target : Option Bool

-- The bytes that were written to control pipes, each with the name by which its directory in DIR_ALL
-- was found.
pub data Told : Type 0 where
  told : List (Str × ℕ) → Told
  told_until : List (Str × ℕ) → Told

abbrev pub sent_of : Told → List (Str × ℕ)
sent_of (told sent) = sent
sent_of (told_until sent) = sent

-- The files of a service that monitor_command is called for, of which only the bytes matter.
abbrev pub no_files : Files
no_files = record { service = none; up = false; priority = none; active = []; commands = [] }

abbrev pub told_by : Str → List (Str × ℕ) → Outcome → Told
told_by name sent (done f) = told (sent ++ map (λ cmd. (name, cmd)) f.commands)
told_by name sent (died f) = told_until (sent ++ map (λ cmd. (name, cmd)) f.commands)

module _ (controls : Str → Pipe) where
  unfoldable pub kill_target : Target → List (Str × ℕ) → Option Bool → Told
  unfolding monitor_command
  kill_target e sent none = told_until sent
  kill_target e sent (some false) = told sent
  kill_target e sent (some true) =
      told_by e.link.name sent
        (monitor_command (controls e.link.name) true monitor_cmd_terminate no_files)

  abbrev pub tell_on : Told → (List (Str × ℕ) → Told) → Told
  tell_on (told sent) next = next sent
  tell_on (told_until sent) next = told_until sent

  -- The loop of command_killall, for which `controls` are the control pipes in DIR_ALL.
  unfoldable pub killall_loop : List Target → List (Str × ℕ) → Told
  unfolding kill_target
  killall_loop [] sent = told sent
  killall_loop (e ∷ es) sent =
      let skipped = killall_loop es sent in
      let visited = tell_on (kill_target e sent e.target) (λ sent'. killall_loop es sent') in
      if is_valid e.link then visited else skipped

  -- command_killall; `none` is a directory that cannot be entered or opened.
  unfoldable pub command_killall : Option (List Target) → Told
  unfolding killall_loop
  command_killall none = told_until []
  command_killall (some es) = killall_loop es []
