-- ===== src/Srvctl/Files.antt =====
-- The operations of srvctl/src/srvctl.c on the files of the service `arg_name`: its link in the
-- directory of active services, its priority, and the file that tells the monitor to keep it up.
use ngim.Base.{
  ℕ, zero, suc, ◌-◌, Bool, true, false, Option, none, some, List, [], ◌∷◌, ◌++◌, ◌&&◌, ◌||◌, not,
  ltb, ◌==◌, ◌%◌, if◌then◌else◌,
}
use ngim.Cmdline.{Str, str_eq, char_at}
use ngim.Symlink.{relative_path, resolve_symlink_basename}
use ngim.Srvctl.Options.{priority_maxlen}

-- An entry of the directory of active services; `text` is what readlink gives.
pub record Link : Type 0 where
  pub name : Str
  pub is_link : Bool
  pub text : Str

-- What srvctl can change: FILE_UP and FILE_PRIORITY of the service, the directory of active
-- services, and the bytes that were written to PIPE_CONTROL. `service` is the directory of the
-- service: whether there is such an entry, and whether it is a directory.
pub record Files : Type 0 where
  pub service : Option Bool
  pub up : Bool
  pub priority : Option Str
  pub active : List Link
  pub commands : List ℕ

-- A failing call of APR for the control pipe: there is none, or it cannot be opened, or written to.
pub data Pipe : Type 0 where
  absent : Pipe
  refused : Pipe
  broken : Pipe
  ready : Pipe

-- Whether the calls of APR and the system succeed that an operation makes. A file that is not there
-- is no failure of this kind. `put_stops` is a write that fails after so many bytes.
pub record Answers : Type 0 where
  pub can_stat : Bool
  pub can_open : Bool
  pub can_read : Bool
  pub can_resolve : Str → Bool
  pub memory : Bool
  pub can_make : Bool
  pub can_create : Bool
  pub can_remove : Bool
  pub can_link : Bool
  pub put_stops : Option ℕ
  pub control : Pipe

-- The program goes on, or it dies with an error message.
pub data Outcome : Type 0 where
  done : Files → Outcome
  died : Files → Outcome

abbrev pub files_of : Outcome → Files
files_of (done f) = f
files_of (died f) = f

abbrev pub and_then : Outcome → (Files → Outcome) → Outcome
and_then (done f) next = next f
and_then (died f) next = died f

-- apr_file_gets, with room for `n` characters.
unfoldable pub gets : ℕ → Str → Str
gets zero s = []
gets (suc n) [] = []
gets (suc n) (c ∷ s) = let rest = gets n s in if c == 10 then c ∷ [] else c ∷ rest

-- The loop over `priority`; `none` is a character that is no digit.
unfoldable pub digits_of : Str → Option Str
digits_of [] = some []
digits_of (c ∷ s) =
    let rest = digits_of s in
    if c == 0 || c == 10
    then some []
    else if ltb c b'0' || ltb b'9' c
    then none
    else elim rest [ none ↦ none | some ds ↦ some (c ∷ ds) ]

abbrev pub or_name : Str → Option Str → Str
or_name name none = name
or_name name (some []) = name
or_name name (some (c ∷ ds)) = c ∷ ds

-- service_linkname, of what FILE_PRIORITY holds.
unfoldable pub linkname_of : Str → Option Str → Str
unfolding digits_of gets
linkname_of name none = name
linkname_of name (some content) = or_name name (digits_of (gets (priority_maxlen - 1) content))

-- service_linkname; `none` is an error message.
unfoldable pub service_linkname : Answers → Str → Files → Option Str
unfolding linkname_of
service_linkname a name f =
    if a.can_open && (elim f.priority [ none ↦ true | some content ↦ a.can_read ])
    then some (linkname_of name f.priority)
    else none

-- service_realname, for a link: `none` is an error message.
unfoldable pub service_realname : Answers → Link → Option Str
unfolding resolve_symlink_basename
service_realname a l =
    resolve_symlink_basename a.memory (if a.can_resolve l.name then some l.text else none)

-- The test "All valid entries in DIR_ACTIVE are symbolic links".
abbrev pub is_valid : Link → Bool
is_valid l = not (not l.is_link || char_at l.name 0 == b'.')

-- The loop of service_active.
unfoldable pub active_loop : Answers → Str → List Link → Option Bool
unfolding service_realname
active_loop a name [] = some false
active_loop a name (l ∷ links) =
    let rest = active_loop a name links in
    if is_valid l
    then elim (service_realname a l) [
      | none ↦ none
      | some real ↦ if str_eq name real then some true else rest
    ]
    else rest

-- service_active; `none` is an error message.
unfoldable pub service_active : Answers → Str → Files → Option Bool
unfolding active_loop
service_active a name f = if a.can_open then active_loop a name f.active else none

-- service_create_up
unfoldable pub service_create_up : Answers → Files → Outcome
service_create_up a f = if a.can_make && a.can_create then done (record f { up = true }) else died f

-- service_remove_up
unfoldable pub service_remove_up : Answers → Files → Outcome
service_remove_up a f = if a.can_remove then done (record f { up = false }) else died f

unfoldable pub has_entry : Str → List Link → Bool
has_entry name [] = false
has_entry name (l ∷ links) = let rest = has_entry name links in str_eq l.name name || rest

-- apr_file_remove
unfoldable pub unlink : Str → List Link → List Link
unlink name [] = []
unlink name (l ∷ links) =
    let rest = unlink name links in if str_eq l.name name then rest else l ∷ rest

-- service_add, from the name of the link on.
unfoldable pub add_link : Answers → Str → Option Str → Files → Outcome
unfolding has_entry
add_link a name none f = died f
add_link a name (some linkname) f =
    let l : Link = record { name = linkname; is_link = true; text = relative_path name } in
    if a.can_link && not (has_entry linkname f.active)
    then done (record f { active = f.active ++ (l ∷ []) })
    else died f

-- service_add
unfoldable pub service_add : Answers → Str → Files → Outcome
unfolding add_link service_linkname
service_add a name f = if a.can_make then add_link a name (service_linkname a name f) f else died f

-- service_remove, from the name of the link on.
unfoldable pub remove_link : Answers → Option Str → Files → Outcome
unfolding unlink
remove_link a none f = died f
remove_link a (some linkname) f =
    if a.can_remove then done (record f { active = unlink linkname f.active }) else died f

-- service_remove
unfoldable pub service_remove : Answers → Str → Files → Outcome
unfolding remove_link service_linkname
service_remove a name f = remove_link a (service_linkname a name f) f

-- apr_file_putc of `(char)cmd`.
abbrev pub put_command : ℕ → Files → Files
put_command cmd f = record f { commands = f.commands ++ ((cmd % 256) ∷ []) }

-- monitor_command; the second argument is `nonblocking`.
unfoldable pub monitor_command : Pipe → Bool → ℕ → Files → Outcome
monitor_command absent nonblocking cmd f = done f
monitor_command refused nonblocking cmd f = if nonblocking then done f else died f
monitor_command broken nonblocking cmd f = died f
monitor_command ready nonblocking cmd f = done (put_command cmd f)
