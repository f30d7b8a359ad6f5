-- ===== src/Create.antt =====
-- libbase/lib/create.c: directories and pollsets. What stands under a name is the state, and the
-- calls of APR succeed or not as the answers say.
use ngim.Base.{ℕ, Bool, true, false, Option, none, some, if◌then◌else◌}

-- The bits of apr_fileperms_t, which APR defines.
pub record FileProt : Type 0 where
  pub uread : ℕ
  pub uwrite : ℕ
  pub uexecute : ℕ
  pub gread : ℕ
  pub gexecute : ℕ

-- apr_filetype_e, as far as it is tested.
pub data FileType : Type 0 where
  plain directory pipe symlink : FileType

pub record Node : Type 0 where
  pub filetype : FileType
  pub perms : ℕ

abbrev pub Place : Type 0
Place = Option Node

-- The answers for one name: whether apr_stat has an error other than ENOENT, whether a new entry can
-- be made, with the permissions that the umask leaves it, whether permissions can be set, and whether
-- the entry can be opened.
pub record Calls : Type 0 where
  pub stat_fails : Bool
  pub can_make : Bool
  pub left_perms : ℕ → ℕ
  pub can_set : Bool
  pub can_open : Bool

abbrev pub is_directory : FileType → Bool
is_directory plain = false
is_directory directory = true
is_directory pipe = false
is_directory symlink = false

abbrev pub make : FileType → Calls → ℕ → Place
make t a perms = some (record { filetype = t; perms = a.left_perms perms })

-- The place afterwards, and whether the function returns 0.
unfoldable pub make_directory : Calls → ℕ → Place × Bool
make_directory a perms = if a.can_make then (make directory a perms, true) else (none, false)

unfoldable pub check_directory : Calls → ℕ → (setperms : Bool) → Node → Place × Bool
check_directory a perms setperms n =
    if is_directory n.filetype
    then if setperms
      then if a.can_set then (some (record n { perms = perms }), true) else (some n, false)
      else (some n, true)
    else (some n, false)

-- ngim_create_directory
unfoldable pub create_directory : Calls → ℕ → (setperms : Bool) → Place → Place × Bool
unfolding make_directory check_directory
create_directory a perms setperms none =
    if a.stat_fails then (none, false) else make_directory a perms
create_directory a perms setperms (some n) =
    if a.stat_fails then (some n, false) else check_directory a perms setperms n

-- ngim_create_pollset_file_in: whether there is a pollset, which is also whether it returns 0. One
-- to which the file cannot be added is destroyed.
unfoldable pub create_pollset_file_in : (can_create can_add : Bool) → Bool
create_pollset_file_in can_create can_add =
    if can_create then if can_add then true else false else false
