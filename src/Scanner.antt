-- ===== src/Scanner.antt =====
-- srvctl/src/scanner.c: the table of services, and a scan of the directory of active services. The
-- table is the list of its entries. What the kernel and APR answer is part of the argument.
pub mod Scan
pub mod Table
pub mod Invariant
pub mod Started
pub mod Idle
pub mod Main
pub mod Running
mod Examples
use ngim.Base.{
  ℕ, zero, suc, ◌+◌, Bool, true, false, Option, none, some, List, [], ◌∷◌, ◌++◌, ◌&&◌, ◌||◌, not,
  leb, ◌-◌, ◌==◌, length, take, if◌then◌else◌,
}
use ngim.Cmdline.{Str, char_at}

abbrev pub max_services : ℕ
max_services = 128

abbrev pub value_name_len : ℕ
value_name_len = 80

-- service_key
pub record Key : Type 0 where
  pub inode : ℕ
  pub device : ℕ

-- service_value. A `pid` of 0 is a monitor that does not run.
pub record Service : Type 0 where
  pub pid : ℕ
  pub active : Bool
  pub name : Str

abbrev pub key_eq : Key → Key → Bool
key_eq k l = k.inode == l.inode && k.device == l.device

abbrev pub Table : Type 0
Table = List (Key × Service)

-- apr_hash_get
unfoldable pub get : Key → Table → Option Service
get k [] = none
get k ((l, v) ∷ t) = let rest = get k t in if key_eq k l then some v else rest

-- apr_hash_set, of a value that is not NULL.
unfoldable pub set : Key → Service → Table → Table
set k v [] = (k, v) ∷ []
set k v ((l, w) ∷ t) = let rest = set k v t in if key_eq k l then (l, v) ∷ t else (l, w) ∷ rest

-- An entry of the directory: what apr_dir_read and apr_stat say of it, and how starting a monitor
-- for it would go.
pub record Entry : Type 0 where
  pub name : Str
  pub is_link : Bool
  pub stat : Option (Bool × Key)
  pub basename : Option Str
  pub memory : Bool
  pub attributes : Bool
  pub process : Option ℕ

-- `value->name`: a name that fills the array ends in three dots.
unfoldable pub display_name : Str → Str
display_name basename =
    if leb (value_name_len - 1) (length basename)
    then take (value_name_len - 4) basename ++ (b'.' ∷ b'.' ∷ b'.' ∷ [])
    else basename

-- create_entry: the new value, which is in the table.
unfoldable pub named_entry : Entry → Key → Option Str → Table → Option (Service × Table)
unfolding display_name
named_entry e k none t = none
named_entry e k (some basename) t =
    let v : Service = record { pid = 0; active = false; name = display_name basename } in
    if e.memory then some (v, set k v t) else none

unfoldable pub create_entry : Entry → Key → Table → Option (Service × Table)
create_entry e k t = if leb max_services (length t) then none else named_entry e k e.basename t

-- start, from apr_procattr_create on.
unfoldable pub run_monitor : Key → Service → Option ℕ → Table → Table
run_monitor k v none t = t
run_monitor k v (some pid) t = set k (record v { pid = pid }) t

unfoldable pub start_monitor : Entry → Key → Service → Table → Table
unfolding run_monitor
start_monitor e k v t = if e.attributes then run_monitor k v e.process t else t

-- The branches of start for a directory that is in the table and for another one.
unfoldable pub start_new : Entry → Key → Option (Service × Table) → Table → Table
unfolding start_monitor
start_new e k none t = t
start_new e k (some (v, t')) t =
    let v' : Service = record v { active = true } in start_monitor e k v' (set k v' t')

unfoldable pub start_found : Entry → Key → Option Service → Table → Table
unfolding start_new start_monitor
start_found e k none t = start_new e k (create_entry e k t) t
start_found e k (some v) t =
    let v' : Service = record v { active = true } in
    if v.pid == 0 then start_monitor e k v' (set k v' t) else set k v' t

unfoldable pub start_stat : Entry → Option (Bool × Key) → Table → Table
unfolding start_found
start_stat e none t = t
start_stat e (some (is_dir, k)) t = if is_dir then start_found e k (get k t) t else t

-- start
unfoldable pub start : Entry → Table → Table
unfolding start_stat
start e t = if not e.is_link || char_at e.name 0 == b'.' then t else start_stat e e.stat t

-- clear_services
unfoldable pub clear_services : Table → Table
clear_services [] = []
clear_services ((k, v) ∷ t) =
    let rest = clear_services t in
    if v.active
    then (k, record v { active = false }) ∷ rest
    else if v.pid == 0
    then rest
    else (k, v) ∷ rest

-- monitor_done
unfoldable pub monitor_done : ℕ → Table → Table
monitor_done pid [] = []
monitor_done pid ((k, v) ∷ t) =
    let rest = monitor_done pid t in
    if v.pid == pid then (k, record v { pid = 0 }) ∷ t else (k, v) ∷ rest
