-- ===== src/Tainlog/Files.antt =====
-- The files of srvctl/src/tainlog.c: opening, closing, archiving and pruning. The file FILE_CURRENT
-- stands apart from the other entries of the directory. What APR answers is an argument.
use mathlib.Core.Option
use ngim.Base.{
  ℕ, zero, suc, ◌+◌, ◌-◌, Bool, true, false, Option, none, some, List, [], ◌∷◌, ◌++◌, ◌&&◌, ◌||◌,
  not, ltb, ◌==◌, length, take, if◌then◌else◌,
}
use ngim.Tai.{Tain, tain_format_size}
use ngim.Tai.Text.{tain_format}
use ngim.Tai.Order.{lex_less}
use ngim.Cmdline.{Str, str_eq, char_at}

pub record File : Type 0 where
  pub regular : Bool
  pub content : List ℕ

pub record Entry : Type 0 where
  pub name : Str
  pub file : File

-- The static variables `current` (whether it is not NULL) and `current_size`, with the directory:
-- FILE_CURRENT, and the other entries in the order that apr_dir_read gives them.
pub record Log : Type 0 where
  pub opened : Bool
  pub size : ℕ
  pub current : Option File
  pub entries : List Entry

-- Which calls succeed; of a write that fails, how many bytes were written.
pub record Answers : Type 0 where
  pub can_stat : Bool
  pub can_open : Bool
  pub can_lock : Bool
  pub can_rename : Bool
  pub written : Option ℕ
  pub can_open_dir : ℕ → Bool
  pub can_remove : ℕ → Bool

-- A failed apr_stat of FILE_CURRENT, or what it finds.
abbrev pub find_current : Answers → Log → Option (Option File)
find_current a l = if a.can_stat then some l.current else none

-- open_tainlog after apr_stat, lock_tainlog with it.
unfoldable pub open_found : Answers → Log → Option (Option File) → Log
open_found a l none = l
open_found a l (some none) =
    if a.can_open
    then record l { opened = a.can_lock; current = some (record { regular = true; content = [] }) }
    else l
open_found a l (some (some f)) =
    if not f.regular
    then l
    else if a.can_open
    then record l { opened = a.can_lock; size = length f.content }
    else l

-- open_tainlog
unfoldable pub open_tainlog : Answers → Log → Log
open_tainlog a l =
    let l0 : Log = record l { size = 0 } in
    if l.opened then l else open_found a l0 (find_current a l0)

-- The directory without the first entry of this name.
unfoldable pub unlink : Str → List Entry → List Entry
unlink name [] = []
unlink name (e ∷ es) = let rest = unlink name es in if str_eq e.name name then es else e ∷ rest

-- A rename of FILE_CURRENT, over what has the name.
unfoldable pub rename_current : Str → Log → Option File → Log
rename_current name l none = l
rename_current name l (some f) = record l {
  current = none;
  entries = unlink name l.entries ++ (record { name = name; file = f } ∷ []);
}

-- close_tainlog. A rename of a file that is not there fails.
unfoldable pub close_tainlog : Answers → Tain → Log → Log
close_tainlog a stamp l =
    let l' : Log = record l { opened = false } in
    if a.can_rename then rename_current (tain_format stamp) l' l.current else l'

-- "Count the number of log files"
unfoldable pub is_log : Entry → Bool
is_log e = e.file.regular && (char_at e.name 0 == b'@' && length e.name == tain_format_size)

-- The loop over the directory in flush_archive: `files` and `oldest`.
unfoldable pub find_oldest : List Entry → ℕ → Str → ℕ × Str
find_oldest [] files oldest = (files, oldest)
find_oldest (e ∷ es) files oldest =
    find_oldest es (if is_log e then files + 1 else files)
      (if is_log e && (files == 0 || lex_less e.name oldest) then e.name else oldest)

module _ (a : Answers) where
  -- The outer loop of flush_archive, from the round `i` on; `none` means that the fuel ran out.
  unfoldable pub flush_loop : ℕ → ℕ → ℕ → List Entry → Option (List Entry)
  flush_loop zero i keep es = none
  flush_loop (suc fuel) i keep es =
      let (files, oldest) = find_oldest es 0 [] in
      let es' = unlink oldest es in
      let again = flush_loop fuel (i + 1) keep es' in
      if not (a.can_open_dir i)
      then some es
      else if not (ltb keep files)
      then some es
      else if not (a.can_remove i)
      then some es
      else if ltb keep (files - 1)
      then again
      else some es'

  -- flush_archive; `none` is a negative number. Every round but the last removes an entry.
  unfoldable pub flush_archive : Option ℕ → List Entry → Option (List Entry)
  flush_archive none es = some es
  flush_archive (some keep) es = flush_loop (suc (length es)) 0 keep es

-- The bytes of the buffer that are written: of a failed write, the first of them.
abbrev pub written_part : Answers → List ℕ → List ℕ
written_part a buffer = elim a.written [ none ↦ buffer | some n ↦ take n buffer ]

unfoldable pub write_to : List ℕ → Option File → Option File
write_to bytes none = none
write_to bytes (some f) = some (record f { content = f.content ++ bytes })

-- append_tainlog after open_tainlog.
unfoldable pub write_tainlog : Answers → List ℕ → Log → Log
unfolding write_to
write_tainlog a buffer l =
    if l.opened
    then record l {
      current = write_to (written_part a buffer) l.current;
      size = l.size + length (written_part a buffer);
    }
    else l

-- "If current is full, archive it"
unfoldable pub archive_full : Answers → Option ℕ → Tain → Log → Option Log
unfolding close_tainlog flush_archive
archive_full a keep stamp l =
    let l' : Log = close_tainlog a stamp l in
    Option.map (λ es. record l' { entries = es }) (flush_archive a keep l'.entries)

-- append_tainlog, with `arg_filesize` and `arg_keepnum`.
unfoldable pub append_tainlog : Answers → ℕ → Option ℕ → Tain → List ℕ → Log → Option Log
unfolding archive_full open_tainlog write_tainlog
append_tainlog a filesize keep stamp buffer l =
    Option.map (λ x. write_tainlog a buffer (open_tainlog a x))
      (if ltb filesize (l.size + length buffer) then archive_full a keep stamp l else some l)
