-- ===== src/Scanner/Scan.antt =====
-- The body of the loop of scan in srvctl/src/scanner.c.
use ngim.Base.{ℕ, ◌+◌, ◌-◌, Bool, Option, none, some, List, [], ◌∷◌, ltb, ◌==◌, if◌then◌else◌}
use ngim.Cmdline.{char_at}
use ngim.Tai.Order.{lex_less}
use ngim.Scanner.{Entry, Table, start, clear_services, monitor_done, max_services}

-- The loop over apr_dir_read: the entries in `info`, from `active` of them on.
unfoldable pub read_entries : ℕ → List Entry → List Entry
read_entries active [] = []
read_entries active (e ∷ es) =
    let skipped = read_entries active es in
    let rest = read_entries (active + 1) es in
    if char_at e.name 0 == b'.'
    then skipped
    else if ltb active (max_services - 1)
    then e ∷ rest
    else []

-- qsort with compare_finfo_name, which puts the greatest name first.
unfoldable pub insert : Entry → List Entry → List Entry
insert e [] = e ∷ []
insert e (d ∷ es) =
    let rest = insert e es in if lex_less e.name d.name then d ∷ rest else e ∷ d ∷ es

unfoldable pub sort : List Entry → List Entry
unfolding insert
sort [] = []
sort (e ∷ es) = insert e (sort es)

-- The loop over the sorted entries, from the last one down. `stops` is what flag_stop is before each;
-- it is never reset, so the loop ends at the first one.
unfoldable pub start_entries : (ℕ → Bool) → List Entry → Table → Table × ℕ
start_entries stops [] t = (t, 0)
start_entries stops (e ∷ es) t =
    let (t', n) = start_entries stops es t in (if stops n then t' else start e t', n + 1)

-- Dead monitors are marked first.
unfoldable pub done_all : List ℕ → Table → Table
done_all [] t = t
done_all (pid ∷ pids) t = done_all pids (monitor_done pid t)

-- A scan: `pids` are the monitors that exited, and `none` is a directory that cannot be opened.
unfoldable pub scan_round : (ℕ → Bool) → List ℕ → Option (List Entry) → Table → Table
unfolding done_all start_entries sort read_entries
scan_round stops pids none t = done_all pids t
scan_round stops pids (some es) t =
    clear_services (start_entries stops (sort (read_entries 0 es)) (done_all pids t)).0

-- What a round of the loop finds: whether there is memory for the pool, the monitors that exited,
-- the directory, `flag_stop` before each start, and `flag_stop` at the end of the round.
pub record Round : Type 0 where
  pub pool : Bool
  pub exited : List ℕ
  pub found : Option (List Entry)
  pub stops : ℕ → Bool
  pub stopped : Bool

unfoldable pub step : Round → Table → Table
unfolding scan_round
step r t = if r.pool then scan_round r.stops r.exited r.found t else t

-- The loop of scan.
unfoldable pub scan : List Round → Table → Table
unfolding step
scan [] t = t
scan (r ∷ rounds) t = let next = scan rounds (step r t) in if r.stopped then step r t else next
