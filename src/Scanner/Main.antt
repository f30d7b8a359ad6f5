-- ===== src/Scanner/Main.antt =====
-- The signal handler, the setup of scan, and main in srvctl/src/scanner.c.
use ngim.Base.{ℕ, Bool, true, List, [], ◌∷◌, ◌==◌, not, length, if◌then◌else◌}
use ngim.Cmdline.{Str}
use ngim.Scanner.{Table}
use ngim.Scanner.Scan.{Round, scan}

-- The numbers of the signals, from signal.h.
pub record Signals : Type 0 where
  pub sigint : ℕ
  pub sigquit : ℕ
  pub sigterm : ℕ

-- handler, on flag_stop.
unfoldable pub handler : Signals → ℕ → Bool → Bool
handler s sig flag_stop =
    if sig == s.sigint
    then true
    else if sig == s.sigquit
    then true
    else if sig == s.sigterm
    then true
    else flag_stop

-- The signals that come, one after another.
unfoldable pub handle_all : Signals → List ℕ → Bool → Bool
unfolding handler
handle_all s [] flag_stop = flag_stop
handle_all s (sig ∷ sigs) flag_stop = handle_all s sigs (handler s sig flag_stop)

-- What the setup of scan finds. It goes on if privileges cannot be dropped.
pub record Setup : Type 0 where
  pub has_pool : Bool
  pub has_path : Bool
  pub can_chdir : Bool
  pub has_table : Bool

-- The program ended with a message before the loop, or the loop came to its end with this table.
pub data Ending : Type 0 where
  failed : Ending
  ended : Table → Ending

-- scan, over the rounds that come.
unfoldable pub scan_root : Setup → List Round → Ending
unfolding scan
scan_root s rounds =
    if not s.has_pool
    then failed
    else if not s.has_path
    then failed
    else if not s.can_chdir
    then failed
    else if not s.has_table
    then failed
    else ended (scan rounds [])

-- main
unfoldable pub main : Setup → List Round → List Str → Ending
unfolding scan_root
main s rounds argv = if length argv == 2 then scan_root s rounds else failed
