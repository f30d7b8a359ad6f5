-- ===== src/Scanner/Examples.antt =====
-- Concrete scans of srvctl/src/scanner.c.
use ngim.Base.{ℕ, ◌≡◌, ◌≢◌, refl, Bool, true, false, none, some, [], ◌∷◌, In, inl, inr, arith}
use ngim.Scanner.{Key, Table, Entry, get}
use ngim.Scanner.Table.{HasPid}
use ngim.Scanner.Running.{scan_round-HasPid}
use ngim.Scanner.Invariant.{IsTable, scan-IsTable}
use ngim.Scanner.Started.{Startable, IsRunning, scan_round-IsRunning}
use ngim.Scanner.Scan.{Round, scan, scan_round}

abbrev web_key : Key
web_key = record { inode = 11; device = 1 }

abbrev web : Entry
web = record {
  name = b'1' ∷ b'0' ∷ [];
  is_link = true;
  stat = some (true, web_key);
  basename = some (b'w' ∷ b'e' ∷ b'b' ∷ []);
  memory = true;
  attributes = true;
  process = some 7;
}

abbrev hidden : Entry
hidden = record {
  name = b'.' ∷ [];
  is_link = false;
  stat = none;
  basename = none;
  memory = true;
  attributes = true;
  process = none;
}

abbrev never : ℕ → Bool
never i = false

abbrev first_round : Round
first_round = record {
  pool = true;
  exited = [];
  found = some (hidden ∷ web ∷ []);
  stops = never;
  stopped = false;
}

-- The monitor exits and is started again.
abbrev second_round : Round
second_round = record {
  pool = true;
  exited = 7 ∷ [];
  found = some (web ∷ []);
  stops = never;
  stopped = true;
}

scan-IsTable_example : IsTable (scan (first_round ∷ second_round ∷ []) [])
scan-IsTable_example = scan-IsTable (first_round ∷ second_round ∷ [])

-- The monitor of the service runs, and its link is gone.
abbrev running : Table
running = (web_key, record { pid = 7; active = true; name = b'w' ∷ b'e' ∷ b'b' ∷ [] }) ∷ []

running-HasPid : HasPid 7 web_key running
unfolding HasPid get
running-HasPid = (record { pid = 7; active = true; name = b'w' ∷ b'e' ∷ b'b' ∷ [] }, (refl, refl))

not_dead : (dead : ℕ) → In dead (8 ∷ []) → 7 ≢ dead
not_dead dead (inl same) e = omega arith
not_dead dead (inr later) e = later

scan_round-HasPid_example :
    HasPid 7 web_key (scan_round never (8 ∷ []) (some (hidden ∷ [])) running)
scan_round-HasPid_example =
    scan_round-HasPid 7 web_key never (8 ∷ []) (some (hidden ∷ [])) running (omega arith) not_dead
      running-HasPid

web-Startable : Startable web web_key
web-Startable = record {
  links = refl;
  shown = refl;
  stats = refl;
  base = b'w' ∷ b'e' ∷ b'b' ∷ [];
  names = refl;
  allocates = refl;
  prepares = refl;
  pid = 7;
  forks = refl;
  nonzero = omega arith;
}

never_stops : (i : ℕ) → never i ≡ false
never_stops i = refl

-- The old monitor has just exited.
scan_round-IsRunning_example :
    IsRunning web_key (scan_round never (7 ∷ []) (some (hidden ∷ web ∷ [])) running)
scan_round-IsRunning_example =
    scan_round-IsRunning never never_stops (7 ∷ []) (hidden ∷ web ∷ []) running (omega arith) web
      web_key (inr (inl refl)) web-Startable
