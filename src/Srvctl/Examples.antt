-- ===== src/Srvctl/Examples.antt =====
-- Concrete command lines and commands of srvctl/src/srvctl.c.
use ngim.Base.{
  List, length, ◌<◌, ◌^◌, ℕ, ◌≡◌, ◌↔◌, refl, sym, true, false, none, some, [], ◌∷◌, inl, inr, arith,
}
use ngim.Cmdline.{Str}
use ngim.Tai.{Tain}
use ngim.Tai.Bytes.{pack_bytes, unpack_bytes}
use ngim.Tai.RoundTrip.{length-pack_bytes, unpack_bytes-pack_bytes}
use ngim.Monitor.{Status}
use ngim.Monitor.StatusFile.{status_bytes}
use ngim.Srvctl.Status.{format_status}
use ngim.Srvctl.Report.{IsReport, format_status-IsReport}
use ngim.Symlink.{relative_path}
use ngim.Srvctl.Options.{
  Signals, Arguments, Choice, cmd_signal, cmd_start, cmd_priority, validate_cmdline,
}
use ngim.Srvctl.Accepted.{IsAccepted, validate_cmdline_iff}
use ngim.Srvctl.Files.{Link, Files, Answers, ready, files_of, linkname_of}
use ngim.Srvctl.Action.{command_action}
use ngim.Srvctl.Links.{IsLinked}
use ngim.Srvctl.Named.{command_action-IsLinked}
use ngim.Srvctl.Working.{Works, IsName}
use ngim.Srvctl.Effects.{service_of, promised, IsFree}
use ngim.Srvctl.Refinement.{command_action-promised}

-- The numbers of Linux.
abbrev linux : Signals
linux = record {
  sigalrm = 14;
  sigcont = 18;
  sighup = 1;
  sigstop = 19;
  sigterm = 15;
  sigusr1 = 10;
  sigusr2 = 12;
  sigwinch = 28;
}

abbrev web : Str
web = b'w' ∷ b'e' ∷ b'b' ∷ []

abbrev hup_web : Arguments
hup_web = record { base = []; sign = b'H' ∷ b'U' ∷ b'P' ∷ []; name = some web; priority = [] }

abbrev hup_choice : Choice
hup_choice = record { base = b'/' ∷ b's' ∷ b'v' ∷ []; signum = 1; utc = false }

validate_cmdline_iff_example :
    (validate_cmdline linux (some (b'/' ∷ b's' ∷ b'v' ∷ [])) cmd_signal hup_web ≡ some hup_choice)
    ↔ IsAccepted linux (some (b'/' ∷ b's' ∷ b'v' ∷ [])) cmd_signal hup_web hup_choice
validate_cmdline_iff_example =
    validate_cmdline_iff linux (some (b'/' ∷ b's' ∷ b'v' ∷ [])) cmd_signal hup_web hup_choice

abbrev working : Answers
working = record {
  can_stat = true;
  can_open = true;
  can_read = true;
  can_resolve = λ s. true;
  memory = true;
  can_make = true;
  can_create = true;
  can_remove = true;
  can_link = true;
  put_stops = none;
  control = ready;
}

-- The disk is full: only a digit of the priority is written.
abbrev full : Answers
full = record working { put_stops = some 1 }

abbrev web_link : Link
web_link = record { name = web; is_link = true; text = relative_path web }

abbrev active_web : Files
active_web = record {
  service = some true;
  up = true;
  priority = none;
  active = web_link ∷ [];
  commands = [];
}

abbrev idle_web : Files
idle_web = record { service = some true; up = false; priority = none; active = []; commands = [] }

active_web-IsLinked : IsLinked web active_web
unfolding linkname_of
active_web-IsLinked l (inl same) to = rw (sym same) refl
active_web-IsLinked l (inr later) to = absurd later

command_action-IsLinked_example :
    IsLinked web
      (files_of (command_action (λ i. full) 15 cmd_priority 0 web (b'2' ∷ b'0' ∷ []) active_web))
command_action-IsLinked_example =
    command_action-IsLinked (λ i. full) web 15 cmd_priority 0 (b'2' ∷ b'0' ∷ []) active_web
      active_web-IsLinked

working-Works : (i : ℕ) → Works working
working-Works i = record {
  stats = refl;
  opens = refl;
  reads = refl;
  resolves = λ s. refl;
  allocates = refl;
  makes = refl;
  creates = refl;
  removes = refl;
  links = refl;
  puts = refl;
  controls = refl;
}

web-IsName : IsName web
web-IsName = (omega arith, (omega arith, (omega arith, (omega arith, tt))))

idle_web-IsLinked : IsLinked web idle_web
idle_web-IsLinked l m to = absurd m

idle_web-IsFree : (linkname : Str) → IsFree web linkname idle_web
idle_web-IsFree linkname l m e = absurd m

command_action-promised_example :
    service_of web (files_of (command_action (λ i. working) 15 cmd_start 0 web [] idle_web))
    ≡ promised 15 cmd_start 0 (service_of web idle_web)
command_action-promised_example =
    command_action-promised (λ i. working) working-Works web web-IsName 15 cmd_start 0 [] idle_web
      refl idle_web-IsLinked (idle_web-IsFree _) (idle_web-IsFree _)

-- A machine that stores the greatest byte first.
abbrev store : ℕ → List ℕ
store x = pack_bytes 4 x

abbrev load : List ℕ → ℕ
load s = unpack_bytes (2 ^ 32) 0 s

store_width : (x : ℕ) → length (store x) ≡ 4
store_width x = length-pack_bytes 4 x

load-store : (x : ℕ) → x < 2 ^ 32 → load (store x) ≡ x
load-store x h = unpack_bytes-pack_bytes 4 (2 ^ 32) x (omega arith) h

abbrev second : ℕ → Tain
second t = record { sec = record { x = t }; nano = 0 }

-- The service runs for a day and two seconds, and its log does not run.
abbrev status : Status
status = record {
  updated = second 90000;
  run_changed = second 10000;
  log_changed = second 90000;
  run_pid = 4321;
  log_pid = 0;
  forward = true;
}

format_status-IsReport_example :
    IsReport
      (second 96402)
      (second 96402)
      status
      (format_status load (second 96402) (second 96402) (second 0) (status_bytes store status))
format_status-IsReport_example =
    format_status-IsReport store load store_width load-store (second 96402) (second 96402)
      (second 0) status (omega arith, omega arith) (omega arith, omega arith)
      (omega arith, omega arith) (omega arith, omega arith) (omega arith, omega arith) (omega arith)
      (omega arith)
