-- ===== src/Srvctl/WalkExamples.antt =====
-- The walks of srvctl/src/srvctl.c, its main, and scans after its commands, on concrete services.
use mathlib.Core.Path.{subst}
use ngim.Base.{
  ℕ, ◌≡◌, ◌≢◌, refl, sym, Bool, true, false, Option, none, some, [], ◌∷◌, In, inl, inr, map, length,
  ◌+◌, codes, arith, if◌then◌else◌,
}
use ngim.Cmdline.{Str, str_eq}
use ngim.Cmdline.Strings.{str_eq→≡, str_eq_refl}
use ngim.Monitor.{monitor_cmd_terminate}
use ngim.Scanner.{Entry, Key}
use ngim.Scanner.Idle.{IsIdle}
use ngim.Scanner.Scan.{scan_round}
use ngim.Scanner.Started.{IsRunning}
use ngim.Symlink.{basename_loop, relative_path}
use ngim.Srvctl.Action.{command_action}
use ngim.Srvctl.Asked.{IsAsked, main-IsAsked}
use ngim.Srvctl.Effects.{IsFree, promised}
use ngim.Srvctl.Files.{Link, Files, Answers, Pipe, ready, absent, linkname_of, files_of}
use ngim.Srvctl.KillAll.{command_killall_misses}
use ngim.Srvctl.Links.{IsLinked, LinksTo}
use ngim.Srvctl.Main.{World, main, service_parse}
use ngim.Srvctl.Pipes.{with_reader}
use ngim.Srvctl.Options.{Signals, cmd_start, cmd_stop}
use ngim.Srvctl.Reached.{Goes, command_killall_reaches}
use ngim.Srvctl.Scanned.{IsSeen, CanStart, command_action-IsRunning, command_action-IsIdle}
use ngim.Srvctl.Walks.{Target, sent_of, command_killall}
use ngim.Srvctl.Working.{Works, linked, IsName}

abbrev web : Str
web = codes "web"

-- The service has the priority 10, and so has its link.
abbrev web_link : Link
web_link = record { name = codes "10"; is_link = true; text = relative_path web }

abbrev active_web : Files
active_web = record {
  service = some true;
  up = true;
  priority = some (codes "10");
  active = web_link ∷ [];
  commands = [];
}

abbrev web_target : Target
web_target = record { link = web_link; target = some true }

abbrev all_read : Str → Pipe
all_read name = ready

active_web-IsLinked : IsLinked web active_web
unfolding linkname_of
active_web-IsLinked l (inl same) to = rw (sym same) refl
active_web-IsLinked l (inr later) to = absurd later

web_link_name : (l : Link) → In l active_web.active → l.name ≢ web
web_link_name l (inl same) e = cc
web_link_name l (inr later) e = later

active_web-IsFree : IsFree web web active_web
active_web-IsFree l m e = absurd (web_link_name l m e)

web_links : (e : Target) → In e (web_target ∷ []) → In e.link active_web.active
web_links e (inl same) = inl (λ i. (same i).link)
web_links e (inr later) = absurd later

linkname-web : linkname_of web active_web.priority ≢ web
unfolding linkname_of
linkname-web e = cc

command_killall_misses_example :
    ¬ In (web, monitor_cmd_terminate) (sent_of (command_killall all_read (some (web_target ∷ []))))
command_killall_misses_example =
    command_killall_misses web active_web all_read (web_target ∷ []) web_links active_web-IsLinked
      active_web-IsFree linkname-web monitor_cmd_terminate

abbrev db_target : Target
db_target = record {
  link = record { name = codes "db"; is_link = true; text = relative_path (codes "db") };
  target = some true;
}

both-Goes : Goes all_read (web_target ∷ db_target ∷ [])
both-Goes = record { finds = finds; writes = λ name e. cc }
  where
    finds : (e : Target) → In e (web_target ∷ db_target ∷ []) → e.target ≢ none
    finds e (inl same) h = cc
    finds e (inr (inl same)) h = cc
    finds e (inr (inr later)) h = later

command_killall_reaches_example :
    In
      (codes "db", monitor_cmd_terminate)
      (sent_of (command_killall all_read (some (web_target ∷ db_target ∷ []))))
command_killall_reaches_example =
    command_killall_reaches all_read (web_target ∷ db_target ∷ []) both-Goes db_target
      (inr (inl refl)) refl refl refl

abbrev working : Answers
working = record {
  can_stat = true;
  can_open = true;
  can_read = true;
  can_resolve = λ s. true;
  memory = true;
  can_make = true;
  can_create = true;
  can_remove = true;
  can_link = true;
  put_stops = none;
  control = ready;
}

works : (i : ℕ) → Works working
works i = record {
  stats = refl;
  opens = refl;
  reads = refl;
  resolves = λ s. refl;
  allocates = refl;
  makes = refl;
  creates = refl;
  removes = refl;
  links = refl;
  puts = refl;
  controls = refl;
}

abbrev linux : Signals
linux = record {
  sigalrm = 14;
  sigcont = 18;
  sighup = 1;
  sigstop = 19;
  sigterm = 15;
  sigusr1 = 10;
  sigusr2 = 12;
  sigwinch = 28;
}

abbrev world : World
world = record {
  all = none;
  statuses = none;
  targets = some (web_target ∷ []);
  controls = all_read;
  answers = λ i. working;
  files = λ name. active_web;
  now = λ i. record { sec = record { x = 2 }; nano = 0 };
  old = record { sec = record { x = 0 }; nano = 0 };
  load = λ s. 0;
}

main-IsAsked_example :
    IsAsked linux none world
      (service_parse (codes "srvctl" ∷ codes "--stop" ∷ web ∷ [])).0
      (service_parse (codes "srvctl" ∷ codes "--stop" ∷ web ∷ [])).1
      (main linux none world (codes "srvctl" ∷ codes "--stop" ∷ web ∷ []))
main-IsAsked_example = main-IsAsked linux none world (codes "srvctl" ∷ codes "--stop" ∷ web ∷ [])

-- Only this service has a directory with the inode 7.
abbrev web_key : Key
web_key = record { inode = 7; device = 1 }

abbrev behind : Bool → Option (Bool × Key)
behind is_web = if is_web then some (true, web_key) else none

abbrev seen : Link → Entry
seen l = record {
  name = l.name;
  is_link = l.is_link;
  stat = behind (str_eq (basename_loop [] l.text) web);
  basename = some (basename_loop [] l.text);
  memory = true;
  attributes = true;
  process = some (4000 + length l.text);
}

seen-IsSeen : IsSeen seen web web_key
seen-IsSeen = record {
  named = λ l. refl;
  typed = λ l. refl;
  only = λ l. only (str_eq (basename_loop [] l.text) web) (str_eq→≡ (basename_loop [] l.text) web);
  leads = λ l to.
      let e : str_eq (basename_loop [] l.text) web ≡ true = rw to.1 (str_eq_refl web) in rw e refl;
}
  where
    only : {s : Str} (b : Bool) → (b ≡ true → s ≡ web) → behind b ≡ some (true, web_key) → s ≡ web
    only true h e = h refl
    only false h e = absurd (cc)

seen-CanStart : CanStart seen web
seen-CanStart = record {
  resolved = λ l to. refl;
  allocates = λ l to. refl;
  prepares = λ l to. refl;
  pid = λ l. 4000 + length l.text;
  nonzero = λ l to. omega arith;
  forks = λ l to. refl;
}

-- There is no control pipe yet.
abbrev unread : Answers
unread = record working { control = absent }

unread-Works : (i : ℕ) → Works (with_reader unread)
unread-Works i = works i

web-IsName : IsName web
web-IsName = (omega arith, (omega arith, (omega arith, (omega arith, tt))))

abbrev idle_web : Files
idle_web = record { service = some true; up = false; priority = none; active = []; commands = [] }

idle_web-IsLinked : IsLinked web idle_web
idle_web-IsLinked l m to = absurd m

idle_web-IsFree : (linkname : Str) → IsFree web linkname idle_web
idle_web-IsFree linkname l m e = absurd m

command_action-IsRunning_example : IsRunning web_key (
    scan_round
      (λ i. false)
      []
      (some
        (map seen (files_of (command_action (λ i. unread) 15 cmd_start 0 web [] idle_web)).active))
      [])
unfolding promised linked command_action
command_action-IsRunning_example =
    command_action-IsRunning (λ i. unread) unread-Works web web-IsName 15 cmd_start 0 [] idle_web
      refl idle_web-IsLinked (idle_web-IsFree _) (idle_web-IsFree _) refl seen web_key seen-IsSeen
      seen-CanStart [] [] (omega arith)

web_link-LinksTo : LinksTo web web_link
unfolding basename_loop
web_link-LinksTo = (refl, refl)

active_web-IsFree_link : (linkname : Str) → IsFree web linkname active_web
active_web-IsFree_link linkname l (inl same) e = subst (LinksTo web) same web_link-LinksTo
active_web-IsFree_link linkname l (inr later) e = absurd later

command_action-IsIdle_example :
    IsIdle web_key (
      scan_round
        (λ i. false)
        []
        (some (
          map seen
            (files_of (command_action (λ i. unread) 15 cmd_stop 0 web [] active_web)).active))
        [])
    × (¬ IsRunning web_key (
        scan_round
          (λ i. false)
          []
          (some (
            map seen
              (files_of (command_action (λ i. unread) 15 cmd_stop 0 web [] active_web)).active))
          []))
unfolding promised linked str_eq basename_loop
command_action-IsIdle_example =
    command_action-IsIdle (λ i. unread) unread-Works web web-IsName 15 cmd_stop 0 [] active_web refl
      active_web-IsLinked (active_web-IsFree_link _) (active_web-IsFree_link _) refl seen web_key
      seen-IsSeen (λ i. false) [] [] tt
