-- ===== src/Srvctl/Scanned.antt =====
-- How srvctl/src/srvctl.c and srvctl/src/scanner.c work together: the links that srvctl makes are the
-- entries that the scanner reads.
use mathlib.Core.Path.{subst}
use ngim.Base.{
  ℕ, ◌+◌, ◌<◌, ◌≡◌, ◌≢◌, refl, sym, ap, ◌∙◌, Bool, true, false, some, List, [], ◌∷◌, ◌&&◌, ◌==◌,
  map, In, inl, inr, length, length-map, Bool-cases, arith,
}
use ngim.Cmdline.{Str, str_eq, char_at}
use ngim.Cmdline.Strings.{str_eq→≡, str_eq_refl}
use ngim.Scanner.{Entry, Key, key_eq, Table, max_services}
use ngim.Scanner.Scan.{scan_round}
use ngim.Scanner.Started.{Startable, IsRunning, scan_round-IsRunning}
use ngim.Scanner.Idle.{Avoids, IsIdle, scan_round-IsIdle, IsIdle-IsRunning}
use ngim.Scanner.Table.{key_eq→≡}
use ngim.Symlink.{basename_loop}
use ngim.Srvctl.Action.{command_action}
use ngim.Srvctl.Effects.{Service, service_of, promised, IsFree}
use ngim.Srvctl.Files.{Link, Files, Answers, files_of, is_valid, linkname_of}
use ngim.Srvctl.Links.{LinksTo, AreOther, IsLinked}
use ngim.Srvctl.Pipes.{read, command_action_same}
use ngim.Srvctl.Refinement.{command_action-promised}
use ngim.Srvctl.Working.{Works, linked, IsName}

-- What the scanner reads for each link: its name and type. Behind every
-- link to the service, and only there, it finds the directory `k`.
pub record IsSeen (seen : Link → Entry) (name : Str) (k : Key) : Type 0 where
  pub named : (l : Link) → (seen l).name ≡ l.name
  pub typed : (l : Link) → (seen l).is_link ≡ l.is_link
  pub only : (l : Link) → (seen l).stat ≡ some (true, k) → basename_loop [] l.text ≡ name
  pub leads : (l : Link) → LinksTo name l → (seen l).stat ≡ some (true, k)

-- For a link to the service, the scanner reads the base name of its text, and it can start a monitor, with a process of its own. Nothing is
-- said of the other links.
pub record CanStart (seen : Link → Entry) (name : Str) : Type 0 where
  pub resolved : (l : Link) → LinksTo name l → (seen l).basename ≡ some (basename_loop [] l.text)
  pub allocates : (l : Link) → LinksTo name l → (seen l).memory ≡ true
  pub prepares : (l : Link) → LinksTo name l → (seen l).attributes ≡ true
  pub pid : Link → ℕ
  pub nonzero : (l : Link) → LinksTo name l → pid l ≢ 0
  pub forks : (l : Link) → LinksTo name l → (seen l).process ≡ some (pid l)

seen-Startable :
    (seen : Link → Entry) (name : Str) (k : Key) (l : Link)
    → IsSeen seen name k
    → CanStart seen name
    → LinksTo name l
    → Startable (seen l) k
seen-Startable seen name k l s c to =
    let is_link : l.is_link ≡ true = ground (arith, to.0) in
    let shown : (char_at l.name 0 == b'.') ≡ false = ground (arith, to.0) in
    record {
      links = s.typed l ∙ is_link;
      shown = rw (s.named l) shown;
      stats = s.leads l to;
      base = basename_loop [] l.text;
      names = c.resolved l to;
      allocates = c.allocates l to;
      prepares = c.prepares l to;
      pid = c.pid l;
      forks = c.forks l to;
      nonzero = c.nonzero l to;
    }

seen-Avoids :
    (seen : Link → Entry) (name : Str) (k : Key) (l : Link)
    → IsSeen seen name k
    → (LinksTo name l → ⊥)
    → Avoids k (seen l)
seen-Avoids seen name k l s other j is_link shown stat = elim (Bool-cases (key_eq k j)) [
  | inl same ↦
      let stat' : (seen l).stat ≡ some (true, k) = rw (sym (key_eq→≡ k j same)) at stat in
      let link : l.is_link ≡ true = sym (s.typed l) ∙ is_link in
      let shown' : (char_at l.name 0 == b'.') ≡ false = rw (s.named l) at shown in
      let valid : is_valid l ≡ true = ground (arith, link, shown') in
      absurd (other (valid, s.only l stat'))
  | inr differs ↦ differs
]

-- A service that is active has a link.
linked-LinksTo :
    (name : Str) (links : List Link)
    → linked name links ≡ true
    → (l : Link) × (In l links × LinksTo name l)
unfolding linked
linked-LinksTo name [] h = absurd (cc)
linked-LinksTo name (l ∷ links) h =
    let base : Str = basename_loop [] l.text in
    elim (Bool-cases (is_valid l && str_eq name base)) [
      | inl t ↦
          let valid : is_valid l ≡ true = ground (arith, t) in
          let same : str_eq name base ≡ true = ground (arith, t) in
          (l, (inl refl, (valid, sym (str_eq→≡ name base same))))
      | inr f ↦ let (l', (m, to)) = linked-LinksTo name links (rw f at h) in (l', (inr m, to))
    ]

In-map : {A B : Type 0} (g : A → B) (x : A) (xs : List A) → In x xs → In (g x) (map g xs)
In-map g x [] h = absurd h
In-map g x (y ∷ xs) (inl e) = inl (ap g e)
In-map g x (y ∷ xs) (inr h) = inr (In-map g x xs h)

-- A service that is not active has none.
linked-AreOther : (name : Str) (links : List Link) → linked name links ≡ false → AreOther name links
unfolding linked
linked-AreOther name [] h l m to = absurd m
linked-AreOther name (x ∷ links) h l m to =
    let base : Str = basename_loop [] x.text in
    elim (Bool-cases (is_valid x && str_eq name base)) [
      | inl t ↦ let no : ⊥ = ground (arith, rw t at h) in absurd no
      | inr f ↦ elim m [
        | inl same ↦
            let (valid, leads) = subst (λ d. LinksTo name d) (sym same) to in
            let equal : str_eq name base ≡ true = rw leads (str_eq_refl name) in
            let no : ⊥ = ground (arith, f, valid, equal) in absurd no
        | inr later ↦ linked-AreOther name links (rw f at h) l later to
      ]
    ]

In-map_old :
    {A B : Type 0} (g : A → B) (y : B) (xs : List A)
    → In y (map g xs)
    → (x : A) × (In x xs × (g x ≡ y))
In-map_old g y [] h = absurd h
In-map_old g y (x ∷ xs) (inl e) = (x, (inl refl, e))
In-map_old g y (x ∷ xs) (inr h) = let (z, (m, e)) = In-map_old g y xs h in (z, (inr m, e))

module _ (an : ℕ → Answers) (works : (i : ℕ) → Works (read an i)) (name : Str)
    (is_name : IsName name) (sigterm selected signum : ℕ) (priority : Str) (f : Files)
    (exists : f.service ≡ some true) (named_well : IsLinked name f)
    (free : IsFree name (linkname_of name f.priority) f)
    (free' : IsFree name (linkname_of name (some priority)) f) where
  abbrev pub after : Files
  after = files_of (command_action an sigterm selected signum name priority f)

  -- The links are those of a command that a monitor reads, which does what is promised.
  linked-after :
      linked name after.active ≡ (promised sigterm selected signum (service_of name f)).active
  linked-after =
      ap (linked name) (sym (command_action_same an sigterm selected signum name priority f))
      ∙ ap (λ (v : Service). v.active)
          (command_action-promised (read an) works name is_name sigterm selected signum priority f
            exists named_well free free')

  -- A command that promises that the service is active is followed by a scan after which a monitor
  -- runs for its directory, whatever the table of the scanner was, whichever monitors have exited, and
  -- whether a monitor reads the control pipe or not, also at a first start. The other calls of the
  -- command succeed, and those of the scan for the links to this service; no other service has a link
  -- under the names that the priorities of this one give, and its own links have such a name; the scan
  -- finds its directory behind its links and no others, it is not stopped, and there is room in the
  -- table.
  pub command_action-IsRunning :
      (promised sigterm selected signum (service_of name f)).active ≡ true
      → (seen : Link → Entry) (k : Key) → IsSeen seen name k
      → CanStart seen name
      → (pids : List ℕ) (t : Table) → length after.active + length t < max_services
      → IsRunning k (scan_round (λ i. false) pids (some (map seen after.active)) t)
  command_action-IsRunning active seen k s c pids t room =
      let (l, (m, to)) = linked-LinksTo name after.active (linked-after ∙ active) in
      scan_round-IsRunning (λ i. false) (λ i. refl) pids (map seen after.active) t
        (omega (arith, length-map after.active seen)) (seen l) k (In-map seen l after.active m)
        (seen-Startable seen name k l s c to)

  -- A command that promises that the service is not active is followed by a scan that starts no monitor
  -- for its directory, if none ran there, whatever happens to the monitors of other services and
  -- whichever calls of the scan for them fail, and wherever it is stopped. The calls of the command
  -- succeed but for those on the control pipe, which may have no reader. No other service has a link
  -- under the names that the priorities of this one give, its own links have such a name, and the scan
  -- finds its directory behind its links and no others.
  pub command_action-IsIdle :
      (promised sigterm selected signum (service_of name f)).active ≡ false
      → (seen : Link → Entry) (k : Key) → IsSeen seen name k
      → (stops : ℕ → Bool) (pids : List ℕ) (t : Table) → IsIdle k t
      → IsIdle k (scan_round stops pids (some (map seen after.active)) t)
        × (¬ IsRunning k (scan_round stops pids (some (map seen after.active)) t))
  command_action-IsIdle idle seen k s stops pids t h =
      let still : IsIdle k (scan_round stops pids (some (map seen after.active)) t) =
        scan_round-IsIdle k stops pids (map seen after.active) t
          (λ e m.
            let (l, (m', same)) = In-map_old seen e after.active m in
            subst (Avoids k) same (
              seen-Avoids seen name k l s
                (linked-AreOther name after.active (linked-after ∙ idle) l m')))
          h in
      (still, IsIdle-IsRunning k _ still)
