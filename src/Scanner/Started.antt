-- ===== src/Scanner/Started.antt =====
-- The monitors that a scan of srvctl/src/scanner.c starts.
use ngim.Base.{
  ℕ, suc, ◌+◌, ◌-◌, ◌≤◌, ◌<◌, ◌≡◌, ◌≢◌, refl, sym, ap, ◌∙◌, inl, inr, Bool, true, false, some, List,
  [], ◌∷◌, ◌||◌, not, ◌==◌, ltb, leb, length, arith, In, Option-cases, if-ind, if_true, if_false,
}
use ngim.Cmdline.{Str, char_at}
use ngim.Tai.Order.{lex_less}
use ngim.Scanner.{
  Key, Service, Table, Entry, get, set, display_name, named_entry, create_entry, run_monitor,
  start_monitor, start_new, start_found, start_stat, start, clear_services, monitor_done,
  max_services,
}
use ngim.Scanner.Table.{get-set_self, HasPid, clear_services-HasPid}
use ngim.Scanner.Running.{start-ind, start-HasPid}
use ngim.Scanner.Invariant.{length-set_new, length-set_old}
use ngim.Scanner.Scan.{read_entries, insert, sort, start_entries, done_all, scan_round}

-- An entry that is a link to the directory `k`, for which every call of start succeeds.
pub record Startable (e : Entry) (k : Key) : Type 0 where
  pub links : e.is_link ≡ true
  pub shown : (char_at e.name 0 == b'.') ≡ false
  pub stats : e.stat ≡ some (true, k)
  pub base : Str
  pub names : e.basename ≡ some base
  pub allocates : e.memory ≡ true
  pub prepares : e.attributes ≡ true
  pub pid : ℕ
  pub forks : e.process ≡ some pid
  pub nonzero : pid ≢ 0

-- A monitor runs for the directory.
unfoldable pub IsRunning : Key → Table → Type 0
IsRunning k t = (p : ℕ) × ((p ≢ 0) × HasPid p k t)

start_monitor-IsRunning :
    (e : Entry) (k : Key) (v : Service) (t : Table)
    → Startable e k
    → IsRunning k (start_monitor e k v t)
unfolding start_monitor run_monitor IsRunning HasPid
start_monitor-IsRunning e k v t s =
    let v' : Service = record v { pid = s.pid } in
    let eq : start_monitor e k v t ≡ set k v' t =
      if_true _ _ s.prepares ∙ ap (λ o. run_monitor k v o t) s.forks in
    (s.pid, (s.nonzero, (v', (ap (get k) eq ∙ get-set_self k v' t, refl))))

create_entry-some :
    (e : Entry) (k : Key) (t : Table)
    → Startable e k
    → length t < max_services
    → (r : Service × Table) × (create_entry e k t ≡ some r)
unfolding create_entry named_entry
create_entry-some e k t s less =
    let v : Service = record { pid = 0; active = false; name = display_name s.base } in
    (
      (v, set k v t),
      if_false {b = leb max_services (length t)} _ _ (ground arith)
          ∙ (ap (λ o. named_entry e k o t) s.names ∙ if_true _ _ s.allocates),
    )

start_found-IsRunning :
    (e : Entry) (k : Key) (t : Table)
    → Startable e k
    → length t < max_services
    → IsRunning k (start_found e k (get k t) t)
unfolding start_found start_new IsRunning HasPid
start_found-IsRunning e k t s less = elim (Option-cases (get k t)) [
  | inl g ↦
      let ((v, t1), c) = create_entry-some e k t s less in
      let v' : Service = record v { active = true } in
      rw (g, c) (start_monitor-IsRunning e k v' (set k v' t1) s)
  | inr (v, g) ↦
      let v' : Service = record v { active = true } in
      rw g (
        if-ind (IsRunning k) (v.pid == 0) (λ _. start_monitor-IsRunning e k v' (set k v' t) s)
          (λ n. (
            v.pid,
            (λ z. let no : ⊥ = ground arith in absurd no, (v', (get-set_self k v' t, refl))),
          )))
]

start-IsRunning :
    (e : Entry) (k : Key) (t : Table)
    → Startable e k
    → length t < max_services
    → IsRunning k (start e t)
unfolding start start_stat
start-IsRunning e k t s less =
    let passes : (not e.is_link || char_at e.name 0 == b'.') ≡ false =
      ground (arith, s.links, s.shown) in
    let stat_eq : start_stat e e.stat t ≡ start_found e k (get k t) t =
      ap (λ o. start_stat e o t) s.stats in
    let eq : start e t ≡ start_found e k (get k t) t = if_false _ _ passes ∙ stat_eq in
    rw eq (start_found-IsRunning e k t s less)

abbrev AtMost : ℕ → Table → Type 0
AtMost n t = length t ≤ n

-- A start adds one entry at most.
start_grows : (n : ℕ) (e : Entry) (t : Table) → length t ≤ n → length (start e t) ≤ suc n
start_grows n e t b =
    start-ind (AtMost n) (AtMost (suc n)) e (λ x h. omega arith)
      (λ k v x less g h. omega (arith, length-set_new k v x g))
      (λ k v x (w, (g, _)) h. omega (arith, length-set_old k v w x g)) t b

clear_services-IsRunning : (k : Key) (t : Table) → IsRunning k t → IsRunning k (clear_services t)
unfolding IsRunning
clear_services-IsRunning k t (p, (n, h)) = (p, (n, clear_services-HasPid p k t n h))

module _ (stops : ℕ → Bool) (goes_on : (i : ℕ) → stops i ≡ false) where
  start_entries_grows :
      (es : List Entry) (t : Table) → length (start_entries stops es t).0 ≤ length es + length t
  unfolding start_entries
  start_entries_grows [] t = omega arith
  start_entries_grows (e ∷ es) t =
      let r : Table × ℕ = start_entries stops es t in
      let grown : length (start_entries stops (e ∷ es) t).0 ≤ suc (length es + length t) =
        if-ind (AtMost (suc (length es + length t))) (stops r.1)
          (λ h. let no : ⊥ = ground (arith, goes_on r.1) in absurd no)
          (λ _. start_grows (length es + length t) e r.0 (start_entries_grows es t)) in
      omega arith

  start_entries-IsRunning :
      (e : Entry) (k : Key) (es : List Entry) (t : Table)
      → Startable e k
      → In e es
      → length es + length t ≤ max_services
      → IsRunning k (start_entries stops es t).0
  unfolding start_entries IsRunning
  start_entries-IsRunning e k [] t s m b = absurd m
  start_entries-IsRunning e k (d ∷ es) t s m b =
      let r : Table × ℕ = start_entries stops es t in
      let grows : length r.0 ≤ length es + length t = start_entries_grows es t in
      if-ind (IsRunning k) (stops r.1) (λ h. let no : ⊥ = ground (arith, goes_on r.1) in absurd no)
        (λ _. elim m [
          | inl same ↦ rw same (start-IsRunning e k r.0 s (omega arith))
          | inr later ↦
              let (p, (n, h)) = start_entries-IsRunning e k es t s later (omega arith) in
              (p, (n, start-HasPid p k d r.0 n h))
        ])

insert-In_new : (e : Entry) (es : List Entry) → In e (insert e es)
unfolding insert
insert-In_new e [] = inl refl
insert-In_new e (d ∷ es) =
    if-ind (In e) (lex_less e.name d.name) (λ _. inr (insert-In_new e es)) (λ _. inl refl)

insert-In_old : (e x : Entry) (es : List Entry) → In x es → In x (insert e es)
unfolding insert
insert-In_old e x [] m = absurd m
insert-In_old e x (d ∷ es) m =
    if-ind (In x) (lex_less e.name d.name)
      (λ _. elim m [ inl same ↦ inl same | inr later ↦ inr (insert-In_old e x es later) ])
      (λ _. inr m)

sort-In : (x : Entry) (es : List Entry) → In x es → In x (sort es)
unfolding sort
sort-In x [] m = m
sort-In x (e ∷ es) m = elim m [
  | inl same ↦ rw (sym same) (insert-In_new e (sort es))
  | inr later ↦ insert-In_old e x (sort es) (sort-In x es later)
]

length-insert : (e : Entry) (es : List Entry) → length (insert e es) ≡ suc (length es)
unfolding insert
length-insert e [] = refl
length-insert e (d ∷ es) = ground (arith, length-insert e es)

length-sort : (es : List Entry) → length (sort es) ≡ length es
unfolding sort
length-sort [] = refl
length-sort (e ∷ es) = length-insert e (sort es) ∙ ap suc (length-sort es)

read_entries-In :
    (active : ℕ) (e : Entry) (es : List Entry)
    → (char_at e.name 0 == b'.') ≡ false
    → In e es
    → active + length es < max_services
    → In e (read_entries active es)
unfolding read_entries
read_entries-In active e [] shown m b = absurd m
read_entries-In active e (d ∷ es) shown m b =
    if-ind (In e) (char_at d.name 0 == b'.')
      (λ h. elim m [
        | inl same ↦ let no : ⊥ = ground (arith, rw same at h, shown) in absurd no
        | inr later ↦ read_entries-In active e es shown later (omega arith)
      ])
      (λ _.
        if-ind (In e) (ltb active (max_services - 1))
          (λ _. elim m [
            | inl same ↦ inl same
            | inr later ↦ inr (read_entries-In (active + 1) e es shown later (omega arith))
          ])
          (λ h. let no : ⊥ = ground (arith, b) in absurd no))

read_entries_le : (active : ℕ) (es : List Entry) → length (read_entries active es) ≤ length es
unfolding read_entries
read_entries_le active [] = omega arith
read_entries_le active (e ∷ es) =
    ground (arith, read_entries_le active es, read_entries_le (active + 1) es)

length-monitor_done : (pid : ℕ) (t : Table) → length (monitor_done pid t) ≡ length t
unfolding monitor_done
length-monitor_done pid [] = refl
length-monitor_done pid ((k, v) ∷ t) = ground (arith, length-monitor_done pid t)

length-done_all : (pids : List ℕ) (t : Table) → length (done_all pids t) ≡ length t
unfolding done_all
length-done_all [] t = refl
length-done_all (pid ∷ pids) t =
    length-done_all pids (monitor_done pid t) ∙ length-monitor_done pid t

-- After a scan that is not stopped, a monitor runs for every directory that an entry of the
-- directory of active services links to, where every call for that entry succeeds, even if there
-- was none before or it has exited. The entries and the table together have fewer than max_services
-- members.
pub scan_round-IsRunning :
    (stops : ℕ → Bool)
    → ((i : ℕ) → stops i ≡ false)
    → (pids : List ℕ) (es : List Entry) (t : Table) → length es + length t < max_services
    → (e : Entry) (k : Key) → In e es
    → Startable e k
    → IsRunning k (scan_round stops pids (some es) t)
unfolding scan_round
scan_round-IsRunning stops goes_on pids es t b e k m s =
    let read : List Entry = read_entries 0 es in
    let t1 : Table = done_all pids t in
    let there : In e (sort read) =
      sort-In e read (read_entries-In 0 e es s.shown m (omega arith)) in
    let room : length (sort read) + length t1 ≤ max_services =
      omega (arith, length-sort read, read_entries_le 0 es, length-done_all pids t) in
    clear_services-IsRunning k _
      (start_entries-IsRunning stops goes_on e k (sort read) t1 s there room)
