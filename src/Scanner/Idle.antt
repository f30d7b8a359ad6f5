-- ===== src/Scanner/Idle.antt =====
-- A directory without a monitor and without a link, in scans of srvctl/src/scanner.c.
use ngim.Base.{
  ℕ, ◌≡◌, refl, sym, ◌∙◌, Bool, true, false, Option, none, some, List, [], ◌∷◌, ◌==◌, ◌||◌, not, In,
  inl, inr, length, leb, ltb, ◌+◌, ◌-◌, Gives, Gives-some, Gives-none, if-ind, arith,
}
use ngim.Cmdline.{Str, char_at}
use ngim.Scanner.{
  Key, Service, key_eq, Table, get, set, Entry, display_name, named_entry, create_entry,
  run_monitor, start_monitor, start_new, start_found, start_stat, start, clear_services,
  monitor_done, max_services,
}
use ngim.Scanner.Scan.{read_entries, insert, sort, start_entries, done_all, scan_round}
use ngim.Tai.Order.{lex_less}
use ngim.Scanner.Started.{IsRunning}
use ngim.Scanner.Table.{HasPid}

-- No monitor runs for the directory.
abbrev pub IsIdle : Key → Table → Type 0
IsIdle k [] = Unit
IsIdle k ((l, v) ∷ t) = (key_eq k l ≡ true → v.pid ≡ 0) × IsIdle k t

-- The entry is no link to the directory.
abbrev pub Avoids : Key → Entry → Type 0
Avoids k e =
    (j : Key)
    → e.is_link ≡ true
    → (char_at e.name 0 == b'.') ≡ false
    → e.stat ≡ some (true, j)
    → key_eq k j ≡ false

module _ (k : Key) where
  set-IsIdle :
      (j : Key) (v : Service) (t : Table) → key_eq k j ≡ false → IsIdle k t → IsIdle k (set j v t)
  unfolding set
  set-IsIdle j v [] n h = (λ e. let no : ⊥ = cc in absurd no, tt)
  set-IsIdle j v ((l, w) ∷ t) n (first, h) =
      if-ind (IsIdle k) (key_eq j l)
        (λ same. (λ e. let no : ⊥ = ground (arith, same, e, n) in absurd no, h))
        (λ _. (first, set-IsIdle j v t n h))

  start_monitor-IsIdle :
      (e : Entry) (j : Key) (v : Service) (t : Table)
      → key_eq k j ≡ false
      → IsIdle k t
      → IsIdle k (start_monitor e j v t)
  unfolding start_monitor run_monitor
  start_monitor-IsIdle e j v t n h = if-ind (IsIdle k) e.attributes (λ _. ran e.process) (λ _. h)
    where
      ran : (p : Option ℕ) → IsIdle k (run_monitor j v p t)
      ran none = h
      ran (some pid) = set-IsIdle j (record v { pid = pid }) t n h

  create_entry-IsIdle :
      (e : Entry) (j : Key) (t : Table)
      → key_eq k j ≡ false
      → IsIdle k t
      → Gives (λ r. IsIdle k r.1) (create_entry e j t)
  unfolding create_entry named_entry
  create_entry-IsIdle e j t n h =
      let P : Service × Table → Type 0 = λ r. IsIdle k r.1 in
      if-ind (Gives P) (leb max_services (length t)) (λ _. Gives-none P) (λ _. named e.basename)
    where
      named : (base : Option Str) → Gives (λ r. IsIdle k r.1) (named_entry e j base t)
      named none = Gives-none (λ r. IsIdle k r.1)
      named (some base) =
          let v : Service = record { pid = 0; active = false; name = display_name base } in
          if-ind (Gives (λ r. IsIdle k r.1)) e.memory
            (λ _. Gives-some (λ r. IsIdle k r.1) (v, set j v t) (set-IsIdle j v t n h))
            (λ _. Gives-none (λ r. IsIdle k r.1))

  start_new-IsIdle :
      (e : Entry) (j : Key) (r : Option (Service × Table)) (t : Table)
      → key_eq k j ≡ false
      → IsIdle k t
      → Gives (λ r. IsIdle k r.1) r
      → IsIdle k (start_new e j r t)
  unfolding start_new
  start_new-IsIdle e j none t n h g = h
  start_new-IsIdle e j (some (v, t')) t n h g =
      let v' : Service = record v { active = true } in
      start_monitor-IsIdle e j v' (set j v' t') n (set-IsIdle j v' t' n (g (v, t') refl))

  start_found-IsIdle :
      (e : Entry) (j : Key) (found : Option Service) (t : Table)
      → key_eq k j ≡ false
      → IsIdle k t
      → IsIdle k (start_found e j found t)
  unfolding start_found
  start_found-IsIdle e j none t n h =
      start_new-IsIdle e j (create_entry e j t) t n h (create_entry-IsIdle e j t n h)
  start_found-IsIdle e j (some v) t n h =
      let v' : Service = record v { active = true } in
      if-ind (IsIdle k) (v.pid == 0)
        (λ _. start_monitor-IsIdle e j v' (set j v' t) n (set-IsIdle j v' t n h))
        (λ _. set-IsIdle j v' t n h)

  start_stat-IsIdle :
      (e : Entry) (stat : Option (Bool × Key)) (t : Table)
      → ((j : Key) → stat ≡ some (true, j) → key_eq k j ≡ false)
      → IsIdle k t
      → IsIdle k (start_stat e stat t)
  unfolding start_stat
  start_stat-IsIdle e none t n h = h
  start_stat-IsIdle e (some (false, j)) t n h = h
  start_stat-IsIdle e (some (true, j)) t n h = start_found-IsIdle e j (get j t) t (n j refl) h

  start-IsIdle : (e : Entry) (t : Table) → Avoids k e → IsIdle k t → IsIdle k (start e t)
  unfolding start
  start-IsIdle e t avoids h =
      if-ind (IsIdle k) (not e.is_link || char_at e.name 0 == b'.') (λ _. h)
        (λ goes.
          start_stat-IsIdle e e.stat t
            (λ j s. avoids j (ground (arith, goes)) (ground (arith, goes)) s) h)

  monitor_done-IsIdle : (pid : ℕ) (t : Table) → IsIdle k t → IsIdle k (monitor_done pid t)
  unfolding monitor_done
  monitor_done-IsIdle pid [] h = tt
  monitor_done-IsIdle pid ((l, v) ∷ t) (first, h) =
      if-ind (IsIdle k) (v.pid == pid) (λ _. (λ _. refl, h))
        (λ _. (first, monitor_done-IsIdle pid t h))

  done_all-IsIdle : (pids : List ℕ) (t : Table) → IsIdle k t → IsIdle k (done_all pids t)
  unfolding done_all
  done_all-IsIdle [] t h = h
  done_all-IsIdle (pid ∷ pids) t h =
      done_all-IsIdle pids (monitor_done pid t) (monitor_done-IsIdle pid t h)

  clear_services-IsIdle : (t : Table) → IsIdle k t → IsIdle k (clear_services t)
  unfolding clear_services
  clear_services-IsIdle [] h = tt
  clear_services-IsIdle ((l, v) ∷ t) (first, h) =
      let rest : IsIdle k (clear_services t) = clear_services-IsIdle t h in
      if-ind (IsIdle k) v.active (λ _. (first, rest))
        (λ _. if-ind (IsIdle k) (v.pid == 0) (λ _. rest) (λ _. (first, rest)))

  start_entries-IsIdle :
      (stops : ℕ → Bool) (es : List Entry) (t : Table)
      → ((e : Entry) → In e es → Avoids k e)
      → IsIdle k t
      → IsIdle k (start_entries stops es t).0
  unfolding start_entries
  start_entries-IsIdle stops [] t avoids h = h
  start_entries-IsIdle stops (e ∷ es) t avoids h =
      let r : Table × ℕ = start_entries stops es t in
      let rest : IsIdle k r.0 = start_entries-IsIdle stops es t (λ d m. avoids d (inr m)) h in
      if-ind (IsIdle k) (stops r.1) (λ _. rest) (λ _. start-IsIdle e r.0 (avoids e (inl refl)) rest)

read_entries-In_old :
    (active : ℕ) (e : Entry) (es : List Entry) → In e (read_entries active es) → In e es
unfolding read_entries
read_entries-In_old active e [] = λ m. m
read_entries-In_old active e (d ∷ es) =
    let T : List Entry → Type 0 = λ l. In e l → In e (d ∷ es) in
    if-ind T (char_at d.name 0 == b'.') (λ _ m. inr (read_entries-In_old active e es m))
      (λ _.
        if-ind T (ltb active (max_services - 1))
          (λ _ m. elim m [
            | inl same ↦ inl same
            | inr later ↦ inr (read_entries-In_old (active + 1) e es later)
          ])
          (λ _ m. absurd m))

insert-In_or : (e x : Entry) (es : List Entry) → In x (insert e es) → In x (e ∷ es)
unfolding insert
insert-In_or e x [] = λ m. m
insert-In_or e x (d ∷ es) =
    let T : List Entry → Type 0 = λ l. In x l → In x (e ∷ d ∷ es) in
    if-ind T (lex_less e.name d.name)
      (λ _ m. elim m [
        | inl same ↦ inr (inl same)
        | inr later ↦ elim (insert-In_or e x es later) [
          | inl same ↦ inl same
          | inr old ↦ inr (inr old)
        ]
      ])
      (λ _ m. m)

sort-In_old : (x : Entry) (es : List Entry) → In x (sort es) → In x es
unfolding sort
sort-In_old x [] m = m
sort-In_old x (e ∷ es) m = elim (insert-In_or e x (sort es) m) [
  | inl same ↦ inl same
  | inr later ↦ inr (sort-In_old x es later)
]

-- A directory without a monitor gets none in a scan that finds no link to it.
pub scan_round-IsIdle :
    (k : Key) (stops : ℕ → Bool) (pids : List ℕ) (es : List Entry) (t : Table)
    → ((e : Entry) → In e es → Avoids k e)
    → IsIdle k t
    → IsIdle k (scan_round stops pids (some es) t)
unfolding scan_round
scan_round-IsIdle k stops pids es t avoids h =
    let read : List Entry = read_entries 0 es in
    clear_services-IsIdle k _ (
      start_entries-IsIdle k stops (sort read) (done_all pids t)
        (λ e m. avoids e (read_entries-In_old 0 e es (sort-In_old e read m)))
        (done_all-IsIdle k pids t h))

get-IsIdle : (k : Key) (t : Table) (v : Service) → IsIdle k t → get k t ≡ some v → v.pid ≡ 0
unfolding get
get-IsIdle k [] v h = λ e. absurd (cc)
get-IsIdle k ((l, w) ∷ t) v (first, h) =
    if-ind (λ o. o ≡ some v → v.pid ≡ 0) (key_eq k l)
      (λ same e. let eq : w ≡ v = cc in rw (sym eq) (first same)) (λ _ e. get-IsIdle k t v h e)

-- Then none runs there.
pub IsIdle-IsRunning : (k : Key) (t : Table) → IsIdle k t → IsRunning k t → ⊥
unfolding IsRunning HasPid
IsIdle-IsRunning k t h (p, (n, (v, (found, same)))) = n (sym same ∙ get-IsIdle k t v h found)
