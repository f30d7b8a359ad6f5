-- ===== src/Scanner/Running.antt =====
-- The monitors that run after start and after a scan of srvctl/src/scanner.c.
use ngim.Base.{
  ℕ, ◌<◌, ◌≡◌, ◌≢◌, refl, sym, ap, ◌∙◌, inl, inr, Bool, true, false, Option, none, some, List, [],
  ◌∷◌, ◌||◌, not, ◌==◌, leb, length, arith, In, Bool-cases, Option-cases, if-ind,
}
use ngim.Cmdline.{Str, char_at}
use ngim.Scanner.{
  Key, Service, Table, Entry, key_eq, get, set, display_name, named_entry, create_entry,
  run_monitor, start_monitor, start_new, start_found, start_stat, start, monitor_done, max_services,
}
use ngim.Scanner.Table.{
  key_eq→≡, get-set_self, get-set_ne, HasPid, clear_services-HasPid, monitor_done-HasPid,
}
use ngim.Scanner.Scan.{read_entries, sort, start_entries, done_all, scan_round}

-- A write of another value of an entry, which keeps its process if it has one.
abbrev pub Keeps : Key → Service → Table → Type 0
Keeps k v t = (w : Service) × ((get k t ≡ some w) × (w.pid ≢ 0 → v.pid ≡ w.pid))

-- What start makes of a table with `P`: at most one entry is added, where there is room.
module _ (P Q : Table → Type 0) (e : Entry) (same : (t : Table) → P t → Q t)
    (adds : (k : Key) (v : Service) (t : Table)
      → length t < max_services
      → get k t ≡ none
      → P t
      → Q (set k v t))
    (keeps : (k : Key) (v : Service) (t : Table) → Keeps k v t → Q t → Q (set k v t)) where
  start_monitor-ind :
      (k : Key) (v w : Service) (t : Table)
      → get k t ≡ some w
      → w.pid ≡ 0
      → Q t
      → Q (start_monitor e k v t)
  unfolding start_monitor run_monitor
  start_monitor-ind k v w t g z p =
      if-ind Q e.attributes
        (λ _. elim (Option-cases e.process) [
          | inl q ↦ rw q p
          | inr (pid, q) ↦ rw q (keeps k _ t (w, (g, λ n. absurd (n z))) p)
        ])
        (λ _. p)

  named_entry-ind :
      (k : Key) (b : Option Str) (t : Table)
      → length t < max_services
      → get k t ≡ none
      → P t
      → Q (start_new e k (named_entry e k b t) t)
  unfolding named_entry start_new
  named_entry-ind k none t less g p = same t p
  named_entry-ind k (some b) t less g p =
      let v : Service = record { pid = 0; active = false; name = display_name b } in
      let v' : Service = record v { active = true } in
      let t1 : Table = set k v t in
      if-ind (λ o. Q (start_new e k o t)) e.memory
        (λ _.
          start_monitor-ind k v' v' (set k v' t1) (get-set_self k v' t1) refl
            (keeps k v' t1 (v, (get-set_self k v t, λ _. refl)) (adds k v t less g p)))
        (λ _. same t p)

  start_none : (k : Key) (t : Table) → P t → Q (start_new e k none t)
  unfolding start_new
  start_none k t p = same t p

  start_found-ind : (k : Key) (t : Table) → P t → Q (start_found e k (get k t) t)
  unfolding start_found create_entry
  start_found-ind k t p = elim (Option-cases (get k t)) [
    | inl g ↦ rw g (
        if-ind (λ o. Q (start_new e k o t)) (leb max_services (length t)) (λ _. start_none k t p)
          (λ less. named_entry-ind k e.basename t (ground arith) g p))
    | inr (v, g) ↦
        let v' : Service = record v { active = true } in
        let p' : Q (set k v' t) = keeps k v' t (v, (g, λ _. refl)) (same t p) in
        rw g (
          if-ind Q (v.pid == 0)
            (λ z. start_monitor-ind k v' v' (set k v' t) (get-set_self k v' t) (ground arith) p')
            (λ _. p'))
  ]

  start_stat-ind : (found : Option (Bool × Key)) (t : Table) → P t → Q (start_stat e found t)
  unfolding start_stat
  start_stat-ind none t p = same t p
  start_stat-ind (some (is_dir, k)) t p =
      if-ind Q is_dir (λ _. start_found-ind k t p) (λ _. same t p)

  pub start-ind : (t : Table) → P t → Q (start e t)
  unfolding start
  start-ind t p =
      if-ind Q (not e.is_link || char_at e.name 0 == b'.') (λ _. same t p)
        (λ _. start_stat-ind e.stat t p)

-- A write keeps what runs.
Keeps-HasPid :
    (p : ℕ) (l : Key)
    → p ≢ 0
    → (k : Key) (v : Service) (t : Table) → Keeps k v t
    → HasPid p l t
    → HasPid p l (set k v t)
unfolding HasPid
Keeps-HasPid p l n k v t (w, (there, kept)) (x, (g, q)) = elim (Bool-cases (key_eq l k)) [
  | inr h ↦ (x, (get-set_ne k l v t h ∙ g, q))
  | inl h ↦
      let same : l ≡ k = key_eq→≡ l k h in
      let here : get k t ≡ some x = rw⁻¹ same g in
      let r : w ≡ x = cc in
      let z : w.pid ≡ p = rw r q in
      (v, (ap (λ m. get m (set k v t)) same ∙ get-set_self k v t, kept (λ e. n (sym z ∙ e)) ∙ z))
]

adds-HasPid :
    (p : ℕ) (l k : Key) (v : Service) (t : Table)
    → length t < max_services
    → get k t ≡ none
    → HasPid p l t
    → HasPid p l (set k v t)
unfolding HasPid
adds-HasPid p l k v t less g (x, (there, q)) = elim (Bool-cases (key_eq l k)) [
  | inr h ↦ (x, (get-set_ne k l v t h ∙ there, q))
  | inl h ↦
      let here : get k t ≡ some x = rw⁻¹ (key_eq→≡ l k h) there in let no : ⊥ = cc in absurd no
]

pub start-HasPid :
    (p : ℕ) (l : Key) (e : Entry) (t : Table) → p ≢ 0 → HasPid p l t → HasPid p l (start e t)
start-HasPid p l e t n h =
    start-ind (HasPid p l) (HasPid p l) e (λ _ same. same) (adds-HasPid p l) (Keeps-HasPid p l n) t
      h

start_entries-HasPid :
    (p : ℕ) (l : Key) (stops : ℕ → Bool) (es : List Entry) (t : Table)
    → p ≢ 0
    → HasPid p l t
    → HasPid p l (start_entries stops es t).0
unfolding start_entries
start_entries-HasPid p l stops [] t n h = h
start_entries-HasPid p l stops (e ∷ es) t n h =
    let r : HasPid p l (start_entries stops es t).0 = start_entries-HasPid p l stops es t n h in
    if-ind (HasPid p l) (stops (start_entries stops es t).1) (λ _. r)
      (λ _. start-HasPid p l e _ n r)

done_all-HasPid :
    (p : ℕ) (l : Key) (pids : List ℕ) (t : Table)
    → ((dead : ℕ) → In dead pids → p ≢ dead)
    → HasPid p l t
    → HasPid p l (done_all pids t)
unfolding done_all
done_all-HasPid p l [] t n h = h
done_all-HasPid p l (d ∷ pids) t n h =
    done_all-HasPid p l pids (monitor_done d t) (λ x m. n x (inr m))
      (monitor_done-HasPid p d l t (n d (inl refl)) h)

-- A monitor that runs for a directory and has not exited is left alone by a scan, whatever the
-- directory of active services holds and whatever fails: the table still holds its process.
pub scan_round-HasPid :
    (p : ℕ) (l : Key) (stops : ℕ → Bool) (pids : List ℕ) (found : Option (List Entry)) (t : Table)
    → p ≢ 0
    → ((dead : ℕ) → In dead pids → p ≢ dead)
    → HasPid p l t
    → HasPid p l (scan_round stops pids found t)
unfolding scan_round
scan_round-HasPid p l stops pids none t n alive h = done_all-HasPid p l pids t alive h
scan_round-HasPid p l stops pids (some es) t n alive h = clear_services-HasPid p l _ n (
    start_entries-HasPid p l stops (sort (read_entries 0 es)) _ n
      (done_all-HasPid p l pids t alive h))
