-- ===== src/Scanner/Invariant.antt =====
-- What every table of services of srvctl/src/scanner.c satisfies: as many entries as there may be
-- monitors at most, and one entry for a directory.
use ngim.Base.{
  ℕ, zero, suc, ◌≤◌, ◌≡◌, refl, sym, ap, ◌∙◌, inl, inr, Bool, false, Option, none, some, List, [],
  ◌∷◌, ◌==◌, length, arith, Bool-cases, if-ind, if_true, if_false,
}
use ngim.Scanner.{
  Key, Service, Table, Entry, key_eq, get, set, start, clear_services, monitor_done, max_services,
}
use ngim.Scanner.Table.{AreKeyed, get-set_ne}
use ngim.Scanner.Running.{start-ind}
use ngim.Scanner.Scan.{read_entries, sort, start_entries, done_all, scan_round, Round, step, scan}

pub length-set_new :
    (k : Key) (v : Service) (t : Table) → get k t ≡ none → length (set k v t) ≡ suc (length t)
unfolding get set
length-set_new k v [] g = refl
length-set_new k v ((l, w) ∷ t) g = elim (Bool-cases (key_eq k l)) [
  | inl h ↦ let e : some w ≡ none = sym (if_true _ _ h) ∙ g in let no : ⊥ = cc in absurd no
  | inr h ↦ ap length (if_false _ _ h) ∙ ap suc (length-set_new k v t (sym (if_false _ _ h) ∙ g))
]

pub length-set_old :
    (k : Key) (v w : Service) (t : Table) → get k t ≡ some w → length (set k v t) ≡ length t
unfolding get set
length-set_old k v w [] g = let no : ⊥ = cc in absurd no
length-set_old k v w ((l, x) ∷ t) g = elim (Bool-cases (key_eq k l)) [
  | inl h ↦ ap length (if_true _ _ h)
  | inr h ↦ ap length (if_false _ _ h) ∙ ap suc (length-set_old k v w t (sym (if_false _ _ h) ∙ g))
]

set-AreKeyed : (k : Key) (v : Service) (t : Table) → AreKeyed t → AreKeyed (set k v t)
unfolding get set
set-AreKeyed k v [] u = (refl, tt)
set-AreKeyed k v ((l, w) ∷ t) (g, u) = elim (Bool-cases (key_eq k l)) [
  | inl h ↦ rw (if_true ((l, v) ∷ t) ((l, w) ∷ set k v t) h) (g, u)
  | inr h ↦
      let h' : key_eq l k ≡ false = ground arith in
      rw (if_false ((l, v) ∷ t) ((l, w) ∷ set k v t) h)
        (get-set_ne k l v t h' ∙ g, set-AreKeyed k v t u)
]

-- An operation that only takes entries away or changes them in place.
clear_services-none : (k : Key) (t : Table) → get k t ≡ none → get k (clear_services t) ≡ none
unfolding get clear_services
clear_services-none k [] g = refl
clear_services-none k ((l, w) ∷ t) g = ground (arith, clear_services-none k t)

monitor_done-none :
    (dead : ℕ) (k : Key) (t : Table) → get k t ≡ none → get k (monitor_done dead t) ≡ none
unfolding get monitor_done
monitor_done-none dead k [] g = refl
monitor_done-none dead k ((l, w) ∷ t) g = ground (arith, monitor_done-none dead k t)

abbrev pub IsTable : Table → Type 0
IsTable t = (length t ≤ max_services) × AreKeyed t

-- The part of the invariant that goes down the list, with any bound.
abbrev IsWithin : ℕ → Table → Type 0
IsWithin n t = (length t ≤ n) × AreKeyed t

clear_services-IsWithin : (n : ℕ) (t : Table) → IsWithin n t → IsWithin n (clear_services t)
unfolding clear_services
clear_services-IsWithin n [] i = i
clear_services-IsWithin zero ((k, v) ∷ t) (b, i) = absurd (omega arith)
clear_services-IsWithin (suc n) ((k, v) ∷ t) (b, (g, u)) =
    let (b', u') = clear_services-IsWithin n t (omega arith, u) in
    let kept : (w : Service) → IsWithin (suc n) ((k, w) ∷ clear_services t) =
      λ w. (omega arith, (clear_services-none k t g, u')) in
    if-ind (IsWithin (suc n)) v.active (λ _. kept (record v { active = false }))
      (λ _. if-ind (IsWithin (suc n)) (v.pid == 0) (λ _. (omega arith, u')) (λ _. kept v))

monitor_done-IsWithin : (n dead : ℕ) (t : Table) → IsWithin n t → IsWithin n (monitor_done dead t)
unfolding monitor_done
monitor_done-IsWithin n dead [] i = i
monitor_done-IsWithin zero dead ((k, v) ∷ t) (b, i) = absurd (omega arith)
monitor_done-IsWithin (suc n) dead ((k, v) ∷ t) (b, (g, u)) =
    let (b', u') = monitor_done-IsWithin n dead t (omega arith, u) in
    if-ind (IsWithin (suc n)) (v.pid == dead) (λ _. (b, (g, u)))
      (λ _. (omega arith, (monitor_done-none dead k t g, u')))

start-IsTable : (e : Entry) (t : Table) → IsTable t → IsTable (start e t)
start-IsTable e t i =
    start-ind IsTable IsTable e (λ _ same. same)
      (λ k v t less g (b, u). (omega (arith, length-set_new k v t g), set-AreKeyed k v t u))
      (λ k v t (w, (g, _)) (b, u). (omega (arith, length-set_old k v w t g), set-AreKeyed k v t u))
      t i

start_entries-IsTable :
    (stops : ℕ → Bool) (es : List Entry) (t : Table)
    → IsTable t
    → IsTable (start_entries stops es t).0
unfolding start_entries
start_entries-IsTable stops [] t i = i
start_entries-IsTable stops (e ∷ es) t i =
    let r : IsTable (start_entries stops es t).0 = start_entries-IsTable stops es t i in
    if-ind IsTable (stops (start_entries stops es t).1) (λ _. r) (λ _. start-IsTable e _ r)

done_all-IsTable : (pids : List ℕ) (t : Table) → IsTable t → IsTable (done_all pids t)
unfolding done_all
done_all-IsTable [] t i = i
done_all-IsTable (d ∷ pids) t i =
    done_all-IsTable pids (monitor_done d t) (monitor_done-IsWithin max_services d t i)

scan_round-IsTable :
    (stops : ℕ → Bool) (pids : List ℕ) (found : Option (List Entry)) (t : Table)
    → IsTable t
    → IsTable (scan_round stops pids found t)
unfolding scan_round
scan_round-IsTable stops pids none t i = done_all-IsTable pids t i
scan_round-IsTable stops pids (some es) t i =
    clear_services-IsWithin max_services _
      (start_entries-IsTable stops (sort (read_entries 0 es)) _ (done_all-IsTable pids t i))

step-IsTable : (r : Round) (t : Table) → IsTable t → IsTable (step r t)
unfolding step
step-IsTable r t i =
    if-ind IsTable r.pool (λ _. scan_round-IsTable r.stops r.exited r.found t i) (λ _. i)

scan_all : (rounds : List Round) (t : Table) → IsTable t → IsTable (scan rounds t)
unfolding scan
scan_all [] t i = i
scan_all (r ∷ rounds) t i =
    let i' : IsTable (step r t) = step-IsTable r t i in
    if-ind IsTable r.stopped (λ _. i') (λ _. scan_all rounds (step r t) i')

-- However many rounds the loop of scan makes, from an empty table on, and whatever they find: the
-- table has max_services entries at most, and their keys differ from each other.
pub scan-IsTable : (rounds : List Round) → IsTable (scan rounds [])
scan-IsTable rounds = scan_all rounds [] (omega arith, tt)
