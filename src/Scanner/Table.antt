-- ===== src/Scanner/Table.antt =====
-- The table of services of srvctl/src/scanner.c, under the operations that change it.
use ngim.Base.{
  ℕ, ◌≡◌, ◌≢◌, sym, ap, ◌∙◌, ◌⊎◌, inl, inr, true, false, none, some, [], ◌∷◌, ◌==◌, arith,
  Bool-cases, if-ind, if_true, if_false,
}
use ngim.Scanner.{Key, Service, Table, key_eq, get, set, clear_services, monitor_done}

by_parts : ℕ → ℕ → Key
by_parts i d = record { inode = i; device = d }

pub key_eq→≡ : (k l : Key) → key_eq k l ≡ true → k ≡ l
unfolding by_parts
key_eq→≡ k l h =
    let i : k.inode ≡ l.inode = ground arith in
    let d : k.device ≡ l.device = ground arith in
    let same : k ≡ l = ap (λ x. by_parts x k.device) i ∙ ap (by_parts l.inode) d in same

pub key_eq_refl : (k : Key) → key_eq k k ≡ true
key_eq_refl k = ground arith

-- A monitor of the process `p` runs for the directory `k`.
unfoldable pub HasPid : ℕ → Key → Table → Type 0
HasPid p k t = (v : Service) × ((get k t ≡ some v) × (v.pid ≡ p))

-- The keys of the table are different from each other.
abbrev pub AreKeyed : Table → Type 0
AreKeyed [] = Unit
AreKeyed ((k, v) ∷ t) = (get k t ≡ none) × AreKeyed t

pub get-set_self : (k : Key) (v : Service) (t : Table) → get k (set k v t) ≡ some v
unfolding get set
get-set_self k v [] = if_true _ _ (key_eq_refl k)
get-set_self k v ((l, w) ∷ t) =
    if-ind (λ x. get k x ≡ some v) (key_eq k l) (λ e. if_true _ _ e)
      (λ e. if_false _ _ e ∙ get-set_self k v t)

pub get-set_ne :
    (k l : Key) (v : Service) (t : Table) → key_eq l k ≡ false → get l (set k v t) ≡ get l t
unfolding get set
get-set_ne k l v [] h = if_false _ _ h
get-set_ne k l v ((m, w) ∷ t) h =
    if-ind (λ x. get l x ≡ get l ((m, w) ∷ t)) (key_eq k m)
      (λ e. let p : k ≡ m = key_eq→≡ k m e in ground (arith, p))
      (λ e. ground (arith, get-set_ne k l v t h))

-- Under what a monitor keeps running, entry by entry.
HasPid-head :
    (p : ℕ) (l k : Key) (w : Service) (t : Table)
    → key_eq l k ≡ true
    → w.pid ≡ p
    → HasPid p l ((k, w) ∷ t)
unfolding HasPid get
HasPid-head p l k w t h e = (w, (if_true _ _ h, e))

HasPid-tail :
    (p : ℕ) (l k : Key) (w : Service) (t : Table)
    → key_eq l k ≡ false
    → HasPid p l t
    → HasPid p l ((k, w) ∷ t)
unfolding HasPid get
HasPid-tail p l k w t h (v, (e, q)) = (v, (if_false _ _ h ∙ e, q))

HasPid-cases :
    (p : ℕ) (l k : Key) (w : Service) (t : Table)
    → HasPid p l ((k, w) ∷ t)
    → ((key_eq l k ≡ true) × (w.pid ≡ p)) ⊎ ((key_eq l k ≡ false) × HasPid p l t)
unfolding HasPid get
HasPid-cases p l k w t (v, (e, q)) = elim (Bool-cases (key_eq l k)) [
  | inl h ↦
      let s : some w ≡ some v = sym (if_true _ _ h) ∙ e in let r : w ≡ v = cc in inl (h, rw r q)
  | inr h ↦ inr (h, (v, (sym (if_false _ _ h) ∙ e, q)))
]

pub clear_services-HasPid :
    (p : ℕ) (l : Key) (t : Table) → p ≢ 0 → HasPid p l t → HasPid p l (clear_services t)
unfolding clear_services
clear_services-HasPid p l [] n h = h
clear_services-HasPid p l ((k, w) ∷ t) n h =
    let rest : Table = clear_services t in
    elim (HasPid-cases p l k w t h) [
      | inl (e, q) ↦
          if-ind (HasPid p l) w.active (λ _. HasPid-head p l k _ rest e q)
            (λ _.
              if-ind (HasPid p l) (w.pid == 0)
                (λ z. let no : ⊥ = n (ground (arith, q)) in absurd no)
                (λ _. HasPid-head p l k w rest e q))
      | inr (e, q) ↦
          let r : HasPid p l rest = clear_services-HasPid p l t n q in
          if-ind (HasPid p l) w.active (λ _. HasPid-tail p l k _ rest e r)
            (λ _. if-ind (HasPid p l) (w.pid == 0) (λ _. r) (λ _. HasPid-tail p l k w rest e r))
    ]

pub monitor_done-HasPid :
    (p dead : ℕ) (l : Key) (t : Table) → p ≢ dead → HasPid p l t → HasPid p l (monitor_done dead t)
unfolding monitor_done
monitor_done-HasPid p dead l [] n h = h
monitor_done-HasPid p dead l ((k, w) ∷ t) n h =
    let rest : Table = monitor_done dead t in
    elim (HasPid-cases p l k w t h) [
      | inl (e, q) ↦
          if-ind (HasPid p l) (w.pid == dead) (λ z. let no : ⊥ = n (ground (arith, q)) in absurd no)
            (λ _. HasPid-head p l k w rest e q)
      | inr (e, q) ↦
          if-ind (HasPid p l) (w.pid == dead) (λ _. HasPid-tail p l k _ t e q)
            (λ _. HasPid-tail p l k w rest e (monitor_done-HasPid p dead l t n q))
    ]
