-- ===== src/Srvctl/Links.antt =====
-- The links to a service in the directory of active services, under the commands of
-- srvctl/src/srvctl.c.
use ngim.Base.{
  ℕ, ◌≡◌, sym, ap, ◌∙◌, ◌⊎◌, inl, inr, Bool, true, false, Option, none, some, List, [], ◌∷◌, ◌++◌,
  ◌&&◌, not, In, if-ind, if_true, if_false, arith, Bool-cases,
}
use ngim.Cmdline.{Str, str_eq}
use ngim.Cmdline.Strings.{str_eq_refl}
use ngim.Symlink.{basename_loop, resolve_symlink_basename}
use ngim.Srvctl.Files.{
  Link, Files, Answers, Pipe, absent, refused, broken, ready, Outcome, done, died, files_of,
  and_then, linkname_of, service_linkname, service_realname, is_valid, active_loop,
  service_create_up, service_remove_up, has_entry, unlink, add_link, service_add, remove_link,
  service_remove, monitor_command,
}
use ngim.Srvctl.Action.{add_again}

-- A link to the directory of the service.
abbrev pub LinksTo : Str → Link → Type 0
LinksTo name l = (is_valid l ≡ true) × (basename_loop [] l.text ≡ name)

-- Every link to the service has the name that service_linkname gives now.
abbrev pub AreNamed : Str → Option Str → List Link → Type 0
AreNamed name priority links =
    (l : Link) → In l links → LinksTo name l → l.name ≡ linkname_of name priority

abbrev pub IsLinked : Str → Files → Type 0
IsLinked name f = AreNamed name f.priority f.active

-- No link leads to the service.
abbrev pub AreOther : Str → List Link → Type 0
AreOther name links = (l : Link) → In l links → LinksTo name l → ⊥

abbrev pub NotLinked : Str → Files → Type 0
NotLinked name f = AreOther name f.active

pub NotLinked-IsLinked : (name : Str) (f : Files) → NotLinked name f → IsLinked name f
NotLinked-IsLinked name f n l m to = absurd (n l m to)

active_loop_head :
    (a : Answers) (name : Str) (x : Link) (links : List Link)
    → active_loop a name (x ∷ links) ≡ some false
    → LinksTo name x
    → ⊥
unfolding active_loop service_realname resolve_symlink_basename
active_loop_head a name x links h (valid, to) =
    let e : str_eq name (basename_loop [] x.text) ≡ true = rw to (str_eq_refl name) in
    ground (arith, e, valid, h)

active_loop_tail :
    (a : Answers) (name : Str) (x : Link) (links : List Link)
    → active_loop a name (x ∷ links) ≡ some false
    → active_loop a name links ≡ some false
unfolding active_loop service_realname resolve_symlink_basename
active_loop_tail a name x links h = ground (arith, h)

pub active_loop-AreOther :
    (a : Answers) (name : Str) (links : List Link)
    → active_loop a name links ≡ some false
    → AreOther name links
active_loop-AreOther a name [] h l m to = absurd m
active_loop-AreOther a name (x ∷ links) h l (inl same) to =
    active_loop_head a name x links h (rw same to)
active_loop-AreOther a name (x ∷ links) h l (inr later) to =
    active_loop-AreOther a name links (active_loop_tail a name x links h) l later to

pub unlink-In :
    (n : Str) (links : List Link) (l : Link)
    → In l (unlink n links)
    → In l links × (str_eq l.name n ≡ false)
unfolding unlink
unlink-In n [] l m = absurd m
unlink-In n (x ∷ links) l m = elim (Bool-cases (str_eq x.name n)) [
  | inl h ↦
      let m' : In l (unlink n links) = rw (if_true (unlink n links) (x ∷ unlink n links) h) at m in
      let (there, other) = unlink-In n links l m' in (inr there, other)
  | inr h ↦
      let m' : In l (x ∷ unlink n links) =
        rw (if_false (unlink n links) (x ∷ unlink n links) h) at m in
      elim m' [
        | inl same ↦ (inl same, ap (λ y. str_eq y.name n) (sym same) ∙ h)
        | inr later ↦ let (there, other) = unlink-In n links l later in (inr there, other)
      ]
]

append-In : (links : List Link) (x l : Link) → In l (links ++ (x ∷ [])) → In l links ⊎ (x ≡ l)
append-In [] x l (inl same) = inr same
append-In [] x l (inr m) = absurd m
append-In (y ∷ links) x l (inl same) = inl (inl same)
append-In (y ∷ links) x l (inr m) = elim (append-In links x l m) [
  | inl there ↦ inl (inr there)
  | inr same ↦ inr same
]

-- Removing the link by its name leaves no other one behind.
pub unlink-AreOther :
    (name : Str) (priority : Option Str) (links : List Link)
    → AreNamed name priority links
    → AreOther name (unlink (linkname_of name priority) links)
unlink-AreOther name priority links u l m to =
    let (there, other) = unlink-In (linkname_of name priority) links l m in
    let e : l.name ≡ linkname_of name priority = u l there to in
    let same : str_eq l.name (linkname_of name priority) ≡ true = rw e (str_eq_refl _) in
    let no : ⊥ = cc in absurd no

abbrev pub KeepsLinks : Str → Outcome → Type 0
KeepsLinks name o = IsLinked name (files_of o)

add_link-KeepsLinks :
    (a : Answers) (name : Str) (f : Files)
    → IsLinked name f
    → KeepsLinks name (add_link a name (some (linkname_of name f.priority)) f)
unfolding add_link
add_link-KeepsLinks a name f u =
    let linkname : Str = linkname_of name f.priority in
    if-ind (KeepsLinks name) (a.can_link && not (has_entry linkname f.active))
      (λ _ l m to. elim (append-In f.active _ l m) [
        | inl there ↦ u l there to
        | inr same ↦ sym (ap (λ y. y.name) same)
      ])
      (λ _. u)

add_link_unnamed :
    (a : Answers) (name : Str) (f : Files)
    → IsLinked name f
    → KeepsLinks name (add_link a name none f)
unfolding add_link
add_link_unnamed a name f u = u

pub service_add-KeepsLinks :
    (a : Answers) (name : Str) (f : Files)
    → IsLinked name f
    → KeepsLinks name (service_add a name f)
unfolding service_add service_linkname
service_add-KeepsLinks a name f u =
    if-ind (KeepsLinks name) a.can_make
      (λ _.
        if-ind (λ o. KeepsLinks name (add_link a name o f))
          (a.can_open && (elim f.priority [ none ↦ true | some content ↦ a.can_read ]))
          (λ _. add_link-KeepsLinks a name f u) (λ _. add_link_unnamed a name f u))
      (λ _. u)

-- What service_remove leaves where the links are named.
abbrev pub Removed : Str → Outcome → Type 0
Removed name (done f) = NotLinked name f
Removed name (died f) = IsLinked name f

remove_link-Removed :
    (a : Answers) (name : Str) (f : Files)
    → IsLinked name f
    → Removed name (remove_link a (some (linkname_of name f.priority)) f)
unfolding remove_link
remove_link-Removed a name f u =
    if-ind (Removed name) a.can_remove (λ _. unlink-AreOther name f.priority f.active u) (λ _. u)

remove_link_unnamed :
    (a : Answers) (name : Str) (f : Files) → IsLinked name f → Removed name (remove_link a none f)
unfolding remove_link
remove_link_unnamed a name f u = u

pub service_remove-Removed :
    (a : Answers) (name : Str) (f : Files)
    → IsLinked name f
    → Removed name (service_remove a name f)
unfolding service_remove service_linkname
service_remove-Removed a name f u =
    if-ind (λ o. Removed name (remove_link a o f))
      (a.can_open && (elim f.priority [ none ↦ true | some content ↦ a.can_read ]))
      (λ _. remove_link-Removed a name f u) (λ _. remove_link_unnamed a name f u)

pub Removed-KeepsLinks : (name : Str) (o : Outcome) → Removed name o → KeepsLinks name o
Removed-KeepsLinks name (done f) n = NotLinked-IsLinked name f n
Removed-KeepsLinks name (died f) u = u

pub and_then-KeepsLinks :
    (name : Str) (o : Outcome) (next : Files → Outcome)
    → KeepsLinks name o
    → ((f : Files) → IsLinked name f → KeepsLinks name (next f))
    → KeepsLinks name (and_then o next)
and_then-KeepsLinks name (done f) next u h = h f u
and_then-KeepsLinks name (died f) next u h = u

pub monitor_command-KeepsLinks :
    (p : Pipe) (nonblocking : Bool) (cmd : ℕ) (name : Str) (f : Files)
    → IsLinked name f
    → KeepsLinks name (monitor_command p nonblocking cmd f)
unfolding monitor_command
monitor_command-KeepsLinks absent nonblocking cmd name f u = u
monitor_command-KeepsLinks refused nonblocking cmd name f u =
    if-ind (KeepsLinks name) nonblocking (λ _. u) (λ _. u)
monitor_command-KeepsLinks broken nonblocking cmd name f u = u
monitor_command-KeepsLinks ready nonblocking cmd name f u = u

pub service_create_up-KeepsLinks :
    (a : Answers) (name : Str) (f : Files)
    → IsLinked name f
    → KeepsLinks name (service_create_up a f)
unfolding service_create_up
service_create_up-KeepsLinks a name f u =
    if-ind (KeepsLinks name) (a.can_make && a.can_create) (λ _. u) (λ _. u)

pub service_remove_up-KeepsLinks :
    (a : Answers) (name : Str) (f : Files)
    → IsLinked name f
    → KeepsLinks name (service_remove_up a f)
unfolding service_remove_up
service_remove_up-KeepsLinks a name f u = if-ind (KeepsLinks name) a.can_remove (λ _. u) (λ _. u)

pub add_again-KeepsLinks :
    (a : Answers) (active : Bool) (name : Str) (f : Files)
    → IsLinked name f
    → IsLinked name (add_again a active name f)
unfolding add_again
add_again-KeepsLinks a active name f u =
    if-ind (IsLinked name) active (λ _. service_add-KeepsLinks a name f u) (λ _. u)
