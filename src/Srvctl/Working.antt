-- ===== src/Srvctl/Working.antt =====
-- The operations of srvctl/src/srvctl.c on the files of a service where every call of the system
-- succeeds.
use ngim.Base.{
  ℕ, ◌≡◌, ◌≢◌, refl, sym, ap, ◌∙◌, ◌≤◌, ne→==, inl, inr, Bool, true, false, Option, none, some,
  List, [], ◌∷◌, ◌++◌, ◌&&◌, ◌==◌, In, All, if◌then◌else◌, if-ind, if_true, arith, Option-cases,
  Bool-cases,
}
use ngim.Cmdline.{Str, str_eq, char_at}
use ngim.Symlink.{
  basename_loop, resolve_symlink_basename, relative_path, basename_loop-relative_path,
}
use ngim.Srvctl.Files.{
  Link, Files, Answers, ready, done, gets, digits_of, or_name, linkname_of, service_linkname,
  service_realname, is_valid, active_loop, service_active, service_create_up, service_remove_up,
  has_entry, unlink, add_link, service_add, remove_link, service_remove, put_command,
  monitor_command,
}
use ngim.Cmdline.Strings.{str_eq→≡, str_eq_refl}
use ngim.Srvctl.Links.{LinksTo, AreOther}

-- Every call succeeds, and a monitor reads the control pipe.
pub record Works (a : Answers) : Type 0 where
  pub stats : a.can_stat ≡ true
  pub opens : a.can_open ≡ true
  pub reads : a.can_read ≡ true
  pub resolves : (s : Str) → a.can_resolve s ≡ true
  pub allocates : a.memory ≡ true
  pub makes : a.can_make ≡ true
  pub creates : a.can_create ≡ true
  pub removes : a.can_remove ≡ true
  pub links : a.can_link ≡ true
  pub puts : a.put_stops ≡ none
  pub controls : a.control ≡ ready

-- Whether one of the links leads to the service.
unfoldable pub linked : Str → List Link → Bool
linked name [] = false
linked name (l ∷ links) =
    let rest = linked name links in
    if is_valid l && str_eq name (basename_loop [] l.text) then true else rest

module _ (a : Answers) (w : Works a) where
  pub active_loop_works :
      (name : Str) (links : List Link) → active_loop a name links ≡ some (linked name links)
  unfolding active_loop service_realname resolve_symlink_basename linked
  active_loop_works name [] = refl
  active_loop_works name (l ∷ links) =
      ground (arith, active_loop_works name links, w.allocates, w.resolves l.name)

  pub service_active_works :
      (name : Str) (f : Files) → service_active a name f ≡ some (linked name f.active)
  unfolding service_active
  service_active_works name f = if_true _ _ w.opens ∙ active_loop_works name f.active

  pub service_create_up_works : (f : Files) → service_create_up a f ≡ done (record f { up = true })
  unfolding service_create_up
  service_create_up_works f = ground (arith, w.makes, w.creates)

  pub service_remove_up_works : (f : Files) → service_remove_up a f ≡ done (record f { up = false })
  unfolding service_remove_up
  service_remove_up_works f = if_true _ _ w.removes

  pub monitor_command_works :
      (nonblocking : Bool) (cmd : ℕ) (f : Files)
      → monitor_command a.control nonblocking cmd f ≡ done (put_command cmd f)
  unfolding monitor_command
  monitor_command_works nonblocking cmd f = ap (λ p. monitor_command p nonblocking cmd f) w.controls

  service_linkname_works :
      (name : Str) (f : Files) → service_linkname a name f ≡ some (linkname_of name f.priority)
  unfolding service_linkname
  service_linkname_works name f = elim (Option-cases f.priority) [
    | inl e ↦ ground (arith, w.opens, e)
    | inr (c, e) ↦ ground (arith, w.opens, w.reads, e)
  ]

  pub service_remove_works :
      (name : Str) (f : Files)
      → service_remove a name f
        ≡ done (record f { active = unlink (linkname_of name f.priority) f.active })
  unfolding service_remove remove_link
  service_remove_works name f =
      ap (λ o. remove_link a o f) (service_linkname_works name f) ∙ if_true _ _ w.removes

  -- service_add, where no entry has the name.
  pub service_add_works :
      (name : Str) (f : Files)
      → has_entry (linkname_of name f.priority) f.active ≡ false
      → service_add a name f
        ≡ done (record f {
          active =
              f.active
              ++ (record {
                name = linkname_of name f.priority;
                is_link = true;
                text = relative_path name;
              }
                  ∷ []);
        })
  unfolding service_add add_link
  service_add_works name f h =
      if_true _ _ w.makes
      ∙ (ap (λ o. add_link a name o f) (service_linkname_works name f) ∙ ground (arith, w.links, h))

pub linked-false :
    (name : Str) (links : List Link) → AreOther name links → linked name links ≡ false
unfolding linked
linked-false name [] n = refl
linked-false name (l ∷ links) n =
    let base : Str = basename_loop [] l.text in
    if-ind (λ b. b ≡ false) (is_valid l && str_eq name base)
      (λ t.
        let valid : is_valid l ≡ true = ground arith in
        let equal : str_eq name base ≡ true = ground arith in
        absurd (n l (inl refl) (valid, sym (str_eq→≡ name base equal))))
      (λ _. linked-false name links (λ x m. n x (inr m)))

pub has_entry-false :
    (name : Str) (links : List Link)
    → ((l : Link) → In l links → l.name ≢ name)
    → has_entry name links ≡ false
unfolding has_entry
has_entry-false name [] n = refl
has_entry-false name (l ∷ links) n =
    let rest : has_entry name links ≡ false = has_entry-false name links (λ x m. n x (inr m)) in
    elim (Bool-cases (str_eq l.name name)) [
      | inl t ↦ absurd (n l (inl refl) (str_eq→≡ l.name name t))
      | inr t ↦ ground (arith, rest, t)
    ]

pub linked-append :
    (name : Str) (links : List Link) (l : Link)
    → LinksTo name l
    → linked name (links ++ (l ∷ [])) ≡ true
unfolding linked
linked-append name [] l (v, t) =
    let e : str_eq name (basename_loop [] l.text) ≡ true = rw t (str_eq_refl name) in
    ground (arith, e, v)
linked-append name (x ∷ links) l to = ground (arith, linked-append name links l to)

-- The name of a service: it is not empty, it has no slash and it does not begin with a dot.
abbrev pub IsName : Str → Type 0
IsName [] = ⊥
IsName (c ∷ name) = (c ≢ b'.') × All (λ d. d ≢ b'/') (c ∷ name)

digits_of_head : (s : Str) (c : ℕ) (ds : Str) → digits_of s ≡ some (c ∷ ds) → b'0' ≤ c
unfolding digits_of
digits_of_head [] c ds h = ground (arith, h)
digits_of_head (d ∷ s) c ds h = ground (arith, h)

or_name_shown :
    (c : ℕ) (name : Str) (digits : Option Str)
    → c ≢ b'.'
    → ((d : ℕ) (ds : Str) → digits ≡ some (d ∷ ds) → b'0' ≤ d)
    → (char_at (or_name (c ∷ name) digits) 0 == b'.') ≡ false
or_name_shown c name none dot h = ne→== c b'.' dot
or_name_shown c name (some []) dot h = ne→== c b'.' dot
or_name_shown c name (some (d ∷ ds)) dot h = ground (arith, h d ds refl)

linkname_of_shown :
    (c : ℕ) (name : Str) (priority : Option Str)
    → c ≢ b'.'
    → (char_at (linkname_of (c ∷ name) priority) 0 == b'.') ≡ false
unfolding linkname_of
linkname_of_shown c name none dot = ne→== c b'.' dot
linkname_of_shown c name (some content) dot =
    or_name_shown c name (digits_of (gets 511 content)) dot (digits_of_head (gets 511 content))

pub link-LinksTo :
    (name : Str) (priority : Option Str)
    → IsName name
    → LinksTo name
        (record { name = linkname_of name priority; is_link = true; text = relative_path name })
link-LinksTo (c ∷ name) priority (dot, slashes) = (
  ground (arith, linkname_of_shown c name priority dot),
  basename_loop-relative_path c name slashes,
)
link-LinksTo [] priority n = absurd n
