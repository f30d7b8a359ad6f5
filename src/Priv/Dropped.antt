-- ===== src/Priv/Dropped.antt =====
-- What ngim_priv_drop of libbase/lib/priv.c promises where it returns 0.
use ngim.Base.{
  ℕ, ◌≡◌, ◌≢◌, refl, sym, ap, ◌∙◌, ◌⊎◌, false, Option, none, some, [], ◌∷◌, ◌&&◌, not, ltb, ◌==◌,
  if-ind, arith,
}
use ngim.Cmdline.{Str}
use ngim.Priv.{
  Process, Host, Result, dropped, failed, died, as_int, priv_current, priv_srvctl, set_flag,
  priv_setcaps, drop_caps, set_user, user_known, drop_user, set_group, group_known, priv_drop,
}

-- A property of the process where the result is that the privileges were dropped.
abbrev pub Holds : (Process → Type 0) → Result → Type 0
Holds P (dropped p) = P p
Holds P (failed p) = Unit
Holds P (died p) = Unit

-- The process `p'` has the given user, from which it cannot get back to root, or that of `p`.
abbrev pub HasUser : Host → Option Str → Process → Process → Type 0
HasUser h none p p' = p'.uid ≡ p.uid
HasUser h (some uname) p p' = (h.user uname ≡ some p'.uid) × ((p'.uid ≡ 0) ⊎ (h.regains ≡ false))

-- It has the given group and no other one, or those of `p`.
abbrev pub HasGroup : Host → Option Str → Process → Process → Type 0
HasGroup h none p p' = (p'.gid ≡ p.gid) × (p'.groups ≡ p.groups)
HasGroup h (some gname) p p' = (h.group gname ≡ some p'.gid) × (p'.groups ≡ p'.gid ∷ [])

pub record IsDropped (h : Host) (level : ℕ) (uname gname : Option Str) (p p' : Process)
    : Type 0 where
  pub user : HasUser h uname p p'
  pub group : HasGroup h gname p p'
  pub caps : p'.uid ≡ 0 → level ≢ priv_current → p'.caps ≡ level

as_int-some : (found : Option ℕ) (id : ℕ) → as_int found ≡ some id → found ≡ some id
unfolding as_int
as_int-some none id e = e
as_int-some (some n) id e = ground (arith, e)

module _ (h : Host) (level : ℕ) where
  -- The capabilities are dropped, and nothing else changes.
  pub record Limited (p p' : Process) : Type 0 where
    pub uid_same : p'.uid ≡ p.uid
    pub gid_same : p'.gid ≡ p.gid
    pub groups_same : p'.groups ≡ p.groups
    pub limited : p'.uid ≡ 0 → level ≢ priv_current → p'.caps ≡ level

  drop_caps-Limited : (p : Process) → Holds (Limited p) (drop_caps h level p.uid p)
  unfolding drop_caps priv_setcaps
  drop_caps-Limited p =
      let L : Result → Type 0 = Holds (Limited p) in
      if-ind L (p.uid == 0)
        (λ _.
          if-ind L (level == priv_current)
            (λ c. record {
              uid_same = refl;
              gid_same = refl;
              groups_same = refl;
              limited = λ _ n. absurd (n (ground arith));
            })
            (λ _.
              if-ind L (not (h.can_prctl && h.can_init)) (λ _. tt)
                (λ _.
                  if-ind L (ltb priv_srvctl level) (λ _. tt)
                    (λ _.
                      if-ind L
                        (set_flag h level h.can_set_permitted
                          && (set_flag h level h.can_set_effective && h.can_set_proc))
                        (λ _. record {
                          uid_same = refl;
                          gid_same = refl;
                          groups_same = refl;
                          limited = λ _ _. refl;
                        })
                        (λ _. tt)))))
        (λ n. record {
          uid_same = refl;
          gid_same = refl;
          groups_same = refl;
          limited = λ z _. let no : ⊥ = ground arith in absurd no;
        })

Holds-map :
    {P Q : Process → Type 0} (r : Result) → Holds P r → ((p : Process) → P p → Q p) → Holds Q r
Holds-map (dropped p) h f = f p h
Holds-map (failed p) h f = tt
Holds-map (died p) h f = tt

module _ (h : Host) (level : ℕ) where
  -- The user is set, and the group stays.
  pub record HasOnlyUser (uname : Option Str) (p p' : Process) : Type 0 where
    pub user : HasUser h uname p p'
    pub gid_same : p'.gid ≡ p.gid
    pub groups_same : p'.groups ≡ p.groups
    pub limited : p'.uid ≡ 0 → level ≢ priv_current → p'.caps ≡ level

  not_root :
      (uid : ℕ) (p' : Process)
      → p'.uid ≡ uid
      → (ltb 0 uid && h.regains) ≡ false
      → (p'.uid ≡ 0) ⊎ (h.regains ≡ false)
  not_root uid p' e t = ground (arith, e, t)

  same_user :
      (uname : Option Str) (gid : ℕ) (p p' : Process)
      → HasUser h uname (record p { groups = gid ∷ []; gid = gid }) p'
      → HasUser h uname p p'
  same_user none gid p p' u = u
  same_user (some uname) gid p p' u = u

  user_known-HasOnlyUser :
      (uname : Str) (id : Option ℕ) (p : Process)
      → as_int (h.user uname) ≡ id
      → Holds (HasOnlyUser (some uname) p) (user_known h level id p)
  unfolding user_known set_user
  user_known-HasOnlyUser uname none p e = tt
  user_known-HasOnlyUser uname (some uid) p e =
      let H : Result → Type 0 = Holds (HasOnlyUser (some uname) p) in
      let p1 : Process = record p { uid = uid } in
      let found : h.user uname ≡ some uid = as_int-some (h.user uname) uid e in
      if-ind H (not h.can_setuid) (λ _. tt)
        (λ _.
          if-ind H (ltb 0 uid && h.regains) (λ _. tt)
            (λ t. Holds-map (drop_caps h level uid p1) (drop_caps-Limited h level p1) (λ p' l.
              record {
                user = (found ∙ ap some (sym l.uid_same), not_root uid p' l.uid_same t);
                gid_same = l.gid_same;
                groups_same = l.groups_same;
                limited = l.limited;
              })))

  drop_user-HasOnlyUser :
      (uname : Option Str) (p : Process) → Holds (HasOnlyUser uname p) (drop_user h level uname p)
  unfolding drop_user
  drop_user-HasOnlyUser none p =
      Holds-map (drop_caps h level p.uid p) (drop_caps-Limited h level p) (λ p' l. record {
        user = l.uid_same;
        gid_same = l.gid_same;
        groups_same = l.groups_same;
        limited = l.limited;
      })
  drop_user-HasOnlyUser (some uname) p = user_known-HasOnlyUser uname (as_int (h.user uname)) p refl

  group_known-IsDropped :
      (uname : Option Str) (gname : Str) (id : Option ℕ) (p : Process)
      → as_int (h.group gname) ≡ id
      → Holds (IsDropped h level uname (some gname) p) (group_known h level uname id p)
  unfolding group_known set_group
  group_known-IsDropped uname gname none p e = tt
  group_known-IsDropped uname gname (some gid) p e =
      let H : Result → Type 0 = Holds (IsDropped h level uname (some gname) p) in
      let p1 : Process = record p { groups = gid ∷ []; gid = gid } in
      let found : h.group gname ≡ some gid = as_int-some (h.group gname) gid e in
      if-ind H (not h.can_setgroups) (λ _. tt)
        (λ _.
          if-ind H (not h.can_setgid) (λ _. tt)
            (λ _. Holds-map (drop_user h level uname p1) (drop_user-HasOnlyUser uname p1) (λ p' l.
              record {
                user = same_user uname gid p p' l.user;
                group = (
                  found ∙ ap some (sym l.gid_same),
                  l.groups_same ∙ ap (λ g. g ∷ []) (sym l.gid_same),
                );
                caps = l.limited;
              })))

  priv_drop-Holds :
      (uname gname : Option Str) (p : Process)
      → Holds (IsDropped h level uname gname p) (priv_drop h level uname gname p)
  unfolding priv_drop
  priv_drop-Holds uname none p =
      Holds-map (drop_user h level uname p) (drop_user-HasOnlyUser uname p)
        (λ p' l. record { user = l.user; group = (l.gid_same, l.groups_same); caps = l.limited })
  priv_drop-Holds uname (some gname) p =
      group_known-IsDropped uname gname (as_int (h.group gname)) p refl

  -- Where ngim_priv_drop returns 0: the process has the given user, and if that is not root it
  -- cannot become root again; it has the given group and no other one; what is not given stays as it
  -- was; and if the process is still root, it has only the capabilities of the level, unless that is
  -- the current one.
  pub priv_drop-IsDropped :
      (uname gname : Option Str) (p p' : Process)
      → priv_drop h level uname gname p ≡ dropped p'
      → IsDropped h level uname gname p p'
  priv_drop-IsDropped uname gname p p' e = rw e at (priv_drop-Holds uname gname p)
