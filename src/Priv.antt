-- ===== src/Priv.antt =====
-- libbase/lib/priv.c: dropping of privileges, as it is built with setgroups, capabilities and
-- prctl. What the system's calls do on success is part of the state; whether they succeed is an
-- answer.
pub mod Dropped
mod Examples
use ngim.Base.{
  ℕ, ◌^◌, Bool, true, false, Option, none, some, List, [], ◌∷◌, ◌&&◌, ◌||◌, not, ltb, leb, ◌==◌,
  if◌then◌else◌,
}
use ngim.Cmdline.{Str}

abbrev pub priv_current : ℕ
priv_current = 0

abbrev pub priv_none : ℕ
priv_none = 1

abbrev pub priv_netsrv : ℕ
priv_netsrv = 2

abbrev pub priv_srvctl : ℕ
priv_srvctl = 3

-- The credentials of the process; `caps` is the level whose capabilities it was limited to.
pub record Process : Type 0 where
  pub uid : ℕ
  pub gid : ℕ
  pub groups : List ℕ
  pub caps : ℕ

-- The databases of users and groups, and which calls succeed; `regains` is the call setuid(0) of a
-- process that has another user.
pub record Host : Type 0 where
  pub user : Str → Option ℕ
  pub group : Str → Option ℕ
  pub can_setgroups : Bool
  pub can_setgid : Bool
  pub can_setuid : Bool
  pub regains : Bool
  pub can_prctl : Bool
  pub can_init : Bool
  pub can_set_permitted : Bool
  pub can_set_effective : Bool
  pub can_set_proc : Bool

-- The return value 0, a negative one, or an error message that ends the program.
pub data Result : Type 0 where
  dropped : Process → Result
  failed : Process → Result
  died : Process → Result

-- priv_getuid and priv_getgid: a uint32_t returned as an int. `none` is a negative number.
unfoldable pub as_int : Option ℕ → Option ℕ
as_int none = none
as_int (some id) = if leb (2 ^ 31) (id) then none else some id

module _ (h : Host) where
  -- priv_cap_set_flag: whether it returns 0. No flags are set for NGIM_PRIV_NONE.
  abbrev pub set_flag : ℕ → Bool → Bool
  set_flag level can_set = level == priv_none || can_set

  -- priv_setcaps; the set of capabilities of a level is named by the level.
  unfoldable pub priv_setcaps : ℕ → Process → Result
  priv_setcaps level p =
      if level == priv_current
      then dropped p
      else if not (h.can_prctl && h.can_init)
      then failed p
      else if ltb priv_srvctl level
      then died p
      else if set_flag level h.can_set_permitted
          && (set_flag level h.can_set_effective && h.can_set_proc)
      then dropped (record p { caps = level })
      else failed p

  -- "Drop unneeded privileges if still running as root"
  unfoldable pub drop_caps : ℕ → ℕ → Process → Result
  unfolding priv_setcaps
  drop_caps level uid p = if uid == 0 then priv_setcaps level p else dropped p

  -- priv_setuid, and what comes after it.
  unfoldable pub set_user : ℕ → ℕ → Process → Result
  unfolding drop_caps
  set_user level uid p =
      if not h.can_setuid
      then failed p
      else if ltb 0 uid && h.regains
      then died (record p { uid = 0 })
      else drop_caps level uid (record p { uid = uid })

  unfoldable pub user_known : ℕ → Option ℕ → Process → Result
  unfolding set_user
  user_known level none p = failed p
  user_known level (some uid) p = set_user level uid p

  -- "Set user id"
  unfoldable pub drop_user : ℕ → Option Str → Process → Result
  unfolding user_known drop_caps as_int
  drop_user level none p = drop_caps level p.uid p
  drop_user level (some uname) p = user_known level (as_int (h.user uname)) p

  -- priv_setgid, and what comes after it.
  unfoldable pub set_group : ℕ → Option Str → ℕ → Process → Result
  unfolding drop_user
  set_group level uname gid p =
      if not h.can_setgroups
      then failed p
      else if not h.can_setgid
      then failed (record p { groups = gid ∷ [] })
      else drop_user level uname (record p { groups = gid ∷ []; gid = gid })

  unfoldable pub group_known : ℕ → Option Str → Option ℕ → Process → Result
  unfolding set_group
  group_known level uname none p = failed p
  group_known level uname (some gid) p = set_group level uname gid p

  -- ngim_priv_drop
  unfoldable pub priv_drop : ℕ → Option Str → Option Str → Process → Result
  unfolding group_known drop_user as_int
  priv_drop level uname none p = drop_user level uname p
  priv_drop level uname (some gname) p = group_known level uname (as_int (h.group gname)) p
