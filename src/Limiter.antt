-- ===== src/Limiter.antt =====
-- srvctl/src/limiter.c: what the limiter does before it executes a program, as it is built with
-- priorities, limits, jail and chroot. An error message that ends it is `none`.
pub mod Limits
pub mod Given
pub mod Memory
pub mod Priority
pub mod Steps
pub mod Confined
pub mod Params
pub mod Usage
pub mod Main
pub mod Executed
pub mod Kept
pub mod Shown
mod Examples
use mathlib.Core.Option
use ngim.Base.{
  ℕ, zero, suc, ◌+◌, ◌==◌, ◌&&◌, ◌||◌, Bool, true, false, Option, none, some, List, [], ◌∷◌, ltb,
  has, not, ℤ, pos, negsuc, if◌then◌else◌,
}
use ngim.Cmdline.{Str, char_at, is_some}
use ngim.Priv.{Process, Host, Result, dropped, failed, died, priv_current, priv_drop}

abbrev pub cmd_help : ℕ
cmd_help = 1

abbrev pub cmd_chroot : ℕ
cmd_chroot = 2

abbrev pub cmd_jail : ℕ
cmd_jail = 4

abbrev pub cmd_jail_host : ℕ
cmd_jail_host = 8

abbrev pub cmd_jail_ip : ℕ
cmd_jail_ip = 16

abbrev pub cmd_limit_mem : ℕ
cmd_limit_mem = 32

abbrev pub cmd_priority : ℕ
cmd_priority = 64

abbrev pub cmd_priv_group : ℕ
cmd_priv_group = 128

abbrev pub cmd_priv_user : ℕ
cmd_priv_user = 256

-- The variables that ngim_cmdline_parse wrote. One whose parameter was given is set.
pub record Arguments : Type 0 where
  pub chroot : Str
  pub jail : Str
  pub jail_host : Str
  pub jail_ip : Str
  pub limit_mem : Str
  pub priority : Str
  pub priv_group : Option Str
  pub priv_user : Option Str
  pub rlims : ℕ → Option Str

-- The limits of a resource.
pub record Limit : Type 0 where
  pub soft : ℕ
  pub hard : ℕ

-- Where the program sees the file system.
pub data Cage : Type 0 where
  free : Cage
  jailed : (path host ip : Str) → Cage
  chrooted : Str → Cage

-- The attributes of the process; `priority` is what setpriority was called with.
pub record Confinement : Type 0 where
  pub priority : Option ℤ
  pub limits : ℕ → Limit
  pub cage : Cage
  pub process : Process

-- The system: apr_strtoi64, which gives the number and what follows it; PRIO_MIN without its sign,
-- PRIO_MAX, RLIM_NLIMITS and the resources of limit_memory; and which calls succeed.
pub record System : Type 0 where
  pub strtoi : Str → ℤ × Str
  pub prio_min : ℕ
  pub prio_max : ℕ
  pub nlimits : ℕ
  pub memres : List ℕ
  pub can_setpriority : Bool
  pub can_getrlimit : ℕ → Bool
  pub can_setrlimit : ℕ → Bool
  pub is_address : Str → Bool
  pub can_jail : Bool
  pub can_chroot : Bool
  pub can_chdir : Bool
  pub host : Host

-- validate_cmdline: whether it returns 0.
unfoldable pub validate_cmdline : ℕ → Bool
validate_cmdline selected =
    let any = has selected cmd_jail || (has selected cmd_jail_host || has selected cmd_jail_ip) in
    let all = has selected cmd_jail && (has selected cmd_jail_host && has selected cmd_jail_ip) in
    if has selected cmd_help
    then false
    else if has selected cmd_chroot && has selected cmd_jail
    then false
    else if any && not all
    then false
    else true

abbrev pub negate : ℕ → ℤ
negate zero = pos 0
negate (suc n) = negsuc n

module _ (s : System) where
  -- The number that limit_priority sets.
  unfoldable pub clamp : ℤ → ℤ
  clamp (pos n) = if ltb s.prio_max n then pos s.prio_max else pos n
  clamp (negsuc n) = if ltb s.prio_min (suc n) then negate s.prio_min else negsuc n

  -- limit_priority, with what apr_strtoi64 gives.
  unfoldable pub set_priority : ℤ × Str → Confinement → Option Confinement
  unfolding clamp
  set_priority (num, []) c =
      if s.can_setpriority then some (record c { priority = some (clamp num) }) else none
  set_priority (num, d ∷ rest) c = none

  -- limit_priority
  unfoldable pub limit_priority : Str → Confinement → Option Confinement
  unfolding set_priority
  limit_priority arg c = set_priority (s.strtoi arg) c

  -- "Set hard and soft limits", or "Set soft limit".
  unfoldable pub limited : Bool → ℕ → Limit → Limit
  limited set_hard num l =
      if set_hard
      then record { soft = num; hard = num }
      else if ltb l.hard num
      then record l { soft = l.hard }
      else record l { soft = num }

  -- setrlimit
  unfoldable pub set_limit : ℕ → Limit → Confinement → Option Confinement
  set_limit res l c =
      if s.can_setrlimit res
      then some (record c { limits = λ r. if r == res then l else c.limits r })
      else none

  -- do_limit, with what apr_strtoi64 gives.
  unfoldable pub limit_number : ℕ → Bool → ℤ × Str → Confinement → Option Confinement
  unfolding set_limit limited
  limit_number res set_hard (pos num, []) c = set_limit res (limited set_hard num (c.limits res)) c
  limit_number res set_hard (negsuc num, []) c = none
  limit_number res set_hard (num, d ∷ rest) c = none

  -- The argument after a sign of a hard limit.
  abbrev pub skip_sign : Str → Str
  skip_sign [] = []
  skip_sign (d ∷ arg) = if d == b'=' then arg else d ∷ arg

  -- do_limit
  unfoldable pub do_limit : ℕ → Str → Confinement → Option Confinement
  unfolding limit_number
  do_limit res arg c =
      if s.can_getrlimit res
      then limit_number res (char_at arg 0 == b'=') (s.strtoi (skip_sign arg)) c
      else none

  abbrev pub limit_given : ℕ → Option Str → Confinement → Option Confinement
  limit_given res none c = some c
  limit_given res (some arg) c = do_limit res arg c

  -- limit_resources, from the resource `i` on.
  unfoldable pub limit_resources : ℕ → ℕ → (ℕ → Option Str) → Confinement → Option Confinement
  unfolding do_limit
  limit_resources zero i rlims c = some c
  limit_resources (suc n) i rlims c =
      Option.bind (limit_given i (rlims i) c) (limit_resources n (i + 1) rlims)

  -- limit_memory
  unfoldable pub limit_memory : List ℕ → Str → Confinement → Option Confinement
  unfolding do_limit
  limit_memory [] arg c = some c
  limit_memory (res ∷ memres) arg c = Option.bind (do_limit res arg c) (limit_memory memres arg)

  -- limit_jail
  unfoldable pub limit_jail : Arguments → Confinement → Option Confinement
  limit_jail args c =
      if s.is_address args.jail_ip && s.can_jail
      then some (record c { cage = jailed args.jail args.jail_host args.jail_ip })
      else none

  -- limit_chroot
  unfoldable pub limit_chroot : Arguments → Confinement → Option Confinement
  limit_chroot args c =
      if s.can_chroot && s.can_chdir then some (record c { cage = chrooted args.chroot }) else none

  -- limit_priv, with the result of ngim_priv_drop.
  abbrev pub privileges_dropped : Result → Confinement → Option Confinement
  privileges_dropped (dropped p) c = some (record c { process = p })
  privileges_dropped (failed p) c = none
  privileges_dropped (died p) c = none

  -- limit_priv
  unfoldable pub limit_priv : Arguments → Confinement → Option Confinement
  unfolding priv_drop
  limit_priv args c =
      privileges_dropped (priv_drop s.host priv_current args.priv_user args.priv_group c.process) c

  -- The steps of main after the command line was validated.
  unfoldable pub priority_step : ℕ → Arguments → Confinement → Option Confinement
  unfolding limit_priority
  priority_step selected args c =
      if has selected cmd_priority then limit_priority args.priority c else some c

  unfoldable pub memory_step : ℕ → Arguments → Confinement → Option Confinement
  unfolding limit_memory
  memory_step selected args c =
      if has selected cmd_limit_mem then limit_memory s.memres args.limit_mem c else some c

  unfoldable pub cage_step : ℕ → Arguments → Confinement → Option Confinement
  unfolding limit_jail limit_chroot
  cage_step selected args c =
      if has selected cmd_jail
      then limit_jail args c
      else if has selected cmd_chroot
      then limit_chroot args c
      else some c

  unfoldable pub privileges_step : ℕ → Arguments → Confinement → Option Confinement
  unfolding limit_priv
  privileges_step selected args c =
      if has selected cmd_priv_group || has selected cmd_priv_user
      then limit_priv args c
      else some c

  -- What main does between the validation and execvp.
  unfoldable pub confine : ℕ → Arguments → Confinement → Option Confinement
  unfolding priority_step memory_step limit_resources cage_step privileges_step
  confine selected args c = Option.bind (priority_step selected args c) (λ c1.
      Option.bind (memory_step selected args c1) (λ c2.
        Option.bind (limit_resources s.nlimits 0 args.rlims c2)
          (λ c3. Option.bind (cage_step selected args c3) (privileges_step selected args))))
