-- ===== src/Limiter/Params.antt =====
-- The parameters of the command line of srvctl/src/limiter.c, as the system has them.
use ngim.Base.{ℕ, ◌+◌, Bool, Option, none, some, List, [], ◌∷◌, ◌++◌, codes, if◌then◌else◌}
use ngim.Cmdline.{Str, Param}
use ngim.Limiter.{
  cmd_help, cmd_chroot, cmd_jail, cmd_jail_host, cmd_jail_ip, cmd_limit_mem, cmd_priority,
  cmd_priv_group, cmd_priv_user,
}

-- What the build found: chroot, jail, setpriority, and the limits with the numbers of the resources
-- that the system defines.
pub record Config : Type 0 where
  pub has_chroot : Bool
  pub has_jail : Bool
  pub has_setpriority : Bool
  pub has_rlimit : Bool
  pub rlimit_as : Option ℕ
  pub rlimit_core : Option ℕ
  pub rlimit_cpu : Option ℕ
  pub rlimit_data : Option ℕ
  pub rlimit_fsize : Option ℕ
  pub rlimit_locks : Option ℕ
  pub rlimit_memlock : Option ℕ
  pub rlimit_msgqueue : Option ℕ
  pub rlimit_nofile : Option ℕ
  pub rlimit_nproc : Option ℕ
  pub rlimit_posixlocks : Option ℕ
  pub rlimit_ofile : Option ℕ
  pub rlimit_rss : Option ℕ
  pub rlimit_sbsize : Option ℕ
  pub rlimit_sigpending : Option ℕ
  pub rlimit_stack : Option ℕ
  pub rlimit_vmem : Option ℕ

abbrev pub cmd_rlim_as : ℕ
cmd_rlim_as = 512

abbrev pub cmd_rlim_core : ℕ
cmd_rlim_core = 1024

abbrev pub cmd_rlim_cpu : ℕ
cmd_rlim_cpu = 2048

abbrev pub cmd_rlim_data : ℕ
cmd_rlim_data = 4096

abbrev pub cmd_rlim_fsize : ℕ
cmd_rlim_fsize = 8192

abbrev pub cmd_rlim_locks : ℕ
cmd_rlim_locks = 16384

abbrev pub cmd_rlim_memlock : ℕ
cmd_rlim_memlock = 32768

abbrev pub cmd_rlim_msgqueue : ℕ
cmd_rlim_msgqueue = 65536

abbrev pub cmd_rlim_nofile : ℕ
cmd_rlim_nofile = 131072

abbrev pub cmd_rlim_nproc : ℕ
cmd_rlim_nproc = 262144

abbrev pub cmd_rlim_ofile : ℕ
cmd_rlim_ofile = 524288

abbrev pub cmd_rlim_posixlocks : ℕ
cmd_rlim_posixlocks = 1048576

abbrev pub cmd_rlim_rss : ℕ
cmd_rlim_rss = 2097152

abbrev pub cmd_rlim_sbsize : ℕ
cmd_rlim_sbsize = 4194304

abbrev pub cmd_rlim_sigpending : ℕ
cmd_rlim_sigpending = 8388608

abbrev pub cmd_rlim_stack : ℕ
cmd_rlim_stack = 16777216

abbrev pub cmd_rlim_vmem : ℕ
cmd_rlim_vmem = 33554432

abbrev pub arg_chroot : ℕ
arg_chroot = 0

abbrev pub arg_jail : ℕ
arg_jail = 1

abbrev pub arg_jail_host : ℕ
arg_jail_host = 2

abbrev pub arg_jail_ip : ℕ
arg_jail_ip = 3

abbrev pub arg_limit_mem : ℕ
arg_limit_mem = 4

abbrev pub arg_priority : ℕ
arg_priority = 5

abbrev pub arg_priv_group : ℕ
arg_priv_group = 6

abbrev pub arg_priv_user : ℕ
arg_priv_user = 7

-- The variables `arg_rlims[i]` come after the others.
abbrev pub arg_rlims : ℕ → ℕ
arg_rlims i = 8 + i

abbrev flag : Str → ℕ → Param
flag name cmd = record { name = name; cmd = cmd; arg = none }

abbrev param : Str → ℕ → ℕ → Param
param name cmd arg = record { name = name; cmd = cmd; arg = some arg }

-- An `#ifdef` of a feature, and of the number of a resource.
abbrev if_built : Bool → List Param → List Param
if_built built params = if built then params else []

-- The parameters of these names, which set the limit of the resource.
abbrev rlimit_names : ℕ → ℕ → List Str → List Param
rlimit_names i cmd [] = []
rlimit_names i cmd (name ∷ names) = param name cmd (arg_rlims i) ∷ rlimit_names i cmd names

abbrev if_defined : Option ℕ → ℕ → List Str → List Param
if_defined none cmd names = []
if_defined (some i) cmd names = rlimit_names i cmd names

unfoldable join : List (List Param) → List Param
join [] = []
join (params ∷ rest) = params ++ join rest

unfoldable rlimit_params : Config → List Param
unfolding join
rlimit_params c = join (
    (param (codes "--limit-mem") cmd_limit_mem arg_limit_mem
      ∷ param (codes "-m") cmd_limit_mem arg_limit_mem
      ∷ [])
    ∷ if_defined c.rlimit_as cmd_rlim_as (codes "--rlimit-as" ∷ [])
    ∷ if_defined c.rlimit_core cmd_rlim_core (codes "--rlimit-core" ∷ codes "-c" ∷ [])
    ∷ if_defined c.rlimit_cpu cmd_rlim_cpu (codes "--rlimit-cpu" ∷ [])
    ∷ if_defined c.rlimit_data cmd_rlim_data (codes "--rlimit-data" ∷ [])
    ∷ if_defined c.rlimit_fsize cmd_rlim_fsize (codes "--rlimit-fsize" ∷ [])
    ∷ if_defined c.rlimit_locks cmd_rlim_locks (codes "--rlimit-locks" ∷ [])
    ∷ if_defined c.rlimit_memlock cmd_rlim_memlock (codes "--rlimit-memlock" ∷ [])
    ∷ if_defined c.rlimit_msgqueue cmd_rlim_msgqueue (codes "--rlimit-msgqueue" ∷ [])
    ∷ if_defined c.rlimit_nofile cmd_rlim_nofile (codes "--rlimit-nofile" ∷ [])
    ∷ if_defined c.rlimit_nproc cmd_rlim_nproc (codes "--rlimit-nproc" ∷ codes "-p" ∷ [])
    ∷ if_defined c.rlimit_posixlocks cmd_rlim_posixlocks (codes "--rlimit-posixlocks" ∷ [])
    ∷ if_defined c.rlimit_ofile cmd_rlim_ofile (codes "--rlimit-ofile" ∷ [])
    ∷ if_defined c.rlimit_rss cmd_rlim_rss (codes "--rlimit-rss" ∷ [])
    ∷ if_defined c.rlimit_sbsize cmd_rlim_sbsize (codes "--rlimit-sbsize" ∷ [])
    ∷ if_defined c.rlimit_sigpending cmd_rlim_sigpending (codes "--rlimit-sigpending" ∷ [])
    ∷ if_defined c.rlimit_stack cmd_rlim_stack (codes "--rlimit-stack" ∷ [])
    ∷ if_defined c.rlimit_vmem cmd_rlim_vmem (codes "--rlimit-vmem" ∷ [])
    ∷ [])

-- limiter_params
unfoldable pub limiter_params : Config → List Param
unfolding join rlimit_params
limiter_params c = join (
    (flag (codes "--help") cmd_help ∷ flag (codes "-h") cmd_help ∷ [])
    ∷ if_built c.has_chroot (param (codes "--chroot") cmd_chroot arg_chroot ∷ [])
    ∷ if_built c.has_jail (
        param (codes "--jail") cmd_jail arg_jail
        ∷ param (codes "--jail-host") cmd_jail_host arg_jail_host
        ∷ param (codes "--jail-ip") cmd_jail_ip arg_jail_ip
        ∷ [])
    ∷ if_built c.has_setpriority (
        param (codes "--priority") cmd_priority arg_priority
        ∷ param (codes "-n") cmd_priority arg_priority
        ∷ [])
    ∷ (param (codes "--group") cmd_priv_group arg_priv_group
        ∷ param (codes "-g") cmd_priv_group arg_priv_group
        ∷ param (codes "--user") cmd_priv_user arg_priv_user
        ∷ param (codes "-u") cmd_priv_user arg_priv_user
        ∷ [])
    ∷ if_built c.has_rlimit (rlimit_params c)
    ∷ [])

-- limiter_args: no arguments, so the program begins at the first one.
abbrev pub limiter_args : List ℕ
limiter_args = []
