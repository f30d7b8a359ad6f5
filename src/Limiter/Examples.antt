-- ===== src/Limiter/Examples.antt =====
-- A run and a usage message of the limiter of srvctl/src/limiter.c on a small system.
use mathlib.Core.Option
use ngim.Base.{
  refl, ◌≡◌, true, false, none, some, List, [], ◌∷◌, ◌++◌, pos, ◌==◌, In, codes, if◌then◌else◌,
}
use ngim.Priv.{Host}
use ngim.Cmdline.{
  Str, Param, Parsed, after_params, parse_params, round, mark_param, find_param, str_eq, mark_arg,
  take_argument, refuse_extra, parse_left, parse_args,
}
use ngim.Limiter.{free, chrooted, Confinement, System}
use ngim.Limiter.Params.{Config, limiter_params}
use ngim.Limiter.Usage.{usage_message}
use ngim.Limiter.Kept.{usages}
use ngim.Limiter.Shown.{IsLong, AreApart, usage_message-AreApart}
use ngim.Limiter.Confined.{IsConfined}
use ngim.Limiter.Main.{limiter_parse, arguments_of, main}
use ngim.Limiter.Executed.{IsProgram, main-IsExecuted}

abbrev host : Host
host = record {
  user = λ s. some 1000;
  group = λ s. none;
  can_setgroups = true;
  can_setgid = true;
  can_setuid = true;
  regains = false;
  can_prctl = true;
  can_init = true;
  can_set_permitted = true;
  can_set_effective = true;
  can_set_proc = true;
}

-- Every number is 50.
abbrev system : System
system = record {
  strtoi = λ s. (pos 50, []);
  prio_min = 20;
  prio_max = 20;
  nlimits = 2;
  memres = 0 ∷ [];
  can_setpriority = true;
  can_getrlimit = λ r. true;
  can_setrlimit = λ r. true;
  is_address = λ s. true;
  can_jail = true;
  can_chroot = true;
  can_chdir = true;
  host = host;
}

abbrev started : Confinement
started = record {
  priority = none;
  limits = λ r. record { soft = 10; hard = 20 };
  cage = free;
  process = record { uid = 0; gid = 0; groups = []; caps = 0 };
}

abbrev executed_with : Confinement
executed_with = record {
  priority = some (pos 20);
  limits = λ r. if r == 1 then record { soft = 50; hard = 50 } else record { soft = 10; hard = 20 };
  cage = chrooted (b'/' ∷ b's' ∷ []);
  process = record { uid = 1000; gid = 0; groups = []; caps = 0 };
}

abbrev config : Config
config = record {
  has_chroot = true;
  has_jail = false;
  has_setpriority = true;
  has_rlimit = true;
  rlimit_as = none;
  rlimit_core = some 1;
  rlimit_cpu = none;
  rlimit_data = none;
  rlimit_fsize = none;
  rlimit_locks = none;
  rlimit_memlock = none;
  rlimit_msgqueue = none;
  rlimit_nofile = some 0;
  rlimit_nproc = none;
  rlimit_posixlocks = none;
  rlimit_ofile = some 0;
  rlimit_rss = none;
  rlimit_sbsize = none;
  rlimit_sigpending = none;
  rlimit_stack = none;
  rlimit_vmem = none;
}

abbrev program : List Str
program = codes "ls" ∷ codes "-l" ∷ []

abbrev argv : List Str
argv =
    codes "limiter"
    ∷ codes "--chroot"
    ∷ codes "/s"
    ∷ codes "-n"
    ∷ codes "50"
    ∷ codes "--rlimit-core"
    ∷ codes "=50"
    ∷ codes "-u"
    ∷ codes "w"
    ∷ program

-- --chroot, -n and -u, with a hard limit.
main-IsExecuted_example :
    IsProgram argv program
    × (let st : Parsed = (limiter_parse config argv).1 in
        IsConfined system st.selected (arguments_of st.vars) started executed_with)
unfolding main after_params parse_params round mark_param find_param str_eq mark_arg take_argument
    refuse_extra parse_left parse_args Option.bind
main-IsExecuted_example = main-IsExecuted config system started argv program executed_with refl

-- Two resources have one number here, so one of the two parameters is shown.
usage_message-AreApart_example :
    (shown : List Param) × ((usage_message (codes "limiter") (limiter_params config)
        ≡ ((codes "usage: " ++ (codes "limiter" ++ codes " --help | ")) ++ usages shown)
          ++ codes "program [arguments]")
      × (((p : Param) → In p shown → In p (limiter_params config) × IsLong p)
          × (AreApart shown
              × ((p : Param)
                  → In p (limiter_params config)
                  → IsLong p
                  → (q : Param) × (In q shown × (q.arg ≡ p.arg))))))
usage_message-AreApart_example = usage_message-AreApart (codes "limiter") (limiter_params config)
