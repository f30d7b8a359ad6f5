-- ===== src/Limiter/Steps.antt =====
-- What each step of main in srvctl/src/limiter.c leaves.
use ngim.Base.{
  ℕ, false, ◌≡◌, refl, ◌&&◌, ◌||◌, true, Option, some, [], ◌∷◌, has, ℤ, if-ind, Gives, Gives-some,
  Gives-none, arith,
}
use ngim.Cmdline.{Str}
use ngim.Priv.{Process, Result, dropped, failed, died, priv_current, priv_drop}
use ngim.Priv.Dropped.{IsDropped, priv_drop-IsDropped}
use ngim.Limiter.Given.{AfterResources, limit_resources-AfterResources}
use ngim.Limiter.Memory.{AfterMemory, limit_memory-AfterMemory}
use ngim.Limiter.{
  cmd_chroot, cmd_jail, cmd_limit_mem, cmd_priority, cmd_priv_group, cmd_priv_user, Arguments, Cage,
  jailed, chrooted, Confinement, System, validate_cmdline, clamp, set_priority, limit_priority,
  limit_resources, limit_jail, limit_chroot, privileges_dropped, limit_priv, priority_step,
  memory_step, cage_step, privileges_step,
}
use ngim.Limiter.Limits.{
  OnlyLimits, OnlyLimits-refl, limit_resources-OnlyLimits, limit_memory-OnlyLimits,
}
use ngim.Limiter.Priority.{IsPriority, IsNearest, clamp-IsPriority, clamp-IsNearest}

validate_cmdline_exclusive :
    (selected : ℕ)
    → validate_cmdline selected ≡ true
    → has selected cmd_chroot ≡ true
    → has selected cmd_jail ≡ true
    → ⊥
unfolding validate_cmdline
validate_cmdline_exclusive selected v c j = ground (arith, v, c, j)

module _ (s : System) (selected : ℕ) (args : Arguments) where
  abbrev pub HasPriority : Confinement → Type 0
  HasPriority c =
      has selected cmd_priority ≡ true
      → (num : ℤ) × ((z : ℤ) × ((s.strtoi args.priority ≡ (num, []))
            × ((c.priority ≡ some z) × (IsPriority s z × IsNearest s num z))))

  abbrev pub HasCage : Cage → Type 0
  HasCage cage =
      (has selected cmd_jail ≡ true → cage ≡ jailed args.jail args.jail_host args.jail_ip)
      × (has selected cmd_chroot ≡ true → cage ≡ chrooted args.chroot)

  abbrev pub HasUser : Process → Process → Type 0
  HasUser p p' =
      (has selected cmd_priv_group || has selected cmd_priv_user) ≡ true
      → IsDropped s.host priv_current args.priv_user args.priv_group p p'

  pub record AfterPriority (c c' : Confinement) : Type 0 where
    pub priority : HasPriority c'
    pub limits : c'.limits ≡ c.limits
    pub process : c'.process ≡ c.process

  set_priority-AfterPriority :
      (read : ℤ × Str) (c : Confinement)
      → s.strtoi args.priority ≡ read
      → Gives (AfterPriority c) (set_priority s read c)
  unfolding set_priority
  set_priority-AfterPriority (num, []) c e =
      if-ind (Gives (AfterPriority c)) s.can_setpriority
        (λ _.
          Gives-some (AfterPriority c) (record c { priority = some (clamp s num) })
            (record {
              priority = λ _. (
                num,
                (clamp s num, (e, (refl, (clamp-IsPriority s num, clamp-IsNearest s num)))),
              );
              limits = refl;
              process = refl;
            }))
        (λ _. Gives-none (AfterPriority c))
  set_priority-AfterPriority (num, d ∷ rest) c e = Gives-none (AfterPriority c)

  pub priority_step-AfterPriority :
      (c : Confinement) → Gives (AfterPriority c) (priority_step s selected args c)
  unfolding priority_step limit_priority
  priority_step-AfterPriority c =
      if-ind (Gives (AfterPriority c)) (has selected cmd_priority)
        (λ _. set_priority-AfterPriority (s.strtoi args.priority) c refl)
        (λ n.
          Gives-some (AfterPriority c) c (record {
            priority = λ t. let no : ⊥ = cc in absurd no;
            limits = refl;
            process = refl;
          }))

  -- What the memory limit does, and that it is all it does.
  unfoldable pub MemorySet : Confinement → Confinement → Type 0
  MemorySet c c' =
      OnlyLimits c c'
      × ((has selected cmd_limit_mem ≡ true → AfterMemory s s.memres args.limit_mem c c')
          × (has selected cmd_limit_mem ≡ false → (r : ℕ) → c'.limits r ≡ c.limits r))

  pub memory_step-MemorySet :
      (c : Confinement) → Gives (MemorySet c) (memory_step s selected args c)
  unfolding memory_step MemorySet
  memory_step-MemorySet c =
      if-ind (Gives (MemorySet c)) (has selected cmd_limit_mem)
        (λ t c' e. (
          limit_memory-OnlyLimits s s.memres args.limit_mem c c' e,
          (
            (λ _. limit_memory-AfterMemory s s.memres args.limit_mem c c' e),
            λ f. let no : ⊥ = cc in absurd no,
          ),
        ))
        (λ f.
          Gives-some (MemorySet c) c
            (OnlyLimits-refl c, ((λ t. let no : ⊥ = cc in absurd no), λ _ r. refl)))

  unfoldable pub ResourcesSet : Confinement → Confinement → Type 0
  ResourcesSet c c' = OnlyLimits c c' × AfterResources s s.nlimits 0 args.rlims c c'

  pub limit_resources-ResourcesSet :
      (c : Confinement) → Gives (ResourcesSet c) (limit_resources s s.nlimits 0 args.rlims c)
  unfolding ResourcesSet
  limit_resources-ResourcesSet c = λ c' e. (
    limit_resources-OnlyLimits s s.nlimits 0 args.rlims c c' e,
    limit_resources-AfterResources s s.nlimits 0 args.rlims c c' e,
  )

  pub record AfterCage (c c' : Confinement) : Type 0 where
    pub cage : HasCage c'.cage
    pub priority : c'.priority ≡ c.priority
    pub limits : c'.limits ≡ c.limits
    pub process : c'.process ≡ c.process

  pub cage_step-AfterCage :
      (c : Confinement)
      → validate_cmdline selected ≡ true
      → Gives (AfterCage c) (cage_step s selected args c)
  unfolding cage_step limit_jail limit_chroot
  cage_step-AfterCage c v =
      let A : Option Confinement → Type 0 = Gives (AfterCage c) in
      if-ind A (has selected cmd_jail)
        (λ j.
          if-ind A (s.is_address args.jail_ip && s.can_jail)
            (λ _.
              Gives-some (AfterCage c)
                (record c { cage = jailed args.jail args.jail_host args.jail_ip })
                (record {
                  cage = (λ _. refl, λ t. absurd (validate_cmdline_exclusive selected v t j));
                  priority = refl;
                  limits = refl;
                  process = refl;
                }))
            (λ _. Gives-none (AfterCage c)))
        (λ j.
          if-ind A (has selected cmd_chroot)
            (λ _.
              if-ind A (s.can_chroot && s.can_chdir)
                (λ _.
                  Gives-some (AfterCage c) (record c { cage = chrooted args.chroot })
                    (record {
                      cage = (λ t. let no : ⊥ = cc in absurd no, λ _. refl);
                      priority = refl;
                      limits = refl;
                      process = refl;
                    }))
                (λ _. Gives-none (AfterCage c)))
            (λ n. Gives-some (AfterCage c) c (record {
              cage = (λ t. let no : ⊥ = cc in absurd no, λ t. let no : ⊥ = cc in absurd no);
              priority = refl;
              limits = refl;
              process = refl;
            })))

  pub record AfterPrivileges (c c' : Confinement) : Type 0 where
    pub process : HasUser c.process c'.process
    pub priority : c'.priority ≡ c.priority
    pub limits : c'.limits ≡ c.limits
    pub cage : c'.cage ≡ c.cage

  privileges_dropped-AfterPrivileges :
      (r : Result) (c : Confinement)
      → priv_drop s.host priv_current args.priv_user args.priv_group c.process ≡ r
      → Gives (AfterPrivileges c) (privileges_dropped s r c)
  privileges_dropped-AfterPrivileges (dropped p) c e =
      Gives-some (AfterPrivileges c) (record c { process = p })
        (record {
          process = λ _.
              priv_drop-IsDropped s.host priv_current args.priv_user args.priv_group c.process p e;
          priority = refl;
          limits = refl;
          cage = refl;
        })
  privileges_dropped-AfterPrivileges (failed p) c e = Gives-none (AfterPrivileges c)
  privileges_dropped-AfterPrivileges (died p) c e = Gives-none (AfterPrivileges c)

  pub privileges_step-AfterPrivileges :
      (c : Confinement) → Gives (AfterPrivileges c) (privileges_step s selected args c)
  unfolding privileges_step limit_priv
  privileges_step-AfterPrivileges c =
      if-ind (Gives (AfterPrivileges c)) (has selected cmd_priv_group || has selected cmd_priv_user)
        (λ _.
          privileges_dropped-AfterPrivileges
            (priv_drop s.host priv_current args.priv_user args.priv_group c.process) c refl)
        (λ n. Gives-some (AfterPrivileges c) c (record {
          process = λ t. let no : ⊥ = cc in absurd no;
          priority = refl;
          limits = refl;
          cage = refl;
        }))
